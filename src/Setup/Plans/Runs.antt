-- ===== src/Setup/Plans/Runs.antt =====
-- How a run of a plan ends.
use quarks_statefulset.Prelude.{
  String, List, [], ◌∷◌, ◌++◌, map, ◌≡◌, ◌≢◌, refl, ap, sym, ◌∙◌, Outcome, ok, err, panic, Bool,
  true, false, not, ◌&&◌, All, ◌⊎◌, inl, inr, arith,
}
use quarks_statefulset.Setup.Plans.{
  Step, checked, plain, SetupCall, call_of, run, after_answer, then_run, within,
}

-- Whether the function that is called returns an error; the one that registers a handler does not.
abbrev pub can_fail : SetupCall → Bool
can_fail (SetupCall.register path) = false
can_fail _ = true

-- A call that succeeded, or has no error to return.
abbrev pub IsGood : (SetupCall → Outcome (Unit {0})) → SetupCall → Type 0
IsGood answer c = (can_fail c ≡ false) ⊎ (answer c ≡ ok tt)

-- No call that can fail goes unchecked.
abbrev pub are_checked : List Step → Bool
are_checked [] = true
are_checked (checked c texts ∷ steps) = are_checked steps
are_checked (plain c ∷ steps) = not (can_fail c) && are_checked steps

-- Either all calls were made and were good, and the set-up succeeded, or some were made and good, the
-- next one failed, and so did the set-up, and the others were not made.
pub data Ran (answer : SetupCall → Outcome (Unit {0}))
    : List SetupCall → Outcome (Unit {0}) × List SetupCall → Type 0 where
  complete : {calls : List SetupCall} → All (IsGood answer) calls → Ran answer calls (ok tt, calls)
  stopped :
      (before after : List SetupCall) (last : SetupCall) {result : Outcome (Unit {0})}
      → All (IsGood answer) before
      → result ≢ ok tt
      → answer last ≢ ok tt
      → Ran answer (before ++ last ∷ after) (result, before ++ last ∷ [])

-- A message round the errors of a plan changes none of its calls.
pub call_of-within :
    (text : String) (steps : List Step) → map call_of (within text steps) ≡ map call_of steps
unfolding within
call_of-within text [] = refl
call_of-within text (checked c texts ∷ steps) = ap (λ calls. c ∷ calls) (call_of-within text steps)
call_of-within text (plain c ∷ steps) = ap (λ calls. c ∷ calls) (call_of-within text steps)

pub are_checked-within :
    (text : String) (steps : List Step) → are_checked (within text steps) ≡ are_checked steps
unfolding within
are_checked-within text [] = refl
are_checked-within text (checked c texts ∷ steps) = are_checked-within text steps
are_checked-within text (plain c ∷ steps) =
    ap (λ b. not (can_fail c) && b) (are_checked-within text steps)

pub are_checked-append : (a b : List Step) → are_checked (a ++ b) ≡ (are_checked a && are_checked b)
are_checked-append [] b = refl
are_checked-append (checked c texts ∷ a) b = are_checked-append a b
are_checked-append (plain c ∷ a) b = ground (arith, are_checked-append a b)

module _ (answer : SetupCall → Outcome (Unit {0})) where
  Ran-cons :
      (c : SetupCall) (calls : List SetupCall) (r : Outcome (Unit {0}) × List SetupCall)
      → IsGood answer c
      → Ran answer calls r
      → Ran answer (c ∷ calls) (r.0, c ∷ r.1)
  Ran-cons c calls _ good (complete all) = complete (good, all)
  Ran-cons c _ _ good (stopped before after last all n m) =
      stopped (c ∷ before) after last (good, all) n m

  after_answer-Ran :
      (texts : List String) (c : SetupCall) (calls : List SetupCall) (o : Outcome (Unit {0}))
      → answer c ≡ o
      → (r : Outcome (Unit {0}) × List SetupCall) → Ran answer calls r
      → Ran answer (c ∷ calls) (after_answer texts c o r)
  unfolding after_answer
  after_answer-Ran texts c calls (ok tt) e r ran = Ran-cons c calls r (inr e) ran
  after_answer-Ran texts c calls (err x) e r ran =
      stopped [] calls c tt (λ p. cc p) (λ p. cc (p, e))
  after_answer-Ran texts c calls panic e r ran = stopped [] calls c tt (λ p. cc p) (λ p. cc (p, e))

  pub run-Ran :
      (steps : List Step)
      → are_checked steps ≡ true
      → Ran answer (map call_of steps) (run answer steps)
  unfolding run
  run-Ran [] e = complete tt
  run-Ran (plain c ∷ steps) e =
      Ran-cons c _ _ (inl (unable (can_fail c) e)) (run-Ran steps (rest (can_fail c) e))
    where
      unable : (b : Bool) → (not b && are_checked steps) ≡ true → b ≡ false
      unable b h = ground (arith, h)

      rest : (b : Bool) → (not b && are_checked steps) ≡ true → are_checked steps ≡ true
      rest b h = ground (arith, h)
  run-Ran (checked c texts ∷ steps) e =
      after_answer-Ran texts c _ (answer c) refl _ (run-Ran steps e)

  then_run-after :
      (texts : List String) (c : SetupCall) (o : Outcome (Unit {0}))
      (r s : Outcome (Unit {0}) × List SetupCall)
      → after_answer texts c o (then_run r s) ≡ then_run (after_answer texts c o r) s
  unfolding after_answer then_run
  then_run-after texts c (ok t) (ok u, calls) s = refl
  then_run-after texts c (ok t) (err e, calls) s = refl
  then_run-after texts c (ok t) (panic, calls) s = refl
  then_run-after texts c (err e) r s = refl
  then_run-after texts c panic r s = refl

  then_run-plain :
      (c : SetupCall) (r s : Outcome (Unit {0}) × List SetupCall)
      → then_run (r.0, c ∷ r.1) s ≡ ((then_run r s).0, c ∷ (then_run r s).1)
  unfolding then_run
  then_run-plain c (ok t, calls) s = refl
  then_run-plain c (err e, calls) s = refl
  then_run-plain c (panic, calls) s = refl

  pub run-append : (a b : List Step) → run answer (a ++ b) ≡ then_run (run answer a) (run answer b)
  unfolding run then_run
  run-append [] b = refl
  run-append (plain c ∷ a) b =
      ap (λ r. (r.0, c ∷ r.1)) (run-append a b)
      ∙ sym (then_run-plain c (run answer a) (run answer b))
  run-append (checked c texts ∷ a) b =
      ap (after_answer texts c (answer c)) (run-append a b)
      ∙ then_run-after texts c (answer c) (run answer a) (run answer b)
