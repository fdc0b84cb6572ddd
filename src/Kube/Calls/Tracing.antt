-- ===== src/Kube/Calls/Tracing.antt =====
-- What an action calls, one rule for each way to build an action.
use quarks_statefulset.Prelude.{
  ◌≡◌, refl, Bool, true, false, [], ◌∷◌, ◌++◌, Outcome, ok, err, panic, Error, All, All-append,
  String, if◌then◌else◌,
}
use mathlib.Core.List.{append_assoc}
use quarks_statefulset.Kube.Calls.Bind.{
  Call, History, Exec, pure, fail, crash, lift, ask, ask_with, annotate, rescue, ◌>>=◌, when_ok,
  either_way, on_result, wrap_answer, handle_answer,
}

-- `h'` is `h` with calls put in front that all satisfy `P`.
pub record Extends (P : Call → Type 0) (h h' : History) : Type 0 where
  pub calls : History
  pub extended : h' ≡ calls ++ h
  pub every : All P calls

-- Whatever the action returns, each call that it makes satisfies `P`.
pub record Emits {A : Type 0} (P : Call → Type 0) (m : Exec A) : Type 0 where
  pub at : (h : History) → Extends P h (m h).1

Extends-refl : (P : Call → Type 0) (h : History) → Extends P h h
Extends-refl P h = record { calls = []; extended = refl; every = tt }

pub Extends-trans :
    {P : Call → Type 0} {a b c : History} → Extends P a b → Extends P b c → Extends P a c
Extends-trans {P} {a} x y = record {
  calls = y.calls ++ x.calls;
  extended = rw (y.extended, x.extended, append_assoc);
  every = All-append P y.calls x.calls y.every x.every;
}

pub Extends-cons :
    {P : Call → Type 0} (c : Call) {h h' : History} → P c → Extends P (c ∷ h) h' → Extends P h h'
Extends-cons c p x = Extends-trans (record { calls = c ∷ []; extended = refl; every = (p, tt) }) x

All-weaken :
    {P P' : Call → Type 0} (calls : History)
    → ((c : Call) → P c → P' c)
    → All P calls
    → All P' calls
All-weaken [] f h = tt
All-weaken (c ∷ calls) f (hc, h) = (f c hc, All-weaken calls f h)

pub Emits-weaken :
    {A : Type 0} {P P' : Call → Type 0} (m : Exec A)
    → ((c : Call) → P c → P' c)
    → Emits P m
    → Emits P' m
Emits-weaken m f k = record {
  at = λ h.
      let x = k.at h in
      record { calls = x.calls; extended = x.extended; every = All-weaken x.calls f x.every };
}

module _ {A : Type 0} {P : Call → Type 0} where
  pub Emits-pure : (a : A) → Emits P (pure a)
  unfolding ◌>>=◌
  Emits-pure a = record { at = λ h. Extends-refl P h }

  pub Emits-fail : (e : Error) → Emits P (fail {A = A} e)
  unfolding ◌>>=◌
  Emits-fail e = record { at = λ h. Extends-refl P h }

  pub Emits-crash : Emits P (crash {A = A})
  unfolding ◌>>=◌
  Emits-crash = record { at = λ h. Extends-refl P h }

  pub Emits-lift : (o : Outcome A) → Emits P (lift o)
  unfolding ◌>>=◌
  Emits-lift o = record { at = λ h. Extends-refl P h }

  pub Emits-ask : (c : Call) (answer : History → Outcome A) → P c → Emits P (ask c answer)
  unfolding ◌>>=◌
  Emits-ask c answer p = record {
    at = λ h. record { calls = c ∷ []; extended = refl; every = (p, tt) };
  }

  pub Emits-ask_with :
      (c : Outcome A → Call) (answer : History → Outcome A)
      → ((h : History) → P (c (answer h)))
      → Emits P (ask_with c answer)
  unfolding ◌>>=◌
  Emits-ask_with c answer p = record {
    at = λ h. record { calls = c (answer h) ∷ []; extended = refl; every = (p h, tt) };
  }

  pub Emits-if :
      (b : Bool) (m n : Exec A)
      → (b ≡ true → Emits P m)
      → (b ≡ false → Emits P n)
      → Emits P (if b then m else n)
  Emits-if true m n km kn = km refl
  Emits-if false m n km kn = kn refl

  handle-Extends :
      (r : Outcome A × History) (f : Error → Exec A) {h : History}
      → Extends P h r.1
      → ((e : Error) → Emits P (f e))
      → Extends P h (handle_answer r f).1
  handle-Extends (ok a, h') f x k = x
  handle-Extends (err e, h') f x k = Extends-trans x ((k e).at h')
  handle-Extends (panic, h') f x k = x

  pub Emits-rescue :
      (m : Exec A) (f : Error → Exec A)
      → Emits P m
      → ((e : Error) → Emits P (f e))
      → Emits P (rescue m f)
  unfolding ◌>>=◌
  Emits-rescue m f km kf = record { at = λ h. handle-Extends (m h) f (km.at h) kf }

module _ {A B : Type 0} {P : Call → Type 0} where
  when-Extends :
      (r : Outcome A × History) (f : A → Exec B) {h : History}
      → Extends P h r.1
      → ((a : A) → Emits P (f a))
      → Extends P h (when_ok r f).1
  when-Extends (ok a, h') f x k = Extends-trans x ((k a).at h')
  when-Extends (err e, h') f x k = x
  when-Extends (panic, h') f x k = x

  pub Emits-bind :
      (m : Exec A) (f : A → Exec B) → Emits P m → ((a : A) → Emits P (f a)) → Emits P (m >>= f)
  unfolding ◌>>=◌
  Emits-bind m f km kf = record { at = λ h. when-Extends (m h) f (km.at h) kf }

module _ {A B : Type 0} {P : Call → Type 0} where
  either-Extends :
      (r : Outcome A × History) (f : A → Exec B) (g : Error → Exec B) {h : History}
      → Extends P h r.1
      → ((a : A) → Emits P (f a))
      → ((e : Error) → Emits P (g e))
      → Extends P h (either_way r f g).1
  either-Extends (ok a, h') f g x kf kg = Extends-trans x ((kf a).at h')
  either-Extends (err e, h') f g x kf kg = Extends-trans x ((kg e).at h')
  either-Extends (panic, h') f g x kf kg = x

  pub Emits-on_result :
      (m : Exec A) (f : A → Exec B) (g : Error → Exec B)
      → Emits P m
      → ((a : A) → Emits P (f a))
      → ((e : Error) → Emits P (g e))
      → Emits P (on_result m f g)
  unfolding ◌>>=◌
  Emits-on_result m f g km kf kg = record { at = λ h. either-Extends (m h) f g (km.at h) kf kg }

module _ {A : Type 0} {P : Call → Type 0} where
  annotate-Extends :
      (text : String) (r : Outcome A × History) {h : History}
      → Extends P h r.1
      → Extends P h (wrap_answer text r).1
  annotate-Extends text (ok a, h') x = x
  annotate-Extends text (err e, h') x = x
  annotate-Extends text (panic, h') x = x

  pub Emits-annotate : (text : String) (m : Exec A) → Emits P m → Emits P (annotate text m)
  unfolding ◌>>=◌
  Emits-annotate text m km = record { at = λ h. annotate-Extends text (m h) (km.at h) }

pub ruleset emits_rules = (
  Emits-pure, Emits-fail, Emits-crash, Emits-lift, Emits-ask, Emits-ask_with, Emits-if,
  Emits-rescue, Emits-bind, Emits-on_result, Emits-annotate,
)
