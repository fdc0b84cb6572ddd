-- ===== src/Quarks/Reconcile/Creates.antt =====
-- Which StatefulSets a reconcile hands to CreateOrUpdate.
use quarks_statefulset.Prelude.{
  String, List, [], ◌∷◌, ◌++◌, All, false, some, ℤ, ◌≡◌, refl, sym, ap, ◌∙◌, subst, Outcome, ok,
  err, panic, wrap_outcome,
}
use mathlib.Core.List.{append_assoc, append-nil}
use quarks_statefulset.Kube.Types.{Key, StatefulSet, QuarksStatefulSet, ObjectMeta, Result}
use quarks_statefulset.Kube.Calls.{
  Call, History, Exec, ◌>>=◌, pure, ask_with, annotate, when_ok, wrap_answer, Emits, Emits-annotate,
  Emits-lift, Emits-ask, Returns, Returns-annotate, Returns-lift, Returns-any,
}
use quarks_statefulset.Kube.Env.{Env, UnitesMaps}
use quarks_statefulset.Kube.Client.{create_or_update, set_secret_references, read_clock}
use quarks_statefulset.Quarks.Desired.Fresh.{
  IsDesired, calculate_desired_statefulsets-IsDesired, Emits-calculate_desired_statefulsets,
}
use quarks_statefulset.Quarks.Reconcile.{
  create_statefulset, create_all, unless_in_meltdown, reconcile_updated, reconcile_skip_duration,
  after_creation,
}

abbrev written_by : Call → List StatefulSet
written_by (Call.create_or_update s answer) = s ∷ []
written_by _ = []

-- The StatefulSets handed to CreateOrUpdate in a history, the last in front.
abbrev pub creations : History → List StatefulSet
creations [] = []
creations (c ∷ h) = written_by c ++ creations h

-- An action that, when it returns, has handed over StatefulSets such as the predicate says.
pub record Makes {A : Type 0} (Q : A → List StatefulSet → Type 0) (m : Exec A) : Type 0 where
  pub at :
      (h : History) (a : A)
      → (m h).0 ≡ ok a
      → (made : List StatefulSet) × Q a made × (creations (m h).1 ≡ made ++ creations h)

abbrev IsQuiet : Call → Type 0
IsQuiet c = written_by c ≡ []

added : (calls h : History) → All IsQuiet calls → creations (calls ++ h) ≡ creations h
added [] h every = refl
added (c ∷ calls) h (e, every) = rw (e, added calls h every)

module _ {A : Type 0} where
  Makes-quiet :
      {P : A → Type 0} (m : Exec A)
      → Emits IsQuiet m
      → Returns P m
      → Makes (λ a made. P a × (made ≡ [])) m
  Makes-quiet m quiet returns = record {
    at = λ h a e.
        let x = quiet.at h in
        ([], (returns.post h a e, refl), ap creations x.extended ∙ added x.calls h x.every);
  }

  Makes-pure : {Q : A → List StatefulSet → Type 0} (a : A) → Q a [] → Makes Q (pure a)
  unfolding ◌>>=◌
  Makes-pure {Q} a q = record { at = λ h b e. ([], subst (λ x. Q x []) (ok_same e) q, refl) }
    where
      ok_same : {b : A} → ok a ≡ ok b → a ≡ b
      ok_same e = cc e

  Makes-ask_with :
      {Q : List StatefulSet → Type 0} (owned : StatefulSet) (c : Outcome A → Call)
      (answer : History → Outcome A)
      → ((o : Outcome A) → written_by (c o) ≡ owned ∷ [])
      → Q (owned ∷ [])
      → Makes (λ left one. Q one) (ask_with c answer)
  unfolding ◌>>=◌
  Makes-ask_with owned c answer writes q = record {
    at = λ h left done. (owned ∷ [], q, ap (λ l. l ++ creations h) (writes (answer h)));
  }

  annotated :
      (Q : A → List StatefulSet → Type 0) (text : String) (r : Outcome A × History) (h : History)
      → ((a : A)
          → r.0 ≡ ok a
          → (made : List StatefulSet) × Q a made × (creations r.1 ≡ made ++ creations h))
      → (b : A) → (wrap_answer text r).0 ≡ ok b
      → (made : List StatefulSet) × Q b made
        × (creations (wrap_answer text r).1 ≡ made ++ creations h)
  annotated Q text (ok a, g) h k b e = k b e
  annotated Q text (err x, g) h k b e = cc e
  annotated Q text (panic, g) h k b e = cc e

  Makes-annotate :
      {Q : A → List StatefulSet → Type 0} (text : String) (m : Exec A)
      → Makes Q m
      → Makes Q (annotate text m)
  unfolding ◌>>=◌
  Makes-annotate {Q} text m k = record { at = λ h. annotated Q text (m h) h (k.at h) }

module _ {A B : Type 0} (Q : A → List StatefulSet → Type 0)
    (R : B → List StatefulSet → Type 0) where
  bound :
      (r : Outcome A × History) (f : A → Exec B) (h : History)
      → ((a : A)
          → r.0 ≡ ok a
          → (made : List StatefulSet) × Q a made × (creations r.1 ≡ made ++ creations h))
      → ((a : A) (made : List StatefulSet) → Q a made → Makes (λ b more. R b (more ++ made)) (f a))
      → (b : B) → (when_ok r f).0 ≡ ok b
      → (made : List StatefulSet) × R b made × (creations (when_ok r f).1 ≡ made ++ creations h)
  bound (ok a, g) f h first rest b e =
      let (made, q, was) = first a refl in
      let (more, r, is) = (rest a made q).at g b e in
      (more ++ made, r, is ∙ ap (λ l. more ++ l) was ∙ sym (append_assoc more made (creations h)))
  bound (err x, g) f h first rest b e = cc e
  bound (panic, g) f h first rest b e = cc e

  Makes-bind :
      (m : Exec A) (f : A → Exec B)
      → Makes Q m
      → ((a : A) (made : List StatefulSet) → Q a made → Makes (λ b more. R b (more ++ made)) (f a))
      → Makes R (m >>= f)
  unfolding ◌>>=◌
  Makes-bind m f first rest = record { at = λ h b e. bound (m h) f h (first.at h) rest b e }

unwrapped :
    (text : String) (o : Outcome StatefulSet) (owned : StatefulSet)
    → wrap_outcome text o ≡ ok owned
    → o ≡ ok owned
unwrapped text (ok s) owned e = e
unwrapped text (err x) owned e = cc e
unwrapped text panic owned e = cc e

-- The StatefulSets handed over, the last in front, are the desired ones, in order, each with its owner.
pub data EachOwned (env : Env) (owner : ObjectMeta)
    : List StatefulSet → List StatefulSet → Type 0 where
  none_left : EachOwned env owner [] []
  and_then :
      {s owned : StatefulSet} {ss made : List StatefulSet}
      → env.reference_set owner s ≡ ok owned
      → EachOwned env owner ss made
      → EachOwned env owner (s ∷ ss) (made ++ owned ∷ [])

module _ (env : Env) where
  abbrev IsMade : ObjectMeta → StatefulSet → StatefulSet → List StatefulSet → Type 0
  IsMade owner s left made =
      (owned : StatefulSet) × (env.reference_set owner s ≡ ok owned) × (made ≡ owned ∷ [])

  Makes-create_statefulset :
      (q : QuarksStatefulSet) (s : StatefulSet)
      → Makes (IsMade q.meta s) (create_statefulset env q s)
  unfolding create_statefulset create_or_update
  Makes-create_statefulset q s =
      Makes-bind (λ owned made. (env.reference_set q.meta s ≡ ok owned) × (made ≡ [])) _ _ _
        (Makes-quiet _ (Emits-lift _) (Returns-lift _ λ owned e. unwrapped _ _ owned e))
        λ owned made (e, none_yet).
          Makes-annotate _ _ (Makes-ask_with owned _ _ (λ o. refl) (owned, e, rw none_yet refl))

  create_all-EachOwned :
      (namespace : String) (owner : ObjectMeta) (q : QuarksStatefulSet) (ss : List StatefulSet)
      → q.meta ≡ owner
      → Makes (λ r made. EachOwned env owner ss made) (create_all env namespace q ss)
  unfolding create_all set_secret_references after_creation
  create_all-EachOwned namespace owner q [] same = Makes-pure _ none_left
  create_all-EachOwned namespace owner q (s ∷ ss) same =
      Makes-bind (λ spec made. Unit × (made ≡ [])) _ _ _
        (Makes-quiet _ (Emits-annotate _ _ (Emits-ask _ _ refl)) (Returns-any _))
        λ spec made (t, none_yet).
          Makes-bind (IsMade q.meta s) _ _ _ (Makes-annotate _ _ (Makes-create_statefulset q s))
            λ created one (owned, e, is_one).
              makes_more made one owned none_yet is_one
                (ap (λ m. env.reference_set m s) (sym same) ∙ e)
                (create_all-EachOwned namespace owner (after_creation q spec) ss same)
    where
      makes_more :
          {A : Type 0} {m : Exec A} (made one : List StatefulSet) (owned : StatefulSet)
          → made ≡ []
          → one ≡ owned ∷ []
          → env.reference_set owner s ≡ ok owned
          → Makes (λ r more. EachOwned env owner ss more) m
          → Makes (λ r more. EachOwned env owner (s ∷ ss) ((more ++ one) ++ made)) m
      makes_more made one owned none_yet is_one e rest = record {
        at = λ h a done.
            let (more, each, is) = rest.at h a done in
            (more, rw (none_yet, is_one, append-nil (more ++ owned ∷ [])) (and_then e each), is);
      }

  module _ (law : UnitesMaps env) where
    -- The desired StatefulSets of the QuarksStatefulSet, each with it as the owner.
    pub record IsEachDesired (q : QuarksStatefulSet) (made : List StatefulSet) : Type 0 where
      pub desired : List StatefulSet
      pub are_desired : IsDesired env law q desired
      pub are_owned : EachOwned env q.meta desired made

    past_meltdown-IsEachDesired :
        (key : Key) (q : QuarksStatefulSet)
        → Makes (λ r made. IsEachDesired q made) (unless_in_meltdown env false key q)
    unfolding unless_in_meltdown
    past_meltdown-IsEachDesired key q =
        Makes-bind (λ ss made. IsDesired env law q ss × (made ≡ [])) _ _ _
          (Makes-quiet _
            (Emits-annotate _ _ (Emits-calculate_desired_statefulsets env IsQuiet (λ n. refl) q))
            (Returns-annotate _ _ (calculate_desired_statefulsets-IsDesired env law q)))
          λ ss made (d, none_yet).
            Makes-bind (λ r made. EachOwned env q.meta ss made) _ _ _
              (create_all-EachOwned key.namespace q.meta q ss refl)
              λ r all each. Makes-pure _ record {
                desired = ss;
                are_desired = d;
                are_owned = rw (none_yet, append-nil all) each;
              }

    -- When a reconcile past the window in which triggers are merged ends without an error, it has
    -- handed to CreateOrUpdate the desired StatefulSets, one for each zone (or one without zones),
    -- in order, each with the QuarksStatefulSet as its owner, and no others. The law is that of
    -- UnionMaps.
    pub reconcile_updated-creates :
        (key : Key) (q : QuarksStatefulSet) (last : ℤ) (h : History) (r : Result)
        → env.in_window reconcile_skip_duration (some last) (env.clock h) ≡ false
        → (reconcile_updated env key q (some last) h).0 ≡ ok r
        → (made : List StatefulSet) × IsEachDesired q made
          × (creations (reconcile_updated env key q (some last) h).1 ≡ made ++ creations h)
    unfolding reconcile_updated read_clock ◌>>=◌
    reconcile_updated-creates key q last h r past e =
        let (made, d, is) =
          (past_meltdown-IsEachDesired key q).at (Call.read_clock ∷ h) r
            (ap (λ w. (unless_in_meltdown env w key q (Call.read_clock ∷ h)).0) (sym past) ∙ e) in
        (
          made,
          d,
          ap (λ w. creations (unless_in_meltdown env w key q (Call.read_clock ∷ h)).1) past ∙ is,
        )
