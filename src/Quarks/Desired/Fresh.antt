-- ===== src/Quarks/Desired/Fresh.antt =====
-- The StatefulSets of calculateDesiredStatefulSets, their zones and their version.
use quarks_statefulset.Prelude.{
  ℕ, zero, suc, ◌^◌, ◌-◌, String, List, [], ◌∷◌, ℤ, pos, negsuc, inc64, ◌≡◌, refl, sym, subst, ap,
  ◌∙◌, inl, inr, arith, eqb, Bool-cases, Outcome, ok, err, panic, ok_injective, wrap_outcome,
}
use quarks_statefulset.Text.Decimal.{IsInt64}
use quarks_statefulset.Kube.Types.{StatefulSet, QuarksStatefulSet}
use quarks_statefulset.Kube.Calls.{
  Returns, Returns-bind, Returns-lift, Call, Emits, Emits-bind, Emits-lift,
}
use quarks_statefulset.Kube.Env.{Env, UnitesMaps}
use quarks_statefulset.Quarks.Versions.{or_default}
use quarks_statefulset.Quarks.Versions.Current.{
  IsCurrent, Returns-get_max_statefulset_version, Emits-get_max_statefulset_version,
}
use quarks_statefulset.Quarks.Generate.{generate_single_statefulset}
use quarks_statefulset.Quarks.Generate.Labels.{IsGenerated, generate_single_statefulset-IsGenerated}
use quarks_statefulset.Quarks.Desired.{
  generate_zones, generate_all, cons_outcome, with_default_label, template_of,
  calculate_desired_statefulsets,
}

module _ (env : Env) (law : UnitesMaps env) where
  -- One generated StatefulSet for each zone, in order, from the zone with the given index.
  pub data Zoned (q : QuarksStatefulSet) (version : ℤ)
      : ℕ → List String → List StatefulSet → Type 0 where
    done : {i : ℕ} → Zoned q version i [] []
    zone :
        {i : ℕ} {name : String} {names : List String} {s : StatefulSet} {ss : List StatefulSet}
        → IsGenerated env law q (pos i) name version s
        → Zoned q version (suc i) names ss
        → Zoned q version i (name ∷ names) (s ∷ ss)

  -- Without zones there is one StatefulSet, of the zone "".
  abbrev pub zones_or_one : List String → List String
  zones_or_one [] = "" ∷ []
  zones_or_one (name ∷ names) = name ∷ names

  cons_ok :
      (text : String) (o : Outcome StatefulSet) (r : Outcome (List StatefulSet))
      (result : List StatefulSet)
      → cons_outcome (wrap_outcome text o) r ≡ ok result
      → (s : StatefulSet) × (ss : List StatefulSet) × (o ≡ ok s) × (r ≡ ok ss) × (result ≡ s ∷ ss)
  cons_ok text (ok s) (ok ss) result e = (s, ss, refl, refl, sym (ok_injective e))
  cons_ok text (ok s) (err x) result e = cc e
  cons_ok text (ok s) panic result e = cc e
  cons_ok text (err x) r result e = cc e
  cons_ok text panic r result e = cc e

  module _ (q : QuarksStatefulSet) (template : StatefulSet) (version : ℤ)
      (fits : IsInt64 version) where
    generate_zones-Zoned :
        (i : ℕ) (zones : List String) (result : List StatefulSet)
        → generate_zones env q template version i zones ≡ ok result
        → Zoned q version i zones result
    unfolding generate_zones
    generate_zones-Zoned i [] result e = subst (Zoned q version i []) (ok_injective e) done
    generate_zones-Zoned i (name ∷ names) result e =
        let (s, ss, one, rest, is) =
          cons_ok _ (generate_single_statefulset env q template (pos i) name version)
            (generate_zones env q template version (suc i) names) result e in
        subst (Zoned q version i (name ∷ names)) (sym is) (
          zone
            (generate_single_statefulset-IsGenerated env law q template (pos i) name version fits s
              one)
            (generate_zones-Zoned (suc i) names ss rest))

    generate_all-Zoned :
        (zones : List String) (result : List StatefulSet)
        → generate_all env q template version zones ≡ ok result
        → Zoned q version 0 (zones_or_one zones) result
    unfolding generate_all
    generate_all-Zoned [] result e =
        let (s, ss, one, rest, is) =
          cons_ok _ (generate_single_statefulset env q template (pos 0) "" version) (ok []) result
            e in
        subst (Zoned q version 0 ("" ∷ [])) (ap (λ l. s ∷ l) (ok_injective rest) ∙ sym is) (
          zone
            (generate_single_statefulset-IsGenerated env law q template (pos 0) "" version fits s
              one)
            done)
    generate_all-Zoned (name ∷ names) result e = generate_zones-Zoned 0 (name ∷ names) result e

  inc64-IsInt64 : (v : ℤ) → IsInt64 v → IsInt64 (inc64 v)
  inc64-IsInt64 (pos n) h = elim (Bool-cases (eqb n (2 ^ 63 - 1))) [
    | inl greatest ↦ rw greatest (omega arith)
    | inr less ↦ rw less (ground (arith, less, h))
  ]
  inc64-IsInt64 (negsuc zero) h = omega arith
  inc64-IsInt64 (negsuc (suc n)) h = omega (arith, h)

  or_default_version : (found : List StatefulSet × ℤ) → (or_default found).1 ≡ found.1
  unfolding or_default
  or_default_version ([], v) = refl
  or_default_version (s ∷ ss, v) = refl

  current_fits :
      (q : QuarksStatefulSet) (r : List StatefulSet × ℤ) → IsCurrent env q r → IsInt64 r.1
  current_fits q r (inl (nowhere, none)) = rw none (omega arith)
  current_fits q r (inr c) =
      subst IsInt64 (sym (or_default_version c.found) ∙ ap (λ x. x.1) (sym c.is_result))
        c.finds.fits

  -- The desired StatefulSets follow some current version, one more than which they have.
  pub record IsDesired (q : QuarksStatefulSet) (ss : List StatefulSet) : Type 0 where
    pub current : List StatefulSet × ℤ
    pub is_current : IsCurrent env q current
    pub zoned : Zoned (with_default_label q) (inc64 current.1) 0 (zones_or_one q.spec.zones) ss

  -- When calculateDesiredStatefulSets returns StatefulSets, they are one for each zone, in order
  -- (one alone without zones), each generated for its zone with the version after the highest that
  -- it found among the StatefulSets which the QuarksStatefulSet owns.
  pub calculate_desired_statefulsets-IsDesired :
      (q : QuarksStatefulSet) → Returns (IsDesired q) (calculate_desired_statefulsets env q)
  unfolding calculate_desired_statefulsets
  calculate_desired_statefulsets-IsDesired q =
      Returns-bind _ _ (Returns-get_max_statefulset_version env q) λ r c. Returns-lift _ λ ss e.
        record {
          current = r;
          is_current = c;
          zoned =
              generate_all-Zoned (with_default_label q) (template_of q) (inc64 r.1)
                (inc64-IsInt64 r.1 (current_fits q r c)) q.spec.zones ss e;
        }

-- Finding them only lists StatefulSets.
pub Emits-calculate_desired_statefulsets :
    (env : Env) (P : Call → Type 0)
    → ((namespace : String) → P (Call.list_statefulsets namespace))
    → (q : QuarksStatefulSet) → Emits P (calculate_desired_statefulsets env q)
unfolding calculate_desired_statefulsets
Emits-calculate_desired_statefulsets env P lists q =
    Emits-bind _ _ (Emits-get_max_statefulset_version env P lists q) λ r. Emits-lift _
