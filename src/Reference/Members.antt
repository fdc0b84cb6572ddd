-- ===== src/Reference/Members.antt =====
-- Which QuarksStatefulSets GetReconciles gives.
use quarks_statefulset.Prelude.{
  ℕ, zero, suc, String, Bool, true, false, ◌==◌, List, [], ◌∷◌, some, get_elem?, ◌≡◌, refl, sym, ap,
  ◌∙◌, ◌⊎◌, inl, inr, ok, false≢true, eq_iff, arith, Bool-cases, if◌then◌else◌,
}
use quarks_statefulset.Kube.Types.{Key, QuarksStatefulSet, DataObject, PodSpec}
use quarks_statefulset.Kube.Calls.{
  History, Returns, Returns-pure, Returns-bind, Returns-ask, Returns-annotate,
}
use quarks_statefulset.Kube.Env.{Env}
use quarks_statefulset.Kube.Client.{list_quarks}
use quarks_statefulset.Reference.{
  Object, data_of, contains, key_of, is_secret_reference, is_referenced_by, collect, get_reconciles,
}

-- A name among others.
abbrev pub IsAmong : String → List String → Type 0
IsAmong name names = (i : ℕ) × (get_elem? names i ≡ some name)

contains-IsAmong :
    (name : String) (names : List String) → contains name names ≡ true → IsAmong name names
unfolding contains
contains-IsAmong name [] e = absurd (false≢true e)
contains-IsAmong name (n ∷ names) e = elim (Bool-cases (n == name)) [
  | inl same ↦ (0, ap some ((eq_iff n name).0 same))
  | inr other ↦
      let (i, found) = contains-IsAmong name names (ground (arith, e, other)) in (suc i, found)
]

IsAmong-contains :
    (name : String) (names : List String) → IsAmong name names → contains name names ≡ true
unfolding contains
IsAmong-contains name [] (i, e) = absurd (cc e)
IsAmong-contains name (n ∷ names) (zero, e) = let same = (eq_iff n name).1 (cc e) in rw same refl
IsAmong-contains name (n ∷ names) (suc i, e) =
    let found = IsAmong-contains name names (i, e) in ground (arith, found)

module _ (env : Env) where
  abbrev pod_of : QuarksStatefulSet → PodSpec
  pod_of q = q.spec.template.spec.template.spec

  -- When a QuarksStatefulSet refers to a ConfigMap or a Secret; for a versioned Secret the store's
  -- library says whether a version of it is among the names, and where versions are compared, whether
  -- that one is outdated.
  pub data Refers (version_check : Bool) (q : QuarksStatefulSet) : Object → Type 0 where
    config_map :
        (o : DataObject)
        → IsAmong o.meta.name (env.config_map_refs (pod_of q))
        → Refers version_check q (Object.config_map o)
    plain_secret :
        (o : DataObject)
        → env.is_versioned_secret o ≡ false
        → IsAmong o.meta.name (env.secret_refs (pod_of q))
        → Refers version_check q (Object.secret o)
    versioned_secret :
        (o : DataObject)
        → env.is_versioned_secret o ≡ true
        → env.contains_secret_name (env.secret_refs (pod_of q)) o.meta.name ≡ true
        → (version_check ≡ false)
          ⊎ (env.contains_outdated_secret_version (env.secret_refs (pod_of q)) o.meta.name ≡ true)
        → Refers version_check q (Object.secret o)

  secret-Refers :
      (check : Bool) (q : QuarksStatefulSet) (o : DataObject) (versioned : Bool)
      → env.is_versioned_secret o ≡ versioned
      → is_secret_reference env check (env.secret_refs (pod_of q)) o ≡ true
      → Refers check q (Object.secret o)
  unfolding is_secret_reference
  secret-Refers check q o false plain e =
      plain_secret o plain (contains-IsAmong o.meta.name _ (sym (rw plain refl) ∙ e))
  secret-Refers check q o true versioned e =
      elim (Bool-cases (env.contains_secret_name (env.secret_refs (pod_of q)) o.meta.name)) [
        | inl found ↦ elim (Bool-cases check) [
          | inl compared ↦
              versioned_secret o versioned found
                (inr (sym (rw (versioned, found, compared) refl) ∙ e))
          | inr ignored ↦ versioned_secret o versioned found (inl ignored)
        ]
        | inr missing ↦ absurd (ground (arith, versioned, missing, e))
      ]

  reference-Refers :
      (check : Bool) (q : QuarksStatefulSet) (object : Object)
      → is_referenced_by env object check q ≡ true
      → Refers check q object
  unfolding is_referenced_by
  reference-Refers check q (Object.config_map o) e = config_map o (contains-IsAmong o.meta.name _ e)
  reference-Refers check q (Object.secret o) e = secret-Refers check q o _ refl e

  Refers-reference :
      (check : Bool) (q : QuarksStatefulSet) (object : Object)
      → Refers check q object
      → is_referenced_by env object check q ≡ true
  unfolding is_referenced_by is_secret_reference
  Refers-reference check q _ (config_map o among) = IsAmong-contains o.meta.name _ among
  Refers-reference check q _ (plain_secret o plain among) =
      rw plain (IsAmong-contains o.meta.name _ among)
  Refers-reference check q _ (versioned_secret o versioned found (inl ignored)) =
      rw (versioned, found, ignored) refl
  Refers-reference check q _ (versioned_secret o versioned found (inr outdated)) =
      ground (arith, versioned, found, outdated)

  -- From each QuarksStatefulSet of a list that asks for updates and refers to the object a request
  -- with its name and namespace, in order, and from the others none.
  pub data Selected (object : Object) (check : Bool)
      : List QuarksStatefulSet → List Key → Type 0 where
    at_end : Selected object check [] []
    taken :
        {q : QuarksStatefulSet} {qs : List QuarksStatefulSet} {key : Key} {keys : List Key}
        → q.spec.update_on_config_change ≡ true
        → Refers check q object
        → key.name ≡ q.meta.name
        → key.namespace ≡ q.meta.namespace
        → Selected object check qs keys
        → Selected object check (q ∷ qs) (key ∷ keys)
    passed_over :
        {q : QuarksStatefulSet} {qs : List QuarksStatefulSet} {keys : List Key}
        → (q.spec.update_on_config_change ≡ false) ⊎ (¬ Refers check q object)
        → Selected object check qs keys
        → Selected object check (q ∷ qs) keys

  one-Selected :
      (object : Object) (check : Bool) (q : QuarksStatefulSet) (qs : List QuarksStatefulSet)
      (keys : List Key) (on refers : Bool)
      → q.spec.update_on_config_change ≡ on
      → is_referenced_by env object check q ≡ refers
      → Selected object check qs keys
      → Selected object check
          (q ∷ qs)
          (if on then (if refers then key_of q ∷ keys else keys) else keys)
  unfolding key_of
  one-Selected object check q qs keys false refers on r rest = passed_over (inl on) rest
  one-Selected object check q qs keys true true on r rest =
      taken on (reference-Refers check q object r) refl refl rest
  one-Selected object check q qs keys true false on r rest =
      passed_over (inr λ yes_. false≢true (sym r ∙ Refers-reference check q object yes_)) rest

  collect-Selected :
      (object : Object) (check : Bool) (qs : List QuarksStatefulSet)
      → Selected object check qs (collect env object check qs)
  unfolding collect
  collect-Selected object check [] = at_end
  collect-Selected object check (q ∷ qs) =
      one-Selected object check q qs (collect env object check qs) q.spec.update_on_config_change
        (is_referenced_by env object check q) refl refl (collect-Selected object check qs)

  -- Where GetReconciles succeeds, it gives a request for each QuarksStatefulSet listed in the object's
  -- namespace that asks for updates on changes of configuration and refers to the object, in order,
  -- and for no other.
  pub get_reconciles-Selected :
      (object : Object) (check : Bool)
      → Returns
          (λ keys.
            (when : History) × (qs : List QuarksStatefulSet) × (env.quarks_in when
                (data_of object).meta.namespace
              ≡ ok qs)
            × Selected object check qs keys)
          (get_reconciles env object check)
  unfolding get_reconciles list_quarks
  get_reconciles-Selected object check =
      Returns-bind
        {Q = λ qs. (when : History) × (env.quarks_in when (data_of object).meta.namespace ≡ ok qs)}
        _ _ (Returns-annotate _ _ (Returns-ask _ _ λ h qs e. (h, e)))
        λ qs (when, e). Returns-pure _ (when, qs, e, collect-Selected object check qs)
