-- ===== src/Client/Lister/Finds.antt =====
-- The lister over an index of objects by their keys, against the objects themselves.
use quarks_statefulset.Prelude.{
  String, Bool, true, false, Option, none, some, List, [], ◌∷◌, ◌++◌, ◌≡◌, refl, sym, ◌∙◌, ℕ, suc,
  get_elem?, All, ◌==◌, eq_iff, select, StringMap, Outcome, ok, err, if◌then◌else◌, ◌&&◌,
  Bool-cases, inl, inr,
}
use mathlib.Core.List.{append-nil, append_assoc}
use quarks_statefulset.Kube.Types.{QuarksStatefulSet}
use quarks_statefulset.Text.Slash.{slashed, has_no_slash, slashed-injective}
use quarks_statefulset.Client.Lister.{
  Indexer, append_each, not_found, list, namespace_list, unless_missing, namespace_get,
}

-- MetaNamespaceKeyFunc, for an object with a namespace.
abbrev pub key_of : QuarksStatefulSet → String
key_of q = slashed q.meta.namespace q.meta.name

abbrev pub first_by_key : String → List QuarksStatefulSet → Option QuarksStatefulSet
first_by_key key [] = none
first_by_key key (q ∷ qs) =
    let rest = first_by_key key qs in if key_of q == key then some q else rest

abbrev pub in_namespace : String → QuarksStatefulSet → Bool
in_namespace namespace q = q.meta.namespace == namespace

-- The index holds the objects of a store by their keys, and lists those that a selector matches.
pub record Indexes (indexer : Indexer) (store : List QuarksStatefulSet) : Type 0 where
  pub by_key : (key : String) → indexer.get_by_key key ≡ ok (first_by_key key store)
  pub all :
      (selector : StringMap → Bool)
      → indexer.list_all selector ≡ (select (λ q. selector q.meta.labels) store, none)
  pub by_namespace :
      (namespace : String) (selector : StringMap → Bool)
      → indexer.list_all_by_namespace namespace selector
        ≡ (select (λ q. in_namespace namespace q && selector q.meta.labels) store, none)

-- What an object is asked for by: a namespace and a name.
abbrev pub IsNamed : String → String → QuarksStatefulSet → Type 0
IsNamed namespace name q = (q.meta.namespace ≡ namespace) × (q.meta.name ≡ name)

pub data Finds (store : List QuarksStatefulSet) (namespace name : String)
    : Outcome QuarksStatefulSet → Type 0 where
  there :
      {q : QuarksStatefulSet} (place : ℕ)
      → get_elem? store place ≡ some q
      → IsNamed namespace name q
      → Finds store namespace name (ok q)
  missing :
      All (λ q. ¬ IsNamed namespace name q) store
      → Finds store namespace name (err (not_found name))

append_each_lem : (ret qs : List QuarksStatefulSet) → append_each ret qs ≡ ret ++ qs
unfolding append_each
append_each_lem ret [] = sym (append-nil ret)
append_each_lem ret (q ∷ qs) = append_each_lem (ret ++ q ∷ []) qs ∙ append_assoc ret (q ∷ []) qs

module _ (indexer : Indexer) (store : List QuarksStatefulSet)
    (indexes : Indexes indexer store) where
  module _ (namespace name : String) (plain : has_no_slash namespace ≡ true) where
    Finds-cons :
        (q : QuarksStatefulSet) (qs : List QuarksStatefulSet) (r : Outcome QuarksStatefulSet)
        → (key_of q == slashed namespace name) ≡ false
        → Finds qs namespace name r
        → Finds (q ∷ qs) namespace name r
    Finds-cons q qs _ other (there place at named) = there (suc place) at named
    Finds-cons q qs _ other (missing none_of) = missing (
      (λ (n, m).
          cc (other, (eq_iff (key_of q) (slashed namespace name)).1 (λ i. slashed (n i) (m i)))),
      none_of,
    )

    first_by_key-Finds :
        (qs : List QuarksStatefulSet)
        → All (λ q. has_no_slash q.meta.namespace ≡ true) qs
        → Finds qs namespace name
            (unless_missing indexer namespace name (first_by_key (slashed namespace name) qs))
    unfolding unless_missing
    first_by_key-Finds [] plains = missing tt
    first_by_key-Finds (q ∷ qs) (p, plains) =
        elim (Bool-cases (key_of q == slashed namespace name)) [
          | inl same ↦ rw same (
              there 0 refl (
                slashed-injective q.meta.namespace q.meta.name namespace name p plain
                  ((eq_iff _ _).0 same)))
          | inr other ↦ rw other (Finds-cons q qs _ other (first_by_key-Finds qs plains))
        ]

    -- Over an index of a store whose namespaces have no slash, Get of the lister of a namespace
    -- without one returns an object of the store that has this namespace and the name, or, where
    -- there is none, the error that it was not found.
    pub namespace_get-Finds :
        All (λ q. has_no_slash q.meta.namespace ≡ true) store
        → Finds store namespace name (namespace_get indexer namespace name)
    unfolding namespace_get
    namespace_get-Finds plains =
        rw (indexes.by_key (slashed namespace name), namespace_get)
          (first_by_key-Finds store plains)

  -- Over an index of a store, List returns, in the store's order, the objects that the selector
  -- matches, and the lister of a namespace those of them that are in the namespace.
  pub list-selects :
      (namespace : String) (selector : StringMap → Bool)
      → (list indexer selector ≡ (select (λ q. selector q.meta.labels) store, none))
        × (namespace_list indexer namespace selector
            ≡ (select (λ q. in_namespace namespace q && selector q.meta.labels) store, none))
  unfolding list namespace_list
  list-selects namespace selector = (
    rw (indexes.all selector, append_each_lem) refl,
    rw (indexes.by_namespace namespace selector, append_each_lem) refl,
  )
