-- ===== src/Client/Lister.antt =====
-- listers/quarksstatefulset/v1alpha1/quarksstatefulset.go.
pub mod Finds
use quarks_statefulset.Prelude.{
  String, ◌<>◌, Bool, Option, none, some, List, [], ◌∷◌, ◌++◌, StringMap, Error, api, Outcome, ok,
  err, panic,
}
use quarks_statefulset.Kube.Types.{QuarksStatefulSet}
use quarks_statefulset.Text.Slash.{slashed}

-- cache.Indexer: GetByKey with the object where there is one; what ListAll and ListAllByNamespace
-- hand to the function that they are given, in order, and their error.
pub record Indexer : Type 0 where
  pub get_by_key : String → Outcome (Option QuarksStatefulSet)
  pub list_all : (StringMap → Bool) → List QuarksStatefulSet × Option Error
  pub list_all_by_namespace : String → (StringMap → Bool) → List QuarksStatefulSet × Option Error

-- `ret = append(ret, m)` for each object.
unfoldable pub append_each :
    List QuarksStatefulSet → List QuarksStatefulSet → List QuarksStatefulSet
append_each ret [] = ret
append_each ret (q ∷ qs) = append_each (ret ++ q ∷ []) qs

-- NewNotFound, of the resource and the name.
abbrev pub not_found : String → Error
not_found name = api ("quarksstatefulset " <> name <> " not found")

module _ (indexer : Indexer) where
  unfoldable pub list : (StringMap → Bool) → List QuarksStatefulSet × Option Error
  list selector = let (items, e) = indexer.list_all selector in (append_each [] items, e)

  module _ (namespace : String) where
    unfoldable pub namespace_list : (StringMap → Bool) → List QuarksStatefulSet × Option Error
    namespace_list selector =
        let (items, e) = indexer.list_all_by_namespace namespace selector in
        (append_each [] items, e)

    unless_missing : String → Option QuarksStatefulSet → Outcome QuarksStatefulSet
    unless_missing name none = err (not_found name)
    unless_missing name (some q) = ok q

    unfoldable pub namespace_get : String → Outcome QuarksStatefulSet
    unfolding unless_missing
    namespace_get name = elim (indexer.get_by_key (slashed namespace name)) [
      | ok found ↦ unless_missing name found
      | err e ↦ err e
      | panic ↦ panic
    ]
