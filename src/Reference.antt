-- ===== src/Reference.antt =====
-- GetReconciles of pkg/kube/util/reference/reconciles.go: the QuarksStatefulSets that refer to a
-- ConfigMap or a Secret.
pub mod Members
use quarks_statefulset.Prelude.{
  String, Bool, true, false, ◌&&◌, List, [], ◌∷◌, ◌||◌, ◌==◌, map, select, if◌then◌else◌,
}
use quarks_statefulset.Kube.Types.{Key, QuarksStatefulSet, DataObject, PodSpec}
use quarks_statefulset.Kube.Calls.{Exec, pure, annotate, ◌>>=◌}
use quarks_statefulset.Kube.Env.{Env}
use quarks_statefulset.Kube.Client.{list_quarks}

-- The object of the type switch; the type of the argument leaves out what its default case is for.
pub data Object : Type 0 where
  config_map secret : DataObject → Object

abbrev pub data_of : Object → DataObject
data_of (Object.config_map o) = o
data_of (Object.secret o) = o

-- `_, ok := objectReferences[name]`
unfoldable pub contains : String → List String → Bool
contains name [] = false
contains name (n ∷ names) = n == name || contains name names

unfoldable pub key_of : QuarksStatefulSet → Key
key_of q = record { name = q.meta.name; namespace = q.meta.namespace }

module _ (env : Env) where
  -- `names` are the references of the QuarksStatefulSet's pods.
  unfoldable pub is_secret_reference : Bool → List String → DataObject → Bool
  is_secret_reference version_check names o =
      if env.is_versioned_secret o
      then (let found = env.contains_secret_name names o.meta.name in
          if version_check && found
          then env.contains_outdated_secret_version names o.meta.name
          else found)
      else contains o.meta.name names

  unfoldable pub is_referenced_by : Object → Bool → QuarksStatefulSet → Bool
  unfolding is_secret_reference
  is_referenced_by (Object.config_map o) version_check q =
      contains o.meta.name (env.config_map_refs q.spec.template.spec.template.spec)
  is_referenced_by (Object.secret o) version_check q =
      is_secret_reference version_check (env.secret_refs q.spec.template.spec.template.spec) o

  -- The loop over the list.
  unfoldable pub collect : Object → Bool → List QuarksStatefulSet → List Key
  collect object version_check [] = []
  collect object version_check (q ∷ qs) =
      let rest = collect object version_check qs in
      if q.spec.update_on_config_change
      then (if is_referenced_by object version_check q then key_of q ∷ rest else rest)
      else rest

  unfoldable pub get_reconciles : Object → Bool → Exec (List Key)
  get_reconciles object version_check = do
    qs ←
        annotate "failed to list QuarksStatefulSets for ConfigMap reconciles"
          (list_quarks env (data_of object).meta.namespace)
    pure (collect object version_check qs)
