-- ===== src/Rollout/Pods.antt =====
-- The pods of a StatefulSet (statefulset_rollout_util.go, and partitionPodIsReadyAndUpdated of
-- statefulset_rollout_reconciler.go).
pub mod Deletes
use quarks_statefulset.Prelude.{
  String, Bool, true, false, ◌&&◌, Option, none, some, ℤ, ◌<>◌, ◌==◌, index, deref, Error,
  if◌then◌else◌,
}
use quarks_statefulset.Names.Label
use quarks_statefulset.Text.Decimal.{itoa}
use quarks_statefulset.Kube.Types.{Key, StatefulSet, Pod}
use quarks_statefulset.Kube.Calls.{Exec, pure, fail, lift, rescue, ◌>>=◌}
use quarks_statefulset.Kube.Env.{Env}
use quarks_statefulset.Kube.Client.{get_pod, delete_pod}

-- `*s.Spec.UpdateStrategy.RollingUpdate.Partition`
unfoldable pub partition_of : StatefulSet → Exec ℤ
partition_of s = do
  rolling_update ← lift (deref s.spec.update_strategy.rolling_update)
  lift (deref rolling_update)

-- fmt.Sprintf("%s-%d", name, index)
unfoldable pub pod_name : String → ℤ → String
pod_name name i = name <> "-" <> itoa i

-- `pod` is not nil where the pod is ready.
unfoldable pub is_updated : StatefulSet → Option Pod × Bool → Bool
is_updated s (none, ready) = false
is_updated s (some pod, ready) =
    ready && (index pod.meta.labels Label.controller_revision_hash == s.status.update_revision)

module _ (env : Env) where
  abbrev found : Pod → Exec (Option Pod × Bool)
  found pod = pure (some pod, env.is_pod_ready pod)

  -- A pod that is not there is no error.
  not_found_is_none : Error → Exec (Option Pod × Bool)
  not_found_is_none e = if env.is_not_found e then pure (none, false) else fail e

  unfoldable pub get_pod_with_index : StatefulSet → ℤ → Exec (Option Pod × Bool)
  unfolding not_found_is_none
  get_pod_with_index s i =
      rescue
        (do
          pod ← get_pod env (record { name = pod_name s.meta.name i; namespace = s.meta.namespace })
          found pod)
        not_found_is_none

  delete_non_ready : Option Pod × Bool → Exec (Unit {0})
  delete_non_ready (none, ready) = pure tt
  delete_non_ready (some pod, true) = pure tt
  delete_non_ready (some pod, false) = delete_pod env pod

  unfoldable pub cleanup_non_ready_pod : StatefulSet → ℤ → Exec (Unit {0})
  unfolding delete_non_ready
  cleanup_non_ready_pod s i = do answer ← get_pod_with_index s i; delete_non_ready answer

  unfoldable pub partition_pod_is_ready_and_updated : StatefulSet → Exec Bool
  partition_pod_is_ready_and_updated s = elim s.spec.update_strategy.rolling_update [
    | none ↦ pure false
    | some rolling_update ↦ do
      partition ← lift (deref rolling_update)
      answer ← get_pod_with_index s partition
      pure (is_updated s answer)
  ]
