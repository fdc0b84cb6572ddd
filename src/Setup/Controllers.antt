-- ===== src/Setup/Controllers.antt =====
-- AddQuarksStatefulSet, AddQuarksStatefulSetStatus, AddStatefulSetRollout, AddStatefulSetActivePassive
-- and AddToManager. The predicates of the watches are in Quarks/Trigger and Rollout/Trigger.
use quarks_statefulset.Prelude.{List, [], ◌∷◌, ◌++◌, ℤ}
use quarks_statefulset.Setup.Plans.{
  Step, checked, SetupCall, quarks_statefulsets, statefulsets, owned_statefulsets, config_maps,
  secrets,
}

-- MaxQuarksStatefulSetWorkers.
module _ (workers : ℤ) where
  unfoldable pub add_quarks_statefulset : List Step
  add_quarks_statefulset =
      checked (SetupCall.new_controller "quarks-statefulset-controller" workers)
        ("Adding QuarksStatefulSet controller to manager failed." ∷ [])
      ∷ checked SetupCall.apps_client ("Could not get kube client" ∷ [])
      ∷ checked (SetupCall.watch "quarks-statefulset-controller" quarks_statefulsets) []
      ∷ checked (SetupCall.watch "quarks-statefulset-controller" config_maps)
          ("Watching configMaps failed in QuarksStatefulSet controller failed." ∷ [])
      ∷ checked (SetupCall.watch "quarks-statefulset-controller" secrets)
          ("Watching secrets failed in QuarksStatefulSet controller failed." ∷ [])
      ∷ []

  unfoldable pub add_quarks_statefulset_status : List Step
  add_quarks_statefulset_status =
      checked (SetupCall.new_controller "quarks-statefulset-status--controller" workers)
        ("Adding QuarksStatefulSetStatus controller to manager failed." ∷ [])
      ∷ checked (SetupCall.watch "quarks-statefulset-status--controller" owned_statefulsets)
          ("Watching secrets failed in QuarksStatefulSetStatus controller failed." ∷ [])
      ∷ []

  unfoldable pub add_statefulset_rollout : List Step
  add_statefulset_rollout =
      checked (SetupCall.new_controller "statefulset-rollout-controller" workers)
        ("Adding StatefulSet rollout controller to manager failed." ∷ [])
      ∷ checked (SetupCall.watch "statefulset-rollout-controller" statefulsets)
          ("Watching StatefulSet failed in StatefulSet rollout controller." ∷ [])
      ∷ []

  -- The error of KubeConfig is dropped, so it is no step.
  unfoldable pub add_statefulset_active_passive : List Step
  add_statefulset_active_passive =
      checked SetupCall.kube_client ("failed retrieving kubernetes client configuration" ∷ [])
      ∷ checked (SetupCall.new_controller "active-passive-controller" workers)
          ("adding active-passive controller to manager failed" ∷ [])
      ∷ checked (SetupCall.watch "active-passive-controller" quarks_statefulsets)
          ("watching QuarksStatefulSet failed in active/passive controller" ∷ [])
      ∷ []

  -- The functions of addToManagerFuncs, one after the other.
  unfoldable pub add_to_manager : List Step
  add_to_manager =
      add_quarks_statefulset ++ add_quarks_statefulset_status ++ add_statefulset_rollout
      ++ add_statefulset_active_passive
