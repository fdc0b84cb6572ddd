-- ===== src/Setup/Manager.antt =====
-- NewManager and ApplyCRDs of pkg/kube/operator/operator.go.
pub mod Starts
use quarks_statefulset.Prelude.{String, List, [], ◌∷◌, ◌++◌, ℤ}
use quarks_statefulset.Setup.Plans.{Step, checked, SetupCall, within}
use quarks_statefulset.Setup.Hooks.{add_hooks}
use quarks_statefulset.Setup.Controllers.{add_to_manager}

module _ (group_name label_namespace monitored_id : String) (workers : ℤ) where
  unfoldable pub new_manager : List Step
  new_manager =
      checked SetupCall.new_manager ("failed to initialize new manager" ∷ [])
        ∷ checked SetupCall.add_scheme ("failed to add manager scheme to controllers" ∷ [])
        ∷ within "failed to setup hooks" (add_hooks group_name label_namespace monitored_id)
      ++ within "failed to add controllers to manager" (add_to_manager workers)

unfoldable pub apply_crds : List Step
apply_crds =
    checked SetupCall.extensions_client ("Could not get kube client" ∷ [])
    ∷ checked SetupCall.apply_crd ("failed to apply CRD" ∷ [])
    ∷ checked SetupCall.wait_for_crd ("failed to wait for CRD ready" ∷ [])
    ∷ []
