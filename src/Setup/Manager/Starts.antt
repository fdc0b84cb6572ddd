-- ===== src/Setup/Manager/Starts.antt =====
-- The calls of NewManager (pkg/kube/operator/operator.go), in order.
use quarks_statefulset.Prelude.{List, [], ◌∷◌, ℤ}
use quarks_statefulset.Setup.Plans.{
  SetupCall, quarks_statefulsets, statefulsets, owned_statefulsets, config_maps, secrets,
}

-- The set-up in full: hooks before controllers.
abbrev pub all_calls : ℤ → List SetupCall
all_calls workers =
    SetupCall.new_manager
    ∷ SetupCall.add_scheme
    ∷ SetupCall.register "/readyz"
    ∷ SetupCall.register "/mutate-pods"
    ∷ SetupCall.register "/mutate-statefulsets"
    ∷ SetupCall.setup_certificate
    ∷ SetupCall.create_webhook_config ("/mutate-pods" ∷ "/mutate-statefulsets" ∷ [])
    ∷ SetupCall.new_controller "quarks-statefulset-controller" workers
    ∷ SetupCall.apps_client
    ∷ SetupCall.watch "quarks-statefulset-controller" quarks_statefulsets
    ∷ SetupCall.watch "quarks-statefulset-controller" config_maps
    ∷ SetupCall.watch "quarks-statefulset-controller" secrets
    ∷ SetupCall.new_controller "quarks-statefulset-status--controller" workers
    ∷ SetupCall.watch "quarks-statefulset-status--controller" owned_statefulsets
    ∷ SetupCall.new_controller "statefulset-rollout-controller" workers
    ∷ SetupCall.watch "statefulset-rollout-controller" statefulsets
    ∷ SetupCall.kube_client
    ∷ SetupCall.new_controller "active-passive-controller" workers
    ∷ SetupCall.watch "active-passive-controller" quarks_statefulsets
    ∷ []
