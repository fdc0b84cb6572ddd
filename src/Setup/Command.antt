-- ===== src/Setup/Command.antt =====
-- The root command of cmd/internal/root.go.
pub mod Runs
use quarks_statefulset.Prelude.{
  String, ◌<>◌, Bool, true, false, not, ◌&&◌, List, [], ◌∷◌, ◌++◌, ℤ, Outcome, ok, err, Error,
  message, wrapped, ◌==◌, if◌then◌else◌,
}
use quarks_statefulset.Setup.Plans.{Step, checked, SetupCall, within, run, then_run}
use quarks_statefulset.Setup.Manager.{new_manager, apply_crds}

-- The flags, and the environment variables that stand for them, as viper reads them.
pub record Flags : Type 0 where
  pub webhook_service_host : String
  pub webhook_service_port : ℤ
  pub webhook_use_service_reference : Bool
  pub max_workers : ℤ
  pub monitored_id : String

-- The part of config.Config that the command sets by itself.
pub record Config : Type 0 where
  pub webhook_server_host : String
  pub webhook_server_port : ℤ
  pub webhook_use_service_ref : Bool
  pub max_workers : ℤ

unfoldable pub config_of : Flags → Config
config_of flags = record {
  webhook_server_host = flags.webhook_service_host;
  webhook_server_port = flags.webhook_service_port;
  webhook_use_service_ref = flags.webhook_use_service_reference;
  max_workers = flags.max_workers;
}

-- `wrapError(err, msg)`
abbrev pub failed : String → String
failed text = "quarks-statefulset command failed. " <> text

unfoldable pub before_flags : List Step
before_flags = checked SetupCall.kube_config (failed "" ∷ []) ∷ []

-- Neither a host nor a reference to a service.
abbrev pub lacks_webhook_server : Flags → Bool
lacks_webhook_server flags =
    (flags.webhook_service_host == "") && not flags.webhook_use_service_reference

abbrev pub no_webhook_server : Error
no_webhook_server =
    wrapped (failed "operator-webhook-service-host flag is not set")
      (message "couldn't determine webhook server")

-- `apply` is cmd.ApplyCRDs of quarks-utils, which is given the function that applies them; names and
-- labels are those of quarks-utils.
module _ (apply : List Step → List Step) (group_name label_namespace : String) where
  unfoldable pub after_flags : Flags → List Step
  after_flags flags =
      within (failed "Couldn't apply CRDs.") (apply apply_crds)
      ++ within (failed "Failed to create new manager.")
          (new_manager group_name label_namespace flags.monitored_id (config_of flags).max_workers)
      ++ checked SetupCall.start_manager (failed "Failed to start quarks-statefulset manager." ∷ [])
        ∷ []

  -- RunE: the result, and the calls made.
  unfoldable pub run_command :
      (SetupCall → Outcome (Unit {0})) → Flags → Outcome (Unit {0}) × List SetupCall
  run_command answer flags = then_run (run answer before_flags) (
      if lacks_webhook_server flags
      then (err no_webhook_server, [])
      else run answer (after_flags flags))
