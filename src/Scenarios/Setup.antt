-- ===== src/Scenarios/Setup.antt =====
-- The set-up of the operator where a library fails.
use quarks_statefulset.Prelude.{Outcome, ok, err, api, pos, true, false, map, ◌≡◌, refl}
use quarks_statefulset.Setup.Plans.{SetupCall, call_of}
use quarks_statefulset.Setup.Plans.Runs.{are_checked}
use quarks_statefulset.Setup.Manager.{apply_crds}
use quarks_statefulset.Setup.Command.{Flags, run_command}
use quarks_statefulset.Setup.Command.Runs.{Commanded, run_command-Commanded}

-- No certificate can be made.
abbrev answer : SetupCall → Outcome (Unit {0})
answer SetupCall.setup_certificate = err (api "Forbidden")
answer _ = ok tt

abbrev flags : Flags
flags = record {
  webhook_service_host = "operator";
  webhook_service_port = pos 2999;
  webhook_use_service_reference = false;
  max_workers = pos 1;
  monitored_id = "qsts";
}

checks : are_checked apply_crds ≡ true
unfolding apply_crds
checks = refl

run_command-Commanded_example :
    Commanded answer
      (map call_of apply_crds)
      flags
      (run_command (λ steps. steps) "quarks.cloudfoundry.org" "monitored" answer flags)
run_command-Commanded_example =
    run_command-Commanded (λ steps. steps) "quarks.cloudfoundry.org" "monitored" answer flags checks
