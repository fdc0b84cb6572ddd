-- ===== src/Setup/Command/Runs.antt =====
-- In what order the command puts the operator together, and when it refuses to.
use quarks_statefulset.Prelude.{
  String, true, false, List, [], ◌∷◌, ◌++◌, map, ◌≡◌, ◌≢◌, refl, subst, Outcome, ok, err, panic,
  Bool-cases, inl, inr,
}
use mathlib.Core.List.{map-append}
use quarks_statefulset.Setup.Plans.{Step, SetupCall, call_of, run, then_run, within, explain}
use quarks_statefulset.Setup.Plans.Runs.{
  Ran, run-Ran, run-append, call_of-within, are_checked, are_checked-append, are_checked-within,
}
use quarks_statefulset.Setup.Manager.{new_manager, apply_crds}
use quarks_statefulset.Setup.Manager.Starts.{all_calls}
use quarks_statefulset.Setup.Hooks.{add_hooks, mutating_webhooks, pod_webhook, statefulset_webhook}
use quarks_statefulset.Setup.Controllers.{
  add_to_manager, add_quarks_statefulset, add_quarks_statefulset_status, add_statefulset_rollout,
  add_statefulset_active_passive,
}
use quarks_statefulset.Setup.Command.{
  Flags, before_flags, lacks_webhook_server, no_webhook_server, after_flags, run_command, config_of,
}

-- What the command calls when it goes through: the resource definition before the manager, which is
-- started last.
abbrev pub command_calls : List SetupCall → Flags → List SetupCall
command_calls crds flags =
    SetupCall.kube_config ∷ crds ++ all_calls flags.max_workers ++ SetupCall.start_manager ∷ []

pub data Commanded (answer : SetupCall → Outcome (Unit {0})) (crds : List SetupCall) (flags : Flags)
    : Outcome (Unit {0}) × List SetupCall → Type 0 where
  -- The flags name no server for the webhooks.
  refused :
      {result : Outcome (Unit {0})}
      → lacks_webhook_server flags ≡ true
      → result ≢ ok tt
      → Commanded answer crds flags (result, SetupCall.kube_config ∷ [])
  -- It names one, and the calls of the set-up are made as far as they are good.
  went_on :
      {r : Outcome (Unit {0}) × List SetupCall}
      → lacks_webhook_server flags ≡ false
      → Ran answer (command_calls crds flags) r
      → Commanded answer crds flags r

module _ (apply : List Step → List Step) (group_name label_namespace : String)
    (answer : SetupCall → Outcome (Unit {0})) where
  refusal :
      (flags : Flags) (crds : List SetupCall) (o : Outcome (Unit {0}))
      → lacks_webhook_server flags ≡ true
      → answer SetupCall.kube_config ≡ o
      → Commanded answer crds flags (then_run (run answer before_flags) (err no_webhook_server, []))
  unfolding run then_run before_flags explain
  refusal flags crds (ok t) lacks e = rw e (refused lacks λ p. cc p)
  refusal flags crds (err x) lacks e = rw e (refused lacks λ p. cc p)
  refusal flags crds panic lacks e = rw e (refused lacks λ p. cc p)

  manager_calls :
      (flags : Flags)
      → map call_of (new_manager group_name label_namespace flags.monitored_id flags.max_workers)
        ≡ all_calls flags.max_workers
  unfolding new_manager within add_hooks mutating_webhooks pod_webhook statefulset_webhook
      add_to_manager add_quarks_statefulset add_quarks_statefulset_status add_statefulset_rollout
      add_statefulset_active_passive
  manager_calls flags = refl

  manager_checked :
      (flags : Flags)
      → are_checked (new_manager group_name label_namespace flags.monitored_id flags.max_workers)
        ≡ true
  unfolding new_manager within add_hooks mutating_webhooks pod_webhook statefulset_webhook
      add_to_manager add_quarks_statefulset add_quarks_statefulset_status add_statefulset_rollout
      add_statefulset_active_passive
  manager_checked flags = refl

  all_checked :
      (flags : Flags)
      → are_checked (apply apply_crds) ≡ true
      → are_checked (before_flags ++ after_flags apply group_name label_namespace flags) ≡ true
  unfolding before_flags after_flags config_of
  all_checked flags applied =
      simp (are_checked-append, are_checked-within, applied, manager_checked flags)

  calls_made :
      (flags : Flags)
      → map call_of (before_flags ++ after_flags apply group_name label_namespace flags)
        ≡ command_calls (map call_of (apply apply_crds)) flags
  unfolding before_flags after_flags config_of
  calls_made flags = simp (map-append, call_of-within, manager_calls flags)

  -- However the libraries answer, and whatever cmd.ApplyCRDs makes of the function that applies the
  -- resource definition, as long as it checks its calls, the command without a server for the
  -- webhooks fails after the one call for the configuration. With one it makes the calls of the full
  -- set-up in order, and starts the manager last: either all of them, each of which succeeded or has
  -- no error to return, and then it succeeds, or such ones up to one that fails, and then it does not.
  pub run_command-Commanded :
      (flags : Flags)
      → are_checked (apply apply_crds) ≡ true
      → Commanded answer
          (map call_of (apply apply_crds))
          flags
          (run_command apply group_name label_namespace answer flags)
  unfolding run_command
  run_command-Commanded flags applied = elim (Bool-cases (lacks_webhook_server flags)) [
    | inl lacks ↦ rw lacks (refusal flags _ (answer SetupCall.kube_config) lacks refl)
    | inr has ↦ rw has (
        went_on has (
          subst (Ran answer (command_calls (map call_of (apply apply_crds)) flags))
            (run-append answer before_flags (after_flags apply group_name label_namespace flags))
            (subst
              (λ calls.
                Ran answer calls
                  (run answer (before_flags ++ after_flags apply group_name label_namespace flags)))
              (calls_made flags) (run-Ran answer _ (all_checked flags applied)))))
  ]
