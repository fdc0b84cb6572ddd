-- ===== src/Scenarios/Probes.antt =====
-- A round of the active/passive reconciler over two StatefulSets with two pods each.
use quarks_statefulset.Prelude.{false, none, some, List, [], ◌∷◌, ◌≡◌, refl, ℤ, pos, ok}
use quarks_statefulset.Kube.Types.{StatefulSet, QuarksStatefulSet, Result}
use quarks_statefulset.Kube.Calls.{History, ◌>>=◌}
use quarks_statefulset.Kube.Client.{list_statefulsets, list_pods, update_pod, exec_command}
use quarks_statefulset.Kube.Env.{Env}
use quarks_statefulset.Names.Annotation
use quarks_statefulset.Scenarios.Fake.{fake}
use quarks_statefulset.Scenarios.Objects.{sts, qsts, cluster, ready_pods}
use quarks_statefulset.Text.Decimal.{parse_int64}
use quarks_statefulset.Quarks.Versions.{
  version_of, keep, scan, or_default, filter_by_owner, list_owned_statefulsets,
  get_max_statefulset_version,
}
use quarks_statefulset.Quarks.ActivePassive.{
  get_probe_container_name, probe_of, probe_command, requeue_period, add_active_label,
  exec_container_cmd, mark_pod, mark_pods, mark_active_containers, get_sts_pod_list,
  mark_statefulsets, reconcile_read,
}
use quarks_statefulset.Quarks.ActivePassive.Sweeps.{Covers, reconcile_read-Covers}

abbrev probing : QuarksStatefulSet
probing = record (qsts []) {
  spec = record ((qsts []).spec) {
    active_passive_probes = some (
        ("app", record { command = some ("check" ∷ []); period_seconds = pos 5; other = "" }) ∷ []);
  };
}

abbrev newest : StatefulSet
newest = sts none (pos 2) (pos 2) ((Annotation.version, "1") ∷ [])

abbrev env : Env
env = fake (record (cluster newest ready_pods) { listed = newest ∷ newest ∷ [] })

abbrev outcome : Result
outcome = record { requeue = false; requeue_after = pos 5000000000 }

abbrev calls : History
calls = (reconcile_read env probing []).1

round_ends : reconcile_read env probing [] ≡ (ok outcome, calls)
unfolding reconcile_read get_max_statefulset_version list_owned_statefulsets list_statefulsets
    filter_by_owner scan version_of keep or_default parse_int64 get_probe_container_name
    probe_command mark_statefulsets mark_active_containers get_sts_pod_list list_pods mark_pods
    mark_pod exec_container_cmd exec_command add_active_label update_pod requeue_period ◌>>=◌
round_ends = refl

chooses_app : get_probe_container_name probing.spec.active_passive_probes ≡ ok "app"
unfolding get_probe_container_name
chooses_app = refl

runs_check : probe_command (probe_of probing.spec.active_passive_probes "app") ≡ ok ("check" ∷ [])
unfolding probe_command
runs_check = refl

reconcile_read-Covers_example :
    (ss : List StatefulSet) × (version : ℤ) × (found : History) × (get_max_statefulset_version env
        probing []
      ≡ (ok (ss, version), found))
    × Covers env "app" ("check" ∷ []) ss found calls
reconcile_read-Covers_example =
    reconcile_read-Covers env probing "app" ("check" ∷ []) [] chooses_app runs_check round_ends
