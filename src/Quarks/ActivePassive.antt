-- ===== src/Quarks/ActivePassive.antt =====
-- quarksstatefulset/active_passive_reconciler.go.
pub mod Marks
pub mod Round
pub mod Sweeps
use quarks_statefulset.Prelude.{
  String, Bool, true, false, Option, none, some, List, [], ◌∷◌, ℤ, pos, ◌*ℤ◌, eqb_ℤ, StringMap,
  lookup, insert, erase, has, is_some, Outcome, ok, err, panic, message, deref, Error,
  if◌then◌else◌,
}
use quarks_statefulset.Names.Label
use quarks_statefulset.Kube.Types.{Key, StatefulSet, QuarksStatefulSet, Pod, Probe, Result}
use quarks_statefulset.Kube.Calls.{Exec, pure, fail, crash, lift, annotate, on_result, ◌>>=◌, ◌>>◌}
use quarks_statefulset.Kube.Env.{Env}
use quarks_statefulset.Kube.Client.{get_quarks, list_pods, update_pod, exec_command}
use quarks_statefulset.Quarks.Versions.{get_max_statefulset_version}
use quarks_statefulset.Quarks.Reconcile.{no_result}

-- Any key of the map: the first, in the order that the range over the map has.
unfoldable pub get_probe_container_name : Option (List (String × Probe)) → Outcome String
get_probe_container_name none =
    err (message "failed to find a container key in the active/passive probe")
get_probe_container_name (some []) =
    err (message "failed to find a container key in the active/passive probe")
get_probe_container_name (some ((container, probe) ∷ probes)) = ok container

abbrev pub probe_of : Option (List (String × Probe)) → String → Option Probe
probe_of none container = none
probe_of (some probes) container = lookup container probes

-- `ActivePassiveProbes[container].Exec.Command`: a nil Exec panics, also that of a missing probe.
unfoldable pub probe_command : Option Probe → Outcome (List String)
probe_command none = panic
probe_command (some probe) = deref probe.command

abbrev pub with_labels : Pod → StringMap → Pod
with_labels p labels = record p { meta = record p.meta { labels = labels } }

-- A missing probe has the period 0.
abbrev pub period_of : Option Probe → ℤ
period_of none = pos 0
period_of (some probe) = probe.period_seconds

unfoldable pub requeue_period : Option Probe → ℤ
requeue_period probe =
    let ps = pos 1000000000 *ℤ period_of probe in if eqb_ℤ ps (pos 0) then pos 30000000000 else ps

module _ (env : Env) where
  -- A pod without a label map: the new map gets the label, but the pod does not get the map.
  add_label : Pod → StringMap → Exec (Unit {0})
  add_label p none = update_pod env p
  add_label p (some labels) =
      if is_some (lookup Label.active_pod labels)
      then pure tt
      else update_pod env (with_labels p (some (insert Label.active_pod "active" labels)))

  unfoldable pub add_active_label : Pod → Exec (Unit {0})
  unfolding add_label
  add_active_label p = add_label p p.meta.labels

  delete_label : Pod → StringMap → Exec (Unit {0})
  delete_label p none = pure tt
  delete_label p (some labels) =
      if is_some (lookup Label.active_pod labels)
      then update_pod env (with_labels p (some (erase Label.active_pod labels)))
      else pure tt

  unfoldable pub delete_active_label : Pod → Exec (Unit {0})
  unfolding delete_label
  delete_active_label p = delete_label p p.meta.labels

  -- After the probe succeeded.
  mark_active : Bool → Pod → Exec (Unit {0})
  mark_active true p = annotate "couldn't label pod as active" (add_active_label p)
  mark_active false p = pure tt

  unfoldable pub exec_container_cmd : Pod → String → List String → Exec (Unit {0})
  exec_container_cmd p container command =
      on_result (lift (env.executor_for p container command))
        (λ executor.
          annotate "failed executing command in pod" (exec_command env p container command))
        (λ e. fail (message "failed to initialize remote command executor"))

  unfoldable pub mark_pod : String → List String → Pod → Exec (Unit {0})
  unfolding mark_active
  mark_pod container command p =
      on_result (exec_container_cmd p container command)
        (λ done. mark_active (env.is_pod_ready p) p)
        (λ e. annotate "couldn't remove label from active pod" (delete_active_label p))

  unfoldable pub mark_pods : String → List String → List Pod → Exec (Unit {0})
  mark_pods container command [] = pure tt
  mark_pods container command (p ∷ ps) = do
    mark_pod container command p
    mark_pods container command ps

  unfoldable pub mark_active_containers : String → List Pod → QuarksStatefulSet → Exec (Unit {0})
  mark_active_containers container pods q = do
    command ← lift (probe_command (probe_of q.spec.active_passive_probes container))
    mark_pods container command pods

  unfoldable pub get_sts_pod_list : StatefulSet → Exec (List Pod)
  get_sts_pod_list s = list_pods env s.meta.namespace (some ((Label.qsts_name, s.meta.name) ∷ []))

  unfoldable pub mark_statefulsets : String → QuarksStatefulSet → List StatefulSet → Exec (Unit {0})
  mark_statefulsets container q [] = pure tt
  mark_statefulsets container q (s ∷ ss) = do
    pods ← annotate "couldn't retrieve pod items from sts" (get_sts_pod_list s)
    mark_active_containers container pods q
    mark_statefulsets container q ss

  unfoldable pub reconcile_read : QuarksStatefulSet → Exec Result
  reconcile_read q = do
    (statefulsets, version) ←
        annotate "couldn't list StatefulSets for active/passive reconciliation"
          (get_max_statefulset_version env q)
    container ←
        annotate "None container name found in probe"
          (lift (get_probe_container_name q.spec.active_passive_probes))
    mark_statefulsets container q statefulsets
    pure (record {
      requeue = false;
      requeue_after = requeue_period (probe_of q.spec.active_passive_probes container);
    })

  unfoldable pub reconcile : Key → Exec Result
  reconcile key =
      on_result (get_quarks env key) (λ q. reconcile_read q)
        (λ e. if env.is_not_found e then pure no_result else fail e)
