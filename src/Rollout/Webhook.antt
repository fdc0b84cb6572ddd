-- ===== src/Rollout/Webhook.antt =====
-- The webhook that starts a rollout: ConfigureStatefulSetForRollout and
-- ConfigureStatefulSetForInitialRollout of statefulset_rollout_util.go, and Mutator.Handle of
-- statefulset_webhook.go.
pub mod Starts
pub mod Answers
pub mod Reviews
use quarks_statefulset.Prelude.{
  ℕ, ◌/◌, String, Bool, true, false, not, Option, none, some, ℤ, pos, negsuc, get, put, deref, ◌==◌,
  Outcome, ok, err, panic, StringMap, deep_equal, if◌then◌else◌,
}
use quarks_statefulset.Names.Annotation
use quarks_statefulset.Names.State
use quarks_statefulset.Text.Decimal.{itoa}
use quarks_statefulset.Kube.Types.{StatefulSet}
use quarks_statefulset.Kube.Equality.{PodTemplateSpec-discrete}
use quarks_statefulset.Kube.Admission.{Request, Response, errored, patched, Codec}
use quarks_statefulset.Kube.Calls.{Exec, pure, lift, crash, ◌>>=◌}
use quarks_statefulset.Kube.Env.{Env}
use quarks_statefulset.Kube.Client.{read_clock}
use quarks_statefulset.Rollout.Update.{with_annotations, with_partition}

-- time.Time.Unix: whole seconds, rounded down.
abbrev pub unix : ℤ → ℤ
unix (pos n) = pos (n / 1000000000)
unix (negsuc n) = negsuc (n / 1000000000)

-- The update strategy is set anew, whatever it was.
abbrev pub with_strategy : StatefulSet → ℤ → StatefulSet
with_strategy s partition = record s {
  spec = record s.spec {
    update_strategy = record { type = "RollingUpdate"; rolling_update = some (some partition) };
  };
}

-- isControlledRolloutStatefulSet: the annotation must be there and say "true".
abbrev is_true : Option String → Bool
is_true none = false
is_true (some enabled) = enabled == "true"

unfoldable pub is_controlled_rollout : StatefulSet → Bool
is_controlled_rollout s = is_true (get s.meta.annotations Annotation.canary_rollout_enabled)

module _ (env : Env) where
  -- The two annotations that start a rollout.
  pub start_annotations : String → StatefulSet → Exec StatefulSet
  start_annotations state s = do
    annotations ← lift (put Annotation.canary_rollout state s.meta.annotations)
    now ← read_clock env
    annotations' ← lift (put Annotation.update_start_time (itoa (unix now)) annotations)
    pure (with_annotations s annotations')

  unfoldable pub configure_for_rollout : StatefulSet → Exec StatefulSet
  unfolding start_annotations
  configure_for_rollout s = do
    replicas ← lift (deref s.spec.replicas)
    start_annotations State.pending (with_strategy s (env.min_int32 replicas s.status.replicas))

  unfoldable pub configure_for_initial_rollout : StatefulSet → Exec StatefulSet
  unfolding start_annotations
  configure_for_initial_rollout s = start_annotations State.canary_upscale (with_strategy s (pos 0))

  module _ (codec : Codec StatefulSet) where
    -- json.Marshal and the patch from the raw object.
    abbrev answer : Request → Outcome String → Exec Response
    answer req (ok marshaled) = pure (patched req.object marshaled)
    answer req (err e) = pure (errored 500 e)
    answer req panic = crash

    respond : Request → Exec StatefulSet → Exec Response
    respond req mutate = do s ← mutate; answer req (codec.marshal s)

    -- An update starts a rollout if it changes the template.
    unless_same_template : Bool → StatefulSet → Exec StatefulSet
    unless_same_template true s = pure s
    unless_same_template false s = configure_for_rollout s

    on_update : Request → StatefulSet → Outcome StatefulSet → Exec Response
    on_update req s (err e) = pure (errored 400 e)
    on_update req s panic = crash
    on_update req s (ok old) = respond req (
        unless_same_template (deep_equal PodTemplateSpec-discrete s.spec.template old.spec.template)
          s)

    on_controlled : Bool → Request → StatefulSet → Exec Response
    on_controlled true req s = respond req (configure_for_initial_rollout s)
    on_controlled false req s = on_update req s (codec.decode req.old_object)

    on_decoded : Bool → Request → StatefulSet → Exec Response
    on_decoded true req s = on_controlled (req.operation == "CREATE") req s
    on_decoded false req s = respond req (pure s)

    on_object : Request → Outcome StatefulSet → Exec Response
    on_object req (err e) = pure (errored 400 e)
    on_object req panic = crash
    on_object req (ok s) = on_decoded (is_controlled_rollout s) req s

    unfoldable pub handle : Request → Exec Response
    unfolding respond unless_same_template on_update on_controlled on_decoded on_object
    handle req = on_object req (codec.decode req.object)
