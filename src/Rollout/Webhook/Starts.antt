-- ===== src/Rollout/Webhook/Starts.antt =====
-- What the webhook makes of a StatefulSet.
use quarks_statefulset.Prelude.{
  String, true, false, Option, none, some, List, ◌∷◌, ℤ, pos, insert, ◌≡◌, ◌==◌, ok, deref,
  deep_equal_of_eq, Option-cases, Bool-cases, inl, inr, ◌⊎◌,
}
use quarks_statefulset.Names.Annotation
use quarks_statefulset.Names.State
use quarks_statefulset.Text.Decimal.{itoa}
use quarks_statefulset.Kube.Types.{StatefulSet}
use quarks_statefulset.Kube.Equality.{PodTemplateSpec-discrete}
use quarks_statefulset.Kube.Admission.{Request, patched, Codec}
use quarks_statefulset.Kube.Calls.{Call, History, lift, ◌>>=◌}
use quarks_statefulset.Kube.Env.{Env}
use quarks_statefulset.Kube.Client.{read_clock}
use quarks_statefulset.Rollout.Update.{with_annotations}
use quarks_statefulset.Rollout.Webhook.{
  with_strategy, unix, is_controlled_rollout, start_annotations, configure_for_rollout,
  configure_for_initial_rollout, handle,
}

-- The object with the two annotations that start a rollout, and a partition.
abbrev pub started : List (String × String) → String → ℤ → ℤ → StatefulSet → StatefulSet
started m state now partition s = with_annotations (with_strategy s partition) (
    some (
      insert Annotation.update_start_time (itoa (unix now))
        (insert Annotation.canary_rollout state m)))

not_controlled_of_nil :
    (s : StatefulSet) → s.meta.annotations ≡ none → is_controlled_rollout s ≡ false
unfolding is_controlled_rollout
not_controlled_of_nil s e = rw e

pub controlled_annotations :
    (s : StatefulSet)
    → is_controlled_rollout s ≡ true
    → (m : List (String × String)) × (s.meta.annotations ≡ some m)
controlled_annotations s h = elim (Option-cases s.meta.annotations) [
  | inl e ↦ absurd (cc (h, not_controlled_of_nil s e))
  | inr found ↦ found
]

module _ (env : Env) where
  pub start_annotations_lem :
      (s : StatefulSet) (m : List (String × String)) (state : String) (partition : ℤ) (h : History)
      → s.meta.annotations ≡ some m
      → start_annotations env state (with_strategy s partition) h
        ≡ (ok (started m state (env.clock h) partition s), Call.read_clock ∷ h)
  unfolding start_annotations read_clock ◌>>=◌
  start_annotations_lem s m state partition h e = rw e

  wanted_replicas :
      (s : StatefulSet) (m : List (String × String)) (o : Option ℤ) (replicas : ℤ) (h : History)
      → s.meta.annotations ≡ some m
      → o ≡ some replicas
      → (lift (deref o) >>= λ r.
            start_annotations env State.pending
              (with_strategy s (env.min_int32 r s.status.replicas)))
          h
        ≡ (
          ok (started m State.pending (env.clock h) (env.min_int32 replicas s.status.replicas) s),
          Call.read_clock ∷ h,
        )
  unfolding ◌>>=◌
  wanted_replicas s m o replicas h e w =
      rw w (start_annotations_lem s m State.pending (env.min_int32 replicas s.status.replicas) h e)

  pub configure_for_rollout_lem :
      (s : StatefulSet) (m : List (String × String)) (replicas : ℤ) (h : History)
      → s.meta.annotations ≡ some m
      → s.spec.replicas ≡ some replicas
      → configure_for_rollout env s h ≡ (
        ok (started m State.pending (env.clock h) (env.min_int32 replicas s.status.replicas) s),
        Call.read_clock ∷ h,
      )
  unfolding configure_for_rollout
  configure_for_rollout_lem s m replicas h e w = wanted_replicas s m s.spec.replicas replicas h e w

  pub configure_for_initial_rollout_lem :
      (s : StatefulSet) (m : List (String × String)) (h : History)
      → s.meta.annotations ≡ some m
      → configure_for_initial_rollout env s h
        ≡ (ok (started m State.canary_upscale (env.clock h) (pos 0) s), Call.read_clock ∷ h)
  unfolding configure_for_initial_rollout
  configure_for_initial_rollout_lem s m h e =
      start_annotations_lem s m State.canary_upscale (pos 0) h e

  -- An object that is not under a controlled rollout, or an update that keeps the template, comes
  -- back as it was decoded, and nothing is called.
  pub handle_leaves :
      (codec : Codec StatefulSet) (req : Request) (s old : StatefulSet) (text : String)
      (h : History)
      → codec.decode req.object ≡ ok s
      → codec.marshal s ≡ ok text
      → (is_controlled_rollout s ≡ false)
        ⊎ (((req.operation == "CREATE") ≡ false)
            × (codec.decode req.old_object ≡ ok old)
            × (s.spec.template ≡ old.spec.template))
      → handle env codec req h ≡ (ok (patched req.object text), h)
  unfolding handle ◌>>=◌
  handle_leaves codec req s old text h decoded marshals (inl free) = rw (decoded, free, marshals)
  handle_leaves codec req s old text h decoded marshals (inr (update, old_decoded, same)) =
      elim (Bool-cases (is_controlled_rollout s)) [
        | inl controlled ↦ rw (
          decoded,
          controlled,
          update,
          old_decoded,
          deep_equal_of_eq PodTemplateSpec-discrete _ _ same,
          marshals,
        )
        | inr free ↦ rw (decoded, free, marshals)
      ]
