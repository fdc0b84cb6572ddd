-- ===== src/Quarks/Reconcile/Overwrites.antt =====
-- What StatefulSetMutateFn (pkg/kube/util/mutate/mutate.go) makes of the rollout of a StatefulSet
-- that the QuarksStatefulSet reconciler writes again with the same template.
use quarks_statefulset.Prelude.{
  String, false, none, some, List, ℤ, ◌≡◌, refl, sym, ap, subst, ◌∙◌, ◌==◌, get, lookup,
  lookup-insert, insert, Outcome, ok, err, panic, ok_injective, map_outcome, inr, StringMap,
  Bool-cases, inl,
}
use quarks_statefulset.Names.Annotation
use quarks_statefulset.Kube.Types.{StatefulSet, QuarksStatefulSet, PodSpec}
use quarks_statefulset.Kube.Admission.{Request, patched, Codec}
use quarks_statefulset.Kube.Calls.{History}
use quarks_statefulset.Kube.Env.{Env, UnitesMaps}
use quarks_statefulset.Quarks.Affinity.{update_affinity}
use quarks_statefulset.Quarks.Generate.{
  name_prefix, zones_annotation, zone_labels, template_annotations, placed, labelled,
  generate_single_statefulset,
}
use quarks_statefulset.Quarks.Reconcile.{mutate_statefulset}
use quarks_statefulset.Rollout.Trigger.{check_update, check_state}
use quarks_statefulset.Rollout.Webhook.{handle}
use quarks_statefulset.Rollout.Webhook.Starts.{handle_leaves}

-- The annotations that a generated StatefulSet gets say nothing of the state of a rollout.
stateless :
    (version zone : String) (zones : List String)
    → lookup Annotation.canary_rollout
        (insert Annotation.version version (template_annotations zones zone))
      ≡ none
unfolding template_annotations
stateless version zone zones =
    lookup-insert Annotation.version Annotation.canary_rollout version
      (insert Annotation.canary_rollout_enabled "true" (zones_annotation zones zone))
    ∙ lookup-insert Annotation.canary_rollout_enabled Annotation.canary_rollout "true"
        (zones_annotation zones zone)
    ∙ elim (Bool-cases (zone == "")) [ inl e ↦ rw e refl | inr e ↦ rw e refl ]

placed-keeps :
    (s : StatefulSet) (label zone : String)
    → ((placed s label zone).meta ≡ s.meta)
      × ((placed s label zone).spec.update_strategy ≡ s.spec.update_strategy)
unfolding placed update_affinity
placed-keeps s label zone = elim (Bool-cases (zone == "")) [
  | inl e ↦ rw e (refl, refl)
  | inr e ↦ rw e (refl, refl)
]

no_event :
    (old left : StatefulSet)
    → get left.meta.annotations Annotation.canary_rollout ≡ none
    → check_update old left ≡ false
unfolding check_update check_state
no_event old left e = rw e

module _ (env : Env) (law : UnitesMaps env) where
  united_none :
      (a : StringMap) (b : List (String × String)) (k : String)
      → get a k ≡ none
      → lookup k b ≡ none
      → get (env.union_maps a (some b)) k ≡ none
  united_none a b k ea eb = rw (law.united a (some b) k) (rw eb ea)

  -- A generated StatefulSet has no state, and the update strategy of the template.
  IsStateless : StatefulSet → StatefulSet → Type 0
  IsStateless template s =
      (get s.meta.annotations Annotation.canary_rollout ≡ none)
      × (s.spec.update_strategy ≡ template.spec.update_strategy)

  module _ (q : QuarksStatefulSet) (template : StatefulSet) (zone_index : ℤ) (zone : String)
      (version : ℤ) where
    abbrev here : StatefulSet
    here = placed template q.spec.zone_node_label zone

    abbrev make : PodSpec → StatefulSet
    make =
        labelled env here (name_prefix q.meta.name zone_index zone)
          (zone_labels (name_prefix q.meta.name zone_index zone) zone_index zone)
          (template_annotations q.spec.zones zone) version

    make-IsStateless :
        (spec : PodSpec)
        → get template.meta.annotations Annotation.canary_rollout ≡ none
        → IsStateless template (make spec)
    unfolding labelled IsStateless
    make-IsStateless spec free =
        let (same_meta, same_strategy) = placed-keeps template q.spec.zone_node_label zone in
        (
          united_none here.meta.annotations _ Annotation.canary_rollout
              (ap (λ m. get m.annotations Annotation.canary_rollout) same_meta ∙ free)
              (stateless _ zone q.spec.zones),
          same_strategy,
        )

    made-IsStateless :
        (s : StatefulSet) (o : Outcome PodSpec)
        → map_outcome make o ≡ ok s
        → get template.meta.annotations Annotation.canary_rollout ≡ none
        → IsStateless template s
    made-IsStateless s (ok spec) e free =
        subst (IsStateless template) (ok_injective e) (make-IsStateless spec free)
    made-IsStateless s (err x) e free = cc e
    made-IsStateless s panic e free = cc e

    generated-IsStateless :
        (s : StatefulSet)
        → generate_single_statefulset env q template zone_index zone version ≡ ok s
        → get template.meta.annotations Annotation.canary_rollout ≡ none
        → IsStateless template s
    unfolding generate_single_statefulset
    generated-IsStateless s e free = made-IsStateless s _ e free

    -- Where a StatefulSet is generated from a template with no rollout state, and is written, with
    -- an owner, over one that has the same pod template, the webhook leaves the object as it was
    -- written: with no state of a rollout, with the update strategy of the QuarksStatefulSet, and so
    -- that CheckUpdate lets no event of it pass. The law is that of UnionMaps; the owner changes
    -- neither the annotations nor the spec.
    pub mutate_statefulset-forgets :
        (webhook : Env) (codec : Codec StatefulSet) (req : Request)
        (s owned held left : StatefulSet) (text : String) (h : History)
        → generate_single_statefulset env q template zone_index zone version ≡ ok s
        → get template.meta.annotations Annotation.canary_rollout ≡ none
        → owned.spec ≡ s.spec
        → owned.meta.annotations ≡ s.meta.annotations
        → held.spec.template ≡ s.spec.template
        → mutate_statefulset owned held ≡ ok left
        → (req.operation == "CREATE") ≡ false
        → codec.decode req.object ≡ ok left
        → codec.decode req.old_object ≡ ok held
        → codec.marshal left ≡ ok text
        → (handle webhook codec req h ≡ (ok (patched req.object text), h))
          × (get left.meta.annotations Annotation.canary_rollout ≡ none)
          × (left.spec.update_strategy ≡ template.spec.update_strategy)
          × ((old : StatefulSet) → check_update old left ≡ false)
    unfolding mutate_statefulset IsStateless
    mutate_statefulset-forgets webhook codec req s owned held left text h e free same_spec
          same_annotations same_template written update decoded old_decoded marshals =
        let (no_state, strategy) = generated-IsStateless s e free in
        let is_left = ok_injective written in
        let state : get left.meta.annotations Annotation.canary_rollout ≡ none =
          ap (λ (t : StatefulSet). get t.meta.annotations Annotation.canary_rollout) (sym is_left)
          ∙ ap (λ m. get m Annotation.canary_rollout) same_annotations
          ∙ no_state in
        (
          handle_leaves webhook codec req left held text h decoded marshals (
              inr (
                update,
                old_decoded,
                ap (λ (t : StatefulSet). t.spec.template) (sym is_left)
                    ∙ ap (λ spec. spec.template) same_spec
                    ∙ sym same_template,
              )),
          state,
          ap (λ (t : StatefulSet). t.spec.update_strategy) (sym is_left)
              ∙ ap (λ spec. spec.update_strategy) same_spec
              ∙ strategy,
          λ old. no_event old left state,
        )
