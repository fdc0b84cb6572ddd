-- ===== src/Quarks/Generate/Labels.antt =====
-- The names, labels and version of a generated StatefulSet.
use text.Mathlib.TextLemmas.{append_cancel_left}
use quarks_statefulset.Prelude.{
  ℕ, String, ◌<>◌, false, List, some, ℤ, pos, ◌≡◌, ◌≢◌, refl, sym, subst, ◌∙◌, ◌==◌, StringMap, get,
  insert, lookup, lookup-insert, get-insert_self, Outcome, ok, err, panic, ok_injective,
  map_outcome,
}
use quarks_statefulset.Names.Annotation
use quarks_statefulset.Names.Label
use quarks_statefulset.Text.Decimal.{itoa, IsInt64}
use quarks_statefulset.Text.Decimal.RoundTrip.{itoa-pos_injective}
use quarks_statefulset.Kube.Types.{StatefulSet, QuarksStatefulSet, PodSpec}
use quarks_statefulset.Kube.Env.{Env, UnitesMaps}
use quarks_statefulset.Quarks.Versions.{version_of}
use quarks_statefulset.Quarks.Versions.Stored.{version_of-itoa}
use quarks_statefulset.Quarks.Envs.{inject_container_env}
use quarks_statefulset.Quarks.Generate.{
  name_prefix, az_name_label, zones_annotation, zone_labels, template_annotations, placed, labelled,
  generate_single_statefulset,
}

prefix_of_zone :
    (name : String) (i : ℕ) (zone : String)
    → (zone == "") ≡ false
    → name_prefix name (pos i) zone ≡ name <> "-z" <> itoa (pos i)
unfolding name_prefix
prefix_of_zone name i zone n = rw n refl

-- Two zones of one QuarksStatefulSet, at different places in its list, get different names.
pub name_prefix_distinct :
    (name : String) (i j : ℕ) (zone zone' : String)
    → (zone == "") ≡ false
    → (zone' == "") ≡ false
    → i ≢ j
    → name_prefix name (pos i) zone ≢ name_prefix name (pos j) zone'
name_prefix_distinct name i j zone zone' n n' differ e =
    let tails = sym (prefix_of_zone name i zone n) ∙ e ∙ prefix_of_zone name j zone' n' in
    differ
      (itoa-pos_injective i j (append_cancel_left "-z" _ _ (append_cancel_left name _ _ tails)))

lookup_version :
    (version : String) (m : List (String × String))
    → lookup Annotation.version (insert Annotation.version version m) ≡ some version
lookup_version version m = get-insert_self Annotation.version version m

labels_name :
    (prefix : String) (i : ℤ) (zone : String)
    → lookup Label.qsts_name (zone_labels prefix i zone) ≡ some prefix
unfolding zone_labels
labels_name prefix i zone =
    get-insert_self Label.qsts_name prefix (insert Label.az_index (itoa i) (az_name_label zone))

labels_index :
    (prefix : String) (i : ℤ) (zone : String)
    → lookup Label.az_index (zone_labels prefix i zone) ≡ some (itoa i)
unfolding zone_labels
labels_index prefix i zone =
    lookup-insert Label.qsts_name Label.az_index prefix
      (insert Label.az_index (itoa i) (az_name_label zone))
    ∙ get-insert_self Label.az_index (itoa i) (az_name_label zone)

annotations_control :
    (version : String) (zones : List String) (zone : String)
    → lookup Annotation.canary_rollout_enabled
        (insert Annotation.version version (template_annotations zones zone))
      ≡ some "true"
unfolding template_annotations
annotations_control version zones zone =
    lookup-insert Annotation.version Annotation.canary_rollout_enabled version
      (insert Annotation.canary_rollout_enabled "true" (zones_annotation zones zone))
    ∙ get-insert_self Annotation.canary_rollout_enabled "true" (zones_annotation zones zone)

module _ (env : Env) (law : UnitesMaps env) where
  -- What holds of a generated StatefulSet.
  pub record IsGenerated (q : QuarksStatefulSet) (zone_index : ℤ) (zone : String) (version : ℤ)
      (s : StatefulSet) : Type 0 where
    pub named : s.meta.name ≡ name_prefix q.meta.name zone_index zone
    pub has_version : version_of s ≡ ok version
    pub selects :
        (k v : String) → get s.spec.selector k ≡ some v → get s.spec.template.labels k ≡ some v
    pub selects_itself : get s.spec.selector Label.qsts_name ≡ some s.meta.name
    pub is_labelled : get s.spec.template.labels Label.az_index ≡ some (itoa zone_index)
    pub is_controlled : get s.meta.annotations Annotation.canary_rollout_enabled ≡ some "true"

  united_some :
      (a : StringMap) (b : List (String × String)) (k v : String)
      → lookup k b ≡ some v
      → get (env.union_maps a (some b)) k ≡ some v
  united_some a b k v e = rw (law.united a (some b) k) (rw e refl)

  labelled-IsGenerated :
      (q : QuarksStatefulSet) (s : StatefulSet) (zone_index : ℤ) (zone : String) (version : ℤ)
      (spec : PodSpec)
      → IsInt64 version
      → IsGenerated q zone_index zone version (
          labelled env s
            (name_prefix q.meta.name zone_index zone)
            (zone_labels (name_prefix q.meta.name zone_index zone) zone_index zone)
            (template_annotations q.spec.zones zone)
            version
            spec)
  unfolding labelled
  labelled-IsGenerated q s zone_index zone version spec fits = record {
    named = refl;
    has_version = version_of-itoa _ version fits (
        united_some _ _ _ _
          (lookup_version (itoa version) (template_annotations q.spec.zones zone)));
    selects = λ k v e. united_some _ _ k v e;
    selects_itself = labels_name _ zone_index zone;
    is_labelled = united_some _ _ _ _ (labels_index _ zone_index zone);
    is_controlled = united_some _ _ _ _ (annotations_control (itoa version) q.spec.zones zone);
  }

  -- A StatefulSet that is generated for a zone and a version of 64 bits has the zone's name and
  -- that version, which can be read back; its selector selects the pods of its template, among
  -- them by its own name; its template has the zone's index; and its rollout is controlled.
  pub generate_single_statefulset-IsGenerated :
      (q : QuarksStatefulSet) (template : StatefulSet) (zone_index : ℤ) (zone : String)
      (version : ℤ)
      → IsInt64 version
      → (s : StatefulSet)
      → generate_single_statefulset env q template zone_index zone version ≡ ok s
      → IsGenerated q zone_index zone version s
  unfolding generate_single_statefulset
  generate_single_statefulset-IsGenerated q template zone_index zone version fits s e =
      go
        (inject_container_env (placed template q.spec.zone_node_label zone).spec.template.spec
          zone_index zone q.spec.template.spec.replicas q.spec.inject_replicas_env)
        e
    where
      make : PodSpec → StatefulSet
      make =
          labelled env (placed template q.spec.zone_node_label zone)
            (name_prefix q.meta.name zone_index zone)
            (zone_labels (name_prefix q.meta.name zone_index zone) zone_index zone)
            (template_annotations q.spec.zones zone) version

      go :
          (o : Outcome PodSpec)
          → map_outcome make o ≡ ok s
          → IsGenerated q zone_index zone version s
      go (ok spec) e' = subst (IsGenerated q zone_index zone version) (ok_injective e') (
          labelled-IsGenerated q (placed template q.spec.zone_node_label zone) zone_index zone
            version spec fits)
      go (err x) e' = cc e'
      go panic e' = cc e'
