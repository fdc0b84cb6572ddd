-- ===== src/Quarks/Generate.antt =====
-- generateSingleStatefulSet of quarksstatefulset_reconciler.go.
pub mod Labels
pub mod Pods
use quarks_statefulset.Prelude.{
  String, ◌<>◌, Bool, true, false, List, [], ◌∷◌, some, ℤ, StringMap, insert, ◌==◌, Outcome,
  map_outcome, if◌then◌else◌,
}
use quarks_statefulset.Names.Annotation
use quarks_statefulset.Names.Label
use quarks_statefulset.Text.Decimal.{itoa}
use quarks_statefulset.Text.Json.{marshal_strings}
use quarks_statefulset.Kube.Types.{StatefulSet, QuarksStatefulSet, PodSpec}
use quarks_statefulset.Kube.Env.{Env}
use quarks_statefulset.Quarks.Affinity.{update_affinity}
use quarks_statefulset.Quarks.Envs.{inject_container_env}

-- The name of the StatefulSet of a zone; the zone "" stands for there being none.
unfoldable pub name_prefix : String → ℤ → String → String
name_prefix name zone_index zone_name =
    if zone_name == "" then name else name <> "-z" <> itoa zone_index

-- Both maps have an entry more for a zone.
abbrev pub az_name_label : String → List (String × String)
az_name_label zone_name = if zone_name == "" then [] else (Label.az_name, zone_name) ∷ []

abbrev pub zones_annotation : List String → String → List (String × String)
zones_annotation zones zone_name =
    if zone_name == "" then [] else (Annotation.zones, marshal_strings zones) ∷ []

-- The map `labels`, complete.
unfoldable pub zone_labels : String → ℤ → String → List (String × String)
zone_labels prefix zone_index zone_name =
    insert Label.qsts_name prefix
      (insert Label.az_index (itoa zone_index) (az_name_label zone_name))

-- The map `annotations`, as the pod template gets it.
unfoldable pub template_annotations : List String → String → List (String × String)
template_annotations zones zone_name =
    insert Annotation.canary_rollout_enabled "true" (zones_annotation zones zone_name)

unfoldable pub placed : StatefulSet → String → String → StatefulSet
placed s zone_node_label zone_name =
    if zone_name == "" then s else update_affinity s zone_node_label zone_name

module _ (env : Env) where
  -- The fields set from the maps; `s` has its affinity, and `spec` is its pod spec with variables.
  unfoldable pub labelled :
      StatefulSet
      → String
      → List (String × String)
      → List (String × String)
      → ℤ
      → PodSpec
      → StatefulSet
  labelled s prefix labels annotations version spec = record s {
    meta = record s.meta {
      name = prefix;
      labels = env.union_maps s.meta.labels (some labels);
      annotations =
          env.union_maps s.meta.annotations
            (some (insert Annotation.version (itoa version) annotations));
    };
    spec = record s.spec {
      selector = some labels;
      template = record s.spec.template {
        labels = env.union_maps s.spec.template.labels (some labels);
        annotations = env.union_maps s.spec.template.annotations (some annotations);
        spec = spec;
      };
    };
  }

  unfoldable pub generate_single_statefulset :
      QuarksStatefulSet → StatefulSet → ℤ → String → ℤ → Outcome StatefulSet
  unfolding name_prefix zone_labels template_annotations placed labelled
  generate_single_statefulset q template zone_index zone_name version =
      let prefix = name_prefix q.meta.name zone_index zone_name in
      let s = placed template q.spec.zone_node_label zone_name in
      map_outcome
        (labelled s prefix (zone_labels prefix zone_index zone_name)
          (template_annotations q.spec.zones zone_name) version)
        (inject_container_env s.spec.template.spec zone_index zone_name
          q.spec.template.spec.replicas q.spec.inject_replicas_env)
