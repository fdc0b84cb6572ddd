-- ===== src/Kube/Schema.antt =====
-- The JSON form of a QuarksStatefulSet (the tags of types.go) and the schema of its resource
-- definition (register.go, both in pkg/kube/apis/quarksstatefulset/v1alpha1).
pub mod Conforms
use quarks_statefulset.Prelude.{
  String, ◌<>◌, Bool, true, false, ◌==◌, Option, none, some, List, [], ◌∷◌, ℤ, negsuc, eqb_ℤ,
  StringMap, is_some, if◌then◌else◌,
}
use quarks_statefulset.Kube.Types.{
  StatefulSet, Probe, QuarksStatefulSetSpec, QuarksStatefulSetStatus,
}

-- extv1.JSONSchemaProps by its Type; `preserves` is XPreserveUnknownFields. `anything` and `nothing`
-- are what a field that is not declared has to meet.
mutual
  pub data Schema : Type 0 where
    anything nothing string boolean : Schema
    array : Schema → Schema
    object : (preserves : Bool) → Properties → (required : List String) → Schema

  pub data Properties : Type 0 where
    no_more : Properties
    property : String → Schema → Properties → Properties

mutual
  pub data Json : Type 0 where
    null : Json
    bool : Bool → Json
    text : String → Json
    arr : Items → Json
    obj : Fields → Json

  pub data Items : Type 0 where
    nil : Items
    item : Json → Items → Items

  pub data Fields : Type 0 where
    end : Fields
    field : String → Json → Fields → Fields

unfoldable pub spec_schema : Schema
spec_schema =
    object false
      (property "template" (object true no_more []) (
        property "updateOnConfigChange" boolean (
          property "activePassiveProbes" (object true no_more []) (
            property "injectReplicasEnv" boolean
              (property "zoneNodeLabel" string (property "zones" (array string) no_more))))))
      ("template" ∷ [])

unfoldable pub status_schema : Schema
status_schema = object false (property "lastReconcile" string (property "ready" boolean no_more)) []

unfoldable pub resource_schema : Schema
unfolding spec_schema status_schema
resource_schema =
    object false (property "spec" spec_schema (property "status" status_schema no_more)) []

-- The name of the resource definition, with names.GroupName of quarks-utils.
unfoldable pub resource_name : String → String
resource_name group_name = "quarksstatefulsets" <> "." <> group_name

unfoldable pub json_strings : List String → Items
json_strings [] = nil
json_strings (s ∷ ss) = item (text s) (json_strings ss)

-- A field with `omitempty`.
unfoldable pub omit : Bool → String → Json → Fields → Fields
omit true key value rest = rest
omit false key value rest = field key value rest

-- Zones, probes and the flag, left out where they are nil or empty.
unfoldable pub json_zones : List String → Fields → Fields
json_zones [] rest = rest
json_zones (z ∷ zs) rest = field "zones" (arr (json_strings (z ∷ zs))) rest

unfoldable pub json_flag : Option Bool → Fields
json_flag none = end
json_flag (some b) = field "injectReplicasEnv" (bool b) end

-- The JSON of a corev1.Probe.
module _ (probe_json : Probe → Json) where
  json_probe_fields : List (String × Probe) → Fields
  json_probe_fields [] = end
  json_probe_fields ((k, p) ∷ ps) = field k (probe_json p) (json_probe_fields ps)

  unfoldable pub json_probes : Option (List (String × Probe)) → Fields → Fields
  unfolding json_probe_fields
  json_probes none rest = rest
  json_probes (some []) rest = rest
  json_probes (some (p ∷ ps)) rest =
      field "activePassiveProbes" (obj (json_probe_fields (p ∷ ps))) rest

  -- With that of an appsv1.StatefulSet, which is an object.
  module _ (template_json : StatefulSet → Fields) where
    unfoldable pub json_spec : QuarksStatefulSetSpec → Json
    json_spec s = obj (
        field "updateOnConfigChange" (bool s.update_on_config_change) (
          omit (s.zone_node_label == "") "zoneNodeLabel" (text s.zone_node_label) (
            json_zones s.zones (
              field "template" (obj (template_json s.template))
                (json_probes s.active_passive_probes (json_flag s.inject_replicas_env))))))

-- time.Time.IsZero, of nanoseconds since 1970: the first second of the year 1.
abbrev pub is_zero_time : ℤ → Bool
is_zero_time t = eqb_ℤ t (negsuc 62135596799999999999)

-- The text of a metav1.Time, which is null where the time is zero. A pointer without `omitempty` is
-- written as null where it is nil.
module _ (time_text : ℤ → String) where
  unfoldable pub json_time : Option ℤ → Json
  json_time none = null
  json_time (some t) = if is_zero_time t then null else text (time_text t)

  unfoldable pub json_status : QuarksStatefulSetStatus → Json
  json_status s =
      obj (field "lastReconcile" (json_time s.last_reconcile) (field "ready" (bool s.ready) end))
