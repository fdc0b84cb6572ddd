-- ===== src/Kube/Schema/Conforms.antt =====
-- When a JSON value conforms to a schema, and that what the operator writes does.
use quarks_statefulset.Prelude.{
  String, Bool, true, false, ◌==◌, Option, none, some, List, [], ◌∷◌, ℤ, ◌&&◌, ◌≡◌, refl, ◌↔◌,
  if◌then◌else◌, arith, negsuc, ◌≢◌, Bool-cases, inl, inr,
}
use quarks_statefulset.Kube.Types.{
  StatefulSet, Probe, QuarksStatefulSetSpec, QuarksStatefulSetStatus,
}
use quarks_statefulset.Kube.Schema.{
  Schema, anything, nothing, string, boolean, array, object, Properties, no_more, property, Json,
  bool, text, arr, obj, Items, nil, item, Fields, end, field, spec_schema, status_schema,
  json_strings, omit, json_zones, json_flag, json_probe_fields, json_probes, json_spec, json_time,
  is_zero_time, json_status,
}

abbrev unknown : Bool → Schema
unknown true = anything
unknown false = nothing

-- The schema of a field.
abbrev property_of : Bool → String → Properties → Schema
property_of preserves key no_more = unknown preserves
property_of preserves key (property k s props) =
    let rest = property_of preserves key props in if k == key then s else rest

abbrev has_field : String → Fields → Bool
has_field key end = false
has_field key (field k v fs) = let rest = has_field key fs in if k == key then true else rest

abbrev has_all : List String → Fields → Bool
has_all [] fs = true
has_all (key ∷ keys) fs = has_field key fs && has_all keys fs

-- The types fit, required fields are there, and no field is unknown where unknown ones would be
-- dropped. A null has no type.
unfoldable mutual
  pub conforms : Schema → Json → Bool
  conforms anything j = true
  conforms nothing j = false
  conforms boolean (bool b) = true
  conforms boolean j = false
  conforms string (text s) = true
  conforms string j = false
  conforms (array s) (arr items) = conforms_items s items
  conforms (array s) j = false
  conforms (object preserves props required) (obj fs) =
      conforms_fields preserves props fs && has_all required fs
  conforms (object preserves props required) j = false

  pub conforms_items : Schema → Items → Bool
  conforms_items s nil = true
  conforms_items s (item j items) = conforms s j && conforms_items s items

  pub conforms_fields : Bool → Properties → Fields → Bool
  conforms_fields preserves props end = true
  conforms_fields preserves props (field k v fs) =
      conforms (property_of preserves k props) v && conforms_fields preserves props fs

module _ (preserves : Bool) (props : Properties) where
  field-conforms :
      (k : String) (v : Json) (fs : Fields)
      → conforms (property_of preserves k props) v ≡ true
      → conforms_fields preserves props fs ≡ true
      → conforms_fields preserves props (field k v fs) ≡ true
  unfolding conforms_fields
  field-conforms k v fs p q = rw (p, q)

  omit-conforms :
      (b : Bool) (k : String) (v : Json) (fs : Fields)
      → conforms (property_of preserves k props) v ≡ true
      → conforms_fields preserves props fs ≡ true
      → conforms_fields preserves props (omit b k v fs) ≡ true
  unfolding omit
  omit-conforms true k v fs p q = q
  omit-conforms false k v fs p q = field-conforms k v fs p q

-- An object whose fields are not declared admits all fields.
preserved : (fs : Fields) → conforms_fields true no_more fs ≡ true
unfolding conforms_fields conforms
preserved end = refl
preserved (field k v fs) = preserved fs

any_object : (fs : Fields) → conforms (object true no_more []) (obj fs) ≡ true
unfolding conforms
any_object fs = rw (preserved fs)

strings-conform : (ss : List String) → conforms_items string (json_strings ss) ≡ true
unfolding conforms_items conforms json_strings
strings-conform [] = refl
strings-conform (s ∷ ss) = strings-conform ss

abbrev spec_properties : Properties
spec_properties = property "template" (object true no_more []) (
    property "updateOnConfigChange" boolean (
      property "activePassiveProbes" (object true no_more []) (
        property "injectReplicasEnv" boolean
          (property "zoneNodeLabel" string (property "zones" (array string) no_more)))))

zones-conform :
    (zones : List String) (fs : Fields)
    → conforms_fields false spec_properties fs ≡ true
    → conforms_fields false spec_properties (json_zones zones fs) ≡ true
unfolding json_zones conforms
zones-conform [] fs q = q
zones-conform (z ∷ zs) fs q =
    field-conforms false spec_properties "zones" (arr (json_strings (z ∷ zs))) fs
      (strings-conform (z ∷ zs)) q

flag-conforms : (o : Option Bool) → conforms_fields false spec_properties (json_flag o) ≡ true
unfolding json_flag conforms conforms_fields
flag-conforms none = refl
flag-conforms (some b) = refl

template_required :
    (b : Bool) (k : String) (v : Json) (zones : List String) (fs : Fields)
    → has_field "template" fs ≡ true
    → has_field "template" (omit b k v (json_zones zones fs)) ≡ true
unfolding omit json_zones
template_required true k v [] fs h = h
template_required true k v (z ∷ zs) fs h = h
template_required false k v [] fs h = ground (arith, h)
template_required false k v (z ∷ zs) fs h = ground (arith, h)

module _ (probe_json : Probe → Json) where
  probes-conform :
      (o : Option (List (String × Probe))) (fs : Fields)
      → conforms_fields false spec_properties fs ≡ true
      → conforms_fields false spec_properties (json_probes probe_json o fs) ≡ true
  unfolding json_probes
  probes-conform none fs q = q
  probes-conform (some []) fs q = q
  probes-conform (some (p ∷ ps)) fs q =
      field-conforms false spec_properties "activePassiveProbes"
        (obj (json_probe_fields probe_json (p ∷ ps))) fs (any_object _) q

  spec-conforms :
      (template_json : StatefulSet → Fields) (spec : QuarksStatefulSetSpec)
      → conforms spec_schema (json_spec probe_json template_json spec) ≡ true
  unfolding spec_schema conforms json_spec
  spec-conforms template_json spec =
      let flag = json_flag spec.inject_replicas_env in
      let probes = json_probes probe_json spec.active_passive_probes flag in
      let template = field "template" (obj (template_json spec.template)) probes in
      let zones = json_zones spec.zones template in
      let label = text spec.zone_node_label in
      let unset = spec.zone_node_label == "" in
      all_and
        (field-conforms false spec_properties "updateOnConfigChange"
          (bool spec.update_on_config_change) (omit unset "zoneNodeLabel" label zones) refl
          (omit-conforms false spec_properties unset "zoneNodeLabel" label zones refl (
            zones-conform spec.zones template (
              field-conforms false spec_properties "template" (obj (template_json spec.template))
                probes (any_object (template_json spec.template))
                (probes-conform spec.active_passive_probes flag
                  (flag-conforms spec.inject_replicas_env))))))
        (template_required unset "zoneNodeLabel" label spec.zones template refl)
    where
      all_and : {p q : Bool} → p ≡ true → q ≡ true → (p && (q && true)) ≡ true
      all_and p q = rw (p, q)

-- A time that is set, and is not the first instant of the year 1.
abbrev pub IsDated : Option ℤ → Type 0
IsDated none = ⊥
IsDated (some t) = t ≢ negsuc 62135596799999999999

status_iff :
    (time_text : ℤ → String) (last : Option ℤ) (ready : Bool)
    → (conforms status_schema
          (json_status time_text (record { last_reconcile = last; ready = ready }))
        ≡ true)
      ↔ IsDated last
unfolding status_schema conforms conforms_fields json_status json_time
status_iff time_text none ready = (λ e. cc e, λ e. absurd e)
status_iff time_text (some t) ready = elim (Bool-cases (is_zero_time t)) [
  | inl zero ↦ rw zero (λ e. cc e, λ dated. absurd (dated (ground (arith, zero))))
  | inr other ↦ rw other (λ e. λ same. ground (arith, other, same), λ dated. refl)
]

-- Whatever the JSON of its template and its probes is, the JSON of the specification of a
-- QuarksStatefulSet conforms to the schema of the resource definition: each of its fields is declared
-- there, with its type, and the required one is there. That of the status conforms exactly when
-- the time of the last reconcile is set, and is not the first instant of the year 1.
pub json-Conforms :
    (probe_json : Probe → Json) (template_json : StatefulSet → Fields) (time_text : ℤ → String)
    (spec : QuarksStatefulSetSpec) (status : QuarksStatefulSetStatus)
    → (conforms spec_schema (json_spec probe_json template_json spec) ≡ true)
      × ((conforms status_schema (json_status time_text status) ≡ true)
          ↔ IsDated status.last_reconcile)
json-Conforms probe_json template_json time_text spec status = (
  spec-conforms probe_json template_json spec,
  status_iff time_text status.last_reconcile status.ready,
)
