-- ===== src/Scenarios/Copies.antt =====
-- A QuarksStatefulSet with zones and a flag: its copy in a small memory, and its JSON.
use quarks_statefulset.Prelude.{
  String, Bool, true, false, Option, none, some, List, [], ◌∷◌, ◌≡◌, refl, ℤ, pos, ◌↔◌,
}
use quarks_statefulset.Kube.Types.{ObjectMeta, StatefulSet, Probe, QuarksStatefulSet}
use quarks_statefulset.Memory.Deep.{DeepCopier, plain_value, plain_copy, plain-IsDeep}
use quarks_statefulset.Memory.Pointers.{pointer_copy}
use quarks_statefulset.Memory.Lists.{list_copy}
use quarks_statefulset.Kube.Copies.{
  SpecCells, StatusCells, QuarksCells, ListCells, Layout, deep_copy_spec_into,
  deep_copy_status_into, deep_copy_into, deep_copy,
}
use quarks_statefulset.Kube.Copies.Fresh.{object_value, deep_copy-separate}
use quarks_statefulset.Kube.Schema.{null, end, spec_schema, status_schema, json_spec, json_status}
use quarks_statefulset.Kube.Schema.Conforms.{conforms, IsDated, json-Conforms}
use quarks_statefulset.Scenarios.Objects.{qsts}

-- The k8s.io types as values without pointers.
data Cell : Type 0 where
  strings : List String → Cell
  flag : Bool → Cell
  instant : ℤ → Cell
  probes : List (String × Probe) → Cell
  spec : SpecCells StatefulSet → Cell
  status : StatusCells → Cell
  quarks : QuarksCells ObjectMeta StatefulSet → Cell
  items : List (QuarksCells ObjectMeta StatefulSet) → Cell
  quarks_list : ListCells String → Cell

abbrev take_strings : Cell → Option (List String)
take_strings (strings x) = some x
take_strings _ = none

abbrev take_flag : Cell → Option Bool
take_flag (flag x) = some x
take_flag _ = none

abbrev take_instant : Cell → Option ℤ
take_instant (instant x) = some x
take_instant _ = none

abbrev take_probes : Cell → Option (List (String × Probe))
take_probes (probes x) = some x
take_probes _ = none

abbrev take_spec : Cell → Option (SpecCells StatefulSet)
take_spec (spec x) = some x
take_spec _ = none

abbrev take_status : Cell → Option StatusCells
take_status (status x) = some x
take_status _ = none

abbrev take_quarks : Cell → Option (QuarksCells ObjectMeta StatefulSet)
take_quarks (quarks x) = some x
take_quarks _ = none

abbrev take_items : Cell → Option (List (QuarksCells ObjectMeta StatefulSet))
take_items (items x) = some x
take_items _ = none

abbrev take_list : Cell → Option (ListCells String)
take_list (quarks_list x) = some x
take_list _ = none

abbrev plain : {A : Type 0} → DeepCopier Cell A A
plain = record { value = plain_value; copy = plain_copy; deep = plain-IsDeep }

abbrev layout : Layout Cell ObjectMeta StatefulSet Probe String
layout = record {
  strings = record { put = strings; take = take_strings; take-put = λ a. refl };
  flags = record { put = flag; take = take_flag; take-put = λ a. refl };
  instants = record { put = instant; take = take_instant; take-put = λ a. refl };
  probes = record { put = probes; take = take_probes; take-put = λ a. refl };
  specs = record { put = spec; take = take_spec; take-put = λ a. refl };
  statuses = record { put = status; take = take_status; take-put = λ a. refl };
  quarks = record { put = quarks; take = take_quarks; take-put = λ a. refl };
  quarks_items = record { put = items; take = take_items; take-put = λ a. refl };
  quarks_lists = record { put = quarks_list; take = take_list; take-put = λ a. refl };
  meta = plain;
  template = plain;
  probe = plain;
  list_meta = plain;
}

abbrev web : List String → QuarksStatefulSet
web zones = record (qsts zones) {
  spec = record ((qsts zones).spec) { inject_replicas_env = some false };
}

abbrev web_cells : QuarksCells ObjectMeta StatefulSet
web_cells = record {
  type_meta = "QuarksStatefulSet";
  meta = (web []).meta;
  spec = record {
    update_on_config_change = true;
    zone_node_label = "";
    zones = some 0;
    template = (web []).spec.template;
    active_passive_probes = none;
    inject_replicas_env = some 1;
  };
  status = record { last_reconcile = some 2; ready = false };
}

abbrev memory : List Cell
memory = strings ("z1" ∷ "z2" ∷ []) ∷ flag false ∷ instant (pos 1) ∷ quarks web_cells ∷ []

copy_points : (deep_copy layout (some 3) memory).0 ≡ some 7
unfolding deep_copy deep_copy_into deep_copy_spec_into deep_copy_status_into pointer_copy list_copy
copy_points = refl

deep_copy-separate_example :
    (object_value layout (deep_copy layout (some 3) memory).1 (deep_copy layout (some 3) memory).0
      ≡ some (some ("QuarksStatefulSet", web ("z1" ∷ "z2" ∷ []))))
    × (object_value layout (deep_copy layout (some 3) memory).1 (some 3)
        ≡ some (some ("QuarksStatefulSet", web ("z1" ∷ "z2" ∷ []))))
deep_copy-separate_example =
    deep_copy-separate layout (some 3) memory (deep_copy layout (some 3) memory).1
      (deep_copy layout (some 3) memory).1 (some ("QuarksStatefulSet", web ("z1" ∷ "z2" ∷ []))) refl
      (λ i low high. refl) (λ i low high. refl)

json-Conforms_example :
    (conforms spec_schema (json_spec (λ p. null) (λ s. end) (web ("z1" ∷ [])).spec) ≡ true)
    × ((conforms status_schema (json_status (λ t. "2020") (web []).status) ≡ true)
        ↔ IsDated (web []).status.last_reconcile)
json-Conforms_example =
    json-Conforms (λ p. null) (λ s. end) (λ t. "2020") (web ("z1" ∷ [])).spec (web []).status
