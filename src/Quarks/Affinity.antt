-- ===== src/Quarks/Affinity.antt =====
-- updateAffinity of quarksstatefulset_reconciler.go.
pub mod Terms
use quarks_statefulset.Prelude.{String, Option, none, some, List, [], ◌∷◌, ◌++◌}
use quarks_statefulset.Kube.Types.{NodeSelectorTerm, NodeAffinity, Affinity, StatefulSet}

-- The term that asks for a node in the zone.
unfoldable pub zone_term : String → String → NodeSelectorTerm
zone_term zone_node_label zone_name = record {
  match_expressions =
      record { key = zone_node_label; operator = "In"; values = zone_name ∷ [] } ∷ [];
  other = "";
}

unfoldable pub affinity_or_new : Option Affinity → Affinity
affinity_or_new none = record { node_affinity = none; other = "" }
affinity_or_new (some a) = a

unfoldable pub node_affinity_or_new : Option NodeAffinity → NodeAffinity
node_affinity_or_new none = record { required = none; other = "" }
node_affinity_or_new (some n) = n

-- A selector that is not there gets the one term; one that is there gets it appended.
unfoldable pub add_term : NodeSelectorTerm → Option (List NodeSelectorTerm) → List NodeSelectorTerm
add_term term none = term ∷ []
add_term term (some terms) = terms ++ term ∷ []

unfoldable pub update_affinity : StatefulSet → String → String → StatefulSet
unfolding zone_term affinity_or_new node_affinity_or_new add_term
update_affinity s zone_node_label zone_name =
    let affinity = affinity_or_new s.spec.template.spec.affinity in
    let node_affinity = node_affinity_or_new affinity.node_affinity in
    let required = add_term (zone_term zone_node_label zone_name) node_affinity.required in
    let affinity' = record affinity {
      node_affinity = some (record node_affinity { required = some required });
    } in
    record s {
      spec = record s.spec {
        template = record s.spec.template {
          spec = record s.spec.template.spec { affinity = some affinity' };
        };
      };
    }
