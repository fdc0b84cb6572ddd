-- ===== src/Quarks/Affinity/Terms.antt =====
-- The node selector terms that a StatefulSet asks for, before and after its zone is put in.
use quarks_statefulset.Prelude.{String, Option, none, some, List, [], ◌∷◌, ◌++◌, ◌≡◌, refl}
use quarks_statefulset.Kube.Types.{NodeSelectorTerm, NodeAffinity, Affinity, StatefulSet}
use quarks_statefulset.Quarks.Affinity.{
  zone_term, add_term, affinity_or_new, node_affinity_or_new, update_affinity,
}

abbrev required_terms : Option (List NodeSelectorTerm) → List NodeSelectorTerm
required_terms none = []
required_terms (some terms) = terms

abbrev node_terms : Option NodeAffinity → List NodeSelectorTerm
node_terms none = []
node_terms (some n) = required_terms n.required

abbrev affinity_terms : Option Affinity → List NodeSelectorTerm
affinity_terms none = []
affinity_terms (some a) = node_terms a.node_affinity

-- RequiredDuringSchedulingIgnoredDuringExecution, where all the structures on the way are there.
abbrev pub terms_of : StatefulSet → List NodeSelectorTerm
terms_of s = affinity_terms s.spec.template.spec.affinity

add_term_lem :
    (t : NodeSelectorTerm) (o : Option (List NodeSelectorTerm))
    → add_term t o ≡ required_terms o ++ t ∷ []
unfolding add_term
add_term_lem t none = refl
add_term_lem t (some terms) = refl

node_affinity_or_new_lem :
    (t : NodeSelectorTerm) (o : Option NodeAffinity)
    → add_term t (node_affinity_or_new o).required ≡ node_terms o ++ t ∷ []
unfolding node_affinity_or_new
node_affinity_or_new_lem t none = add_term_lem t none
node_affinity_or_new_lem t (some n) = add_term_lem t n.required

affinity_or_new_lem :
    (t : NodeSelectorTerm) (o : Option Affinity)
    → add_term t (node_affinity_or_new (affinity_or_new o).node_affinity).required
      ≡ affinity_terms o ++ t ∷ []
unfolding affinity_or_new
affinity_or_new_lem t none = node_affinity_or_new_lem t none
affinity_or_new_lem t (some a) = node_affinity_or_new_lem t a.node_affinity

-- A StatefulSet that is put into a zone asks for the terms it asked for before, in order, and then
-- for that of the zone, whichever of the structures that hold them were there.
pub terms_of-update_affinity :
    (s : StatefulSet) (zone_node_label zone_name : String)
    → terms_of (update_affinity s zone_node_label zone_name)
      ≡ terms_of s ++ zone_term zone_node_label zone_name ∷ []
unfolding update_affinity
terms_of-update_affinity s zone_node_label zone_name =
    affinity_or_new_lem (zone_term zone_node_label zone_name) s.spec.template.spec.affinity
