-- ===== src/Quarks/Desired.antt =====
-- calculateDesiredStatefulSets of quarksstatefulset_reconciler.go.
pub mod Fresh
use quarks_statefulset.Prelude.{
  ℕ, zero, suc, String, List, [], ◌∷◌, ℤ, pos, inc64, ◌==◌, Outcome, ok, err, panic, map_outcome,
  wrap_outcome, if◌then◌else◌,
}
use quarks_statefulset.Kube.Types.{StatefulSet, QuarksStatefulSet}
use quarks_statefulset.Kube.Calls.{Exec, pure, lift, ◌>>=◌}
use quarks_statefulset.Kube.Env.{Env}
use quarks_statefulset.Quarks.Versions.{get_max_statefulset_version}
use quarks_statefulset.Quarks.Generate.{generate_single_statefulset}

abbrev pub default_zone_node_label : String
default_zone_node_label = "failure-domain.beta.kubernetes.io/zone"

unfoldable pub with_default_label : QuarksStatefulSet → QuarksStatefulSet
with_default_label q =
    if q.spec.zone_node_label == ""
    then record q { spec = record q.spec { zone_node_label = default_zone_node_label } }
    else q

-- The copy of the template, in the namespace of the QuarksStatefulSet.
unfoldable pub template_of : QuarksStatefulSet → StatefulSet
template_of q = record q.spec.template {
  meta = record q.spec.template.meta { namespace = q.meta.namespace };
}

abbrev pub cons_outcome :
    Outcome StatefulSet → Outcome (List StatefulSet) → Outcome (List StatefulSet)
cons_outcome (ok s) rest = map_outcome (λ ss. s ∷ ss) rest
cons_outcome (err e) rest = err e
cons_outcome panic rest = panic

module _ (env : Env) where
  -- The loop over the zones, from the zone with the given index.
  unfoldable pub generate_zones :
      QuarksStatefulSet → StatefulSet → ℤ → ℕ → List String → Outcome (List StatefulSet)
  generate_zones q template version index [] = ok []
  generate_zones q template version index (zone ∷ zones) =
      cons_outcome
        (wrap_outcome "Could not generate StatefulSet template for AZ"
          (generate_single_statefulset env q template (pos index) zone version))
        (generate_zones q template version (suc index) zones)

  unfoldable pub generate_all :
      QuarksStatefulSet → StatefulSet → ℤ → List String → Outcome (List StatefulSet)
  generate_all q template version [] =
      cons_outcome
        (wrap_outcome "Could not generate StatefulSet template for single zone"
          (generate_single_statefulset env q template (pos 0) "" version))
        (ok [])
  generate_all q template version (zone ∷ zones) =
      generate_zones q template version 0 (zone ∷ zones)

  unfoldable pub calculate_desired_statefulsets : QuarksStatefulSet → Exec (List StatefulSet)
  unfolding with_default_label template_of
  calculate_desired_statefulsets q = do
    (current, current_version) ← get_max_statefulset_version env q
    lift (generate_all (with_default_label q) (template_of q) (inc64 current_version) q.spec.zones)
