-- ===== src/Quarks/PodLabels/Ordinal.antt =====
-- What the pod webhook does to a pod's labels.
use quarks_statefulset.Prelude.{
  String, Bool, ◌&&◌, not, none, some, ◌==◌, ◌≡◌, refl, if◌then◌else◌, negsuc, eqb_ℤ, StringMap,
  get, get-insert, ◌∙◌, Bool-cases, inl, inr,
}
use quarks_statefulset.Names.Label
use quarks_statefulset.Text.Decimal.{itoa}
use quarks_statefulset.Kube.Types.{Pod}
use quarks_statefulset.Kube.Env.{Env}
use quarks_statefulset.Quarks.PodLabels.{
  mutate_pod, set_pod_ordinal, is_quarks_statefulset, or_empty_map,
}

get-or_empty_map : (m : StringMap) (k : String) → get (some (or_empty_map m)) k ≡ get m k
get-or_empty_map none k = refl
get-or_empty_map (some m) k = refl

module _ (env : Env) where
  -- The label that a pod gets: its ordinal, for a pod of a QuarksStatefulSet whose name has one.
  abbrev pub is_numbered : Pod → Bool
  is_numbered p =
      is_quarks_statefulset p.meta.labels
      && not (eqb_ℤ (env.ordinal_from_pod_name p.meta.name) (negsuc 0))

  -- The webhook gives a pod of a QuarksStatefulSet whose name ends in an ordinal the label of that
  -- ordinal; each other label of it, and all labels of any other pod, stay as they are.
  pub get-mutate_pod :
      (p : Pod) (k : String)
      → get (mutate_pod env p).meta.labels k ≡ (
          if is_numbered p && (Label.pod_ordinal == k)
          then some (itoa (env.ordinal_from_pod_name p.meta.name))
          else get p.meta.labels k)
  unfolding mutate_pod set_pod_ordinal
  get-mutate_pod p k = elim (Bool-cases (is_quarks_statefulset p.meta.labels)) [
    | inr other ↦ rw other refl
    | inl owned ↦
        rw owned (elim (Bool-cases (eqb_ℤ (env.ordinal_from_pod_name p.meta.name) (negsuc 0))) [
          | inl no_ordinal ↦ rw no_ordinal refl
          | inr ordinal ↦ rw ordinal (
              get-insert Label.pod_ordinal k (itoa (env.ordinal_from_pod_name p.meta.name))
                (or_empty_map p.meta.labels)
              ∙ rw (get-or_empty_map p.meta.labels k) refl)
        ])
  ]
