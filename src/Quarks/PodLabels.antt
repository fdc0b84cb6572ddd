-- ===== src/Quarks/PodLabels.antt =====
-- The pod webhook: quarksstatefulset/pod_mutator.go.
pub mod Ordinal
use quarks_statefulset.Prelude.{
  String, Bool, true, false, ◌&&◌, not, Option, none, some, List, [], ℤ, pos, negsuc, eqb_ℤ,
  StringMap, has, insert, Outcome, ok, err, panic, if◌then◌else◌,
}
use quarks_statefulset.Names.Label
use quarks_statefulset.Text.Decimal.{itoa}
use quarks_statefulset.Kube.Types.{Pod}
use quarks_statefulset.Kube.Admission.{Request, Response, errored, patched, Codec}
use quarks_statefulset.Kube.Env.{Env}

unfoldable pub is_quarks_statefulset : StringMap → Bool
is_quarks_statefulset labels = has labels Label.statefulset_pod_name && has labels Label.qsts_name

-- `if podLabels == nil { podLabels = map[string]string{} }`
abbrev pub or_empty_map : StringMap → List (String × String)
or_empty_map none = []
or_empty_map (some labels) = labels

module _ (env : Env) where
  unfoldable pub set_pod_ordinal : Pod → List (String × String) → Pod
  set_pod_ordinal p labels =
      let ordinal = env.ordinal_from_pod_name p.meta.name in
      if eqb_ℤ ordinal (negsuc 0) then p else record p {
        meta = record p.meta { labels = some (insert Label.pod_ordinal (itoa ordinal) labels) };
      }

  unfoldable pub mutate_pod : Pod → Pod
  mutate_pod p =
      if is_quarks_statefulset p.meta.labels
      then set_pod_ordinal p (or_empty_map p.meta.labels)
      else p

  module _ (codec : Codec Pod) where
    -- json.Marshal and the patch from the raw object.
    abbrev answer : Request → Outcome String → Outcome Response
    answer req (ok marshaled) = ok (patched req.object marshaled)
    answer req (err e) = ok (errored 500 e)
    answer req panic = panic

    abbrev on_object : Request → Outcome Pod → Outcome Response
    on_object req (err e) = ok (errored 400 e)
    on_object req panic = panic
    on_object req (ok p) = answer req (codec.marshal (mutate_pod p))

    unfoldable pub handle : Request → Outcome Response
    handle req = on_object req (codec.decode req.object)
