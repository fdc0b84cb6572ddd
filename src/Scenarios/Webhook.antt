-- ===== src/Scenarios/Webhook.antt =====
-- The webhooks at concrete inputs.
use quarks_statefulset.Prelude.{
  ◌≡◌, refl, inr, none, some, List, [], ◌∷◌, String, pos, ok, ◌==◌, if◌then◌else◌, ◌&&◌, get,
}
use quarks_statefulset.Names.Annotation
use quarks_statefulset.Names.Label
use quarks_statefulset.Text.Decimal.{itoa}
use quarks_statefulset.Kube.Types.{StatefulSet, Pod}
use quarks_statefulset.Kube.Admission.{Request, patched, Codec}
use quarks_statefulset.Kube.Env.{Env}
use quarks_statefulset.Rollout.Webhook.{handle}
use quarks_statefulset.Rollout.Webhook.Starts.{handle_leaves}
use quarks_statefulset.Quarks.PodLabels.{mutate_pod}
use quarks_statefulset.Quarks.PodLabels.Ordinal.{is_numbered, get-mutate_pod}
use quarks_statefulset.Scenarios.Fake.{fake}
use quarks_statefulset.Scenarios.Objects.{sts, cluster, ready_pods, meta_of}

abbrev annotations : List (String × String)
annotations = (Annotation.canary_rollout_enabled, "true") ∷ []

abbrev new : StatefulSet
new = sts none (pos 3) (pos 2) annotations

abbrev old : StatefulSet
old = record new {
  spec = record new.spec { template = record new.spec.template { other = "old" } };
}

abbrev env : Env
env = fake (cluster new ready_pods)

-- The two objects by their names.
abbrev codec : Codec StatefulSet
codec = record {
  decode = λ text. if text == "new" then ok new else ok old;
  marshal = λ s. ok "patched";
}

abbrev request : String → Request
request operation = record { operation = operation; object = "new"; old_object = "old" }

abbrev unchanged : Request
unchanged = record { operation = "UPDATE"; object = "new"; old_object = "new" }

handle_leaves_example : handle env codec unchanged [] ≡ (ok (patched "new" "patched"), [])
handle_leaves_example =
    handle_leaves env codec unchanged new new "patched" [] refl refl (inr (refl, refl, refl))

abbrev numbered_pod : Pod
numbered_pod = record {
  meta =
      meta_of "web-0" (some ((Label.statefulset_pod_name, "web-0") ∷ (Label.qsts_name, "web") ∷ []))
        none;
  other = "";
}

get-mutate_pod_example : get (mutate_pod env numbered_pod).meta.labels Label.pod_ordinal ≡ (
    if is_numbered env numbered_pod && (Label.pod_ordinal == Label.pod_ordinal)
    then some (itoa (pos 0))
    else get numbered_pod.meta.labels Label.pod_ordinal)
get-mutate_pod_example = get-mutate_pod env numbered_pod Label.pod_ordinal
