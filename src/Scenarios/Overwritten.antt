-- ===== src/Scenarios/Overwritten.antt =====
-- A rollout that the QuarksStatefulSet reconciler writes over.
use quarks_statefulset.Prelude.{
  ◌≡◌, refl, none, some, [], ◌∷◌, pos, Outcome, ok, if◌then◌else◌, ◌==◌, get, false,
}
use quarks_statefulset.Names.Annotation
use quarks_statefulset.Text.Decimal.{itoa}
use quarks_statefulset.Kube.Types.{StatefulSet, QuarksStatefulSet}
use quarks_statefulset.Kube.Admission.{Request, patched, Codec}
use quarks_statefulset.Kube.Env.{Env}
use quarks_statefulset.Quarks.Envs.{
  upsert_envs, zone_envs, container_envs, inject_containers, inject_container_env,
}
use quarks_statefulset.Quarks.Affinity.{update_affinity}
use quarks_statefulset.Quarks.Generate.{generate_single_statefulset}
use quarks_statefulset.Quarks.Desired.{template_of}
use quarks_statefulset.Quarks.Reconcile.{mutate_statefulset}
use quarks_statefulset.Quarks.Reconcile.Overwrites.{mutate_statefulset-forgets}
use quarks_statefulset.Rollout.Trigger.{check_update}
use quarks_statefulset.Rollout.Webhook.{handle}
use quarks_statefulset.Scenarios.Fake.{fake, fake-UnitesMaps}
use quarks_statefulset.Scenarios.Objects.{qsts, cluster, ready_pods, rolling}

abbrev env : Env
env = fake (cluster (rolling "Rollout" (some (pos 1))) ready_pods)

abbrev owner : QuarksStatefulSet
owner = qsts ("z1" ∷ [])

abbrev made : Outcome StatefulSet → StatefulSet
made (ok s) = s
made _ = rolling "" none

abbrev generated : StatefulSet
generated = made (generate_single_statefulset env owner (template_of owner) (pos 0) "z1" (pos 2))

is_generated :
    generate_single_statefulset env owner (template_of owner) (pos 0) "z1" (pos 2) ≡ ok generated
unfolding generate_single_statefulset template_of inject_container_env inject_containers
    container_envs zone_envs upsert_envs update_affinity itoa
is_generated = refl

stateless_template : get (template_of owner).meta.annotations Annotation.canary_rollout ≡ none
unfolding template_of
stateless_template = refl

-- In the middle of its rollout, with the same template.
abbrev held : StatefulSet
held = record (rolling "Rollout" (some (pos 1))) {
  spec = record (rolling "Rollout" (some (pos 1))).spec { template = generated.spec.template };
}

abbrev left : StatefulSet
left = made (mutate_statefulset generated held)

is_left : mutate_statefulset generated held ≡ ok left
unfolding mutate_statefulset
is_left = refl

abbrev codec : Codec StatefulSet
codec = record {
  decode = λ text. if text == "new" then ok left else ok held;
  marshal = λ s. ok "patched";
}

abbrev request : Request
request = record { operation = "UPDATE"; object = "new"; old_object = "old" }

mutate_statefulset-forgets_example :
    (handle env codec request [] ≡ (ok (patched "new" "patched"), []))
    × (get left.meta.annotations Annotation.canary_rollout ≡ none)
    × (left.spec.update_strategy ≡ (template_of owner).spec.update_strategy)
    × ((old : StatefulSet) → check_update old left ≡ false)
mutate_statefulset-forgets_example =
    mutate_statefulset-forgets env
      (fake-UnitesMaps (cluster (rolling "Rollout" (some (pos 1))) ready_pods)) owner
      (template_of owner) (pos 0) "z1" (pos 2) env codec request generated generated held left
      "patched" [] is_generated stateless_template refl refl refl is_left refl refl refl refl
