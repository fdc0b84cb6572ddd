-- ===== src/Scenarios/Made.antt =====
-- A QuarksStatefulSet with two zones, for which two StatefulSets are made.
use quarks_statefulset.Prelude.{
  ◌≡◌, refl, none, some, List, [], ◌∷◌, ◌++◌, String, pos, arith, Outcome, ok,
}
use quarks_statefulset.Text.Decimal.{itoa}
use quarks_statefulset.Kube.Types.{StatefulSet, QuarksStatefulSet, EnvVar}
use quarks_statefulset.Kube.Calls.{Emits, Returns, ◌>>=◌}
use quarks_statefulset.Kube.Client
use quarks_statefulset.Quarks.Versions.{
  scan, or_default, filter_by_owner, list_owned_statefulsets, get_max_statefulset_version,
}
use quarks_statefulset.Quarks.Envs.{
  upsert_envs, zone_envs, container_envs, inject_containers, inject_container_env,
}
use quarks_statefulset.Quarks.Affinity.{update_affinity}
use quarks_statefulset.Quarks.Generate.{generate_single_statefulset}
use quarks_statefulset.Quarks.Generate.Pods.{IsPlaced, generate_single_statefulset-IsPlaced}
use quarks_statefulset.Quarks.Generate.Labels.{IsGenerated, generate_single_statefulset-IsGenerated}
use quarks_statefulset.Quarks.Desired.{
  generate_zones, generate_all, with_default_label, template_of, calculate_desired_statefulsets,
}
use quarks_statefulset.Quarks.Desired.Fresh.{IsDesired, calculate_desired_statefulsets-IsDesired}
use quarks_statefulset.Quarks.Reconcile.{
  create_statefulset, create_all, mutate_statefulset, after_creation, reconcile_updated, reconcile,
  no_result,
}
use quarks_statefulset.Quarks.Reconcile.Writes.{
  Allowed, KeepsReady, quarks_reconcile-Allowed, quarks_reconcile-KeepsReady,
}
use quarks_statefulset.Quarks.Reconcile.Creates.{
  creations, IsEachDesired, reconcile_updated-creates,
}
use quarks_statefulset.Scenarios.Fake.{Cluster, fake, fake-UnitesMaps}
use quarks_statefulset.Scenarios.Objects.{key, qsts, cluster, ready_pods, rolling}

abbrev zoned : QuarksStatefulSet
zoned = qsts ("z1" ∷ "z2" ∷ [])

-- Nothing is there yet.
abbrev empty : Cluster
empty = record (cluster (rolling "Done" none) ready_pods) { listed = []; quarks = zoned }

calculate_desired_statefulsets-IsDesired_example :
    Returns
      (IsDesired (fake empty) (fake-UnitesMaps empty) zoned)
      (calculate_desired_statefulsets (fake empty) zoned)
calculate_desired_statefulsets-IsDesired_example =
    calculate_desired_statefulsets-IsDesired (fake empty) (fake-UnitesMaps empty) zoned

quarks_reconcile-Allowed_example :
    Emits (Allowed (fake empty) (fake-UnitesMaps empty) key) (reconcile (fake empty) key)
quarks_reconcile-Allowed_example = quarks_reconcile-Allowed (fake empty) (fake-UnitesMaps empty) key

quarks_reconcile-KeepsReady_example :
    Emits (KeepsReady (fake empty) (fake-UnitesMaps empty) key) (reconcile (fake empty) key)
quarks_reconcile-KeepsReady_example =
    quarks_reconcile-KeepsReady (fake empty) (fake-UnitesMaps empty) key

ends_well : (reconcile_updated (fake empty) key zoned (some (pos 1)) []).0 ≡ ok no_result
unfolding reconcile_updated create_all create_statefulset mutate_statefulset after_creation
    calculate_desired_statefulsets generate_all generate_zones generate_single_statefulset
    with_default_label template_of get_max_statefulset_version list_owned_statefulsets
    filter_by_owner scan or_default inject_container_env inject_containers container_envs zone_envs
    upsert_envs update_affinity itoa Client.read_clock Client.list_statefulsets
    Client.set_secret_references Client.create_or_update ◌>>=◌
ends_well = refl

reconcile_updated-creates_example :
    (made : List StatefulSet) × IsEachDesired (fake empty) (fake-UnitesMaps empty) zoned made
    × (creations (reconcile_updated (fake empty) key zoned (some (pos 1)) []).1 ≡ made ++ [])
reconcile_updated-creates_example =
    reconcile_updated-creates (fake empty) (fake-UnitesMaps empty) key zoned (pos 1) [] no_result
      refl ends_well

abbrev unwrap : Outcome StatefulSet → StatefulSet
unwrap (ok s) = s
unwrap _ = rolling "" none

-- The StatefulSet of the second zone.
abbrev second : StatefulSet
second =
    unwrap (generate_single_statefulset (fake empty) zoned (template_of zoned) (pos 1) "z2" (pos 1))

is_made :
    generate_single_statefulset (fake empty) zoned (template_of zoned) (pos 1) "z2" (pos 1)
    ≡ ok second
unfolding generate_single_statefulset template_of inject_container_env inject_containers
    container_envs zone_envs upsert_envs update_affinity itoa
is_made = refl

generate_single_statefulset-IsGenerated_example :
    IsGenerated (fake empty) (fake-UnitesMaps empty) zoned (pos 1) "z2" (pos 1) second
generate_single_statefulset-IsGenerated_example =
    generate_single_statefulset-IsGenerated (fake empty) (fake-UnitesMaps empty) zoned
      (template_of zoned) (pos 1) "z2" (pos 1) (omega arith) second is_made

named_by_zone : second.meta.name ≡ "web-z1"
unfolding generate_single_statefulset template_of inject_container_env inject_containers
    container_envs zone_envs upsert_envs update_affinity itoa
named_by_zone = refl

abbrev var : String → String → EnvVar
var name value = record { name = name; value = value; other = "" }

abbrev zone_variables : List EnvVar
zone_variables =
    var "BOSH_AZ" "z2"
    ∷ var "KUBE_AZ" "z2"
    ∷ var "CF_OPERATOR_AZ" "z2"
    ∷ var "AZ_INDEX" "2"
    ∷ var "REPLICAS" "3"
    ∷ []

adds_variables :
    container_envs (pos 1) "z2" (some (pos 3)) none (var "BOSH_AZ" "old" ∷ []) ≡ ok zone_variables
unfolding container_envs zone_envs upsert_envs itoa
adds_variables = refl

wants_two : zoned.spec.template.spec.replicas ≡ some (pos 2)
wants_two = refl

generate_single_statefulset-IsPlaced_example :
    IsPlaced zoned.spec.zone_node_label 1 "z2" (pos 2) (template_of zoned) second
generate_single_statefulset-IsPlaced_example =
    generate_single_statefulset-IsPlaced (fake empty) zoned (template_of zoned) 1 "z2" (pos 1)
      (pos 2) refl second wants_two refl is_made
