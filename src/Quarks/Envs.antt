-- ===== src/Quarks/Envs.antt =====
-- upsertEnvs and injectContainerEnv of quarksstatefulset_reconciler.go.
pub mod Upsert
use quarks_statefulset.Prelude.{
  String, Bool, true, false, Option, none, some, List, [], ◌∷◌, ℤ, pos, negsuc, ◌+ℤ◌, ltb_ℤ, ◌==◌,
  Outcome, ok, err, panic, deref, map_outcome, if◌then◌else◌,
}
use quarks_statefulset.Text.Decimal.{itoa}
use quarks_statefulset.Kube.Types.{EnvVar, Container, PodSpec}

abbrev pub env_kube_az : String
env_kube_az = "KUBE_AZ"

abbrev pub env_bosh_az : String
env_bosh_az = "BOSH_AZ"

abbrev pub env_replicas : String
env_replicas = "REPLICAS"

abbrev pub env_cf_operator_az : String
env_cf_operator_az = "CF_OPERATOR_AZ"

abbrev pub env_cf_operator_az_index : String
env_cf_operator_az_index = "AZ_INDEX"

unfoldable pub upsert_envs : List EnvVar → String → String → List EnvVar
upsert_envs [] name value = record { name = name; value = value; other = "" } ∷ []
upsert_envs (e ∷ es) name value =
    if e.name == name then record e { value = value } ∷ es else e ∷ upsert_envs es name value

-- The variables of the zone.
unfoldable pub zone_envs : ℤ → String → List EnvVar → List EnvVar
zone_envs zone_index zone_name envs =
    if ltb_ℤ zone_index (pos 0)
    then upsert_envs envs env_cf_operator_az_index "1"
    else upsert_envs
        (upsert_envs (upsert_envs (upsert_envs envs env_kube_az zone_name) env_bosh_az zone_name)
          env_cf_operator_az zone_name)
        env_cf_operator_az_index (itoa (zone_index +ℤ pos 1))

-- `(injectReplicasEnv == nil) || (*injectReplicasEnv)`
abbrev pub is_injected : Option Bool → Bool
is_injected none = true
is_injected (some b) = b

abbrev with_replicas : List EnvVar → Outcome ℤ → Outcome (List EnvVar)
with_replicas envs o = map_outcome (λ replicas. upsert_envs envs env_replicas (itoa replicas)) o

unfoldable pub container_envs :
    ℤ → String → Option ℤ → Option Bool → List EnvVar → Outcome (List EnvVar)
container_envs zone_index zone_name replicas inject envs =
    let zoned = zone_envs zone_index zone_name envs in
    if is_injected inject then with_replicas zoned (deref replicas) else ok zoned

abbrev pub cons_ok :
    Container → Outcome (List EnvVar) → Outcome (List Container) → Outcome (List Container)
cons_ok c (ok envs) rest = map_outcome (λ cs. record c { env = envs } ∷ cs) rest
cons_ok c (err e) rest = err e
cons_ok c panic rest = panic

unfoldable pub inject_containers :
    ℤ → String → Option ℤ → Option Bool → List Container → Outcome (List Container)
inject_containers zone_index zone_name replicas inject [] = ok []
inject_containers zone_index zone_name replicas inject (c ∷ cs) =
    cons_ok c (container_envs zone_index zone_name replicas inject c.env)
      (inject_containers zone_index zone_name replicas inject cs)

abbrev pub both_ok : PodSpec → Outcome (List Container) → Outcome (List Container) → Outcome PodSpec
both_ok spec (ok cs) (ok is) = ok (record spec { containers = cs; init_containers = is })
both_ok spec (ok cs) (err e) = err e
both_ok spec (ok cs) panic = panic
both_ok spec (err e) _ = err e
both_ok spec panic _ = panic

-- The containers first, then the init containers.
unfoldable pub inject_container_env :
    PodSpec → ℤ → String → Option ℤ → Option Bool → Outcome PodSpec
inject_container_env spec zone_index zone_name replicas inject =
    both_ok spec (inject_containers zone_index zone_name replicas inject spec.containers)
      (inject_containers zone_index zone_name replicas inject spec.init_containers)
