-- ===== src/Quarks/Envs/Upsert.antt =====
-- What upsertEnvs does to the value of each variable, and the variables that a container ends with.
use quarks_statefulset.Prelude.{
  unequal_test, String, false, Option, none, some, List, [], ◌∷◌, ◌==◌, ◌≡◌, ◌≢◌, refl, subst,
  arith, ok_injective, ◌∙◌, eq_iff, if◌then◌else◌, ℕ, ℤ, pos, ◌+◌, ◌+ℤ◌, ltb_ℤ, ok,
}
use quarks_statefulset.Text.Decimal.{itoa}
use quarks_statefulset.Kube.Types.{EnvVar}
use quarks_statefulset.Quarks.Envs.{
  upsert_envs, zone_envs, container_envs, env_kube_az, env_bosh_az, env_cf_operator_az,
  env_cf_operator_az_index, env_replicas,
}

-- The value of the first variable of a name.
abbrev pub value_of : String → List EnvVar → Option String
value_of name [] = none
value_of name (e ∷ es) = if e.name == name then some e.value else value_of name es

-- After an upsert its variable has the new value, and each other variable the value it had.
pub value_of-upsert_envs :
    (envs : List EnvVar) (name value other : String)
    → value_of other (upsert_envs envs name value)
      ≡ (if name == other then some value else value_of other envs)
unfolding upsert_envs
value_of-upsert_envs [] name value other = refl
value_of-upsert_envs (e ∷ es) name value other = ground (
  arith,
  eq_iff e.name name,
  eq_iff name other,
  eq_iff e.name other,
  value_of-upsert_envs es name value other,
)

-- The variables after those of a zone and of the replicas are in.
pub record HasZone (index : ℕ) (zone : String) (replicas : ℤ) (before after : List EnvVar)
    : Type 0 where
  pub az_index : value_of env_cf_operator_az_index after ≡ some (itoa (pos (index + 1)))
  pub kube_az : value_of env_kube_az after ≡ some zone
  pub bosh_az : value_of env_bosh_az after ≡ some zone
  pub cf_operator_az : value_of env_cf_operator_az after ≡ some zone
  pub has_replicas : value_of env_replicas after ≡ some (itoa replicas)
  pub others :
      (name : String)
      → name ≢ env_cf_operator_az_index
      → name ≢ env_kube_az
      → name ≢ env_bosh_az
      → name ≢ env_cf_operator_az
      → name ≢ env_replicas
      → value_of name after ≡ value_of name before

zone_envs-pos :
    (index : ℕ) (zone : String) (envs : List EnvVar)
    → zone_envs (pos index) zone envs
      ≡ upsert_envs
          (upsert_envs
            (upsert_envs (upsert_envs envs env_kube_az zone) env_bosh_az zone)
            env_cf_operator_az
            zone)
          env_cf_operator_az_index
          (itoa (pos (index + 1)))
unfolding zone_envs
zone_envs-pos index zone envs =
    let sum : pos index +ℤ pos 1 ≡ pos (index + 1) = ground arith in
    let test : ltb_ℤ (pos index) (pos 0) ≡ false = ground arith in rw (test, sum) refl

zone-value :
    (index : ℕ) (zone : String) (envs : List EnvVar) (replicas : ℤ) (name : String)
    → value_of name (upsert_envs (zone_envs (pos index) zone envs) env_replicas (itoa replicas)) ≡ (
        if env_replicas == name
        then some (itoa replicas)
        else if env_cf_operator_az_index == name
        then some (itoa (pos (index + 1)))
        else if env_cf_operator_az == name
        then some zone
        else if env_bosh_az == name
        then some zone
        else if env_kube_az == name
        then some zone
        else value_of name envs)
zone-value index zone envs replicas name = rw (zone_envs-pos index zone envs) (
    rw (value_of-upsert_envs _ env_replicas (itoa replicas) name) (
      rw (value_of-upsert_envs _ env_cf_operator_az_index (itoa (pos (index + 1))) name) (
        rw (value_of-upsert_envs _ env_cf_operator_az zone name) (
          rw (value_of-upsert_envs _ env_bosh_az zone name)
            (rw (value_of-upsert_envs envs env_kube_az zone name) refl)))))

-- A container that gets the variables of the zone with index i has AZ_INDEX i + 1, the zone's name
-- in the three variables of the zone, the number of replicas in REPLICAS, and every variable of
-- another name unchanged.
pub container_envs-HasZone :
    (index : ℕ) (zone : String) (replicas : ℤ) (envs : List EnvVar)
    → (after : List EnvVar) → container_envs (pos index) zone (some replicas) none envs ≡ ok after
    → HasZone index zone replicas envs after
unfolding container_envs
container_envs-HasZone index zone replicas envs after e =
    subst (HasZone index zone replicas envs) (ok_injective e) (record {
      az_index = zone-value index zone envs replicas env_cf_operator_az_index;
      kube_az = zone-value index zone envs replicas env_kube_az;
      bosh_az = zone-value index zone envs replicas env_bosh_az;
      cf_operator_az = zone-value index zone envs replicas env_cf_operator_az;
      has_replicas = zone-value index zone envs replicas env_replicas;
      others = λ name n1 n2 n3 n4 n5.
          zone-value index zone envs replicas name
          ∙ rw
              (
                unequal_test env_replicas name n5,
                unequal_test env_cf_operator_az_index name n1,
                unequal_test env_cf_operator_az name n4,
                unequal_test env_bosh_az name n3,
                unequal_test env_kube_az name n2,
              )
              refl;
    })
