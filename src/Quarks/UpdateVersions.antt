-- ===== src/Quarks/UpdateVersions.antt =====
-- UpdateVersions of quarksstatefulset_reconciler.go.
pub mod Keeps
use quarks_statefulset.Prelude.{String, Bool, true, false, Option, none, some, List, [], ◌∷◌}
use quarks_statefulset.Text.Split.{split, join, drop_last}
use quarks_statefulset.Kube.Types.{QuarksStatefulSet, Volume, DataObject}
use quarks_statefulset.Kube.Calls.{Exec, pure, annotate, ◌>>=◌}
use quarks_statefulset.Kube.Env.{Env}
use quarks_statefulset.Kube.Client.{get_secret, latest_secret}

-- The name of a versioned secret without its version.
unfoldable pub secret_prefix : String → String
secret_prefix name = join (drop_last (split name))

unfoldable pub with_volumes : QuarksStatefulSet → List Volume → QuarksStatefulSet
with_volumes q volumes = record q {
  spec = record q.spec {
    template = record q.spec.template {
      spec = record q.spec.template.spec {
        template = record q.spec.template.spec.template {
          spec = record q.spec.template.spec.template.spec { volumes = volumes };
        };
      };
    };
  };
}

module _ (env : Env) where
  -- The name that a volume's secret gets: the latest version of a versioned secret, else its own.
  refresh : Bool → String → String → DataObject → Exec String
  unfolding secret_prefix
  refresh true namespace name secret = do
    latest ←
        annotate "failed to read latest versioned secret"
          (latest_secret env namespace (secret_prefix secret.meta.name))
    pure latest.meta.name
  refresh false namespace name secret = pure name

  unfoldable pub latest_name : String → String → Exec String
  unfolding refresh
  latest_name namespace name = do
    secret ← get_secret env (record { name = name; namespace = namespace })
    refresh (env.is_versioned_secret secret) namespace name secret

  unfoldable pub latest_volume : String → Volume → Option String → Exec Volume
  latest_volume namespace v none = pure v
  latest_volume namespace v (some name) = do
    latest ← latest_name namespace name
    pure (record v { secret_name = some latest })

  unfoldable pub latest_volumes : String → List Volume → Exec (List Volume)
  latest_volumes namespace [] = pure []
  latest_volumes namespace (v ∷ vs) = do
    w ← latest_volume namespace v v.secret_name
    ws ← latest_volumes namespace vs
    pure (w ∷ ws)

  unfoldable pub update_versions : QuarksStatefulSet → Exec QuarksStatefulSet
  unfolding with_volumes
  update_versions q = do
    volumes ← latest_volumes q.meta.namespace q.spec.template.spec.template.spec.volumes
    pure (with_volumes q volumes)
