-- ===== src/Scenarios/Quarks.antt =====
-- The controllers of the QuarksStatefulSet at concrete inputs: versions, status, pods, references.
use quarks_statefulset.Prelude.{
  ℤ, Bool, ◌≡◌, refl, none, some, List, [], ◌∷◌, String, pos, ok, true, false,
}
use quarks_statefulset.Names.Annotation
use quarks_statefulset.Text.Decimal.{parse_int64}
use quarks_statefulset.Text.Json.{marshal_strings}
use quarks_statefulset.Kube.Types.{StatefulSet, QuarksStatefulSet}
use quarks_statefulset.Kube.Calls.{History, Emits, Returns}
use quarks_statefulset.Kube.Env.{Env}
use quarks_statefulset.Quarks.Versions.{version_of, keep, scan}
use quarks_statefulset.Quarks.Versions.Highest.{Finds, scan-Highest}
use quarks_statefulset.Quarks.Status
use quarks_statefulset.Quarks.Status.Writes
use quarks_statefulset.Quarks.ActivePassive.{mark_pod}
use quarks_statefulset.Quarks.ActivePassive.Marks.{Probed, mark_pod-Probed}
use quarks_statefulset.Quarks.ActivePassive
use quarks_statefulset.Quarks.ActivePassive.Round
use quarks_statefulset.Quarks.UpdateVersions.{update_versions, with_volumes}
use quarks_statefulset.Quarks.UpdateVersions.Keeps.{IsRefreshed, update_versions-IsRefreshed}
use quarks_statefulset.Reference.{Object, get_reconciles}
use quarks_statefulset.Reference.Members.{Selected, get_reconciles-Selected}
use quarks_statefulset.Scenarios.Fake.{fake, data_object}
use quarks_statefulset.Scenarios.Objects.{key, sts, cluster, qsts, ready_pods, pod}

abbrev versioned : String → StatefulSet
versioned v = sts none (pos 2) (pos 2) ((Annotation.version, v) ∷ [])

abbrev owned : List StatefulSet
owned = versioned "2" ∷ versioned "1" ∷ versioned "2" ∷ []

abbrev env : Env
env = fake (cluster (versioned "2") ready_pods)

finds_second : scan owned ([], pos 0) ≡ ok (versioned "2" ∷ versioned "2" ∷ [], pos 2)
unfolding scan version_of keep parse_int64
finds_second = refl

scan-Highest_example : Finds owned (versioned "2" ∷ versioned "2" ∷ [], pos 2)
scan-Highest_example = scan-Highest owned (versioned "2" ∷ versioned "2" ∷ [], pos 2) finds_second

zones : marshal_strings ("z1" ∷ "a\"<" ∷ []) ≡ "[\"z1\",\"a\\\"\\u003c\"]"
unfolding marshal_strings
zones = refl

status_reconcile-Allowed_example : Emits (Writes.Allowed env key) (Status.reconcile env key)
status_reconcile-Allowed_example = Writes.status_reconcile-Allowed env key

mark_pod-Probed_example :
    Probed env "app"
      ("check" ∷ [])
      (pod "web-0" "ready")
      []
      (mark_pod env "app" ("check" ∷ []) (pod "web-0" "ready") []).1
mark_pod-Probed_example = mark_pod-Probed env "app" ("check" ∷ []) (pod "web-0" "ready") []

-- A store in which every secret is versioned.
abbrev versioned_env : Env
versioned_env = record env { is_versioned_secret = λ o. true }

-- A QuarksStatefulSet with a versioned secret in a volume.
abbrev with_secret : QuarksStatefulSet
with_secret =
    with_volumes (qsts [])
      (record { name = "password"; secret_name = some "password-v1"; other = "" } ∷ [])

update_versions-IsRefreshed_example :
    Returns (IsRefreshed versioned_env with_secret) (update_versions versioned_env with_secret)
update_versions-IsRefreshed_example = update_versions-IsRefreshed versioned_env with_secret

-- An environment in which every pod refers to the ConfigMap `app`.
abbrev referring_env : Env
referring_env = record env { config_map_refs = λ spec. "app" ∷ [] }

get_reconciles-Selected_example :
    Returns
      (λ keys.
        (when : History) × (qs : List QuarksStatefulSet) × (referring_env.quarks_in when "ns"
          ≡ ok qs)
        × Selected referring_env (Object.config_map (data_object "app")) false qs keys)
      (get_reconciles referring_env (Object.config_map (data_object "app")) false)
get_reconciles-Selected_example =
    get_reconciles-Selected referring_env (Object.config_map (data_object "app")) false

active_passive_reconcile-Allowed_example :
    Emits (Round.Allowed env key) (ActivePassive.reconcile env key)
active_passive_reconcile-Allowed_example = Round.active_passive_reconcile-Allowed env key

abbrev available : List (ℤ × Bool)
available = (pos 2, true) ∷ (pos 7, false) ∷ (pos 5, true) ∷ []
