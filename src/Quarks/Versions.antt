-- ===== src/Quarks/Versions.antt =====
-- GetMaxStatefulSetVersion and filterByOwner (quarksstatefulset/util.go), and
-- GetMaxAvailableVersion (v1alpha1/types.go).
pub mod Available
pub mod Highest
pub mod Current
pub mod Stored
use quarks_statefulset.Prelude.{
  String, Bool, true, false, ◌&&◌, Option, none, some, List, [], ◌∷◌, ◌++◌, ℤ, pos, ltb_ℤ, eqb_ℤ,
  index, is_some, ◌==◌, Outcome, ok, err, panic, message, api, select, if◌then◌else◌, StringMap,
}
use quarks_statefulset.Names.Annotation
use quarks_statefulset.Text.Decimal.{parse_int64}
use quarks_statefulset.Kube.Types.{StatefulSet, QuarksStatefulSet}
use quarks_statefulset.Kube.Calls.{Exec, pure, lift, ◌>>=◌}
use quarks_statefulset.Kube.Env.{Env}
use quarks_statefulset.Kube.Client.{list_statefulsets}

-- The StatefulSet that stands for none: all fields zero, with the version annotation "0".
abbrev pub default_statefulset : StatefulSet
default_statefulset = record {
  meta = record {
    name = "";
    namespace = "";
    labels = none;
    annotations = some ((Annotation.version, "0") ∷ []);
    other = "";
  };
  spec = record {
    replicas = none;
    selector = none;
    template = record {
      labels = none;
      annotations = none;
      spec = record {
        containers = [];
        init_containers = [];
        volumes = [];
        affinity = none;
        other = "";
      };
      other = "";
    };
    volume_claim_templates = "";
    update_strategy = record { type = ""; rolling_update = none };
    other = "";
  };
  status = record {
    replicas = pos 0;
    ready_replicas = pos 0;
    updated_replicas = pos 0;
    update_revision = "";
    other = "";
  };
}

abbrev parsed : Option ℤ → Outcome ℤ
parsed none = err (message "strconv.Atoi: invalid version")
parsed (some v) = ok v

-- The version annotation of a StatefulSet, or the error that ends the search.
unfoldable pub version_of : StatefulSet → Outcome ℤ
version_of s =
    let text = index s.meta.annotations Annotation.version in
    if text == ""
    then err (message "the version annotation is missing")
    else parsed (parse_int64 text)

-- One round of the loop: a higher version starts the result anew.
unfoldable pub keep : ℤ → StatefulSet → List StatefulSet × ℤ → List StatefulSet × ℤ
keep version s (result, highest) =
    if is_some s.meta.annotations
    then (if ltb_ℤ highest version
        then (s ∷ [], version)
        else if eqb_ℤ version highest
        then (result ++ s ∷ [], highest)
        else (result, highest))
    else (result, highest)

unfoldable pub scan : List StatefulSet → List StatefulSet × ℤ → Outcome (List StatefulSet × ℤ)
scan [] found = ok found
scan (s ∷ ss) found = elim (version_of s) [
  | ok version ↦ scan ss (keep version s found)
  | err e ↦ err e
  | panic ↦ panic
]

unfoldable pub or_default : List StatefulSet × ℤ → List StatefulSet × ℤ
or_default ([], highest) = (default_statefulset ∷ [], highest)
or_default (s ∷ ss, highest) = (s ∷ ss, highest)

-- GetMaxAvailableVersion over the map's entries, in any order.
unfoldable pub get_max_available_version : List (ℤ × Bool) → ℤ → ℤ
get_max_available_version [] highest = highest
get_max_available_version ((version, available) ∷ versions) highest =
    get_max_available_version versions
      (if available && ltb_ℤ highest version then version else highest)

module _ (env : Env) where
  unfoldable pub filter_by_owner : QuarksStatefulSet → List StatefulSet → List StatefulSet
  filter_by_owner q ss = select (λ s. env.is_controlled_by s.meta q.meta) ss

  -- listStatefulSetsFromInformer, and listStatefulSetsFromAPIClient, which asks another client the same.
  unfoldable pub list_owned_statefulsets : QuarksStatefulSet → Exec (List StatefulSet)
  list_owned_statefulsets q = do
    all ← list_statefulsets env q.meta.namespace
    pure (filter_by_owner q all)

  unfoldable pub get_max_statefulset_version : QuarksStatefulSet → Exec (List StatefulSet × ℤ)
  get_max_statefulset_version q =
      if q.meta.namespace == "" then pure (default_statefulset ∷ [], pos 0) else do
        owned ← list_owned_statefulsets q
        found ← lift (scan owned ([], pos 0))
        pure (or_default found)
