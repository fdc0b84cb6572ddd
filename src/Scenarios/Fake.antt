-- ===== src/Scenarios/Fake.antt =====
-- An environment whose API server keeps one StatefulSet, and in which every answer is simple: the
-- clock stands still, pods are ready by a mark, and the libraries do what they document.
use quarks_statefulset.Prelude.{
  Bool, true, false, none, some, List, [], ◌∷◌, String, StringMap, ℤ, pos, negsuc, ◌==◌, Outcome,
  ok, err, Error, api, insert, lookup, has, get, ◌≡◌, refl, if◌then◌else◌, arith, index,
  lookup-insert, ltb_ℤ, is_some, or_empty, ap,
}
use quarks_statefulset.Names.Annotation
use quarks_statefulset.Kube.Types.{StatefulSet, Pod, DataObject, QuarksStatefulSet}
use quarks_statefulset.Rollout.Completion.{latest}
use quarks_statefulset.Kube.Env.{TakesMinimum, Env, AppliesMutation, KeepsRollout, UnitesMaps}

abbrev pub not_found : Error
not_found = api "NotFound"

-- The keys of `b` over those of `a`; the result is never nil.
abbrev unite : List (String × String) → List (String × String) → List (String × String)
unite a [] = a
unite a ((k, v) ∷ b) = insert k v (unite a b)

abbrev entries : StringMap → List (String × String)
entries none = []
entries (some m) = m

abbrev pub union_maps : StringMap → StringMap → StringMap
union_maps a b = some (unite (entries a) (entries b))

pub record Cluster : Type 0 where
  pub statefulset : StatefulSet
  pub listed : List StatefulSet
  pub quarks : QuarksStatefulSet
  pub listed_quarks : List QuarksStatefulSet
  pub pods : List Pod
  pub probe_passes : Bool
  pub now : ℤ

abbrev pod_of : List Pod → String → Outcome Pod
pod_of [] name = err not_found
pod_of (p ∷ ps) name = if p.meta.name == name then ok p else pod_of ps name

abbrev pub data_object : String → DataObject
data_object name = record {
  meta = record { name = name; namespace = "ns"; labels = none; annotations = none; other = "" };
  content = "";
  other = "";
}

abbrev is_api : Error → Bool
is_api (api reason) = reason == "NotFound"
is_api _ = false

abbrev stamp : StringMap → StringMap
stamp none = none
stamp (some a) = some (insert "quarks.cloudfoundry.org/last-reconcile" "now" a)

abbrev pub fake : Cluster → Env
fake c = record {
  statefulset_at = λ h key. ok (latest c.statefulset h);
  quarks_at = λ h key. ok c.quarks;
  pod_at = λ h key. pod_of c.pods key.name;
  secret_at = λ h key. ok (data_object key.name);
  statefulsets_in = λ h namespace. ok c.listed;
  quarks_in = λ h namespace. ok c.listed_quarks;
  pods_in = λ h namespace selector. ok c.pods;
  created_or_updated = λ h s f. f (latest c.statefulset h);
  status_updated = λ h q. ok tt;
  pod_updated = λ h p. ok tt;
  pod_deleted = λ h p. ok tt;
  executor_for = λ p container command. ok tt;
  executed = λ h p container command. if c.probe_passes then ok tt else err (api "exec");
  clock = λ h. c.now;
  latest_secret = λ h namespace prefix. ok (data_object prefix);
  secret_references_set = λ h namespace spec. ok spec;
  is_versioned_secret = λ o. false;
  contains_secret_name = λ names name. false;
  contains_outdated_secret_version = λ names name. false;
  config_map_refs = λ spec. [];
  secret_refs = λ spec. [];
  in_window = λ length from now. false;
  in_annotation_window = λ length annotations now. false;
  set_last_reconcile = λ m now. record m { annotations = stamp m.annotations };
  is_pod_ready = λ p. p.other == "ready";
  ordinal_from_pod_name = λ name. if name == "web-0" then pos 0 else negsuc 0;
  union_maps = union_maps;
  min_int32 = λ a b. if ltb_ℤ b a then b else a;
  skips_reconciles = λ h o. false;
  is_not_found = is_api;
  is_conflict = λ e. false;
  is_controlled_by = λ m owner. true;
  reference_set = λ owner s. ok s;
}

pub fake-AppliesMutation : (c : Cluster) → AppliesMutation (fake c)
fake-AppliesMutation c = record { applied = λ h s f s' e. (latest c.statefulset h, e) }

lookup-unite :
    (a b : List (String × String)) (k : String)
    → lookup k (unite a b) ≡ (if is_some (lookup k b) then lookup k b else lookup k a)
lookup-unite a [] k = refl
lookup-unite a ((j, v) ∷ b) k = ground (arith, lookup-insert j k v (unite a b), lookup-unite a b k)

pub fake-UnitesMaps : (c : Cluster) → UnitesMaps (fake c)
fake-UnitesMaps c = record { united = united }
  where
    united :
        (a b : StringMap) (k : String)
        → get (union_maps a b) k ≡ (if has b k then get b k else get a k)
    united none none k = refl
    united none (some b) k = lookup-unite [] b k
    united (some a) none k = refl
    united (some a) (some b) k = lookup-unite a b k

stamp_keeps :
    (a : StringMap) → index (stamp a) Annotation.canary_rollout ≡ index a Annotation.canary_rollout
stamp_keeps none = refl
stamp_keeps (some a) =
    ap or_empty
      (lookup-insert "quarks.cloudfoundry.org/last-reconcile" Annotation.canary_rollout "now" a)

pub fake-KeepsRollout : (c : Cluster) → KeepsRollout (fake c)
fake-KeepsRollout c = record { kept = λ m now. stamp_keeps m.annotations }

pub fake-TakesMinimum : (c : Cluster) → TakesMinimum (fake c)
fake-TakesMinimum c = record { minimum = λ a b. ground arith }
