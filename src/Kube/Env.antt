-- ===== src/Kube/Env.antt =====
-- The environment: what answers the controllers' calls (API server, clock, exec endpoint), and the
-- functions of the quarks-utils, k8s.io and controller-runtime packages that the code calls. None
-- of these is implemented in the repository, so they are the fields of a parameter. An answer may
-- depend on the history of calls, so what other clients do between two calls is in some environment.
use quarks_statefulset.Prelude.{
  Bool, Option, List, String, StringMap, ℤ, ◌≤ℤ◌, ◌⊎◌, Outcome, ok, Error, ◌≡◌, if◌then◌else◌, get,
  has, index,
}
use quarks_statefulset.Kube.Types.{
  Key, StatefulSet, Pod, DataObject, QuarksStatefulSet, ObjectMeta, PodSpec,
}
use quarks_statefulset.Kube.Calls.{History}
use quarks_statefulset.Names.Annotation.{canary_rollout}

pub record Env : Type 0 where
  -- client.Get, client.List
  pub statefulset_at : History → Key → Outcome StatefulSet
  pub quarks_at : History → Key → Outcome QuarksStatefulSet
  pub pod_at : History → Key → Outcome Pod
  pub secret_at : History → Key → Outcome DataObject
  pub statefulsets_in : History → String → Outcome (List StatefulSet)
  pub quarks_in : History → String → Outcome (List QuarksStatefulSet)
  pub pods_in : History → String → StringMap → Outcome (List Pod)
  -- controllerutil.CreateOrUpdate: the object given, the function that mutates the loaded object;
  -- the answer is the object that the pointer holds afterwards
  pub created_or_updated :
      History → StatefulSet → (StatefulSet → Outcome StatefulSet) → Outcome StatefulSet
  -- client.Status().Update, client.Update, client.Delete
  pub status_updated : History → QuarksStatefulSet → Outcome (Unit {0})
  pub pod_updated : History → Pod → Outcome (Unit {0})
  pub pod_deleted : History → Pod → Outcome (Unit {0})
  -- remotecommand: NewSPDYExecutor for the exec request of a container of a pod, which calls nobody,
  -- and Stream, which runs the command
  pub executor_for : Pod → String → List String → Outcome (Unit {0})
  pub executed : History → Pod → String → List String → Outcome (Unit {0})
  -- time.Now, in nanoseconds since 1970
  pub clock : History → ℤ
  -- quarks-utils/pkg/versionedsecretstore
  pub latest_secret : History → String → String → Outcome DataObject
  pub secret_references_set : History → String → PodSpec → Outcome PodSpec
  pub is_versioned_secret : DataObject → Bool
  pub contains_secret_name : List String → String → Bool
  pub contains_outdated_secret_version : List String → String → Bool
  -- quarks-utils/pkg/podref: the names that a pod refers to, in the order a range over the map has
  pub config_map_refs : PodSpec → List String
  pub secret_refs : PodSpec → List String
  -- quarks-utils/pkg/meltdown: window of a length from a time, of annotations; time of reconcile
  pub in_window : ℤ → Option ℤ → ℤ → Bool
  pub in_annotation_window : ℤ → StringMap → ℤ → Bool
  pub set_last_reconcile : ObjectMeta → ℤ → ObjectMeta
  -- quarks-utils/pkg/pod, /pkg/names, /pkg/util
  pub is_pod_ready : Pod → Bool
  pub ordinal_from_pod_name : String → ℤ
  pub union_maps : StringMap → StringMap → StringMap
  pub min_int32 : ℤ → ℤ → ℤ
  -- quarks-utils/pkg/skip: whether changes of the object are to be left out
  pub skips_reconciles : History → DataObject → Bool
  -- apierrors.IsNotFound; apierrors.StatusError with code 409
  pub is_not_found : Error → Bool
  pub is_conflict : Error → Bool
  -- metav1.IsControlledBy, controllerutil.SetControllerReference
  pub is_controlled_by : ObjectMeta → ObjectMeta → Bool
  pub reference_set : ObjectMeta → StatefulSet → Outcome StatefulSet

-- CreateOrUpdate loads an object and applies the function to it: when it succeeds, the object that
-- it leaves is the function's result for some object.
pub record AppliesMutation (env : Env) : Type 0 where
  pub applied :
      (h : History) (s : StatefulSet) (f : StatefulSet → Outcome StatefulSet) (s' : StatefulSet)
      → env.created_or_updated h s f ≡ ok s'
      → (loaded : StatefulSet) × (f loaded ≡ ok s')

-- UnionMaps copies its maps into a new one, the later over the earlier.
pub record UnitesMaps (env : Env) : Type 0 where
  pub united :
      (a b : StringMap) (k : String)
      → get (env.union_maps a b) k ≡ (if has b k then get b k else get a k)

-- SetLastReconcile writes an annotation of its own, and none of the rollout's.
pub record KeepsRollout (env : Env) : Type 0 where
  pub kept :
      (m : ObjectMeta) (now : ℤ)
      → index (env.set_last_reconcile m now).annotations canary_rollout
        ≡ index m.annotations canary_rollout

-- MinInt32 is the lesser of two numbers.
pub record TakesMinimum (env : Env) : Type 0 where
  pub minimum :
      (a b : ℤ) → ((env.min_int32 a b ≡ a) × (a ≤ℤ b)) ⊎ ((env.min_int32 a b ≡ b) × (b ≤ℤ a))
