-- ===== src/Rollout/Pods/Deletes.antt =====
-- What the functions on pods (statefulset_rollout_util.go) call.
use quarks_statefulset.Prelude.{
  Bool, Bool-cases, inl, inr, true, false, Option, none, some, ℤ, ◌≡◌, refl, Error, Option-cases,
}
use quarks_statefulset.Kube.Types.{Key, StatefulSet, Pod}
use quarks_statefulset.Kube.Calls.{
  Call, Returns, Returns-pure, Returns-bind, Returns-any, Returns-rescue, Returns-fail, Emits,
  emits_rules, Emits-bind_returning, Emits-ask, Emits-pure,
}
use quarks_statefulset.Kube.Env.{Env}
use quarks_statefulset.Kube.Client.{get_pod, delete_pod}
use quarks_statefulset.Rollout.Pods.{
  partition_of, get_pod_with_index, cleanup_non_ready_pod, not_found_is_none, delete_non_ready,
  partition_pod_is_ready_and_updated,
}

module _ (env : Env) where
  -- A pod that comes back comes with whether it is ready.
  abbrev IsTold : Option Pod × Bool → Type 0
  IsTold (none, ready) = ready ≡ false
  IsTold (some pod, ready) = ready ≡ env.is_pod_ready pod

  Returns-not_found : (e : Error) → Returns IsTold (not_found_is_none env e)
  unfolding not_found_is_none
  Returns-not_found e = elim (Bool-cases (env.is_not_found e)) [
    | inl c ↦ rw c (Returns-pure _ refl)
    | inr c ↦ rw c (Returns-fail _)
  ]

  Returns-get_pod_with_index :
      (s : StatefulSet) (i : ℤ) → Returns IsTold (get_pod_with_index env s i)
  unfolding get_pod_with_index
  Returns-get_pod_with_index s i =
      Returns-rescue _ _ (Returns-bind _ _ (Returns-any _) λ pod _. Returns-pure _ refl)
        Returns-not_found

module _ (env : Env) (P : Call → Type 0) (may_get : (key : Key) → P (Call.get_pod key)) where
  Emits-get_pod : (key : Key) → Emits P (get_pod env key)
  unfolding get_pod
  Emits-get_pod key = Emits-ask _ _ (may_get key)

  Emits-not_found : (e : Error) → Emits P (not_found_is_none env e)
  unfolding not_found_is_none
  Emits-not_found e = search emits_rules

  pub Emits-get_pod_with_index : (s : StatefulSet) (i : ℤ) → Emits P (get_pod_with_index env s i)
  unfolding get_pod_with_index
  Emits-get_pod_with_index s i = search (emits_rules, Emits-get_pod, Emits-not_found)

  partition_of_Emits : (s : StatefulSet) → Emits P (partition_of s)
  unfolding partition_of
  partition_of_Emits s = search emits_rules

  pub Emits-partition_pod_is_ready_and_updated :
      (s : StatefulSet) → Emits P (partition_pod_is_ready_and_updated env s)
  unfolding partition_pod_is_ready_and_updated
  Emits-partition_pod_is_ready_and_updated s =
      elim (Option-cases s.spec.update_strategy.rolling_update) [
        | inl n ↦ rw n (Emits-pure false)
        | inr (u, e) ↦ rw e (search (emits_rules, Emits-get_pod_with_index))
      ]

  module _ (may_delete : (pod : Pod) → env.is_pod_ready pod ≡ false → P (Call.delete_pod pod)) where
    Emits-delete_non_ready :
        (answer : Option Pod × Bool) → IsTold env answer → Emits P (delete_non_ready env answer)
    unfolding delete_non_ready delete_pod
    Emits-delete_non_ready (none, ready) told = Emits-pure tt
    Emits-delete_non_ready (some pod, true) told = Emits-pure tt
    Emits-delete_non_ready (some pod, false) told = Emits-ask _ _ (may_delete pod (cc told))

    pub Emits-cleanup_non_ready_pod :
        (s : StatefulSet) (i : ℤ) → Emits P (cleanup_non_ready_pod env s i)
    unfolding cleanup_non_ready_pod
    Emits-cleanup_non_ready_pod s i =
        Emits-bind_returning _ _ (Returns-get_pod_with_index env s i) (Emits-get_pod_with_index s i)
          Emits-delete_non_ready
