-- ===== src/Rollout/Update/Writes.antt =====
-- What updateStatefulSet and its callers write, and what they delete.
use quarks_statefulset.Prelude.{
  String, Bool-cases, inl, inr, true, false, Option, none, some, ℤ, index, get, put, ◌≡◌, refl, sym,
  ap, subst, Outcome, ok, err, panic, Error, arith, get-insert_self, or_empty, StringMap,
  map_outcome, ok_injective,
}
use quarks_statefulset.Names.Annotation
use quarks_statefulset.Names.State
use quarks_statefulset.Kube.Types.{StatefulSet}
use quarks_statefulset.Kube.Calls
use quarks_statefulset.Kube.Calls.{
  Call, Exec, pure, fail, lift, ask_with, rescue, ◌>>=◌, Returns, Returns-pure, Returns-bind,
  Returns-any, Returns-lift, Returns-ask_with, Returns-rescue, Returns-fail, Emits, emits_rules,
  Emits-bind, Emits-bind_returning, Emits-ask_with, Emits-rescue, Emits-if, Emits-pure, Emits-lift,
}
use quarks_statefulset.Kube.Env.{Env, AppliesMutation, KeepsRollout}
use quarks_statefulset.Kube.Client.{read_clock, create_or_update}
use quarks_statefulset.Rollout.Timeout.Reads.{Emits-get_time_out}
use quarks_statefulset.Rollout.Pods.Deletes.{Emits-cleanup_non_ready_pod}
use quarks_statefulset.Rollout.Pods.{partition_of}
use quarks_statefulset.Rollout.Update.{
  mutation, set_state, update_statefulset, update_with_partition_move, fail_if_timed_out, explain,
  mark_failed, with_annotations, with_partition, set_partition_and_state,
}

abbrev pub HasPartition : StatefulSet → ℤ → Type 0
HasPartition s partition = s.spec.update_strategy.rolling_update ≡ some (some partition)

-- The object has the state and the partition, and was made from one that had both an update
-- strategy and annotations.
pub record Holds (state : String) (partition : ℤ) (s : StatefulSet) : Type 0 where
  pub at_partition : HasPartition s partition
  pub in_state : get s.meta.annotations Annotation.canary_rollout ≡ some state

written :
    (state : String) (s s' : StatefulSet) (annotations : StringMap)
    → map_outcome (with_annotations s) (put Annotation.canary_rollout state annotations) ≡ ok s'
    → (get s'.meta.annotations Annotation.canary_rollout ≡ some state) × (s'.spec ≡ s.spec)
written state s s' none e = cc e
written state s s' (some m) e =
    let p = ok_injective e in
    (rw (← p) (get-insert_self Annotation.canary_rollout state m), ap (λ t. t.spec) (sym p))

pub set_state-Holds :
    (state : String) (s s' : StatefulSet)
    → set_state state s ≡ ok s'
    → (get s'.meta.annotations Annotation.canary_rollout ≡ some state) × (s'.spec ≡ s.spec)
unfolding set_state
set_state-Holds state s s' e = written state s s' s.meta.annotations e

mutated :
    (partition : ℤ) (state : String) (s s' : StatefulSet) (old : Option (Option ℤ))
    → set_partition_and_state partition state s old ≡ ok s'
    → Holds state partition s'
mutated partition state s s' none e = cc e
mutated partition state s s' (some old) e =
    let (in_state, same_spec) = set_state-Holds state (with_partition s partition) s' e in
    record { at_partition = rw same_spec; in_state = in_state }

pub mutation-Holds :
    (partition : ℤ) (state : String) (s s' : StatefulSet)
    → mutation partition state s ≡ ok s'
    → Holds state partition s'
unfolding mutation
mutation-Holds partition state s s' e =
    mutated partition state s s' s.spec.update_strategy.rolling_update e

-- The calls that a write of a state and a partition may make.
abbrev pub Writes : Env → String → ℤ → Call → Type 0
Writes env state partition (Call.get_statefulset key) = Unit
Writes env state partition (Call.get_pod key) = Unit
Writes env state partition Call.read_clock = Unit
Writes env state partition (Call.create_or_update s (ok left)) = Holds state partition left
Writes env state partition (Call.create_or_update s (err e)) = Unit
Writes env state partition (Call.create_or_update s panic) = Unit
Writes env state partition (Call.delete_pod pod) = env.is_pod_ready pod ≡ false
Writes env state partition _ = ⊥

module _ (env : Env) (law : AppliesMutation env) (keeps : KeepsRollout env) where
  left-Holds :
      (state : String) (partition : ℤ) (s : StatefulSet) (h : Calls.History) (left : StatefulSet)
      → env.created_or_updated h s (mutation partition state) ≡ ok left
      → Holds state partition left
  left-Holds state partition s h left e =
      let (loaded, f) = law.applied h s (mutation partition state) left e in
      mutation-Holds partition state loaded left f

  allowed :
      (state : String) (partition : ℤ) (s : StatefulSet) (h : Calls.History)
      (o : Outcome StatefulSet)
      → env.created_or_updated h s (mutation partition state) ≡ o
      → Writes env state partition (Call.create_or_update s o)
  allowed state partition s h (ok left) e = left-Holds state partition s h left e
  allowed state partition s h (err x) e = tt
  allowed state partition s h panic e = tt

  Emits-create_or_update :
      (state : String) (partition : ℤ) (s : StatefulSet)
      → Emits (Writes env state partition) (create_or_update env s (mutation partition state))
  unfolding create_or_update
  Emits-create_or_update state partition s =
      Emits-ask_with _ _ λ h. allowed state partition s h _ refl

  Returns-create_or_update :
      (state : String) (partition : ℤ) (s : StatefulSet)
      → Returns (Holds state partition) (create_or_update env s (mutation partition state))
  unfolding create_or_update
  Returns-create_or_update state partition s =
      Returns-ask_with _ _ λ h left e. left-Holds state partition s h left e

  Returns-partition_of :
      (s : StatefulSet) (p : ℤ) → HasPartition s p → Returns (λ q. q ≡ p) (partition_of s)
  unfolding partition_of ◌>>=◌
  Returns-partition_of s p known = record { post = λ h a e. ground (arith, known) }

  Emits-partition_of : {P : Call → Type 0} (s : StatefulSet) → Emits P (partition_of s)
  unfolding partition_of
  Emits-partition_of s = search emits_rules

  Emits-read_clock :
      (state : String) (partition : ℤ) → Emits (Writes env state partition) (read_clock env)
  unfolding read_clock
  Emits-read_clock state partition = search emits_rules

  Emits-explain : {P : Call → Type 0} (e : Error) → Emits P (explain env e)
  unfolding explain
  Emits-explain e = search emits_rules

  Returns-explain : {Q : StatefulSet → Type 0} (e : Error) → Returns Q (explain env e)
  unfolding explain
  Returns-explain e = elim (Bool-cases (env.is_conflict e)) [
    | inl c ↦ rw c (Returns-fail _)
    | inr c ↦ rw c (Returns-fail _)
  ]

  module _ (s : StatefulSet) (partition : ℤ) (known : HasPartition s partition) where
    abbrev state : String
    state = index s.meta.annotations Annotation.canary_rollout

    Emits-update_statefulset : Emits (Writes env state partition) (update_statefulset env s)
    unfolding update_statefulset
    Emits-update_statefulset = Emits-bind _ _ (Emits-read_clock state partition) λ now.
        Emits-bind_returning _ _ (Returns-partition_of s partition known) (Emits-partition_of s)
          λ q e.
            rw (e, keeps.kept s.meta now)
              (Emits-rescue _ _ (Emits-create_or_update state partition _) Emits-explain)

    Returns-update_statefulset : Returns (Holds state partition) (update_statefulset env s)
    unfolding update_statefulset
    Returns-update_statefulset = Returns-bind _ _ (Returns-any _) λ now _.
        Returns-bind _ _ (Returns-partition_of s partition known) λ q e.
          rw (e, keeps.kept s.meta now)
            (Returns-rescue _ _ (Returns-create_or_update state partition _) Returns-explain)

    pub Emits-update_with_partition_move :
        (old : ℤ) → Emits (Writes env state partition) (update_with_partition_move env s old)
    unfolding update_with_partition_move
    Emits-update_with_partition_move old =
        Emits-bind_returning _ _ Returns-update_statefulset Emits-update_statefulset λ left holds.
          Emits-bind _ _ (Emits-partition_of left) λ q.
            Emits-if _ _ _ (λ same. Emits-pure tt)
              (λ moved.
                Emits-cleanup_non_ready_pod env (Writes env state partition) (λ key. tt)
                  (λ pod ready. ready) left q)

  Emits-mark_failed :
      (s : StatefulSet) (partition : ℤ)
      → HasPartition s partition
      → Emits (Writes env State.failed partition) (mark_failed env s)
  unfolding mark_failed
  Emits-mark_failed s partition known =
      Emits-bind_returning _ _
        (Returns-lift (set_state State.failed s) (set_state-Holds State.failed s)) (Emits-lift _)
        λ failed (in_state, same_spec).
          let moved : HasPartition failed partition = rw same_spec known in
          let update =
            subst (λ st. Emits (Writes env st partition) (update_statefulset env failed))
              (ap or_empty in_state) (Emits-update_statefulset failed partition moved) in
          Emits-bind _ _ update λ updated. Emits-pure true

  pub Emits-fail_if_timed_out :
      (s : StatefulSet) (partition : ℤ) (timeout : String)
      → HasPartition s partition
      → Emits (Writes env State.failed partition) (fail_if_timed_out env s timeout)
  unfolding fail_if_timed_out
  Emits-fail_if_timed_out s partition timeout known =
      Emits-bind _ _ (Emits-get_time_out env (Writes env State.failed partition) tt s timeout)
        λ left.
          Emits-if _ _ _ (λ late. Emits-mark_failed s partition known) (λ early. Emits-pure false)
