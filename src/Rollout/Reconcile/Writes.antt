-- ===== src/Rollout/Reconcile/Writes.antt =====
-- The calls of Reconcile (statefulset_rollout_reconciler.go), beside the state diagram.
use quarks_statefulset.Prelude.{
  String, Bool, Bool-cases, inl, inr, true, false, Option, ◌∷◌, ℤ, index, ◌==◌, ◌≡◌, refl, sym, ap,
  subst, or_empty, ok, err, panic, eq_iff, ◌⊎◌,
}
use quarks_statefulset.Names.Annotation
use quarks_statefulset.Names.State
use quarks_statefulset.Kube.Types.{Key, StatefulSet}
use quarks_statefulset.Kube.Calls.{
  Call, History, ◌>>=◌, Extends, Extends-cons, Returns-lift, Emits, emits_rules, Emits-bind,
  Emits-bind_returning, Emits-pure, Emits-lift, Emits-weaken,
}
use quarks_statefulset.Kube.Env.{Env, AppliesMutation, KeepsRollout}
use quarks_statefulset.Kube.Client.{get_statefulset}
use quarks_statefulset.Rollout.Timeout.{get_time_out}
use quarks_statefulset.Rollout.Timeout.Reads.{Emits-get_time_out, Emits-read_clock}
use quarks_statefulset.Rollout.Pods.{partition_of}
use quarks_statefulset.Rollout.Pods.Deletes.{Emits-partition_pod_is_ready_and_updated}
use quarks_statefulset.Rollout.Update.{set_state, update_with_partition_move}
use quarks_statefulset.Rollout.Update.Writes.{
  HasPartition, Holds, Writes, set_state-Holds, Emits-update_with_partition_move,
  Emits-fail_if_timed_out,
}
use quarks_statefulset.Rollout.Reconcile.{
  Config, Decision, switch, canary_upscale_case, canary_case, rollout_case, pending_case, finish,
  proceed, reconcile, reconcile_read, unless_timed_out, unless_terminal, unless_in_meltdown,
  when_scaled, when_timed_out, start, old_partition_of,
}
use quarks_statefulset.Rollout.Reconcile.Diagram.{Moves, Follows}
use quarks_statefulset.Rollout.Reconcile.Steps.{switch-Follows}

-- The object is in a state and at a partition to which the diagram leads in one step; or the
-- partition is as it was and the rollout has failed.
pub record Stepped (status : String) (partition : ℤ) (left : StatefulSet) : Type 0 where
  pub new_status : String
  pub new_partition : ℤ
  pub holds : Holds new_status new_partition left
  pub step :
      Moves status partition new_status new_partition
      ⊎ ((new_status ≡ State.failed) × (new_partition ≡ partition))

-- The calls that Reconcile may make for an object in a state and at a partition.
abbrev pub Allowed : Env → String → ℤ → Call → Type 0
Allowed env status partition (Call.get_statefulset key) = Unit
Allowed env status partition (Call.get_pod key) = Unit
Allowed env status partition Call.read_clock = Unit
Allowed env status partition (Call.create_or_update s (ok left)) = Stepped status partition left
Allowed env status partition (Call.create_or_update s (err e)) = Unit
Allowed env status partition (Call.create_or_update s panic) = Unit
Allowed env status partition (Call.delete_pod pod) = env.is_pod_ready pod ≡ false
Allowed env status partition _ = ⊥

module _ (env : Env) (status : String) (partition : ℤ) (new_status : String) (new_partition : ℤ)
    (step : Moves status partition new_status new_partition
      ⊎ ((new_status ≡ State.failed) × (new_partition ≡ partition))) where
  Allowed-Writes :
      (c : Call) → Writes env new_status new_partition c → Allowed env status partition c
  Allowed-Writes (Call.create_or_update s (ok left)) w = record {
    new_status = new_status;
    new_partition = new_partition;
    holds = w;
    step = step;
  }
  Allowed-Writes (Call.create_or_update s (err e)) w = tt
  Allowed-Writes (Call.create_or_update s panic) w = tt
  Allowed-Writes _ w = w

module _ (env : Env) (P : Call → Type 0) (may_read : P Call.read_clock)
    (may_get : (key : Key) → P (Call.get_pod key)) where
  Emits-partition_of : (s : StatefulSet) → Emits P (partition_of s)
  unfolding partition_of
  Emits-partition_of s = search emits_rules

  timed_out : (s : StatefulSet) (name : String) → Emits P (get_time_out env s name)
  timed_out = Emits-get_time_out env P may_read

  Emits-when_scaled : (b : Bool) (d : Decision) → Emits P (when_scaled b d)
  unfolding when_scaled
  Emits-when_scaled true d = search (emits_rules, Emits-partition_of)
  Emits-when_scaled false d = search emits_rules

  Emits-rollout_case : (d : Decision) → Emits P (rollout_case env d)
  unfolding rollout_case
  Emits-rollout_case d =
      search
        (emits_rules, Emits-partition_of, Emits-partition_pod_is_ready_and_updated env P may_get)

  Emits-when_timed_out : (b : Bool) (d : Decision) → Emits P (when_timed_out env b d)
  unfolding when_timed_out
  Emits-when_timed_out true d = search emits_rules
  Emits-when_timed_out false d = Emits-rollout_case d

  Emits-start : (b : Bool) (d : Decision) → Emits P (start env b d)
  unfolding start
  Emits-start true d = search (emits_rules, Emits-partition_of, timed_out)
  Emits-start false d = search (emits_rules, Emits-partition_of, timed_out)

  Emits-switch : (status : String) (d : Decision) → Emits P (switch env status d)
  unfolding switch canary_upscale_case canary_case pending_case
  Emits-switch status d =
      search
        (
          emits_rules, Emits-when_scaled, Emits-rollout_case, Emits-when_timed_out, Emits-start,
          timed_out,
        )
        depth 10

module _ (env : Env) (law : AppliesMutation env) (keeps : KeepsRollout env) where
  -- A write of a state that the diagram allows.
  Emits-move :
      (status : String) (p : ℤ) (s : StatefulSet) (new_status : String) (q old : ℤ)
      → HasPartition s q
      → index s.meta.annotations Annotation.canary_rollout ≡ new_status
      → Moves status p new_status q
      → Emits (Allowed env status p) (update_with_partition_move env s old)
  Emits-move status p s new_status q old known state step =
      Emits-weaken _ (Allowed-Writes env status p new_status q (inl step)) (
        subst (λ st. Emits (Writes env st q) (update_with_partition_move env s old)) state
          (Emits-update_with_partition_move env law keeps s q known old))

  Emits-finish :
      (status : String) (p : ℤ) (d₀ d : Decision) (old : ℤ)
      → Follows status d₀ d p
      → Emits (Allowed env status p) (finish env old d)
  unfolding finish
  Emits-finish status p d₀ d old f =
      elim (Bool-cases
        (d.new_status == index d.statefulset.meta.annotations Annotation.canary_rollout)) [
          | inr changed ↦ rw changed (
              Emits-bind_returning _ _
                (Returns-lift (set_state d.new_status d.statefulset)
                  (set_state-Holds d.new_status d.statefulset))
                (Emits-lift _)
                λ s (in_state, same_spec).
                  let moved : HasPartition s f.partition = rw same_spec f.moved in
                  Emits-bind _ _
                    (Emits-move status p s d.new_status f.partition old moved (ap or_empty in_state)
                      f.step)
                    λ done. Emits-pure d.result)
          | inl same ↦ rw same (elim (Bool-cases d.dirty) [
            | inl dirty ↦ rw dirty (
                Emits-bind _ _
                  (Emits-move status p d.statefulset d.new_status f.partition old f.moved
                    (sym ((eq_iff _ _).0 same)) f.step)
                  λ done. Emits-pure d.result)
            | inr clean ↦ rw clean (Emits-pure d.result)
          ])
        ]

  module _ (s : StatefulSet) (p : ℤ) (known : HasPartition s p) where
    Emits-unless_timed_out :
        (timed_out : Bool) (status : String) (old : Option ℤ)
        → Emits (Allowed env status p) (unless_timed_out env timed_out s status old)
    unfolding unless_timed_out
    Emits-unless_timed_out true status old = Emits-pure _
    Emits-unless_timed_out false status old =
        Emits-bind _ _ (Emits-get_time_out env (Allowed env status p) tt s _) λ left.
          Emits-bind_returning _ _ (switch-Follows env (initial left) p known status refl)
            (Emits-switch env (Allowed env status p) tt (λ key. tt) status (initial left))
            λ d f. Emits-finish status p (initial left) d (old_partition_of old) f
      where
        initial : ℤ → Decision
        initial left = record {
          statefulset = s;
          new_status = status;
          dirty = false;
          result = record { requeue = false; requeue_after = left };
        }

    Emits-proceed : (status : String) → Emits (Allowed env status p) (proceed env s status)
    unfolding proceed
    Emits-proceed status = Emits-bind _ _ (Emits-lift _) λ old.
        Emits-bind _ _
          (Emits-weaken _ (Allowed-Writes env status p State.failed p (inr (refl, refl)))
            (Emits-fail_if_timed_out env law keeps s p Annotation.update_watch_time known))
          λ timed_out. Emits-unless_timed_out timed_out status old

    Emits-unless_terminal :
        (terminal : Bool) (status : String)
        → Emits (Allowed env status p) (unless_terminal env terminal s status)
    unfolding unless_terminal
    Emits-unless_terminal true status = Emits-pure _
    Emits-unless_terminal false status = Emits-proceed status

    Emits-unless_in_meltdown :
        (window : Bool) (config : Config)
        → Emits
            (Allowed env (index s.meta.annotations Annotation.canary_rollout) p)
            (unless_in_meltdown env window config s)
    unfolding unless_in_meltdown
    Emits-unless_in_meltdown true config = Emits-pure _
    Emits-unless_in_meltdown false config = Emits-unless_terminal _ _

    Emits-reconcile_read :
        (config : Config)
        → Emits
            (Allowed env (index s.meta.annotations Annotation.canary_rollout) p)
            (reconcile_read env config s)
    unfolding reconcile_read
    Emits-reconcile_read config =
        Emits-bind _ _ (Emits-read_clock env (Allowed env _ p) tt)
          λ now. Emits-unless_in_meltdown _ config

    -- Whatever answers its calls, a reconcile of a StatefulSet that has a partition only reads
    -- StatefulSets, pods and the clock, deletes pods that it found not ready, and leaves by
    -- CreateOrUpdate objects whose state and partition the state diagram gives in one step from
    -- those that it read (or whose state is Failed at the same partition). The laws are those of
    -- CreateOrUpdate and SetLastReconcile.
    pub reconcile-Allowed :
        (config : Config) (key : Key) (h : History)
        → env.statefulset_at h key ≡ ok s
        → Extends
            (Allowed env (index s.meta.annotations Annotation.canary_rollout) p)
            h
            (reconcile env config key h).1
    unfolding reconcile get_statefulset ◌>>=◌
    reconcile-Allowed config key h answer = rw answer (
        Extends-cons (Call.get_statefulset key) tt
          ((Emits-reconcile_read config).at (Call.get_statefulset key ∷ h)))
