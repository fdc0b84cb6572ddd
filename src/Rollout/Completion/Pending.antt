-- ===== src/Rollout/Completion/Pending.antt =====
-- The round that starts a canary, and those after it.
use quarks_statefulset.Prelude.{
  ℕ, zero, suc, String, true, false, none, some, ℤ, pos, get, ◌≡◌, sym, subst, ok, ltb_ℤ, refl,
}
use quarks_statefulset.Names.Annotation
use quarks_statefulset.Names.State
use quarks_statefulset.Kube.Types.{Key, StatefulSet}
use quarks_statefulset.Kube.Calls.{History, ◌>>=◌}
use quarks_statefulset.Kube.Env.{Env, KeepsRollout}
use quarks_statefulset.Rollout.Pods.{partition_of}
use quarks_statefulset.Rollout.Update.{with_partition}
use quarks_statefulset.Rollout.Update.Writes.{HasPartition}
use quarks_statefulset.Rollout.Reconcile.{Config, Decision, switch, pending_case, reconcile}
use quarks_statefulset.Rollout.Completion.{latest, IsSteady, IsAt, get_time_out-unwatched}
use quarks_statefulset.Rollout.Completion.Rounds.{revision, rounds}
use quarks_statefulset.Rollout.Completion.Canary.{canary_completes}
use quarks_statefulset.Rollout.Completion.Changes.{
  mutated-IsBefore, IsBefore, round_changes, begin, start,
}

module _ (env : Env) (first : StatefulSet) (keeps : KeepsRollout env)
    (steady : IsSteady env first) where
  abbrev begun : StatefulSet → ℕ → Decision
  begun s k = record {
    statefulset = with_partition s (pos k);
    new_status = State.canary;
    dirty = true;
    result = record { requeue = false; requeue_after = pos 0 };
  }

  pending_decides :
      (s : StatefulSet) (k : ℕ) (replicas : ℤ) (h : History)
      → HasPartition s (pos (suc k))
      → s.spec.replicas ≡ some replicas
      → ltb_ℤ s.status.replicas replicas ≡ false
      → get s.meta.annotations Annotation.canary_watch_time ≡ none
      → switch env State.pending (begin env first keeps steady State.pending s) h
        ≡ (ok (begun s k), h)
  unfolding switch pending_case partition_of ◌>>=◌
  pending_decides s k replicas h at wanted enough unwatched =
      simp
        (wanted, enough, get_time_out-unwatched env s Annotation.canary_watch_time h unwatched, at)

  module _ (config : Config) (key : Key) where
    abbrev after : History → StatefulSet
    after h = latest first (reconcile env config key h).1

    abbrev IsIn : String → ℕ → StatefulSet → Type 0
    IsIn = IsAt (revision env first keeps steady)

    pending_round :
        (h : History) (k : ℕ) (replicas : ℤ)
        → IsBefore (revision env first keeps steady) State.pending (suc k) (latest first h)
        → (latest first h).spec.replicas ≡ some replicas
        → ltb_ℤ (latest first h).status.replicas replicas ≡ false
        → IsBefore (revision env first keeps steady) State.canary k (after h)
    pending_round h k replicas b wanted enough =
        let s = latest first h in
        let (left, e, at) =
          mutated-IsBefore (revision env first keeps steady) State.pending State.canary (suc k) k s
            b in
        let decides =
          pending_decides s k replicas (start env first keeps steady key h) b.here.at_partition
            wanted enough b.no_canary_time in
        let left_is =
          round_changes env first keeps steady config key h (start env first keeps steady key h)
            State.pending State.canary (suc k) k (begun s k) left refl refl refl b.here decides refl
            refl refl refl e in
        subst (IsBefore (revision env first keeps steady) State.canary k) (sym left_is) at

    -- In a steady cluster, a StatefulSet in the state Pending at partition k + 1 that has as many
    -- replicas as it wants, and no watch times, is Done at partition 0 after k + 2 reconciles.
    pub pending_completes :
        (k : ℕ) (h : History) (replicas : ℤ)
        → IsBefore (revision env first keeps steady) State.pending (suc k) (latest first h)
        → (latest first h).spec.replicas ≡ some replicas
        → ltb_ℤ (latest first h).status.replicas replicas ≡ false
        → IsIn State.done zero
            (latest first (rounds env first keeps steady config key (suc (suc k)) h))
    unfolding rounds
    pending_completes k h replicas b wanted enough =
        canary_completes env first keeps steady config key k (reconcile env config key h).1
          (pending_round h k replicas b wanted enough)
