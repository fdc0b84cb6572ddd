-- ===== src/Rollout/Completion/Changes.antt =====
-- Rounds of a rollout that go on to another state, in a steady cluster.
use quarks_statefulset.Prelude.{
  ℕ, String, false, none, some, List, ◌∷◌, ℤ, pos, index, get, insert, get-insert, get-insert_self,
  ◌≡◌, refl, sym, ap, ◌∙◌, subst, ok, ok_injective, ◌==◌, or_empty,
}
use quarks_statefulset.Names.Annotation
use quarks_statefulset.Names.State
use quarks_statefulset.Kube.Types.{Key, StatefulSet}
use quarks_statefulset.Kube.Calls.{Call, History, ◌>>=◌}
use quarks_statefulset.Kube.Env.{Env, KeepsRollout}
use quarks_statefulset.Kube.Client.{get_statefulset, read_clock}
use quarks_statefulset.Rollout.Update.{
  with_annotations, with_partition, mutation, update_with_partition_move,
}
use quarks_statefulset.Rollout.Update.Writes.{HasPartition}
use quarks_statefulset.Rollout.Reconcile.{
  Config, Decision, switch, finish, proceed, reconcile, reconcile_read,
}
use quarks_statefulset.Rollout.Completion.{
  latest, IsSteady, IsAt, mutated, get_time_out-unwatched, fail_if_timed_out-unwatched,
  set_state_lem,
}
use quarks_statefulset.Rollout.Completion.Rounds.{
  revision, latest-update_with_partition_move, latest-when_ok,
}

mutation_lem :
    (s : StatefulSet) (m : List (String × String)) (old q : ℤ) (state : String)
    → HasPartition s old
    → s.meta.annotations ≡ some m
    → mutation q state s
      ≡ ok (with_annotations (with_partition s q) (some (insert Annotation.canary_rollout state m)))
unfolding mutation
mutation_lem s m old q state at e = rw (at, e)

-- A StatefulSet in a state and at a partition, with no watch time for the canary either.
pub record IsBefore (revision state : String) (p : ℕ) (s : StatefulSet) : Type 0 where
  pub here : IsAt revision state p s
  pub no_canary_time : get s.meta.annotations Annotation.canary_watch_time ≡ none

pub mutated-IsBefore :
    (revision state new_state : String) (p q : ℕ) (s : StatefulSet)
    → IsBefore revision state p s
    → (left : StatefulSet) × (mutation (pos q) new_state s ≡ ok left)
      × IsBefore revision new_state q left
mutated-IsBefore revision state new_state p q s b =
    let (left, e, at) = mutated revision state new_state p q s b.here in
    let m = b.here.annotations in
    let same =
      ok_injective (
        sym (mutation_lem s m (pos p) (pos q) new_state b.here.at_partition b.here.annotated)
        ∙ e) in
    (
      left,
      e,
      record {
        here = at;
        no_canary_time =
            ap (λ (t : StatefulSet). get t.meta.annotations Annotation.canary_watch_time) (sym same)
            ∙ get-insert Annotation.canary_rollout Annotation.canary_watch_time new_state m
            ∙ subst (λ m. get m Annotation.canary_watch_time ≡ none) b.here.annotated
                b.no_canary_time;
      },
    )

module _ (env : Env) (first : StatefulSet) (keeps : KeepsRollout env)
    (steady : IsSteady env first) where
  -- A decision to go on to another state, at a partition, leaves the object so.
  pub finish_changes :
      (s left : StatefulSet) (m : List (String × String)) (old q : ℤ) (new : String) (h : History)
      → (d : Decision) → d.statefulset ≡ s
      → d.new_status ≡ new
      → s.meta.annotations ≡ some m
      → (new == index s.meta.annotations Annotation.canary_rollout) ≡ false
      → HasPartition s q
      → mutation q new (latest first h) ≡ ok left
      → latest first (finish env old d h).1 ≡ left
  unfolding finish ◌>>=◌
  finish_changes s left m old q new h d same status annotated changes at e =
      let s' = with_annotations s (some (insert Annotation.canary_rollout new m)) in
      rw (same, status, changes, set_state_lem s m new annotated)
        (latest-when_ok env first keeps steady (update_with_partition_move env s' old h) _ (
          latest-update_with_partition_move env first keeps steady s' left q old new h at
            (ap or_empty (get-insert_self Annotation.canary_rollout new m)) e))

  abbrev pub begin : String → StatefulSet → Decision
  begin state s = record {
    statefulset = s;
    new_status = state;
    dirty = false;
    result = record { requeue = false; requeue_after = pos 0 };
  }

  abbrev pub start : Key → History → History
  start key h = Call.read_clock ∷ Call.get_statefulset key ∷ h

  -- A round is the end of what the switch decides.
  pub round_switch :
      (config : Config) (key : Key) (h h' : History) (state : String) (p : ℕ) (d : Decision)
      → (state == State.failed) ≡ false
      → (state == State.done) ≡ false
      → (a : IsAt (revision env first keeps steady) state p (latest first h))
      → switch env state (begin state (latest first h)) (start key h) ≡ (ok d, h')
      → (reconcile env config key h).1 ≡ (finish env (pos p) d h').1
  unfolding reconcile reconcile_read proceed get_statefulset read_clock ◌>>=◌
  round_switch config key h h' state p d not_failed not_done a decides =
      let s = latest first h in
      rw (
        steady.reads h key,
        steady.awake config.meltdown_duration s.meta.annotations
            (env.clock (Call.get_statefulset key ∷ h)),
        a.in_state,
        not_failed,
        not_done,
        a.at_partition,
        fail_if_timed_out-unwatched env s (start key h) a.unwatched,
        get_time_out-unwatched env s Annotation.update_watch_time (start key h) a.unwatched,
        decides,
      )

  -- A round that goes on to another state leaves what the mutation makes of the object.
  pub round_changes :
      (config : Config) (key : Key) (h h' : History) (from new : String) (p q : ℕ) (d : Decision)
      (left : StatefulSet)
      → (from == State.failed) ≡ false
      → (from == State.done) ≡ false
      → (new == from) ≡ false
      → IsAt (revision env first keeps steady) from p (latest first h)
      → switch env from (begin from (latest first h)) (start key h) ≡ (ok d, h')
      → latest first h' ≡ latest first h
      → d.statefulset.meta ≡ (latest first h).meta
      → HasPartition d.statefulset (pos q)
      → d.new_status ≡ new
      → mutation (pos q) new (latest first h) ≡ ok left
      → latest first (reconcile env config key h).1 ≡ left
  round_changes config key h h' from new p q d left not_failed not_done changes a decides quiet kept
        at_q status e =
      ap (λ x. latest first x) (round_switch config key h h' from p d not_failed not_done a decides)
      ∙ finish_changes d.statefulset left a.annotations (pos p) (pos q) new h' d refl status
          (ap (λ m. m.annotations) kept ∙ a.annotated)
          (ap (λ m. new == index m.annotations Annotation.canary_rollout) kept
            ∙ ap (λ t. new == t) a.in_state
            ∙ changes)
          at_q (ap (λ s. mutation (pos q) new s) quiet ∙ e)
