-- ===== src/Rollout/Rest.antt =====
-- When the rollout controller runs, when it lets a StatefulSet be, and when a watch time is over.
use quarks_statefulset.Prelude.{
  ℕ, ◌+◌, ◌*◌, ◌^◌, ◌<◌, String, true, false, ◌||◌, Option, none, some, ◌∷◌, pos, get, index, ◌==◌,
  ◌≡◌, ◌≢◌, ◌↔◌, ◌⊎◌, inl, inr, refl, ok, eq_iff, arith, ltb_ℤ, leb, ◌+ℤ◌, ◌-ℤ◌, ◌*ℤ◌, ◌/◌, wrap64,
  Bool-cases,
}
use quarks_statefulset.Names.Annotation
use quarks_statefulset.Names.State
use quarks_statefulset.Kube.Types.{Key, StatefulSet}
use quarks_statefulset.Kube.Calls.{Call, History, ◌>>=◌}
use quarks_statefulset.Kube.Env.{Env}
use quarks_statefulset.Kube.Client.{get_statefulset, read_clock}
use quarks_statefulset.Rollout.Timeout.{time_left, deadline_of}
use quarks_statefulset.Rollout.Trigger.{check_update, check_state}
use quarks_statefulset.Rollout.Reconcile.{Config, reconcile, reconcile_read, no_result}

abbrev pub IsTerminal : String → Type 0
IsTerminal state = (state ≡ State.failed) ⊎ (state ≡ State.done)

terminal_test :
    (state : String) → IsTerminal state → (state == State.failed || (state == State.done)) ≡ true
terminal_test state (inl e) = rw e
terminal_test state (inr e) = rw e

-- A StatefulSet whose rollout is Done or Failed is read, the clock is read, and nothing else is
-- called; the result asks for a requeue only in a meltdown.
pub terminal_rests :
    (env : Env) (config : Config) (key : Key) (h : History) (s : StatefulSet)
    → env.statefulset_at h key ≡ ok s
    → IsTerminal (index s.meta.annotations Annotation.canary_rollout)
    → ((reconcile env config key h).1 ≡ Call.read_clock ∷ Call.get_statefulset key ∷ h)
      × (((reconcile env config key h).0 ≡ ok no_result)
          ⊎ ((reconcile env config key h).0
              ≡ ok (record { requeue = false; requeue_after = config.meltdown_requeue_after })))
unfolding reconcile reconcile_read get_statefulset read_clock ◌>>=◌
terminal_rests env config key h s answer terminal =
    let now = env.clock (Call.get_statefulset key ∷ h) in
    elim (Bool-cases (env.in_annotation_window config.meltdown_duration s.meta.annotations now)) [
      | inl asleep ↦ rw (answer, asleep) (refl, inr refl)
      | inr awake ↦ rw (answer, awake, terminal_test _ terminal) (refl, inl refl)
    ]

-- What makes an update event worth a reconcile.
pub record IsDue (old new : StatefulSet) : Type 0 where
  pub state : String
  pub annotated : get new.meta.annotations Annotation.canary_rollout ≡ some state
  pub not_done : state ≢ State.done
  pub not_failed : state ≢ State.failed
  pub due :
      (state ≡ State.pending)
      ⊎ (new.status.ready_replicas ≢ old.status.ready_replicas)
      ⊎ (new.status.updated_replicas ≢ old.status.updated_replicas)
      ⊎ (new.status.replicas ≢ old.status.replicas)

check_state_sound :
    (o : Option String) (old new : StatefulSet)
    → get new.meta.annotations Annotation.canary_rollout ≡ o
    → check_state o old new ≡ true
    → IsDue old new
unfolding check_state
check_state_sound none old new e h = absurd (cc h)
check_state_sound (some state) old new e h = record {
  state = state;
  annotated = e;
  not_done = λ d. ground (arith, eq_iff state State.done);
  not_failed = λ f. ground (arith, eq_iff state State.failed, eq_iff state State.done);
  due =
      ground
        (arith, eq_iff state State.failed, eq_iff state State.done, eq_iff state State.pending);
}

check_state_complete :
    (old new : StatefulSet) (due : IsDue old new) → check_state (some due.state) old new ≡ true
unfolding check_state
check_state_complete old new due = ground (
  arith,
  eq_iff due.state State.failed,
  eq_iff due.state State.done,
  eq_iff due.state State.pending,
  due.due,
)

-- CheckUpdate lets an update event through exactly when the new object has a rollout state, which
-- is neither Done nor Failed, and the state is Pending or one of the ready, updated and present
-- replica counts has changed.
pub check_update-IsDue : (old new : StatefulSet) → (check_update old new ≡ true) ↔ IsDue old new
unfolding check_update
check_update-IsDue old new =
    (check_state_sound _ old new refl, λ due. rw due.annotated (check_state_complete old new due))

wrap64-pos : (n : ℕ) → n < 2 ^ 63 → wrap64 (pos n) ≡ pos n
wrap64-pos n fits = ground arith

sum_pos : (a b : ℕ) → pos a +ℤ pos b ≡ pos (a + b)
sum_pos a b = ground arith

difference_pos : (a b : ℕ) → pos (a + b) -ℤ pos b ≡ pos a
difference_pos a b = ground arith

deadline_of-pos :
    (start d : ℕ)
    → start + 80000000000 < 2 ^ 63
    → d < 2 ^ 63
    → deadline_of (pos start) (pos d) ≡ pos (start * 1000000000 + d)
unfolding deadline_of
deadline_of-pos start d early fits =
    rw
      (
        sum_pos start 62135596800,
        wrap64-pos (start + 62135596800) (omega (arith, early)),
        sum_pos (start + 62135596800) (d / 1000000000),
        wrap64-pos (start + 62135596800 + d / 1000000000) (omega (arith, early, fits)),
      )
      (ground arith)

-- With times from 1970 on that leave 80000000000 seconds to the greatest of an int64, and a watch
-- time whose nanoseconds fit an int64, what is left of the watch time is negative exactly when the
-- deadline is not after the present.
pub time_left-negative :
    (watch_ms start_s now_ns : ℕ)
    → watch_ms * 1000000 < 2 ^ 63
    → start_s + 80000000000 < 2 ^ 63
    → ltb_ℤ (time_left (pos watch_ms) (pos start_s) (pos now_ns)) (pos 0)
      ≡ leb (start_s * 1000000000 + watch_ms * 1000000) now_ns
unfolding time_left
time_left-negative w s n fits early =
    let product : pos w *ℤ pos 1000000 ≡ pos (w * 1000000) = ground arith in
    rw (product, wrap64-pos (w * 1000000) fits, deadline_of-pos s (w * 1000000) early fits)
      (ground arith)
