-- ===== src/Rollout/Completion.antt =====
-- A cluster in which Reconcile of statefulset_rollout_reconciler.go can be followed from round to
-- round: an API server that keeps what is written, pods that are ready and updated, no watch times.
pub mod Rounds
pub mod Changes
pub mod Canary
pub mod Pending
pub mod Upscale
pub mod Update
use quarks_statefulset.Prelude.{
  ℕ, zero, suc, String, Bool, true, false, Option, none, some, List, [], ◌∷◌, ℤ, pos, negsuc, index,
  get, put, insert, ◌≡◌, refl, sym, ap, ◌∙◌, subst, Outcome, ok, err, panic, ◌==◌, eq_refl,
  get-insert, get-insert_self, index-insert, or_empty, StringMap, arith, Option-cases, eqb_ℤ,
  if◌then◌else◌, inl, inr, dec32, All, ◌++◌,
}
use quarks_statefulset.Names.Annotation
use quarks_statefulset.Names.Label
use quarks_statefulset.Names.State
use quarks_statefulset.Kube.Types.{Key, StatefulSet, Pod, Result, ObjectMeta}
use quarks_statefulset.Kube.Calls.{
  Call, History, Exec, pure, lift, when_ok, ◌>>=◌, Extends, Emits, Emits-bind, Emits-if, Emits-pure,
  emits_rules,
}
use quarks_statefulset.Kube.Env.{Env, KeepsRollout}
use quarks_statefulset.Kube.Client.{get_statefulset, read_clock, get_pod, create_or_update}
use quarks_statefulset.Rollout.Timeout.{get_time_out}
use quarks_statefulset.Rollout.Pods.{
  partition_of, pod_name, get_pod_with_index, is_updated, partition_pod_is_ready_and_updated,
  cleanup_non_ready_pod,
}
use quarks_statefulset.Rollout.Pods.Deletes.{Emits-cleanup_non_ready_pod}
use quarks_statefulset.Rollout.Update.{
  with_annotations, with_partition, set_state, mutation, update_statefulset,
  update_with_partition_move, fail_if_timed_out,
}
use quarks_statefulset.Rollout.Update.Writes.{HasPartition, Holds}
use quarks_statefulset.Rollout.Reconcile.{
  Config, Decision, switch, rollout_case, decide_rollout, finish, proceed, reconcile,
  reconcile_read,
}

-- The StatefulSet that the API server holds: what was written last, or the first.
abbrev pub latest : StatefulSet → History → StatefulSet
latest first [] = first
latest first (Call.create_or_update s (ok left) ∷ h) = left
latest first (_ ∷ h) = latest first h

-- A cluster that holds one StatefulSet and keeps what is written to it; its pods are ready and
-- carry the update revision.
pub record IsSteady (env : Env) (first : StatefulSet) : Type 0 where
  pub reads : (h : History) (key : Key) → env.statefulset_at h key ≡ ok (latest first h)
  pub writes :
      (h : History) (s : StatefulSet) (f : StatefulSet → Outcome StatefulSet)
      → env.created_or_updated h s f ≡ f (latest first h)
  pub pod : Pod
  pub found : (h : History) (key : Key) → env.pod_at h key ≡ ok pod
  pub ready : env.is_pod_ready pod ≡ true
  pub updated : index pod.meta.labels Label.controller_revision_hash ≡ first.status.update_revision
  pub awake :
      (length : ℤ) (annotations : StringMap) (now : ℤ)
      → env.in_annotation_window length annotations now ≡ false

-- A StatefulSet in a state and at a partition, with no watch time for the update.
pub record IsAt (revision state : String) (p : ℕ) (s : StatefulSet) : Type 0 where
  pub annotations : List (String × String)
  pub annotated : s.meta.annotations ≡ some annotations
  pub in_state : index s.meta.annotations Annotation.canary_rollout ≡ state
  pub unwatched : get s.meta.annotations Annotation.update_watch_time ≡ none
  pub at_partition : HasPartition s (pos p)
  pub same_revision : s.status.update_revision ≡ revision

-- What a successful mutation of an object makes of it.
pub mutated :
    (revision state new_state : String) (p q : ℕ) (s : StatefulSet)
    → IsAt revision state p s
    → (left : StatefulSet) × (mutation (pos q) new_state s ≡ ok left)
      × IsAt revision new_state q left
unfolding mutation
mutated revision state new_state p q s a =
    let m = insert Annotation.canary_rollout new_state a.annotations in
    let left = with_annotations (with_partition s (pos q)) (some m) in
    (
      left,
      rw (a.at_partition, a.annotated),
      record {
        annotations = m;
        annotated = refl;
        in_state = ap or_empty (get-insert_self Annotation.canary_rollout new_state a.annotations);
        unwatched =
            get-insert Annotation.canary_rollout Annotation.update_watch_time new_state
              a.annotations
            ∙ subst (λ m. get m Annotation.update_watch_time ≡ none) a.annotated a.unwatched;
        at_partition = refl;
        same_revision = a.same_revision;
      },
    )

-- Calls that write no StatefulSet.
abbrev IsQuiet : Call → Type 0
IsQuiet (Call.create_or_update s o) = ⊥
IsQuiet _ = Unit

latest-quiet :
    (first : StatefulSet) (calls h : History)
    → All IsQuiet calls
    → latest first (calls ++ h) ≡ latest first h
latest-quiet first [] h q = refl
latest-quiet first (Call.create_or_update s o ∷ calls) h q = absurd q.0
latest-quiet first (_ ∷ calls) h q = latest-quiet first calls h q.1

latest-Extends :
    (first : StatefulSet) {h h' : History} → Extends IsQuiet h h' → latest first h' ≡ latest first h
latest-Extends first {h} x = rw x.extended (latest-quiet first x.calls h x.every)

pub set_state_lem :
    (s : StatefulSet) (m : List (String × String)) (state : String)
    → s.meta.annotations ≡ some m
    → set_state state s ≡ ok (with_annotations s (some (insert Annotation.canary_rollout state m)))
unfolding set_state
set_state_lem s m state e = rw e

module _ (env : Env) where
  pub get_time_out-unwatched :
      (s : StatefulSet) (name : String) (h : History)
      → get s.meta.annotations name ≡ none
      → get_time_out env s name h ≡ (ok (pos 0), h)
  unfolding get_time_out ◌>>=◌
  get_time_out-unwatched s name h e = rw e

  pub fail_if_timed_out-unwatched :
      (s : StatefulSet) (h : History)
      → get s.meta.annotations Annotation.update_watch_time ≡ none
      → fail_if_timed_out env s Annotation.update_watch_time h ≡ (ok false, h)
  unfolding fail_if_timed_out ◌>>=◌
  fail_if_timed_out-unwatched s h e = rw (get_time_out-unwatched s Annotation.update_watch_time h e)

  Emits-partition_of : (s : StatefulSet) → Emits IsQuiet (partition_of s)
  unfolding partition_of
  Emits-partition_of s = search emits_rules

  pub pod-ready_and_updated :
      (s : StatefulSet) (p : ℤ) (pod : Pod) (h : History)
      → HasPartition s p
      → env.pod_at h (record { name = pod_name s.meta.name p; namespace = s.meta.namespace })
        ≡ ok pod
      → env.is_pod_ready pod ≡ true
      → index pod.meta.labels Label.controller_revision_hash ≡ s.status.update_revision
      → partition_pod_is_ready_and_updated env s h ≡ (
        ok true,
        Call.get_pod (record { name = pod_name s.meta.name p; namespace = s.meta.namespace }) ∷ h,
      )
  unfolding partition_pod_is_ready_and_updated get_pod_with_index get_pod is_updated ◌>>=◌
  pod-ready_and_updated s p pod h at found ready updated =
      rw (at, found, ready, updated, eq_refl s.status.update_revision)

  pub update_statefulset-leaves :
      (keeps : KeepsRollout env) (s left : StatefulSet) (q : ℤ) (state : String) (h : History)
      → HasPartition s q
      → index s.meta.annotations Annotation.canary_rollout ≡ state
      → ((s' : StatefulSet)
          → env.created_or_updated (Call.read_clock ∷ h) s' (mutation q state) ≡ ok left)
      → (passed : StatefulSet) × (update_statefulset env s h
          ≡ (ok left, Call.create_or_update passed (ok left) ∷ Call.read_clock ∷ h))
  unfolding update_statefulset read_clock create_or_update partition_of ◌>>=◌
  update_statefulset-leaves keeps s left q state h at in_state leaves =
      let s' = record s { meta = env.set_last_reconcile s.meta (env.clock h) } in
      (s', rw (at, keeps.kept s.meta (env.clock h), in_state, leaves _))
