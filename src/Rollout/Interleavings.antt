-- ===== src/Rollout/Interleavings.antt =====
-- Updates that the webhook marks (statefulset_webhook.go), reconciles that may have read an older
-- StatefulSet (statefulset_rollout_reconciler.go) and writes of other clients, in any order.
pub mod Rolling
use quarks_statefulset.Prelude.{
  ℕ, zero, suc, String, List, [], ◌∷◌, some, ℤ, pos, ◌≤ℤ◌, ◌<◌, get, insert, get-insert,
  get-insert_self, get_elem?, All, index, or_empty, ◌≡◌, refl, sym, ap, ◌∙◌, subst, Outcome, ok,
  ok_injective, inl, inr, ◌⊎◌, arith, String_discrete, ℤ_discrete, ◌≢◌, unequal, get_elem?-All,
  All-append,
}
use quarks_statefulset.Names.Annotation
use quarks_statefulset.Names.State
use quarks_statefulset.Text.Decimal.{itoa}
use quarks_statefulset.Kube.Types.{Key, StatefulSet}
use quarks_statefulset.Kube.Calls.{Call, History, Extends}
use quarks_statefulset.Kube.Env.{Env, AppliesMutation, KeepsRollout, TakesMinimum}
use quarks_statefulset.Rollout.Update.Writes.{HasPartition, Holds}
use quarks_statefulset.Rollout.Webhook.{configure_for_rollout, configure_for_initial_rollout, unix}
use quarks_statefulset.Rollout.Webhook.Starts.{
  started, configure_for_rollout_lem, configure_for_initial_rollout_lem,
}
use quarks_statefulset.Rollout.Reconcile.{Config, reconcile}
use quarks_statefulset.Rollout.Reconcile.Diagram.{
  Moves, stay, start_canary, start_upscale, start_upscale_at_zero, upscaled, upscale_done,
  canary_failed, advance, complete,
}
use quarks_statefulset.Rollout.Reconcile.Writes.{Stepped, Allowed, reconcile-Allowed}
use quarks_statefulset.Rollout.Reconcile.Chains.{IsSound, Moves-Lowers}

-- The states that a rollout has.
pub data IsState : String → Type 0 where
  is_pending : IsState State.pending
  is_canary : IsState State.canary
  is_canary_upscale : IsState State.canary_upscale
  is_rollout : IsState State.rollout
  is_done : IsState State.done
  is_failed : IsState State.failed

abbrev pub state_of : StatefulSet → String
state_of s = index s.meta.annotations Annotation.canary_rollout

-- A rollout state, and a partition that the API server accepts, positive before the first pod.
pub record IsRolling (s : StatefulSet) : Type 0 where
  pub partition : ℕ
  pub at_partition : HasPartition s (pos partition)
  pub in_state : IsState (state_of s)
  pub sound : IsSound (state_of s) partition

-- What the API server may hold next, after the StatefulSets that it held so far, the last in front.
-- Of the QuarksStatefulSet reconciler's writes, those with a new template are marked; those with the
-- old one are in Quarks/Reconcile/Overwrites.
pub data Next (past : List StatefulSet) : StatefulSet → Type 0 where
  -- The webhook marks a new StatefulSet.
  created :
      {left : StatefulSet} (webhook : Env) (s : StatefulSet) (m : List (String × String))
      (g : History)
      → s.meta.annotations ≡ some m
      → (configure_for_initial_rollout webhook s g).0 ≡ ok left
      → Next past left
  -- The webhook marks an update of a StatefulSet that wants replicas and has some.
  updated :
      {left : StatefulSet} (webhook : Env) (least : TakesMinimum webhook) (s : StatefulSet)
      (m : List (String × String)) (wanted present : ℕ) (g : History)
      → s.meta.annotations ≡ some m
      → s.spec.replicas ≡ some (pos (suc wanted))
      → s.status.replicas ≡ pos (suc present)
      → (configure_for_rollout webhook s g).0 ≡ ok left
      → Next past left
  -- A reconcile that has read one of the StatefulSets, whatever has been written since.
  reconciled :
      {left : StatefulSet} (env : Env) (law : AppliesMutation env) (keeps : KeepsRollout env)
      (config : Config) (key : Key) (i j : ℕ) (read passed : StatefulSet)
      → get_elem? past i ≡ some read
      → env.statefulset_at [] key ≡ ok read
      → get_elem? (reconcile env config key []).1 j ≡ some (Call.create_or_update passed (ok left))
      → Next past left
  -- Another client changes anything but the partition and the state.
  changed :
      {left : StatefulSet} (i : ℕ) (held : StatefulSet)
      → get_elem? past i ≡ some held
      → left.spec.update_strategy.rolling_update ≡ held.spec.update_strategy.rolling_update
      → state_of left ≡ state_of held
      → Next past left

-- The StatefulSets that the API server has held under one name, the last in front.
pub data Held : List StatefulSet → Type 0 where
  nothing : Held []
  next :
      {past : List StatefulSet} {left : StatefulSet}
      → Held past
      → Next past left
      → Held (left ∷ past)
