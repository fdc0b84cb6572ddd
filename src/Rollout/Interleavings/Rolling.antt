-- ===== src/Rollout/Interleavings/Rolling.antt =====
-- What holds of a StatefulSet in whatever order its writes come: the writes of
-- statefulset_webhook.go and statefulset_rollout_reconciler.go.
use quarks_statefulset.Prelude.{
  ℕ, suc, String, List, [], some, ℤ, pos, ◌≤ℤ◌, ◌<◌, insert, get-insert, get-insert_self, get_elem?,
  All, or_empty, ◌≡◌, refl, sym, ap, ◌∙◌, subst, ok, ok_injective, inl, inr, ◌⊎◌, arith,
  String_discrete, ℤ_discrete, ◌≢◌, unequal, get_elem?-All, All-append,
}
use quarks_statefulset.Names.Annotation
use quarks_statefulset.Names.State
use quarks_statefulset.Text.Decimal.{itoa}
use quarks_statefulset.Kube.Types.{Key, StatefulSet}
use quarks_statefulset.Kube.Calls.{Call}
use quarks_statefulset.Kube.Env.{Env, AppliesMutation, KeepsRollout}
use quarks_statefulset.Rollout.Update.Writes.{HasPartition}
use quarks_statefulset.Rollout.Webhook.{unix}
use quarks_statefulset.Rollout.Webhook.Starts.{
  started, configure_for_rollout_lem, configure_for_initial_rollout_lem,
}
use quarks_statefulset.Rollout.Reconcile.{Config, reconcile}
use quarks_statefulset.Rollout.Reconcile.Diagram.{
  Moves, stay, start_canary, start_upscale, start_upscale_at_zero, upscaled, upscale_done,
  canary_failed, advance, complete,
}
use quarks_statefulset.Rollout.Reconcile.Writes.{Stepped, Allowed, reconcile-Allowed}
use quarks_statefulset.Rollout.Reconcile.Chains.{IsSound, Moves-Lowers}
use quarks_statefulset.Rollout.Interleavings.{
  IsState, is_pending, is_canary, is_canary_upscale, is_rollout, is_done, is_failed, state_of,
  IsRolling, Next, created, updated, reconciled, changed, Held, nothing, next,
}

Moves-IsState :
    {status status' : String} {p p' : ℤ}
    → IsState status
    → Moves status p status' p'
    → IsState status'
Moves-IsState known (stay e _) = subst IsState (sym e) known
Moves-IsState known (start_canary _ e _) = subst IsState (sym e) is_canary
Moves-IsState known (start_upscale _ e _ _) = subst IsState (sym e) is_canary_upscale
Moves-IsState known (start_upscale_at_zero _ e _ _) = subst IsState (sym e) is_canary_upscale
Moves-IsState known (upscaled _ e _ _) = subst IsState (sym e) is_rollout
Moves-IsState known (upscale_done _ e _ _) = subst IsState (sym e) is_done
Moves-IsState known (canary_failed _ e _) = subst IsState (sym e) is_failed
Moves-IsState known (advance _ e _ _) = subst IsState (sym e) is_rollout
Moves-IsState known (complete _ e _ _) = subst IsState (sym e) is_done

-- A move from a sound partition leads to one.
abbrev Sound : String → ℤ → Type 0
Sound status p = (n : ℕ) × (p ≡ pos n) × IsSound status n

Moves-Sound :
    {status status' : String} {p' : ℤ} (n : ℕ)
    → IsSound status n
    → Moves status (pos n) status' p'
    → Sound status' p'
Moves-Sound {status} {status'} {p'} n sound step = elim (String_discrete status' status) [
  | no other ↦ moved (inl other)
  | yes same ↦ elim (ℤ_discrete p' (pos n)) [
    | no other ↦ moved (inr other)
    | yes still ↦ (n, still, λ e. sound (sym same ∙ e))
  ]
]
  where
    moved : (status' ≢ status) ⊎ (p' ≢ pos n) → Sound status' p'
    moved other =
        let (n', at, le, lighter, sound') = Moves-Lowers n refl sound other step in (n', at, sound')

Stepped-IsRolling :
    {left : StatefulSet} (read : StatefulSet) (r : IsRolling read)
    → Stepped (state_of read) (pos r.partition) left
    → IsRolling left
Stepped-IsRolling {left} read r w = arrive w.step
  where
    in_state : state_of left ≡ w.new_status
    in_state = ap or_empty w.holds.in_state

    rolling : IsState w.new_status → Sound w.new_status w.new_partition → IsRolling left
    rolling known (n, e, sound) = record {
      partition = n;
      at_partition = w.holds.at_partition ∙ ap (λ p. some (some p)) e;
      in_state = subst IsState (sym in_state) known;
      sound = λ p. sound (sym in_state ∙ p);
    }

    arrive :
        Moves (state_of read) (pos r.partition) w.new_status w.new_partition
          ⊎ ((w.new_status ≡ State.failed) × (w.new_partition ≡ pos r.partition))
        → IsRolling left
    arrive (inl step) =
        rolling (Moves-IsState r.in_state step) (Moves-Sound r.partition r.sound step)
    arrive (inr (failed, kept)) =
        rolling (subst IsState (sym failed) is_failed) (
          r.partition,
          kept,
          λ p. absurd (unequal State.failed State.pending refl (sym failed ∙ p)),
        )

started-IsRolling :
    {left : StatefulSet} (m : List (String × String)) (state : String) (now : ℤ) (n : ℕ)
    (s : StatefulSet)
    → IsState state
    → IsSound state n
    → started m state now (pos n) s ≡ left
    → IsRolling left
started-IsRolling m state now n s known sound e = subst IsRolling e record {
  partition = n;
  at_partition = refl;
  in_state = subst IsState (sym marked) known;
  sound = λ p. sound (sym marked ∙ p);
}
  where
    marked : state_of (started m state now (pos n) s) ≡ state
    marked = ap or_empty (
        get-insert Annotation.update_start_time Annotation.canary_rollout (itoa (unix now))
          (insert Annotation.canary_rollout state m)
        ∙ get-insert_self Annotation.canary_rollout state m)

least_positive :
    (low a b : ℤ) (k j : ℕ)
    → a ≡ pos (suc k)
    → b ≡ pos (suc j)
    → ((low ≡ a) × (a ≤ℤ b)) ⊎ ((low ≡ b) × (b ≤ℤ a))
    → (n : ℕ) × (low ≡ pos n) × (0 < n)
least_positive low a b k j ea eb (inl (e, le)) = (suc k, e ∙ ea, omega arith)
least_positive low a b k j ea eb (inr (e, le)) = (suc j, e ∙ eb, omega arith)

get_elem?-writes :
    (env : Env) (law : AppliesMutation env) (keeps : KeepsRollout env) (config : Config) (key : Key)
    (j : ℕ) (read passed left : StatefulSet) (p : ℤ)
    → HasPartition read p
    → env.statefulset_at [] key ≡ ok read
    → get_elem? (reconcile env config key []).1 j ≡ some (Call.create_or_update passed (ok left))
    → Stepped (state_of read) p left
get_elem?-writes env law keeps config key j read passed left p at answer written =
    let P = Allowed env (state_of read) p in
    let x = reconcile-Allowed env law keeps read p at config key [] answer in
    get_elem?-All P _ j _ (subst (All P) (sym x.extended) (All-append P x.calls [] x.every tt))
      written

Next-IsRolling :
    {past : List StatefulSet} {left : StatefulSet}
    → All IsRolling past
    → Next past left
    → IsRolling left
Next-IsRolling all (created webhook s m g annotated marks) =
    started-IsRolling m State.canary_upscale (webhook.clock g) 0 s is_canary_upscale
      (λ e. absurd (unequal State.canary_upscale State.pending refl e))
      (ok_injective
        (sym (ap (λ r. r.0) (configure_for_initial_rollout_lem webhook s m g annotated)) ∙ marks))
Next-IsRolling all (updated webhook least s m k j g annotated wanted present marks) =
    let (n, low, positive) =
      least_positive (webhook.min_int32 (pos (suc k)) s.status.replicas) (pos (suc k))
        s.status.replicas k j refl present (least.minimum _ _) in
    started-IsRolling m State.pending (webhook.clock g) n s is_pending (λ e. positive)
      (ap (λ p. started m State.pending (webhook.clock g) p s) (sym low)
        ∙ ok_injective (
            sym (
              ap (λ r. r.0)
                (configure_for_rollout_lem webhook s m (pos (suc k)) g annotated wanted))
            ∙ marks))
Next-IsRolling all (reconciled env law keeps config key i j read passed was answer written) =
    let r = get_elem?-All IsRolling _ i read all was in
    Stepped-IsRolling read r (
      get_elem?-writes env law keeps config key j read passed _ (pos r.partition) r.at_partition
        answer written)
Next-IsRolling all (changed i held was same_strategy same_state) =
    let r = get_elem?-All IsRolling _ i held all was in
    record {
      partition = r.partition;
      at_partition = same_strategy ∙ r.at_partition;
      in_state = subst IsState (sym same_state) r.in_state;
      sound = λ e. r.sound (sym same_state ∙ e);
    }

-- In whatever order the webhook marks new StatefulSets and updates of those that want and have
-- replicas, reconciles write (also those that have read an older StatefulSet), and other clients
-- change all but the partition and the state: each StatefulSet that the API server holds is in one
-- of the six states, at a partition that is not negative, and positive where it is Pending. The
-- laws are those of MinInt32, CreateOrUpdate and SetLastReconcile.
pub Held-IsRolling : {past : List StatefulSet} → Held past → All IsRolling past
Held-IsRolling nothing = tt
Held-IsRolling (next held step) = let all = Held-IsRolling held in (Next-IsRolling all step, all)
