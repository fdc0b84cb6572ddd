-- ===== src/Rollout/Completion/Update.antt =====
-- An update from the webhook that marks it to the end of its rollout.
use quarks_statefulset.Prelude.{
  ℕ, zero, suc, String, none, some, List, [], ℤ, pos, ◌≤ℤ◌, ltb_ℤ, false, get, insert, get-insert,
  get-insert_self, or_empty, ◌≡◌, refl, sym, ap, ◌∙◌, subst, ok, ok_injective, arith, inl, inr, ◌⊎◌,
}
use quarks_statefulset.Names.Annotation
use quarks_statefulset.Names.State
use quarks_statefulset.Text.Decimal.{itoa}
use quarks_statefulset.Kube.Types.{Key, StatefulSet}
use quarks_statefulset.Kube.Calls.{History}
use quarks_statefulset.Kube.Env.{Env, KeepsRollout, TakesMinimum}
use quarks_statefulset.Rollout.Webhook.{configure_for_rollout, unix}
use quarks_statefulset.Rollout.Webhook.Starts.{started, configure_for_rollout_lem}
use quarks_statefulset.Rollout.Reconcile.{Config}
use quarks_statefulset.Rollout.Completion.{latest, IsSteady, IsAt}
use quarks_statefulset.Rollout.Completion.Rounds.{rounds}
use quarks_statefulset.Rollout.Completion.Changes.{IsBefore}
use quarks_statefulset.Rollout.Completion.Pending.{pending_completes}

started-IsBefore :
    (s : StatefulSet) (m : List (String × String)) (now : ℤ) (p : ℕ)
    → s.meta.annotations ≡ some m
    → get s.meta.annotations Annotation.update_watch_time ≡ none
    → get s.meta.annotations Annotation.canary_watch_time ≡ none
    → IsBefore s.status.update_revision State.pending p (started m State.pending now (pos p) s)
started-IsBefore s m now p annotated unwatched no_canary_time =
    let time = itoa (unix now) in
    let marked = insert Annotation.canary_rollout State.pending m in
    let kept = λ (name : String).
      λ (e : get s.meta.annotations name ≡ none). subst (λ m. get m name ≡ none) annotated e in
    record {
      here = record {
        annotations = insert Annotation.update_start_time time marked;
        annotated = refl;
        in_state = ap or_empty (
            get-insert Annotation.update_start_time Annotation.canary_rollout time marked
            ∙ get-insert_self Annotation.canary_rollout State.pending m);
        unwatched =
            get-insert Annotation.update_start_time Annotation.update_watch_time time marked
            ∙ get-insert Annotation.canary_rollout Annotation.update_watch_time State.pending m
            ∙ kept Annotation.update_watch_time unwatched;
        at_partition = refl;
        same_revision = refl;
      };
      no_canary_time =
          get-insert Annotation.update_start_time Annotation.canary_watch_time time marked
          ∙ get-insert Annotation.canary_rollout Annotation.canary_watch_time State.pending m
          ∙ kept Annotation.canary_watch_time no_canary_time;
    }

least_wanted : (low a b : ℤ) → ((low ≡ a) × (a ≤ℤ b)) ⊎ ((low ≡ b) × (b ≤ℤ a)) → a ≤ℤ b → low ≡ a
least_wanted low a b (inl (e, le)) enough = e
least_wanted low a b (inr (e, le)) enough = e ∙ ground arith

not_fewer : (a b : ℤ) → b ≤ℤ a → ltb_ℤ a b ≡ false
not_fewer a b le = ground arith

-- Where the webhook has marked an update of a StatefulSet that wants k + 1 replicas, has as many
-- and has no watch times, and the cluster that then holds it is steady, its rollout is in the state
-- Done at partition 0 after k + 2 reconciles.
pub update_completes :
    (webhook env : Env) (least : TakesMinimum webhook) (keeps : KeepsRollout env)
    (s first : StatefulSet) (m : List (String × String)) (k : ℕ) (h : History)
    (steady : IsSteady env first) (config : Config) (key : Key)
    → s.meta.annotations ≡ some m
    → s.spec.replicas ≡ some (pos (suc k))
    → pos (suc k) ≤ℤ s.status.replicas
    → get s.meta.annotations Annotation.update_watch_time ≡ none
    → get s.meta.annotations Annotation.canary_watch_time ≡ none
    → (configure_for_rollout webhook s h).0 ≡ ok first
    → IsAt first.status.update_revision State.done zero
        (latest first (rounds env first keeps steady config key (suc (suc k)) []))
update_completes webhook env least keeps s first m k h steady config key annotated wanted enough
      unwatched no_canary_time marks =
    let now = webhook.clock h in
    let low = webhook.min_int32 (pos (suc k)) s.status.replicas in
    let low_is = least_wanted low (pos (suc k)) s.status.replicas (least.minimum _ _) enough in
    let is_first : started m State.pending now (pos (suc k)) s ≡ first =
      ap (λ p. started m State.pending now p s) (sym low_is)
      ∙ ok_injective (
          sym
            (ap (λ r. r.0) (configure_for_rollout_lem webhook s m (pos (suc k)) h annotated wanted))
          ∙ marks) in
    pending_completes env first keeps steady config key k [] (pos (suc k))
      (subst (λ t. IsBefore t.status.update_revision State.pending (suc k) t) is_first
        (started-IsBefore s m now (suc k) annotated unwatched no_canary_time))
      (ap (λ (t : StatefulSet). t.spec.replicas) (sym is_first) ∙ wanted)
      (ap (λ (t : StatefulSet). ltb_ℤ t.status.replicas (pos (suc k))) (sym is_first)
        ∙ not_fewer s.status.replicas (pos (suc k)) enough)
