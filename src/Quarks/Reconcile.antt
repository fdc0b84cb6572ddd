-- ===== src/Quarks/Reconcile.antt =====
-- Reconcile and createStatefulSet of quarksstatefulset_reconciler.go, and StatefulSetMutateFn of
-- pkg/kube/util/mutate/mutate.go.
pub mod Writes
pub mod Creates
pub mod Overwrites
use quarks_statefulset.Prelude.{
  String, Bool, true, false, Option, none, some, List, [], ◌∷◌, ℤ, pos, Outcome, ok, err, Error,
  if◌then◌else◌, wrap_outcome,
}
use quarks_statefulset.Kube.Types.{Key, StatefulSet, QuarksStatefulSet, PodSpec, Result}
use quarks_statefulset.Kube.Calls.{Exec, pure, fail, lift, annotate, on_result, ◌>>=◌, ◌>>◌}
use quarks_statefulset.Kube.Env.{Env}
use quarks_statefulset.Kube.Client.{
  get_quarks, update_status, read_clock, create_or_update, set_secret_references,
}
use quarks_statefulset.Quarks.UpdateVersions.{update_versions}
use quarks_statefulset.Quarks.Desired.{calculate_desired_statefulsets}

-- ReconcileSkipDuration, ten seconds.
abbrev pub reconcile_skip_duration : ℤ
reconcile_skip_duration = pos 10000000000

abbrev pub no_result : Result
no_result = record { requeue = false; requeue_after = pos 0 }

abbrev pub after_skip_duration : Result
after_skip_duration = record { requeue = false; requeue_after = reconcile_skip_duration }

-- The fields that an existing StatefulSet takes over from the desired one.
unfoldable pub mutate_statefulset : StatefulSet → StatefulSet → Outcome StatefulSet
mutate_statefulset updated s = ok (record s {
  meta = record s.meta { labels = updated.meta.labels; annotations = updated.meta.annotations };
  spec = record s.spec {
    replicas = updated.spec.replicas;
    template = updated.spec.template;
    update_strategy = updated.spec.update_strategy;
  };
})

unfoldable pub with_last_reconcile : QuarksStatefulSet → ℤ → QuarksStatefulSet
with_last_reconcile q now = record q { status = record q.status { last_reconcile = some now } }

-- The QuarksStatefulSet in memory after a StatefulSet is made.
unfoldable pub after_creation : QuarksStatefulSet → PodSpec → QuarksStatefulSet
after_creation q spec = record q {
  spec = record q.spec {
    template = record q.spec.template {
      spec = record q.spec.template.spec {
        template = record q.spec.template.spec.template { spec = spec };
      };
    };
  };
  status = record q.status { ready = false };
}

module _ (env : Env) where
  unfoldable pub create_statefulset : QuarksStatefulSet → StatefulSet → Exec StatefulSet
  create_statefulset q s = do
    owned ← lift (wrap_outcome "could not set owner for StatefulSet" (env.reference_set q.meta s))
    annotate "could not create or update StatefulSet"
        (create_or_update env owned (mutate_statefulset owned))

  -- The loop over the desired StatefulSets; the result is the QuarksStatefulSet in memory.
  unfoldable pub create_all : String → QuarksStatefulSet → List StatefulSet → Exec QuarksStatefulSet
  create_all namespace q [] = pure q
  create_all namespace q (s ∷ ss) = do
    spec ←
        annotate "Could not update versioned secret references in pod spec"
          (set_secret_references env namespace q.spec.template.spec.template.spec)
    created ← annotate "Could not create StatefulSet" (create_statefulset q s)
    create_all namespace (after_creation q spec) ss

  unless_in_meltdown : Bool → Key → QuarksStatefulSet → Exec Result
  unless_in_meltdown true key q = pure no_result
  unless_in_meltdown false key q = do
    desired ←
        annotate "Could not calculate StatefulSet owned by QuarksStatefulSet"
          (calculate_desired_statefulsets env q)
    q' ← create_all key.namespace q desired
    pure no_result

  -- What follows UpdateVersions; the first pass only notes its time.
  unfoldable pub reconcile_updated : Key → QuarksStatefulSet → Option ℤ → Exec Result
  unfolding unless_in_meltdown
  reconcile_updated key q none = do
    now ← read_clock env
    annotate "failed to update reconcile timestamp" (update_status env (with_last_reconcile q now))
    pure after_skip_duration
  reconcile_updated key q (some last) = do
    now ← read_clock env
    unless_in_meltdown (env.in_window reconcile_skip_duration (some last) now) key q

  abbrev or_result : Result → Error → Exec Result
  or_result r e = if env.is_not_found e then pure r else fail e

  unfoldable pub reconcile_read : Key → QuarksStatefulSet → Exec Result
  reconcile_read key q =
      on_result (update_versions env q) (λ q'. reconcile_updated key q' q'.status.last_reconcile)
        (λ e. or_result after_skip_duration e)

  unfoldable pub reconcile : Key → Exec Result
  reconcile key =
      on_result (get_quarks env key) (λ q. reconcile_read key q) (λ e. or_result no_result e)
