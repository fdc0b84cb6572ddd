-- ===== src/Quarks/Status.antt =====
-- Reconcile of quarksstatefulset/status_reconciler.go.
pub mod Ready
pub mod Writes
use quarks_statefulset.Prelude.{
  ℕ, suc, Bool, true, false, Option, none, some, List, [], ◌∷◌, ℤ, pos, eqb, eqb_ℤ, length, Error,
  if◌then◌else◌,
}
use quarks_statefulset.Kube.Types.{Key, StatefulSet, QuarksStatefulSet, Result}
use quarks_statefulset.Kube.Calls.{Exec, pure, fail, annotate, rescue, on_result, ◌>>=◌, ◌>>◌}
use quarks_statefulset.Kube.Env.{Env}
use quarks_statefulset.Kube.Client.{get_quarks, update_status}
use quarks_statefulset.Quarks.Versions.{get_max_statefulset_version}
use quarks_statefulset.Quarks.Reconcile.{no_result}

-- A StatefulSet without a number of replicas wants one.
abbrev pub wanted : Option ℤ → ℤ
wanted none = pos 1
wanted (some replicas) = replicas

unfoldable pub is_ready : StatefulSet → Bool
is_ready s = eqb_ℤ s.status.ready_replicas (wanted s.spec.replicas)

-- The loop stops at the first StatefulSet that is not ready.
unfoldable pub count_ready : List StatefulSet → ℕ
count_ready [] = 0
count_ready (s ∷ ss) = let rest = count_ready ss in if is_ready s then suc rest else 0

unfoldable pub all_ready : List StatefulSet → Bool
all_ready [] = false
all_ready (s ∷ ss) = eqb (count_ready (s ∷ ss)) (length (s ∷ ss))

unfoldable pub with_ready : QuarksStatefulSet → QuarksStatefulSet
with_ready q = record q { status = record q.status { ready = true } }

module _ (env : Env) where
  -- A failing update is logged and not retried.
  when_ready : Bool → QuarksStatefulSet → Exec Result
  unfolding with_ready
  when_ready false q = pure no_result
  when_ready true q =
      rescue (update_status env (with_ready q) >> pure no_result) (λ e. pure no_result)

  unfoldable pub reconcile_read : QuarksStatefulSet → Exec Result
  unfolding when_ready all_ready
  reconcile_read q = do
    (statefulsets, version) ←
        annotate "couldn't get latest StatefulSet" (get_max_statefulset_version env q)
    when_ready (all_ready statefulsets) q

  unfoldable pub reconcile : Key → Exec Result
  reconcile key =
      on_result (get_quarks env key) (λ q. reconcile_read q)
        (λ e. if env.is_not_found e then pure no_result else fail e)
