-- ===== src/Rollout/Webhook/Reviews.antt =====
-- What the answer of Handle (statefulset_webhook.go) is to the object that it was sent.
use quarks_statefulset.Prelude.{some, ℤ, ◌≤ℤ◌, ◌≡◌, ◌⊎◌}
use quarks_statefulset.Names.Annotation
use quarks_statefulset.Names.State
use quarks_statefulset.Kube.Types.{StatefulSet}
use quarks_statefulset.Kube.Env.{Env}
use quarks_statefulset.Rollout.Webhook.Answers.{Starts}

module _ (env : Env) where
  -- What an update starts at.
  abbrev IsMarked : StatefulSet → StatefulSet → Type 0
  IsMarked s left =
      (wanted : ℤ) × (partition : ℤ) × (s.spec.replicas ≡ some wanted)
      × (partition ≤ℤ wanted)
      × (partition ≤ℤ s.status.replicas)
      × ((partition ≡ wanted) ⊎ (partition ≡ s.status.replicas))
      × Starts env State.pending partition s left
