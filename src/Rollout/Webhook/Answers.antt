-- ===== src/Rollout/Webhook/Answers.antt =====
-- The answers of Handle (statefulset_webhook.go), and what they make of the object that was sent.
use quarks_statefulset.Prelude.{
  ℕ, String, some, ℤ, pos, ◌≤ℤ◌, get, ◌≡◌, ◌≢◌, ◌⊎◌, ok, Error, ◌*ℤ◌, ◌+ℤ◌, ◌<ℤ◌,
}
use quarks_statefulset.Names.Annotation
use quarks_statefulset.Names.State
use quarks_statefulset.Text.Decimal.{itoa}
use quarks_statefulset.Kube.Types.{StatefulSet}
use quarks_statefulset.Kube.Admission.{Request, Response, errored, patched, Codec}
use quarks_statefulset.Kube.Calls.{History}
use quarks_statefulset.Kube.Env.{Env}
use quarks_statefulset.Rollout.Update.Writes.{HasPartition}

-- A StatefulSet starts a rollout in a state and at a partition: its strategy and two annotations are
-- set, and all else is as it was.
pub record Starts (env : Env) (state : String) (partition : ℤ) (s left : StatefulSet) : Type 0 where
  pub in_state : get left.meta.annotations Annotation.canary_rollout ≡ some state
  -- The whole seconds of a time that the clock said.
  pub when : History
  pub seconds : ℤ
  pub has_start : get left.meta.annotations Annotation.update_start_time ≡ some (itoa seconds)
  pub begun : seconds *ℤ pos 1000000000 ≤ℤ env.clock when
  pub not_over : env.clock when <ℤ (seconds +ℤ pos 1) *ℤ pos 1000000000
  pub other_annotations :
      (name : String)
      → name ≢ Annotation.canary_rollout
      → name ≢ Annotation.update_start_time
      → get left.meta.annotations name ≡ get s.meta.annotations name
  pub at_partition : HasPartition left partition
  pub is_rolling : left.spec.update_strategy.type ≡ "RollingUpdate"
  pub same_name : left.meta.name ≡ s.meta.name
  pub same_labels : left.meta.labels ≡ s.meta.labels
  pub same_template : left.spec.template ≡ s.spec.template
  pub same_replicas : left.spec.replicas ≡ s.spec.replicas
  pub same_status : left.status ≡ s.status

abbrev pub IsControlled : StatefulSet → Type 0
IsControlled s = get s.meta.annotations Annotation.canary_rollout_enabled ≡ some "true"

-- What becomes of an object.
pub data Reviewed (env : Env) (req : Request) (codec : Codec StatefulSet) (s : StatefulSet)
    : StatefulSet → Type 0 where
  -- It is made, under a controlled rollout.
  created :
      {left : StatefulSet}
      → IsControlled s
      → req.operation ≡ "CREATE"
      → Starts env State.canary_upscale (pos 0) s left
      → Reviewed env req codec s left
  -- Its template changes, under a controlled rollout: the partition is the lesser of the replicas that
  -- it wants and those that it has.
  updated :
      {left : StatefulSet} (old : StatefulSet) (wanted partition : ℤ)
      → IsControlled s
      → req.operation ≢ "CREATE"
      → codec.decode req.old_object ≡ ok old
      → s.spec.template ≢ old.spec.template
      → s.spec.replicas ≡ some wanted
      → partition ≤ℤ wanted
      → partition ≤ℤ s.status.replicas
      → (partition ≡ wanted) ⊎ (partition ≡ s.status.replicas)
      → Starts env State.pending partition s left
      → Reviewed env req codec s left
  -- It keeps its template.
  kept :
      (old : StatefulSet)
      → IsControlled s
      → req.operation ≢ "CREATE"
      → codec.decode req.old_object ≡ ok old
      → s.spec.template ≡ old.spec.template
      → Reviewed env req codec s s
  -- Its rollout is not controlled.
  uncontrolled : ¬ IsControlled s → Reviewed env req codec s s

-- The answer: an error, or the patch that leads to the object as it was reviewed.
pub data Answered (env : Env) (req : Request) (codec : Codec StatefulSet) : Response → Type 0 where
  refused : (code : ℕ) (e : Error) → Answered env req codec (errored code e)
  admitted :
      {s left : StatefulSet} {text : String}
      → codec.decode req.object ≡ ok s
      → Reviewed env req codec s left
      → codec.marshal left ≡ ok text
      → Answered env req codec (patched req.object text)
