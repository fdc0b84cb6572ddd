-- ===== src/Rollout.antt =====
-- The rollout of a StatefulSet (pkg/kube/controllers/statefulset): its webhook, the trigger of its
-- controller, and the reconciler that moves the partition from pod to pod.
pub mod Timeout
pub mod Pods
pub mod Update
pub mod Reconcile
pub mod Completion
pub mod Trigger
pub mod Webhook
pub mod Rest
pub mod Races
pub mod Interleavings
pub mod Faults
