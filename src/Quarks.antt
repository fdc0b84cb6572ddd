-- ===== src/Quarks.antt =====
-- The controllers of the QuarksStatefulSet (pkg/kube/controllers/quarksstatefulset): the
-- reconciler that makes StatefulSets of it, the status and the active/passive reconcilers, and the
-- pod webhook.
pub mod Versions
pub mod Envs
pub mod Affinity
pub mod Generate
pub mod Desired
pub mod UpdateVersions
pub mod Reconcile
pub mod Status
pub mod ActivePassive
pub mod PodLabels
pub mod Trigger
