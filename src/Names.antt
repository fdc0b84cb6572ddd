-- ===== src/Names.antt =====
-- The annotation and label keys (pkg/kube/apis/quarksstatefulset/v1alpha1/types.go and
-- pkg/kube/controllers/statefulset/statefulset_rollout_reconciler.go). The group is a constant of
-- quarks-utils; its value is the one that the CRD in docs/crds and pkg/kube/apis/apis.go show.
pub mod Annotation
pub mod Label
pub mod State
