-- ===== src/Names/Label.antt =====
-- Label keys: v1alpha1/types.go, and two of k8s.io/api/apps/v1.
use quarks_statefulset.Prelude.{String}

abbrev pub az_index : String
az_index = "quarks.cloudfoundry.org/az-index"

abbrev pub az_name : String
az_name = "quarks.cloudfoundry.org/az-name"

abbrev pub pod_ordinal : String
pod_ordinal = "quarks.cloudfoundry.org/pod-ordinal"

abbrev pub qsts_name : String
qsts_name = "quarks.cloudfoundry.org/quarks-statefulset-name"

abbrev pub active_pod : String
active_pod = "quarks.cloudfoundry.org/pod-active"

-- appsv1.StatefulSetPodNameLabel and appsv1.StatefulSetRevisionLabel
abbrev pub statefulset_pod_name : String
statefulset_pod_name = "statefulset.kubernetes.io/pod-name"

abbrev pub controller_revision_hash : String
controller_revision_hash = "controller-revision-hash"
