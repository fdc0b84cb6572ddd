-- ===== src/Kube/Equality.antt =====
-- Equality of API objects, as `reflect.DeepEqual` decides it. A nil slice and an empty one are the
-- same list here.
use quarks_statefulset.Prelude.{StringMap, String_discrete, ℤ_discrete}
use quarks_statefulset.Kube.Types.{PodTemplateSpec, QuarksStatefulSetSpec}

pub StringMap-discrete : Discrete StringMap
StringMap-discrete = hlevel String_discrete

pub PodTemplateSpec-discrete : Discrete PodTemplateSpec
PodTemplateSpec-discrete = hlevel String_discrete

pub QuarksStatefulSetSpec-discrete : Discrete QuarksStatefulSetSpec
QuarksStatefulSetSpec-discrete = hlevel (String_discrete, ℤ_discrete)
