-- ===== src/Kube/Types.antt =====
-- The API objects (pkg/kube/apis/quarksstatefulset/v1alpha1/types.go and the k8s.io types it embeds).
-- A record has the fields that the program reads or writes; `other` stands for all its other
-- fields together, so that a copy keeps them and `reflect.DeepEqual` sees them.
use quarks_statefulset.Prelude.{Bool, Option, List, String, StringMap, ℤ}

-- types.NamespacedName
pub record Key : Type 0 where
  pub name : String
  pub namespace : String

pub record ObjectMeta : Type 0 where
  pub name : String
  pub namespace : String
  pub labels : StringMap
  pub annotations : StringMap
  pub other : String

pub record EnvVar : Type 0 where
  pub name : String
  pub value : String
  pub other : String

pub record Container : Type 0 where
  pub name : String
  pub env : List EnvVar
  pub other : String

pub record NodeSelectorRequirement : Type 0 where
  pub key : String
  pub operator : String
  pub values : List String

pub record NodeSelectorTerm : Type 0 where
  pub match_expressions : List NodeSelectorRequirement
  pub other : String

-- `required` is RequiredDuringSchedulingIgnoredDuringExecution: its NodeSelectorTerms.
pub record NodeAffinity : Type 0 where
  pub required : Option (List NodeSelectorTerm)
  pub other : String

pub record Affinity : Type 0 where
  pub node_affinity : Option NodeAffinity
  pub other : String

-- `secret_name` is VolumeSource.Secret.SecretName, where the volume is a secret.
pub record Volume : Type 0 where
  pub name : String
  pub secret_name : Option String
  pub other : String

pub record PodSpec : Type 0 where
  pub containers : List Container
  pub init_containers : List Container
  pub volumes : List Volume
  pub affinity : Option Affinity
  pub other : String

pub record PodTemplateSpec : Type 0 where
  pub labels : StringMap
  pub annotations : StringMap
  pub spec : PodSpec
  pub other : String

-- `rolling_update` is a pointer to a structure that holds one pointer, the partition.
pub record UpdateStrategy : Type 0 where
  pub type : String
  pub rolling_update : Option (Option ℤ)

pub record StatefulSetSpec : Type 0 where
  pub replicas : Option ℤ
  pub selector : StringMap
  pub template : PodTemplateSpec
  pub volume_claim_templates : String
  pub update_strategy : UpdateStrategy
  pub other : String

pub record StatefulSetStatus : Type 0 where
  pub replicas : ℤ
  pub ready_replicas : ℤ
  pub updated_replicas : ℤ
  pub update_revision : String
  pub other : String

pub record StatefulSet : Type 0 where
  pub meta : ObjectMeta
  pub spec : StatefulSetSpec
  pub status : StatefulSetStatus

pub record Pod : Type 0 where
  pub meta : ObjectMeta
  pub other : String

-- A ConfigMap or a Secret: `content` is its Data.
pub record DataObject : Type 0 where
  pub meta : ObjectMeta
  pub content : String
  pub other : String

-- `command` is Exec.Command, where the probe has an Exec action.
pub record Probe : Type 0 where
  pub command : Option (List String)
  pub period_seconds : ℤ
  pub other : String

pub record QuarksStatefulSetSpec : Type 0 where
  pub update_on_config_change : Bool
  pub zone_node_label : String
  pub zones : List String
  pub template : StatefulSet
  pub active_passive_probes : Option (List (String × Probe))
  pub inject_replicas_env : Option Bool

-- `last_reconcile` is a time in nanoseconds.
pub record QuarksStatefulSetStatus : Type 0 where
  pub last_reconcile : Option ℤ
  pub ready : Bool

pub record QuarksStatefulSet : Type 0 where
  pub meta : ObjectMeta
  pub spec : QuarksStatefulSetSpec
  pub status : QuarksStatefulSetStatus

-- reconcile.Result; `requeue_after` is in nanoseconds.
pub record Result : Type 0 where
  pub requeue : Bool
  pub requeue_after : ℤ
