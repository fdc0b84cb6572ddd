-- ===== src/Scenarios/Objects.antt =====
-- Objects for the scenarios.
use quarks_statefulset.Prelude.{
  true, false, Option, none, some, List, [], ◌∷◌, String, StringMap, ℤ, pos,
}
use quarks_statefulset.Names.Annotation
use quarks_statefulset.Names.Label
use quarks_statefulset.Kube.Types.{
  Key, ObjectMeta, StatefulSet, Pod, QuarksStatefulSet, PodTemplateSpec,
}
use quarks_statefulset.Scenarios.Fake.{Cluster}

abbrev pub key : Key
key = record { name = "web"; namespace = "ns" }

abbrev pub meta_of : String → StringMap → StringMap → ObjectMeta
meta_of name labels annotations = record {
  name = name;
  namespace = "ns";
  labels = labels;
  annotations = annotations;
  other = "";
}

abbrev pub template : PodTemplateSpec
template = record {
  labels = none;
  annotations = none;
  spec = record {
    containers = record { name = "app"; env = []; other = "" } ∷ [];
    init_containers = [];
    volumes = [];
    affinity = none;
    other = "";
  };
  other = "";
}

-- A StatefulSet with a partition, replicas wanted and there, and annotations.
abbrev pub sts : Option ℤ → ℤ → ℤ → List (String × String) → StatefulSet
sts partition wanted present annotations = record {
  meta = meta_of "web" none (some annotations);
  spec = record {
    replicas = some wanted;
    selector = none;
    template = template;
    volume_claim_templates = "";
    update_strategy = record { type = "RollingUpdate"; rolling_update = some partition };
    other = "";
  };
  status = record {
    replicas = present;
    ready_replicas = present;
    updated_replicas = present;
    update_revision = "r2";
    other = "";
  };
}

abbrev pub pod : String → String → Pod
pod name mark = record {
  meta = meta_of name (some ((Label.controller_revision_hash, "r2") ∷ [])) none;
  other = mark;
}

abbrev pub rolling : String → Option ℤ → StatefulSet
rolling state partition = sts partition (pos 2) (pos 2) ((Annotation.canary_rollout, state) ∷ [])

abbrev pub qsts : List String → QuarksStatefulSet
qsts zones = record {
  meta = meta_of "web" none none;
  spec = record {
    update_on_config_change = true;
    zone_node_label = "";
    zones = zones;
    template = sts none (pos 2) (pos 0) [];
    active_passive_probes = none;
    inject_replicas_env = none;
  };
  status = record { last_reconcile = some (pos 1); ready = false };
}

abbrev pub cluster : StatefulSet → List Pod → Cluster
cluster s pods = record {
  statefulset = s;
  listed = s ∷ [];
  quarks = qsts [];
  listed_quarks = qsts [] ∷ [];
  pods = pods;
  probe_passes = true;
  now = pos 0;
}

abbrev pub ready_pods : List Pod
ready_pods = pod "web-0" "ready" ∷ pod "web-1" "ready" ∷ []
