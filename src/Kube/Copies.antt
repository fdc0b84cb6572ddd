-- ===== src/Kube/Copies.antt =====
-- pkg/kube/apis/quarksstatefulset/v1alpha1/zz_generated.deepcopy.go, over a memory of cells.
pub mod Fresh
use quarks_statefulset.Prelude.{ℕ, String, Bool, ℤ, Option, none, some, List}
use quarks_statefulset.Kube.Types.{ObjectMeta, StatefulSet, Probe}
use quarks_statefulset.Memory.Deep.{DeepCopier, plain_value, plain_copy, pair_value, pair_copy}
use quarks_statefulset.Memory.Pointers.{Cells, pointer_copy}
use quarks_statefulset.Memory.Lists.{list_copy}

-- The structures as they lie in memory. A slice, a map or a pointer is the place of a cell, or nil.
-- `T` is an appsv1.StatefulSet, `M` a metav1.ObjectMeta, `L` a metav1.ListMeta.
pub record SpecCells (T : Type 0) : Type 0 where
  pub update_on_config_change : Bool
  pub zone_node_label : String
  pub zones : Option ℕ
  pub template : T
  pub active_passive_probes : Option ℕ
  pub inject_replicas_env : Option ℕ

pub record StatusCells : Type 0 where
  pub last_reconcile : Option ℕ
  pub ready : Bool

pub record QuarksCells (M T : Type 0) : Type 0 where
  pub type_meta : String
  pub meta : M
  pub spec : SpecCells T
  pub status : StatusCells

pub record ListCells (L : Type 0) : Type 0 where
  pub type_meta : String
  pub list_meta : L
  pub items : Option ℕ

-- The kinds of cells, and the copiers of the k8s.io types (`P` is a corev1.Probe).
pub record Layout (C M T P L : Type 0) : Type 0 where
  pub strings : Cells C (List String)
  pub flags : Cells C Bool
  pub instants : Cells C ℤ
  pub probes : Cells C (List (String × P))
  pub specs : Cells C (SpecCells T)
  pub statuses : Cells C StatusCells
  pub quarks : Cells C (QuarksCells M T)
  pub quarks_items : Cells C (List (QuarksCells M T))
  pub quarks_lists : Cells C (ListCells L)
  pub meta : DeepCopier C M ObjectMeta
  pub template : DeepCopier C T StatefulSet
  pub probe : DeepCopier C P Probe
  pub list_meta : DeepCopier C L String

module _ {C M T P L : Type 0} (layout : Layout C M T P L) where
  -- `(*out)[key] = *val.DeepCopy()` for each entry.
  abbrev pub copy_entry : String × P → List C → (String × P) × List C
  copy_entry = pair_copy plain_copy layout.probe.copy

  unfoldable pub deep_copy_spec_into : SpecCells T → List C → SpecCells T × List C
  deep_copy_spec_into s h =
      let (zones, h1) = pointer_copy layout.strings plain_copy s.zones h in
      let (template, h2) = layout.template.copy s.template h1 in
      let (probes, h3) =
        pointer_copy layout.probes (list_copy copy_entry) s.active_passive_probes h2 in
      let (inject, h4) = pointer_copy layout.flags plain_copy s.inject_replicas_env h3 in
      (
        record s {
          zones = zones;
          template = template;
          active_passive_probes = probes;
          inject_replicas_env = inject;
        },
        h4,
      )

  unfoldable pub deep_copy_spec : Option ℕ → List C → Option ℕ × List C
  deep_copy_spec = pointer_copy layout.specs deep_copy_spec_into

  unfoldable pub deep_copy_status_into : StatusCells → List C → StatusCells × List C
  deep_copy_status_into s h =
      let (last, h1) = pointer_copy layout.instants plain_copy s.last_reconcile h in
      (record s { last_reconcile = last }, h1)

  unfoldable pub deep_copy_status : Option ℕ → List C → Option ℕ × List C
  deep_copy_status = pointer_copy layout.statuses deep_copy_status_into

  unfoldable pub deep_copy_into : QuarksCells M T → List C → QuarksCells M T × List C
  deep_copy_into q h =
      let (meta, h1) = layout.meta.copy q.meta h in
      let (spec, h2) = deep_copy_spec_into q.spec h1 in
      let (status, h3) = deep_copy_status_into q.status h2 in
      (record q { meta = meta; spec = spec; status = status }, h3)

  unfoldable pub deep_copy : Option ℕ → List C → Option ℕ × List C
  deep_copy = pointer_copy layout.quarks deep_copy_into

  unfoldable pub deep_copy_list_into : ListCells L → List C → ListCells L × List C
  deep_copy_list_into l h =
      let (list_meta, h1) = layout.list_meta.copy l.list_meta h in
      let (items, h2) = pointer_copy layout.quarks_items (list_copy deep_copy_into) l.items h1 in
      (record l { list_meta = list_meta; items = items }, h2)

  unfoldable pub deep_copy_list : Option ℕ → List C → Option ℕ × List C
  deep_copy_list = pointer_copy layout.quarks_lists deep_copy_list_into
