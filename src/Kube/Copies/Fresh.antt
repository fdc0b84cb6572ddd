-- ===== src/Kube/Copies/Fresh.antt =====
-- What a QuarksStatefulSet in memory is, as a value, and that its copies are deep.
use quarks_statefulset.Prelude.{
  ℕ, String, Bool, Option, none, some, List, [], ◌≡◌, refl, ◌∙◌, length,
}
use quarks_statefulset.Kube.Types.{
  StatefulSet, Probe, QuarksStatefulSetSpec, QuarksStatefulSetStatus, QuarksStatefulSet,
}
use quarks_statefulset.Memory.Agree.{AgreeOn}
use quarks_statefulset.Memory.Deep.{
  both, map_some, IsDeep, plain_value, plain_copy, plain-IsDeep, pair_value, pair-IsDeep,
  via-IsDeep,
}
use quarks_statefulset.Memory.Pointers.{pointer_value, pointer_copy, pointer-IsDeep}
use quarks_statefulset.Memory.Lists.{list_value, list_copy, list-IsDeep}
use quarks_statefulset.Kube.Copies.{
  SpecCells, StatusCells, QuarksCells, ListCells, Layout, copy_entry, deep_copy_spec_into,
  deep_copy_status_into, deep_copy_into, deep_copy, deep_copy_list_into,
}

abbrev or_nil : Option (List String) → List String
or_nil none = []
or_nil (some zones) = zones

module _ {C M T P L : Type 0} (layout : Layout C M T P L) where
  abbrev entry_value : List C → String × P → Option (String × Probe)
  entry_value = pair_value plain_value layout.probe.value

  abbrev zones_value : List C → Option ℕ → Option (Option (List String))
  zones_value = pointer_value layout.strings plain_value

  abbrev probes_value : List C → Option ℕ → Option (Option (List (String × Probe)))
  probes_value = pointer_value layout.probes (list_value entry_value)

  abbrev flag_value : List C → Option ℕ → Option (Option Bool)
  flag_value = pointer_value layout.flags plain_value

  abbrev built_spec :
      SpecCells T
      → Option (List String) × (StatefulSet × (Option (List (String × Probe)) × Option Bool))
      → QuarksStatefulSetSpec
  built_spec s r = record {
    update_on_config_change = s.update_on_config_change;
    zone_node_label = s.zone_node_label;
    zones = or_nil r.0;
    template = r.1.0;
    active_passive_probes = r.1.1.0;
    inject_replicas_env = r.1.1.1;
  }

  abbrev spec_value : List C → SpecCells T → Option QuarksStatefulSetSpec
  spec_value h s = map_some (built_spec s) (
      both (zones_value h s.zones) (
        both (layout.template.value h s.template)
          (both (probes_value h s.active_passive_probes) (flag_value h s.inject_replicas_env))))

  spec-IsDeep : (s : SpecCells T) → IsDeep spec_value (deep_copy_spec_into layout) s
  unfolding deep_copy_spec_into
  spec-IsDeep s =
      via-IsDeep _ _ spec_value (deep_copy_spec_into layout) _ s
        (λ b. record s {
          zones = b.0;
          template = b.1.0;
          active_passive_probes = b.1.1.0;
          inject_replicas_env = b.1.1.1;
        })
        (built_spec s) (λ h b. refl) (λ h. refl) (λ h. refl)
        (pair-IsDeep zones_value (pointer_copy layout.strings plain_copy) _ _ s.zones _
          (pointer-IsDeep layout.strings plain_value plain_copy plain-IsDeep s.zones)
          (pair-IsDeep layout.template.value layout.template.copy _ _ s.template _
            (layout.template.deep s.template)
            (pair-IsDeep probes_value (pointer_copy layout.probes (list_copy (copy_entry layout)))
              flag_value (pointer_copy layout.flags plain_copy) s.active_passive_probes
              s.inject_replicas_env
              (pointer-IsDeep layout.probes (list_value entry_value) (list_copy (copy_entry layout))
                (list-IsDeep entry_value (copy_entry layout) (λ (k, p).
                  pair-IsDeep plain_value plain_copy layout.probe.value layout.probe.copy k p
                    (plain-IsDeep k) (layout.probe.deep p)))
                s.active_passive_probes)
              (pointer-IsDeep layout.flags plain_value plain_copy plain-IsDeep
                s.inject_replicas_env))))

  abbrev status_value : List C → StatusCells → Option QuarksStatefulSetStatus
  status_value h s =
      map_some (λ last. record { last_reconcile = last; ready = s.ready })
        (pointer_value layout.instants plain_value h s.last_reconcile)

  status-IsDeep : (s : StatusCells) → IsDeep status_value (deep_copy_status_into layout) s
  unfolding deep_copy_status_into
  status-IsDeep s =
      via-IsDeep _ _ status_value (deep_copy_status_into layout) s.last_reconcile s
        (λ b. record s { last_reconcile = b })
        (λ last. record { last_reconcile = last; ready = s.ready }) (λ h b. refl) (λ h. refl)
        (λ h. refl)
        (pointer-IsDeep layout.instants plain_value plain_copy plain-IsDeep s.last_reconcile)

  -- The type's metadata with the object.
  abbrev pub quarks_value : List C → QuarksCells M T → Option (String × QuarksStatefulSet)
  quarks_value h q =
      map_some (λ r. (q.type_meta, record { meta = r.0; spec = r.1.0; status = r.1.1 }))
        (both (layout.meta.value h q.meta) (both (spec_value h q.spec) (status_value h q.status)))

  -- DeepCopyInto makes a deep copy of each QuarksStatefulSet: wherever it reads as a value, it does
  -- so in each memory that agrees on what was there; copying only adds cells; and the copy reads as
  -- the same value in each memory that agrees on the cells that were added.
  pub deep_copy_into-IsDeep : (q : QuarksCells M T) → IsDeep quarks_value (deep_copy_into layout) q
  unfolding deep_copy_into
  deep_copy_into-IsDeep q =
      via-IsDeep _ _ quarks_value (deep_copy_into layout) _ q
        (λ b. record q { meta = b.0; spec = b.1.0; status = b.1.1 })
        (λ r. (q.type_meta, record { meta = r.0; spec = r.1.0; status = r.1.1 })) (λ h b. refl)
        (λ h. refl) (λ h. refl)
        (pair-IsDeep layout.meta.value layout.meta.copy _ _ q.meta _ (layout.meta.deep q.meta) (
          pair-IsDeep spec_value (deep_copy_spec_into layout) status_value
            (deep_copy_status_into layout) q.spec q.status (spec-IsDeep q.spec)
            (status-IsDeep q.status)))

  abbrev pub object_value : List C → Option ℕ → Option (Option (String × QuarksStatefulSet))
  object_value = pointer_value layout.quarks quarks_value

  -- Where a pointer to a QuarksStatefulSet reads as a value (nil as none), the pointer that DeepCopy
  -- returns reads as the same value in each memory that agrees with the one after the copy on the
  -- cells that it added, whatever has been written through the original; and the original reads
  -- as that value in each memory that agrees with it on the cells that were there before, whatever
  -- has been written through the copy.
  pub deep_copy-separate :
      (p : Option ℕ) (h written_old written_new : List C) (x : Option (String × QuarksStatefulSet))
      → object_value h p ≡ some x
      → AgreeOn (length h) (length (deep_copy layout p h).1) (deep_copy layout p h).1 written_old
      → AgreeOn 0 (length h) (deep_copy layout p h).1 written_new
      → (object_value written_old (deep_copy layout p h).0 ≡ some x)
        × (object_value written_new p ≡ some x)
  unfolding deep_copy
  deep_copy-separate p h written_old written_new x reads added kept =
      let d =
        pointer-IsDeep layout.quarks quarks_value (deep_copy_into layout) deep_copy_into-IsDeep p in
      (
        d.fresh h written_old x reads added,
        d.below h written_new x reads λ i low high. (d.grows h).keeps i low high ∙ kept i low high,
      )

  abbrev pub list_of_value :
      List C → ListCells L → Option (String × (String × Option (List (String × QuarksStatefulSet))))
  list_of_value h l =
      map_some (λ r. (l.type_meta, r))
        (both (layout.list_meta.value h l.list_meta)
          (pointer_value layout.quarks_items (list_value quarks_value) h l.items))

  -- As for a single one, DeepCopyInto makes deep copies of lists.
  pub deep_copy_list_into-IsDeep :
      (l : ListCells L) → IsDeep list_of_value (deep_copy_list_into layout) l
  unfolding deep_copy_list_into
  deep_copy_list_into-IsDeep l =
      via-IsDeep _ _ list_of_value (deep_copy_list_into layout) _ l
        (λ b. record l { list_meta = b.0; items = b.1 }) (λ r. (l.type_meta, r)) (λ h b. refl)
        (λ h. refl) (λ h. refl)
        (pair-IsDeep layout.list_meta.value layout.list_meta.copy _ _ l.list_meta l.items
          (layout.list_meta.deep l.list_meta)
          (pointer-IsDeep layout.quarks_items (list_value quarks_value)
            (list_copy (deep_copy_into layout))
            (list-IsDeep quarks_value (deep_copy_into layout) deep_copy_into-IsDeep) l.items))
