-- ===== src/Quarks/Trigger.antt =====
-- The predicates of the watches in quarksstatefulset_controller.go, active_passive_controller.go
-- and status_controller.go, and the functions that map a ConfigMap or a Secret to requests.
pub mod Changes
use quarks_statefulset.Prelude.{
  String, Bool, true, false, not, ◌||◌, List, [], ◌∷◌, is_some, ◌==◌, deep_equal, if◌then◌else◌,
}
use quarks_statefulset.Kube.Types.{Key, StatefulSet, QuarksStatefulSet, DataObject}
use quarks_statefulset.Kube.Equality.{StringMap-discrete, QuarksStatefulSetSpec-discrete}
use quarks_statefulset.Kube.Calls.{Exec, pure, rescue, ◌>>=◌}
use quarks_statefulset.Kube.Env.{Env}
use quarks_statefulset.Quarks.Versions.{list_owned_statefulsets}
use quarks_statefulset.Reference.{Object, data_of, get_reconciles}

-- An event of a watch, with the old and the new object of an update.
pub data Event (A : Type 0) : Type 0 where
  created deleted generic : A → Event A
  updated : A → A → Event A

-- `len(list) == 0`
abbrev pub is_empty : {A : Type 0} → List A → Bool
is_empty [] = true
is_empty (x ∷ xs) = false

unfoldable pub has_changed : QuarksStatefulSet → QuarksStatefulSet → Bool
has_changed old new =
    not (deep_equal QuarksStatefulSetSpec-discrete old.spec new.spec)
    || not (deep_equal StringMap-discrete old.meta.labels new.meta.labels)

abbrev pub content_changed : DataObject → DataObject → Bool
content_changed old new = not (old.content == new.content)

unfoldable pub admits_config_map : Event DataObject → Bool
admits_config_map (created o) = true
admits_config_map (deleted o) = false
admits_config_map (generic o) = false
admits_config_map (updated old new) = content_changed old new

-- The active/passive controller: only a QuarksStatefulSet that has probes.
unfoldable pub admits_probed : Event QuarksStatefulSet → Bool
admits_probed (created q) = is_some q.spec.active_passive_probes
admits_probed (deleted q) = false
admits_probed (generic q) = false
admits_probed (updated old new) = is_some new.spec.active_passive_probes

-- The status controller; a predicate without a function for deletions lets them through.
unfoldable pub admits_owned : Event StatefulSet → Bool
admits_owned (created s) = true
admits_owned (deleted s) = true
admits_owned (generic s) = false
admits_owned (updated old new) = true

module _ (env : Env) where
  -- An error is logged, and the list is then empty.
  unfoldable pub admits_quarks : Event QuarksStatefulSet → Exec Bool
  admits_quarks (created q) = do
    ss ← rescue (list_owned_statefulsets env q) (λ e. pure [])
    pure (is_empty ss)
  admits_quarks (deleted q) = pure false
  admits_quarks (generic q) = pure false
  admits_quarks (updated old new) = pure (has_changed old new)

  when_versioned : Bool → DataObject → Exec Bool
  when_versioned false o = pure false
  when_versioned true o = do
    requests ← rescue (get_reconciles env (Object.secret o) true) (λ e. pure [])
    pure (not (is_empty requests))

  unfoldable pub admits_secret : Event DataObject → Exec Bool
  unfolding when_versioned
  admits_secret (created o) = when_versioned (env.is_versioned_secret o) o
  admits_secret (deleted o) = pure false
  admits_secret (generic o) = pure false
  admits_secret (updated old new) = pure (content_changed old new)

  unless_skipped : Bool → Object → Exec (List Key)
  unless_skipped true object = pure []
  unless_skipped false object = rescue (get_reconciles env object false) (λ e. pure [])

  -- The requests for a changed ConfigMap or Secret; an error is logged, and there are then none.
  unfoldable pub requests_for : Object → Exec (List Key)
  unfolding unless_skipped
  requests_for object h = unless_skipped (env.skips_reconciles h (data_of object)) object h
