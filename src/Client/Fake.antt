-- ===== src/Client/Fake.antt =====
-- clientset/versioned/typed/quarksstatefulset/v1alpha1/fake/fake_quarksstatefulset.go.
use quarks_statefulset.Prelude.{
  String, Bool, true, Option, none, some, List, StringMap, select, Error, Outcome, ok, panic,
}
use quarks_statefulset.Kube.Types.{QuarksStatefulSet}
use quarks_statefulset.Client.Requests.{ListOptions, QuarksStatefulSetList}
use quarks_statefulset.Client.Actions.{
  GroupVersionResource, get_action, delete_action, list_action, watch_action,
  delete_collection_action, create_action, update_action, update_subresource_action,
  patch_subresource_action, AnyObject, quarks, quarks_list, other_kind, Reactors,
}

unfoldable pub quarksstatefulsets_resource : GroupVersionResource
quarksstatefulsets_resource = record {
  group = "quarksstatefulset";
  version = "v1alpha1";
  resource = "quarksstatefulsets";
}

-- A nil object is passed on; any other is asserted to be a QuarksStatefulSet.
unfoldable pub as_quarks :
    Option AnyObject × Option Error → Outcome (Option QuarksStatefulSet × Option Error)
as_quarks (none, e) = ok (none, e)
as_quarks (some (quarks q), e) = ok (some q, e)
as_quarks (some (quarks_list l), e) = panic
as_quarks (some (other_kind k), e) = panic

-- Everything matches where no label is extracted.
unfoldable pub matches : Option (StringMap → Bool) → QuarksStatefulSet → Bool
matches none q = true
matches (some test) q = test q.meta.labels

unfoldable pub as_list :
    Option (StringMap → Bool)
    → Option AnyObject × Option Error
    → Outcome (Option QuarksStatefulSetList × Option Error)
as_list label (none, e) = ok (none, e)
as_list label (some (quarks_list l), e) =
    ok (some (record { meta = l.meta; items = select (matches label) l.items }), e)
as_list label (some (quarks q), e) = panic
as_list label (some (other_kind k), e) = panic

module _ (ns : String) (reactors : Reactors) where
  unfoldable pub get : String → Outcome (Option QuarksStatefulSet × Option Error)
  get name = as_quarks (reactors.invokes (get_action quarksstatefulsets_resource ns name))

  unfoldable pub list : ListOptions → Outcome (Option QuarksStatefulSetList × Option Error)
  list options =
      as_list (reactors.label_of options)
        (reactors.invokes (list_action quarksstatefulsets_resource ns options))

  unfoldable pub watch : ListOptions → Outcome String
  watch options = reactors.invokes_watch (watch_action quarksstatefulsets_resource ns options)

  unfoldable pub create : QuarksStatefulSet → Outcome (Option QuarksStatefulSet × Option Error)
  create q = as_quarks (reactors.invokes (create_action quarksstatefulsets_resource ns q))

  unfoldable pub update : QuarksStatefulSet → Outcome (Option QuarksStatefulSet × Option Error)
  update q = as_quarks (reactors.invokes (update_action quarksstatefulsets_resource ns q))

  unfoldable pub update_status :
      QuarksStatefulSet → Outcome (Option QuarksStatefulSet × Option Error)
  update_status q =
      as_quarks
        (reactors.invokes (update_subresource_action quarksstatefulsets_resource "status" ns q))

  unfoldable pub delete : String → Option Error
  delete name = (reactors.invokes (delete_action quarksstatefulsets_resource ns name)).1

  unfoldable pub delete_collection : ListOptions → Option Error
  delete_collection listed =
      (reactors.invokes (delete_collection_action quarksstatefulsets_resource ns listed)).1

  unfoldable pub patch :
      (name patch_type content : String)
      → List String
      → Outcome (Option QuarksStatefulSet × Option Error)
  patch name patch_type content subresources = as_quarks (
      reactors.invokes (
        patch_subresource_action quarksstatefulsets_resource ns name patch_type content
          subresources))
