-- ===== src/Client/Actions.antt =====
-- Actions of client-go's testing package, by the function that makes one, and what handles them.
use quarks_statefulset.Prelude.{String, Bool, Option, List, Error, Outcome, StringMap}
use quarks_statefulset.Kube.Types.{QuarksStatefulSet}
use quarks_statefulset.Client.Requests.{ListOptions, QuarksStatefulSetList}

-- schema.GroupVersionResource
pub record GroupVersionResource : Type 0 where
  pub group : String
  pub version : String
  pub resource : String

-- The resource and the namespace, then what the action is about.
pub data Action : Type 0 where
  get_action delete_action : GroupVersionResource → String → String → Action
  list_action watch_action delete_collection_action :
      GroupVersionResource → String → ListOptions → Action
  create_action update_action : GroupVersionResource → String → QuarksStatefulSet → Action
  update_subresource_action : GroupVersionResource → String → String → QuarksStatefulSet → Action
  patch_subresource_action :
      GroupVersionResource → String → (name patch_type content : String) → List String → Action

-- runtime.Object: a type assertion to another type panics.
pub data AnyObject : Type 0 where
  quarks : QuarksStatefulSet → AnyObject
  quarks_list : QuarksStatefulSetList → AnyObject
  other_kind : String → AnyObject

-- `Invokes` and `InvokesWatch` of testing.Fake, where the default object is empty; and
-- `ExtractFromListOptions` with the match of the label selector, which is none where there is none.
pub record Reactors : Type 0 where
  pub invokes : Action → Option AnyObject × Option Error
  pub invokes_watch : Action → Outcome String
  pub label_of : ListOptions → Option (StringMap → Bool)
