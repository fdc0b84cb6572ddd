-- ===== src/Scenarios/Client.antt =====
-- An index of two objects, a configuration, and the group of the fake client.
use quarks_statefulset.Prelude.{none, List, [], ◌∷◌, ◌≡◌, refl, pos, ok, select, ◌&&◌, ◌==◌}
use quarks_statefulset.Kube.Types.{QuarksStatefulSet}
use quarks_statefulset.Scenarios.Objects.{qsts}
use quarks_statefulset.Client.Fake
use quarks_statefulset.Client.Lister.{Indexer, namespace_get}
use quarks_statefulset.Client.Lister.Finds.{
  Indexes, Finds, first_by_key, in_namespace, namespace_get-Finds,
}
use quarks_statefulset.Client.Config.{
  RestConfig, ClientGo, Clientset, typed_for_config, limited_by, limited, new_for_config,
}
use quarks_statefulset.Client.Config.Shares.{Shares, new_for_config-Shares}

-- Two objects of one name in two namespaces.
abbrev in_other : QuarksStatefulSet
in_other = record (qsts []) { meta = record ((qsts []).meta) { namespace = "other" } }

abbrev store : List QuarksStatefulSet
store = in_other ∷ qsts [] ∷ []

abbrev indexer : Indexer
indexer = record {
  get_by_key = λ key. ok (first_by_key key store);
  list_all = λ selector. (select (λ q. selector q.meta.labels) store, none);
  list_all_by_namespace = λ namespace selector.
      (select (λ q. in_namespace namespace q && selector q.meta.labels) store, none);
}

indexes : Indexes indexer store
indexes = record {
  by_key = λ key. refl;
  all = λ selector. refl;
  by_namespace = λ namespace selector. refl;
}

namespace_get-Finds_example : Finds store "ns" "web" (namespace_get indexer "ns" "web")
namespace_get-Finds_example =
    namespace_get-Finds indexer store indexes "ns" "web" refl (refl, (refl, tt))

abbrev lib : ClientGo
lib = record {
  is_positive = λ qps. qps == "20";
  token_bucket = λ qps burst. "bucket";
  rest_client_for = λ c. ok "rest";
  discovery_client_for = λ c. ok "discovery";
  default_user_agent = "agent";
  codecs = "codecs";
  scheme_group_version = ("quarks.cloudfoundry.org", "v1alpha1");
}

abbrev config : RestConfig
config = record {
  rate_limiter = none;
  qps = "20";
  burst = pos 30;
  group_version = none;
  api_path = "";
  negotiated_serializer = "";
  user_agent = "";
  other = "";
}

abbrev clients : Clientset
clients = record { discovery_client = "discovery"; quarksstatefulset = "rest" }

is_made : new_for_config lib config ≡ ok clients
unfolding new_for_config limited limited_by typed_for_config
is_made = refl

new_for_config-Shares_example : Shares lib config clients
new_for_config-Shares_example = new_for_config-Shares lib config clients is_made

-- The fake's resource is in a group of its own.
fake_group : Fake.quarksstatefulsets_resource.group ≡ "quarksstatefulset"
unfolding Fake.quarksstatefulsets_resource
fake_group = refl
