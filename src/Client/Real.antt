-- ===== src/Client/Real.antt =====
-- clientset/versioned/typed/quarksstatefulset/v1alpha1/quarksstatefulset.go.
use quarks_statefulset.Prelude.{String, true, false, Option, none, List, [], ◌∷◌, Error, Outcome}
use quarks_statefulset.Kube.Types.{QuarksStatefulSet, StatefulSet, ObjectMeta}
use quarks_statefulset.Quarks.Versions.{default_statefulset}
use quarks_statefulset.Client.Requests.{
  ListOptions, QuarksStatefulSetList, Verb, get_options, create_options, update_options,
  patch_options, list_options, object, delete_options, bytes, namespace, resource, name,
  sub_resource, versioned_params, timeout, body, Request, Rest, timeout_of,
}

abbrev pub empty_meta : ObjectMeta
empty_meta = record { name = ""; namespace = ""; labels = none; annotations = none; other = "" }

-- The default StatefulSet is empty but for an annotation.
abbrev pub empty_template : StatefulSet
empty_template = record default_statefulset { meta = empty_meta }

-- `&v1alpha1.QuarksStatefulSet{}`
abbrev pub empty_quarks : QuarksStatefulSet
empty_quarks = record {
  meta = empty_meta;
  spec = record {
    update_on_config_change = false;
    zone_node_label = "";
    zones = [];
    template = empty_template;
    active_passive_probes = none;
    inject_replicas_env = none;
  };
  status = record { last_reconcile = none; ready = false };
}

abbrev pub empty_list : QuarksStatefulSetList
empty_list = record { meta = ""; items = [] }

-- A client for one namespace.
module _ (ns : String) where
  unfoldable pub get_request : String → String → Request
  get_request object_name options = record {
    verb = Verb.get;
    parts =
        namespace ns
        ∷ resource "quarksstatefulsets"
        ∷ name object_name
        ∷ versioned_params (get_options options)
        ∷ [];
  }

  unfoldable pub list_request : ListOptions → Request
  list_request options = record {
    verb = Verb.get;
    parts =
        namespace ns
        ∷ resource "quarksstatefulsets"
        ∷ versioned_params (list_options options)
        ∷ timeout (timeout_of options)
        ∷ [];
  }

  unfoldable pub watch_request : ListOptions → Request
  watch_request options = record {
    verb = Verb.get;
    parts =
        namespace ns
        ∷ resource "quarksstatefulsets"
        ∷ versioned_params (list_options (record options { watch = true }))
        ∷ timeout (timeout_of options)
        ∷ [];
  }

  unfoldable pub create_request : QuarksStatefulSet → String → Request
  create_request q options = record {
    verb = Verb.post;
    parts =
        namespace ns
        ∷ resource "quarksstatefulsets"
        ∷ versioned_params (create_options options)
        ∷ body (object q)
        ∷ [];
  }

  unfoldable pub update_request : QuarksStatefulSet → String → Request
  update_request q options = record {
    verb = Verb.put;
    parts =
        namespace ns
        ∷ resource "quarksstatefulsets"
        ∷ name q.meta.name
        ∷ versioned_params (update_options options)
        ∷ body (object q)
        ∷ [];
  }

  unfoldable pub update_status_request : QuarksStatefulSet → String → Request
  update_status_request q options = record {
    verb = Verb.put;
    parts =
        namespace ns
        ∷ resource "quarksstatefulsets"
        ∷ name q.meta.name
        ∷ sub_resource ("status" ∷ [])
        ∷ versioned_params (update_options options)
        ∷ body (object q)
        ∷ [];
  }

  unfoldable pub delete_request : String → String → Request
  delete_request object_name options = record {
    verb = Verb.delete;
    parts =
        namespace ns
        ∷ resource "quarksstatefulsets"
        ∷ name object_name
        ∷ body (delete_options options)
        ∷ [];
  }

  unfoldable pub delete_collection_request : String → ListOptions → Request
  delete_collection_request options listed = record {
    verb = Verb.delete;
    parts =
        namespace ns
        ∷ resource "quarksstatefulsets"
        ∷ versioned_params (list_options listed)
        ∷ timeout (timeout_of listed)
        ∷ body (delete_options options)
        ∷ [];
  }

  unfoldable pub patch_request : String → String → String → String → List String → Request
  patch_request object_name patch_type content options subresources = record {
    verb = Verb.patch patch_type;
    parts =
        namespace ns
        ∷ resource "quarksstatefulsets"
        ∷ name object_name
        ∷ sub_resource subresources
        ∷ versioned_params (patch_options options)
        ∷ body (bytes content)
        ∷ [];
  }

  -- The methods: each sends its request and reads the answer into an empty object.
  module _ (rest : Rest) where
    unfoldable pub get : String → String → QuarksStatefulSet × Option Error
    get object_name options = rest.into (get_request object_name options) empty_quarks

    unfoldable pub list : ListOptions → QuarksStatefulSetList × Option Error
    list options = rest.into_list (list_request options) empty_list

    unfoldable pub watch : ListOptions → Outcome String
    watch options = rest.watched (watch_request options)

    unfoldable pub create : QuarksStatefulSet → String → QuarksStatefulSet × Option Error
    create q options = rest.into (create_request q options) empty_quarks

    unfoldable pub update : QuarksStatefulSet → String → QuarksStatefulSet × Option Error
    update q options = rest.into (update_request q options) empty_quarks

    unfoldable pub update_status : QuarksStatefulSet → String → QuarksStatefulSet × Option Error
    update_status q options = rest.into (update_status_request q options) empty_quarks

    unfoldable pub delete : String → String → Option Error
    delete object_name options = rest.error_of (delete_request object_name options)

    unfoldable pub delete_collection : String → ListOptions → Option Error
    delete_collection options listed = rest.error_of (delete_collection_request options listed)

    unfoldable pub patch :
        String → String → String → String → List String → QuarksStatefulSet × Option Error
    patch object_name patch_type content options subresources =
        rest.into (patch_request object_name patch_type content options subresources) empty_quarks
