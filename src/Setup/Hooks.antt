-- ===== src/Setup/Hooks.antt =====
-- The webhooks (quarksstatefulset/pod_webhook.go, statefulset/statefulset_webhook.go) and AddHooks
-- of controllers.go.
use quarks_statefulset.Prelude.{String, ◌<>◌, Bool, true, List, [], ◌∷◌, ◌++◌, map}
use quarks_statefulset.Setup.Plans.{Step, checked, plain, SetupCall}

-- webhook.OperatorWebhook: its one rule, the policy on failure (Fail), and the label that selects
-- namespaces. The scope is always that of namespaced objects.
pub record OperatorWebhook : Type 0 where
  pub api_groups : List String
  pub api_versions : List String
  pub resources : List String
  pub operations : List String
  pub must_succeed : Bool
  pub path : String
  pub name : String
  pub namespace_label : String × String

-- names.GroupName and monitorednamespace.LabelNamespace of quarks-utils, and the id to monitor.
module _ (group_name label_namespace monitored_id : String) where
  unfoldable pub pod_webhook : OperatorWebhook
  pod_webhook = record {
    api_groups = "" ∷ [];
    api_versions = "v1" ∷ [];
    resources = "pods" ∷ [];
    operations = "CREATE" ∷ "UPDATE" ∷ [];
    must_succeed = true;
    path = "/mutate-pods";
    name = "mutate-pods." <> group_name;
    namespace_label = (label_namespace, monitored_id);
  }

  unfoldable pub statefulset_webhook : OperatorWebhook
  statefulset_webhook = record {
    api_groups = "apps" ∷ [];
    api_versions = "v1" ∷ [];
    resources = "statefulsets" ∷ [];
    operations = "CREATE" ∷ "UPDATE" ∷ [];
    must_succeed = true;
    path = "/mutate-statefulsets";
    name = "mutate-statefulsets." <> group_name;
    namespace_label = (label_namespace, monitored_id);
  }

  -- mutatingHookFuncs, called.
  unfoldable pub mutating_webhooks : List OperatorWebhook
  mutating_webhooks = pod_webhook ∷ statefulset_webhook ∷ []

  abbrev pub path_of : OperatorWebhook → String
  path_of hook = hook.path

  abbrev register_hook : OperatorWebhook → Step
  register_hook hook = plain (SetupCall.register hook.path)

  unfoldable pub add_hooks : List Step
  add_hooks =
      plain (SetupCall.register "/readyz") ∷ map register_hook mutating_webhooks
      ++ checked SetupCall.setup_certificate ("setting up the webhook server certificate" ∷ [])
        ∷ checked (SetupCall.create_webhook_config (map path_of mutating_webhooks))
            ("generating the webhook server configuration" ∷ [])
        ∷ []
