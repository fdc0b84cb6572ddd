-- ===== src/Client/Config.antt =====
-- clientset/versioned/clientset.go and typed/quarksstatefulset/v1alpha1/quarksstatefulset_client.go.
pub mod Shares
pub mod OrDie
use quarks_statefulset.Prelude.{
  String, Bool, true, false, Option, none, some, List, [], ◌∷◌, ℤ, pos, ltb_ℤ, Outcome, ok, err,
  panic, Error, message, ◌==◌, if◌then◌else◌,
}

-- rest.Config: `qps` is a float, `other` its other fields.
pub record RestConfig : Type 0 where
  pub rate_limiter : Option String
  pub qps : String
  pub burst : ℤ
  pub group_version : Option (String × String)
  pub api_path : String
  pub negotiated_serializer : String
  pub user_agent : String
  pub other : String

-- What the clients take of client-go; `is_positive` compares a float with 0.
pub record ClientGo : Type 0 where
  pub is_positive : String → Bool
  pub token_bucket : String → ℤ → String
  pub rest_client_for : RestConfig → Outcome String
  pub discovery_client_for : RestConfig → Outcome String
  pub default_user_agent : String
  pub codecs : String
  pub scheme_group_version : String × String

-- versioned.Clientset
pub record Clientset : Type 0 where
  pub discovery_client : String
  pub quarksstatefulset : String

module _ (lib : ClientGo) where
  unfoldable pub set_config_defaults : RestConfig → RestConfig
  set_config_defaults c = record c {
    group_version = some lib.scheme_group_version;
    api_path = "/apis";
    negotiated_serializer = lib.codecs;
    user_agent = if c.user_agent == "" then lib.default_user_agent else c.user_agent;
  }

  -- NewForConfig of the typed client.
  unfoldable pub typed_for_config : RestConfig → Outcome String
  typed_for_config c = lib.rest_client_for (set_config_defaults c)

  -- The part of NewForConfig that gives the copy of the configuration its rate limiter.
  unfoldable pub limited_by : RestConfig → Option String → Bool → Outcome RestConfig
  limited_by c (some limiter) positive = ok c
  limited_by c none false = ok c
  limited_by c none true =
      if ltb_ℤ (pos 0) c.burst
      then ok (record c { rate_limiter = some (lib.token_bucket c.qps c.burst) })
      else err (message "burst is required to be greater than 0")

  unfoldable pub limited : RestConfig → Outcome RestConfig
  limited c = limited_by c c.rate_limiter (lib.is_positive c.qps)

  unfoldable pub clients_of : Outcome String → Outcome String → Outcome Clientset
  clients_of (ok typed) (ok discovery) =
      ok (record { discovery_client = discovery; quarksstatefulset = typed })
  clients_of (ok typed) (err e) = err e
  clients_of (ok typed) panic = panic
  clients_of (err e) discovery = err e
  clients_of panic discovery = panic

  unfoldable pub clientset_of : Outcome RestConfig → Outcome Clientset
  unfolding clients_of
  clientset_of (ok c) = clients_of (typed_for_config c) (lib.discovery_client_for c)
  clientset_of (err e) = err e
  clientset_of panic = panic

  unfoldable pub new_for_config : RestConfig → Outcome Clientset
  unfolding clientset_of
  new_for_config c = clientset_of (limited c)
