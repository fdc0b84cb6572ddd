-- ===== src/Client/Config/OrDie.antt =====
-- The constructors of clientsets that return no error, and the accessors: clientset/versioned/
-- clientset.go and typed/quarksstatefulset/v1alpha1/quarksstatefulset_client.go.
use quarks_statefulset.Prelude.{
  String, Bool, true, false, Option, none, some, ◌≡◌, refl, ◌⊎◌, inl, inr, pos, ltb_ℤ, Outcome, ok,
  err, panic, message,
}
use quarks_statefulset.Client.Config.{
  RestConfig, ClientGo, Clientset, typed_for_config, limited_by, limited, clients_of, clientset_of,
  new_for_config,
}

-- `if err != nil { panic(err) }`
abbrev pub or_die {ℓ} : {A : Type ℓ} → Outcome A → Outcome A
or_die (ok a) = ok a
or_die (err e) = panic
or_die panic = panic

-- What else the clients take of client-go: NewDiscoveryClientForConfigOrDie and NewDiscoveryClient.
pub record Discovery : Type 0 where
  pub client_for_or_die : RestConfig → Outcome String
  pub client_on : String → String

-- NewDiscoveryClientForConfigOrDie panics where NewDiscoveryClientForConfig returns an error, and
-- returns its client otherwise.
pub record DiesAlike (lib : ClientGo) (discovery : Discovery) : Type 0 where
  pub alike : (c : RestConfig) → discovery.client_for_or_die c ≡ or_die (lib.discovery_client_for c)

-- Clientset.QuarksstatefulsetV1alpha1, which follows the pointer.
unfoldable pub quarksstatefulset_v1alpha1 : Option Clientset → Outcome String
quarksstatefulset_v1alpha1 none = panic
quarksstatefulset_v1alpha1 (some clients) = ok clients.quarksstatefulset

-- Clientset.Discovery, which asks whether the pointer is nil.
unfoldable pub discovery_of : Option Clientset → Option String
discovery_of none = none
discovery_of (some clients) = some clients.discovery_client

module _ (lib : ClientGo) (discovery : Discovery) where
  -- NewForConfigOrDie of the typed client.
  unfoldable pub typed_for_config_or_die : RestConfig → Outcome String
  typed_for_config_or_die c = or_die (typed_for_config lib c)

  -- NewForConfigOrDie of the clientset.
  unfoldable pub new_for_config_or_die : RestConfig → Outcome Clientset
  unfolding typed_for_config_or_die
  new_for_config_or_die c =
      clients_of lib (typed_for_config_or_die c) (discovery.client_for_or_die c)

  -- New, whose typed client has the REST client that is given.
  unfoldable pub new_on : String → Clientset
  new_on rest = record { discovery_client = discovery.client_on rest; quarksstatefulset = rest }

  module _ (law : DiesAlike lib discovery) where
    dies :
        (t d d' : Outcome String)
        → d' ≡ or_die d
        → clients_of lib (or_die t) d' ≡ or_die (clients_of lib t d)
    unfolding clients_of
    dies (ok t) (ok d) d' e = rw e refl
    dies (ok t) (err x) d' e = rw e refl
    dies (ok t) panic d' e = rw e refl
    dies (err x) d d' e = refl
    dies panic d d' e = refl

    limited_config :
        (c : RestConfig) (o : Option String) (positive : Bool)
        → ((limiter : String) × (o ≡ some limiter)) ⊎ (positive ≡ false)
        → limited_by lib c o positive ≡ ok c
    unfolding limited_by
    limited_config c (some limiter) positive given = refl
    limited_config c none positive (inl (limiter, e)) = absurd (cc e)
    limited_config c none positive (inr e) = rw e refl

    -- With a rate limiter, or no positive rate, NewForConfigOrDie panics where NewForConfig returns
    -- an error, and returns the same clients otherwise.
    new_for_config_or_die-agrees :
        (c : RestConfig)
        → ((limiter : String) × (c.rate_limiter ≡ some limiter)) ⊎ (lib.is_positive c.qps ≡ false)
        → new_for_config_or_die c ≡ or_die (new_for_config lib c)
    unfolding new_for_config_or_die new_for_config clientset_of typed_for_config_or_die limited
    new_for_config_or_die-agrees c given =
        rw (limited_config c c.rate_limiter (lib.is_positive c.qps) given) (
          dies (typed_for_config lib c) (lib.discovery_client_for c) (discovery.client_for_or_die c)
            (law.alike c))

    -- With a positive rate, no rate limiter and no burst, NewForConfig returns an error, and
    -- NewForConfigOrDie makes the clients.
    burst_unchecked :
        (c : RestConfig) (typed found : String)
        → c.rate_limiter ≡ none
        → lib.is_positive c.qps ≡ true
        → ltb_ℤ (pos 0) c.burst ≡ false
        → typed_for_config lib c ≡ ok typed
        → lib.discovery_client_for c ≡ ok found
        → (new_for_config lib c ≡ err (message "burst is required to be greater than 0"))
          × (new_for_config_or_die c
              ≡ ok (record { discovery_client = found; quarksstatefulset = typed }))
    unfolding new_for_config new_for_config_or_die clientset_of clients_of typed_for_config_or_die
        limited limited_by
    burst_unchecked c typed found free positive small t d =
        (rw (free, positive, small) refl, rw (t, law.alike c, d) refl)
