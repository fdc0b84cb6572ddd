-- ===== src/Client/Config/Shares.antt =====
-- What the two clients of a clientset are made from.
use quarks_statefulset.Prelude.{
  Bool, true, false, String, Option, none, some, pos, ◌<ℤ◌, ltb_ℤ, ◌≡◌, refl, Outcome, ok, err,
  panic, message, if◌then◌else◌, arith, subst, ok_injective,
}
use quarks_statefulset.Client.Config.{
  RestConfig, ClientGo, Clientset, set_config_defaults, typed_for_config, limited_by, limited,
  clients_of, clientset_of, new_for_config,
}

module _ (lib : ClientGo) where
  -- The rate limiter of the clients: the one given; none where no rate is set; or a bucket of tokens,
  -- for a positive rate and burst.
  pub data Limits (c : RestConfig) : RestConfig → Type 0 where
    given : {limiter : String} → c.rate_limiter ≡ some limiter → Limits c c
    unlimited : c.rate_limiter ≡ none → lib.is_positive c.qps ≡ false → Limits c c
    bucket :
        c.rate_limiter ≡ none
        → lib.is_positive c.qps ≡ true
        → pos 0 <ℤ c.burst
        → Limits c (record c { rate_limiter = some (lib.token_bucket c.qps c.burst) })

  -- Both clients have the same rate limiter.
  pub record Shares (c : RestConfig) (clients : Clientset) : Type 0 where
    pub config : RestConfig
    pub limits : Limits c config
    pub typed : lib.rest_client_for (set_config_defaults lib config) ≡ ok clients.quarksstatefulset
    pub discovery : lib.discovery_client_for config ≡ ok clients.discovery_client

  limited_by-Limits :
      (c : RestConfig) (o : Option String) (positive : Bool) {c' : RestConfig}
      → c.rate_limiter ≡ o
      → lib.is_positive c.qps ≡ positive
      → limited_by lib c o positive ≡ ok c'
      → Limits c c'
  unfolding limited_by
  limited_by-Limits c (some limiter) positive r q e = subst (Limits c) (ok_injective e) (given r)
  limited_by-Limits c none false r q e = subst (Limits c) (ok_injective e) (unlimited r q)
  limited_by-Limits c none true r q e = with_bucket (ltb_ℤ (pos 0) c.burst) refl e
    where
      filled : RestConfig
      filled = record c { rate_limiter = some (lib.token_bucket c.qps c.burst) }

      with_bucket :
          (b : Bool)
          → ltb_ℤ (pos 0) c.burst ≡ b
          → {c' : RestConfig}
          → (if b then ok filled else err (message "burst is required to be greater than 0"))
            ≡ ok c'
          → Limits c c'
      with_bucket true more p =
          subst (Limits c) (ok_injective p) (bucket r q (ground (arith, more)))
      with_bucket false less p = cc p

  clients_of-both :
      (t d : Outcome String) {clients : Clientset}
      → clients_of lib t d ≡ ok clients
      → (t ≡ ok clients.quarksstatefulset) × (d ≡ ok clients.discovery_client)
  unfolding clients_of
  clients_of-both (ok t) (ok d) e = (cc e, cc e)
  clients_of-both (ok t) (err x) e = cc e
  clients_of-both (ok t) panic e = cc e
  clients_of-both (err x) d e = cc e
  clients_of-both panic d e = cc e

  clientset_of-Shares :
      (c : RestConfig) (o : Outcome RestConfig) {clients : Clientset}
      → limited lib c ≡ o
      → clientset_of lib o ≡ ok clients
      → Shares c clients
  unfolding clientset_of limited typed_for_config
  clientset_of-Shares c (ok c') l e =
      let (typed, discovery) = clients_of-both _ _ e in
      record {
        config = c';
        limits = limited_by-Limits c c.rate_limiter (lib.is_positive c.qps) refl refl l;
        typed = typed;
        discovery = discovery;
      }
  clientset_of-Shares c (err x) l e = cc e
  clientset_of-Shares c panic l e = cc e

  -- A clientset that is made has both its clients from one configuration, up to the defaults of the
  -- typed client: the one given, with its rate limiter, or none where no rate is set, or with a new
  -- one, for a positive rate and a positive burst.
  pub new_for_config-Shares :
      (c : RestConfig) (clients : Clientset) → new_for_config lib c ≡ ok clients → Shares c clients
  unfolding new_for_config
  new_for_config-Shares c clients e = clientset_of-Shares c (limited lib c) refl e
