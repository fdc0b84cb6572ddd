-- ===== src/Quarks/UpdateVersions/Keeps.antt =====
-- Which secret UpdateVersions asks for, and what it leaves as it was.
use quarks_statefulset.Prelude.{
  String, ◌<>◌, Bool, true, false, Option, none, some, List, [], ◌∷◌, ◌≡◌, refl, ap, ◌∙◌, Outcome,
  ok, map_outcome, err, panic,
}
use quarks_statefulset.Text.Split.Laws.{has_no_dash, join-drop_last-split}
use quarks_statefulset.Kube.Types.{Key, QuarksStatefulSet, Volume, DataObject}
use quarks_statefulset.Kube.Calls.{
  Call, History, ◌>>=◌, annotate, ask, pure, when_ok, wrap_answer, Emits-bind, Emits-pure, Returns,
  Returns-pure, Returns-bind, Returns-ask, Returns-annotate, Emits, emits_rules,
}
use quarks_statefulset.Kube.Env.{Env}
use quarks_statefulset.Kube.Client.{get_secret, latest_secret}
use quarks_statefulset.Quarks.UpdateVersions.{
  secret_prefix, with_volumes, refresh, latest_name, latest_volume, latest_volumes, update_versions,
}

-- The prefix of a name that ends in "-" and a version without "-" is what stands before.
pub secret_prefix_of_versioned :
    (base version : String)
    → has_no_dash version ≡ true
    → secret_prefix (base <> String.◌∷◌ "-" version) ≡ base
unfolding secret_prefix
secret_prefix_of_versioned base version h = join-drop_last-split base version h

abbrev pub named : Outcome DataObject → Outcome String
named o = map_outcome (λ s. s.meta.name) o

asked :
    (text : String) (c : Call) (answer : History → Outcome DataObject) (h : History)
    → ((annotate text (ask c answer) >>= λ latest. pure latest.meta.name) h).1 ≡ c ∷ h
unfolding ◌>>=◌
asked text c answer h = go (answer h)
  where
    go :
        (o : Outcome DataObject)
        → (when_ok (wrap_answer text (o, c ∷ h)) (λ latest. pure latest.meta.name)).1 ≡ c ∷ h
    go (ok secret) = refl
    go (err e) = refl
    go panic = refl

module _ (env : Env) where
  -- For a volume with a versioned secret, named by a base, "-" and a version without "-", the code
  -- asks the store for the latest version of that base, and takes its name or its error.
  pub latest_name-versioned :
      (namespace name base version : String) (secret : DataObject) (h : History)
      → has_no_dash version ≡ true
      → env.secret_at h (record { name = name; namespace = namespace }) ≡ ok secret
      → env.is_versioned_secret secret ≡ true
      → secret.meta.name ≡ base <> String.◌∷◌ "-" version
      → (latest_name env namespace name h).1
        ≡ Call.latest_secret namespace base
          ∷ Call.get_secret (record { name = name; namespace = namespace })
          ∷ h
  unfolding latest_name refresh get_secret latest_secret ◌>>=◌
  latest_name-versioned namespace name base version secret h plain read versioned is_named =
      rw read (
        rw versioned (
          asked "failed to read latest versioned secret" _
            (λ g. env.latest_secret g namespace (secret_prefix secret.meta.name)) _
          ∙ ap
              (λ prefix.
                Call.latest_secret namespace prefix
                ∷ Call.get_secret (record { name = name; namespace = namespace })
                ∷ h)
              (ap secret_prefix is_named ∙ secret_prefix_of_versioned base version plain)))

  -- What a volume becomes: itself without a secret or with one that is not versioned; else its secret
  -- is the newest that the store has under the name without the version.
  pub data Refreshed (namespace : String) (v : Volume) : Volume → Type 0 where
    no_secret : v.secret_name ≡ none → Refreshed namespace v v
    unversioned :
        (when : History) (name : String) (secret : DataObject)
        → v.secret_name ≡ some name
        → env.secret_at when (record { name = name; namespace = namespace }) ≡ ok secret
        → env.is_versioned_secret secret ≡ false
        → Refreshed namespace v (record v { secret_name = some name })
    renewed :
        (when later : History) (name prefix : String) (secret latest : DataObject)
        → v.secret_name ≡ some name
        → env.secret_at when (record { name = name; namespace = namespace }) ≡ ok secret
        → env.is_versioned_secret secret ≡ true
        → ((base version : String)
            → has_no_dash version ≡ true
            → secret.meta.name ≡ base <> String.◌∷◌ "-" version
            → prefix ≡ base)
        → env.latest_secret later namespace prefix ≡ ok latest
        → Refreshed namespace v (record v { secret_name = some latest.meta.name })

  pub data EachRefreshed (namespace : String) : List Volume → List Volume → Type 0 where
    no_more : EachRefreshed namespace [] []
    also :
        {v w : Volume} {vs ws : List Volume}
        → Refreshed namespace v w
        → EachRefreshed namespace vs ws
        → EachRefreshed namespace (v ∷ vs) (w ∷ ws)

  abbrev with_name : Volume → String → Volume
  with_name v name = record v { secret_name = some name }

  Returns-refresh :
      (namespace name : String) (v : Volume) (secret : DataObject) (when : History) (b : Bool)
      → v.secret_name ≡ some name
      → env.secret_at when (record { name = name; namespace = namespace }) ≡ ok secret
      → env.is_versioned_secret secret ≡ b
      → Returns (λ n. Refreshed namespace v (with_name v n)) (refresh env b namespace name secret)
  unfolding refresh latest_secret
  Returns-refresh namespace name v secret when true has read versioned =
      Returns-bind
        {Q = λ latest.
          (later : History) × (env.latest_secret later namespace (secret_prefix secret.meta.name)
            ≡ ok latest)}
        _ _ (Returns-annotate _ _ (Returns-ask _ _ λ h latest e. (h, e)))
        λ latest (later, e). Returns-pure _ (
          renewed when later name (secret_prefix secret.meta.name) secret latest has read versioned
            (λ base version plain is_named.
              ap secret_prefix is_named ∙ secret_prefix_of_versioned base version plain)
            e)
  Returns-refresh namespace name v secret when false has read plain =
      Returns-pure _ (unversioned when name secret has read plain)

  Returns-latest_volume :
      (namespace : String) (v : Volume) (name : Option String)
      → v.secret_name ≡ name
      → Returns (Refreshed namespace v) (latest_volume env namespace v name)
  unfolding latest_volume latest_name get_secret
  Returns-latest_volume namespace v none e = Returns-pure v (no_secret e)
  Returns-latest_volume namespace v (some name) e =
      Returns-bind {Q = λ n. Refreshed namespace v (with_name v n)} _ _
        (Returns-bind
          {Q = λ secret.
            (when : History) × (env.secret_at when (record { name = name; namespace = namespace })
              ≡ ok secret)}
          _ _ (Returns-ask _ _ λ h secret read. (h, read))
          λ secret (when, read).
            Returns-refresh namespace name v secret when (env.is_versioned_secret secret) e read
              refl)
        λ latest r. Returns-pure _ r

  Returns-latest_volumes :
      (namespace : String) (vs : List Volume)
      → Returns (EachRefreshed namespace vs) (latest_volumes env namespace vs)
  unfolding latest_volumes
  Returns-latest_volumes namespace [] = Returns-pure [] no_more
  Returns-latest_volumes namespace (v ∷ vs) =
      Returns-bind _ _ (Returns-latest_volume namespace v v.secret_name refl) λ w r.
        Returns-bind _ _ (Returns-latest_volumes namespace vs)
          λ ws each. Returns-pure _ (also r each)

  pub record IsRefreshed (q q' : QuarksStatefulSet) : Type 0 where
    pub volumes : List Volume
    pub is_with : q' ≡ with_volumes q volumes
    pub each : EachRefreshed q.meta.namespace q.spec.template.spec.template.spec.volumes volumes

  -- Where UpdateVersions succeeds, it has changed nothing but the names of secrets in volumes: a
  -- volume without a secret, or whose secret, when read, is not versioned, is kept; one whose secret
  -- is versioned gets the name of the one that the store gave as the latest of the secret's name
  -- without "-" and the version. The volumes stay as many and in order.
  pub update_versions-IsRefreshed :
      (q : QuarksStatefulSet) → Returns (IsRefreshed q) (update_versions env q)
  unfolding update_versions
  update_versions-IsRefreshed q =
      Returns-bind _ _
        (Returns-latest_volumes q.meta.namespace q.spec.template.spec.template.spec.volumes)
        λ vs e. Returns-pure _ (record { volumes = vs; is_with = refl; each = e })

  -- It only reads secrets.
  module _ (P : Call → Type 0) (gets : (k : Key) → P (Call.get_secret k))
      (latest : (n p : String) → P (Call.latest_secret n p)) where
    Emits-refresh : (b : Bool) (n name : String) (s : DataObject) → Emits P (refresh env b n name s)
    unfolding refresh latest_secret
    Emits-refresh true n name s = search (emits_rules, latest)
    Emits-refresh false n name s = search emits_rules

    Emits-latest_volume :
        (n : String) (v : Volume) (o : Option String) → Emits P (latest_volume env n v o)
    unfolding latest_volume latest_name get_secret
    Emits-latest_volume n v none = search emits_rules
    Emits-latest_volume n v (some name) = search (emits_rules, gets, Emits-refresh)

    Emits-latest_volumes : (n : String) (vs : List Volume) → Emits P (latest_volumes env n vs)
    unfolding latest_volumes
    Emits-latest_volumes n [] = search emits_rules
    Emits-latest_volumes n (v ∷ vs) =
        Emits-bind _ _ (Emits-latest_volume n v v.secret_name)
          λ w. Emits-bind _ _ (Emits-latest_volumes n vs) λ ws. Emits-pure _

    pub Emits-update_versions : (q : QuarksStatefulSet) → Emits P (update_versions env q)
    unfolding update_versions
    Emits-update_versions q = search (emits_rules, Emits-latest_volumes)
