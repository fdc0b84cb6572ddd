-- ===== src/Quarks/Reconcile/Writes.antt =====
-- What the QuarksStatefulSet reconciler writes.
use quarks_statefulset.Prelude.{
  String, Bool, true, false, Option, none, some, List, [], ◌∷◌, ℕ, ℤ, pos, suc, inc64, ◌≡◌, ◌≢◌,
  refl, sym, ap, ◌∙◌, Outcome, ok, err, panic, wrap_outcome, All, get_elem?, subst, arith, ◌+◌,
}
use quarks_statefulset.Kube.Types.{Key, StatefulSet, QuarksStatefulSet, PodSpec}
use quarks_statefulset.Kube.Calls.{
  Call, History, Returns-ask, Returns-annotate, Returns-lift, Emits, emits_rules, Emits-bind,
  Emits-bind_returning, Emits-on_result_returning, Emits-annotate, Emits-pure, Emits-ask_with,
  Emits-ask, Emits-lift, Emits-weaken,
}
use quarks_statefulset.Kube.Env.{Env, UnitesMaps}
use quarks_statefulset.Kube.Client.{
  get_quarks, update_status, read_clock, create_or_update, set_secret_references,
}
use quarks_statefulset.Quarks.Versions.Current.{IsCurrent}
use quarks_statefulset.Quarks.Generate.Labels.{IsGenerated}
use quarks_statefulset.Quarks.Desired.{with_default_label}
use quarks_statefulset.Quarks.Desired.Fresh.{
  Zoned, done, zone, zones_or_one, calculate_desired_statefulsets-IsDesired,
  Emits-calculate_desired_statefulsets,
}
use quarks_statefulset.Quarks.UpdateVersions.{with_volumes}
use quarks_statefulset.Quarks.UpdateVersions.Keeps.{
  IsRefreshed, update_versions-IsRefreshed, Emits-update_versions,
}
use quarks_statefulset.Quarks.Reconcile.{
  create_statefulset, create_all, unless_in_meltdown, reconcile_updated, reconcile_read, reconcile,
  mutate_statefulset, with_last_reconcile, after_creation,
}

plus_zero : (i : ℕ) → i + 0 ≡ i
plus_zero i = omega arith

plus_suc : (i j : ℕ) → i + suc j ≡ suc i + j
plus_suc i j = omega arith

zero_plus : (j : ℕ) → j ≡ 0 + j
zero_plus j = omega arith

module _ (env : Env) (law : UnitesMaps env) (key : Key) where
  -- The object that was read at some time, with its secrets' versions brought up to date.
  pub record IsRead (q : QuarksStatefulSet) : Type 0 where
    pub when : History
    pub read : QuarksStatefulSet
    pub was_read : env.quarks_at when key ≡ ok read
    pub is_refreshed : IsRefreshed env read q

  -- A StatefulSet generated for a zone of the object, one version after the current one, before it
  -- has an owner.
  pub record IsNext (q : QuarksStatefulSet) (s : StatefulSet) : Type 0 where
    pub current : List StatefulSet × ℤ
    pub is_current : IsCurrent env q current
    pub index : ℕ
    pub name : String
    pub is_zone : get_elem? (zones_or_one env law q.spec.zones) index ≡ some name
    pub is_generated :
        IsGenerated env law (with_default_label q) (pos index) name (inc64 current.1) s

  pub data Allowed : Call → Type 0 where
    reads : (k : Key) → Allowed (Call.get_quarks k)
    reads_secret : (k : Key) → Allowed (Call.get_secret k)
    asks_latest : (namespace prefix : String) → Allowed (Call.latest_secret namespace prefix)
    asks_references :
        (namespace : String) (spec : PodSpec) → Allowed (Call.set_secret_references namespace spec)
    lists : (namespace : String) → Allowed (Call.list_statefulsets namespace)
    reads_clock : Allowed Call.read_clock
    notes_time :
        {q : QuarksStatefulSet} (now : ℤ)
        → IsRead q
        → q.status.last_reconcile ≡ none
        → Allowed (Call.update_status (with_last_reconcile q now))
    creates :
        {q : QuarksStatefulSet} {s owned : StatefulSet} {answer : Outcome StatefulSet}
        → IsRead q
        → IsNext q s
        → env.reference_set q.meta s ≡ ok owned
        → (when : History) → answer ≡ env.created_or_updated when owned (mutate_statefulset owned)
        → Allowed (Call.create_or_update owned answer)

  module _ (q : QuarksStatefulSet) (is_read : IsRead q) where
    Zoned-IsNext :
        (current : List StatefulSet × ℤ) (is_current : IsCurrent env q current) (i : ℕ)
        (zones : List String) (ss : List StatefulSet)
        → Zoned env law (with_default_label q) (inc64 current.1) i zones ss
        → ((j : ℕ) (name : String)
            → get_elem? zones j ≡ some name
            → get_elem? (zones_or_one env law q.spec.zones) (i + j) ≡ some name)
        → All (IsNext q) ss
    Zoned-IsNext current c i _ _ done among = tt
    Zoned-IsNext current c i _ _ (zone {name = name} g rest) among = (
      record {
        current = current;
        is_current = c;
        index = i;
        name = name;
        is_zone =
            subst (λ k. get_elem? (zones_or_one env law q.spec.zones) k ≡ some name) (plus_zero i)
              (among 0 name refl);
        is_generated = g;
      },
      Zoned-IsNext current c (suc i) _ _ rest λ j other e.
          subst (λ k. get_elem? (zones_or_one env law q.spec.zones) k ≡ some other) (plus_suc i j)
            (among (suc j) other e),
    )

    owned_answer :
        (text : String) (o : Outcome StatefulSet) (owned : StatefulSet)
        → wrap_outcome text o ≡ ok owned
        → o ≡ ok owned
    owned_answer text (ok s) owned e = e
    owned_answer text (err x) owned e = cc e
    owned_answer text panic owned e = cc e

    Emits-create_statefulset :
        (q' : QuarksStatefulSet) (s : StatefulSet)
        → q'.meta ≡ q.meta
        → IsNext q s
        → Emits Allowed (create_statefulset env q' s)
    unfolding create_statefulset create_or_update
    Emits-create_statefulset q' s same next =
        Emits-bind_returning _ _
          (Returns-lift _ λ owned e. owned_answer _ (env.reference_set q'.meta s) owned e)
          (Emits-lift _)
          λ owned e. Emits-annotate _ _ (
            Emits-ask_with _ _
              λ h. creates is_read next (ap (λ m. env.reference_set m s) (sym same) ∙ e) h refl)

    -- The object in memory changes while StatefulSets are made, its name does not.
    Emits-create_all :
        (q' : QuarksStatefulSet) (ss : List StatefulSet)
        → q'.meta ≡ q.meta
        → All (IsNext q) ss
        → Emits Allowed (create_all env key.namespace q' ss)
    unfolding create_all after_creation set_secret_references
    Emits-create_all q' [] same next = Emits-pure _
    Emits-create_all q' (s ∷ ss) same (n, next) =
        Emits-bind _ _ (Emits-annotate _ _ (Emits-ask _ _ (asks_references _ _))) λ spec.
          Emits-bind _ _ (Emits-annotate _ _ (Emits-create_statefulset q' s same n))
            λ created. Emits-create_all _ ss same next

    Emits-unless_in_meltdown : (window : Bool) → Emits Allowed (unless_in_meltdown env window key q)
    unfolding unless_in_meltdown
    Emits-unless_in_meltdown true = Emits-pure _
    Emits-unless_in_meltdown false =
        Emits-bind_returning _ _
          (Returns-annotate _ _ (calculate_desired_statefulsets-IsDesired env law q))
          (Emits-annotate _ _ (Emits-calculate_desired_statefulsets env Allowed lists q))
          λ ss d.
            Emits-bind _ _
              (Emits-create_all q ss refl (
                Zoned-IsNext d.current d.is_current 0 _ ss d.zoned λ j name e.
                  subst (λ k. get_elem? (zones_or_one env law q.spec.zones) k ≡ some name)
                    (zero_plus j) e))
              λ made. Emits-pure _

    Emits-reconcile_updated :
        (last : Option ℤ)
        → q.status.last_reconcile ≡ last
        → Emits Allowed (reconcile_updated env key q last)
    unfolding reconcile_updated update_status read_clock
    Emits-reconcile_updated none e = Emits-bind _ _ (Emits-ask _ _ reads_clock) λ now.
        Emits-bind _ _ (Emits-annotate _ _ (Emits-ask _ _ (notes_time now is_read e)))
          λ t. Emits-pure _
    Emits-reconcile_updated (some last) e =
        Emits-bind _ _ (Emits-ask _ _ reads_clock) λ now. Emits-unless_in_meltdown _

  Emits-read :
      (q : QuarksStatefulSet) (h : History)
      → env.quarks_at h key ≡ ok q
      → Emits Allowed (reconcile_read env key q)
  unfolding reconcile_read
  Emits-read q h e =
      Emits-on_result_returning _ _ _ (update_versions-IsRefreshed env q)
        (Emits-update_versions env Allowed reads_secret asks_latest q)
        (λ q' r.
          Emits-reconcile_updated q' (record { when = h; read = q; was_read = e; is_refreshed = r })
            q'.status.last_reconcile refl)
        λ e. search emits_rules

  -- Whatever answers its calls, a reconcile of a QuarksStatefulSet writes only two things: the
  -- status of the object that it read, with the time noted, where it has none yet; and, by
  -- CreateOrUpdate with the function that copies labels, annotations, replicas, template and
  -- strategy, StatefulSets owned by that object, each generated for one of its zones (the zone "" where it
  -- has none), at the zone's index, with the version after the highest found (1 without a
  -- namespace). The law is that of UnionMaps.
  pub quarks_reconcile-Allowed : Emits Allowed (reconcile env key)
  unfolding reconcile get_quarks
  quarks_reconcile-Allowed =
      Emits-on_result_returning {Q = λ q. (h : History) × (env.quarks_at h key ≡ ok q)} _ _ _
        (Returns-ask _ _ λ h q e. (h, e)) (Emits-ask _ _ (reads key)) (λ q (h, e). Emits-read q h e)
        λ e. search emits_rules

  -- A status is written only with the Ready of an object that was read.
  pub data KeepsReady : Call → Type 0 where
    status :
        {q : QuarksStatefulSet} (when : History) (read : QuarksStatefulSet)
        → env.quarks_at when key ≡ ok read
        → q.status.ready ≡ read.status.ready
        → KeepsReady (Call.update_status q)
    other : {c : Call} → ((q : QuarksStatefulSet) → c ≢ Call.update_status q) → KeepsReady c

  refreshed_status :
      (read q : QuarksStatefulSet) → IsRefreshed env read q → q.status.ready ≡ read.status.ready
  unfolding with_volumes
  refreshed_status read q r = ap (λ x. x.status.ready) r.is_with

  Allowed-KeepsReady : (c : Call) → Allowed c → KeepsReady c
  unfolding with_last_reconcile
  Allowed-KeepsReady _ (reads k) = other (λ q e. cc e)
  Allowed-KeepsReady _ (reads_secret k) = other (λ q e. cc e)
  Allowed-KeepsReady _ (asks_latest n p) = other (λ q e. cc e)
  Allowed-KeepsReady _ (asks_references n s) = other (λ q e. cc e)
  Allowed-KeepsReady _ (lists n) = other (λ q e. cc e)
  Allowed-KeepsReady _ reads_clock = other (λ q e. cc e)
  Allowed-KeepsReady _ (notes_time {q} now r e) =
      status r.when r.read r.was_read (refreshed_status r.read q r.is_refreshed)
  Allowed-KeepsReady _ (creates r n o w a) = other (λ q e. cc e)

  -- A reconcile of a QuarksStatefulSet never changes Ready: each status that it writes has the
  -- Ready of the object that was read, also where it makes new StatefulSets.
  pub quarks_reconcile-KeepsReady : Emits KeepsReady (reconcile env key)
  quarks_reconcile-KeepsReady = Emits-weaken _ Allowed-KeepsReady quarks_reconcile-Allowed
