-- ===== src/Quarks/Status/Writes.antt =====
-- What the status reconciler writes.
use quarks_statefulset.Prelude.{
  ◌≡◌, refl, sym, ap, ◌∙◌, inl, inr, Bool, true, false, false≢true, List, [], ◌∷◌, ℤ, ok, String,
}
use quarks_statefulset.Kube.Types.{Key, StatefulSet, QuarksStatefulSet}
use quarks_statefulset.Kube.Calls.{
  Call, History, Returns-ask, Returns-annotate, Emits, emits_rules, Emits-bind_returning,
  Emits-on_result_returning, Emits-annotate,
}
use quarks_statefulset.Kube.Env.{Env}
use quarks_statefulset.Kube.Client.{get_quarks, update_status}
use quarks_statefulset.Quarks.Versions.{or_default, default_statefulset, filter_by_owner}
use quarks_statefulset.Quarks.Versions.Highest.{at_version, Finds}
use quarks_statefulset.Quarks.Versions.Current.{
  IsCurrent, Returns-get_max_statefulset_version, Emits-get_max_statefulset_version,
}
use quarks_statefulset.Quarks.Status.{
  all_ready, count_ready, is_ready, reconcile, reconcile_read, with_ready, when_ready,
}
use quarks_statefulset.Quarks.Status.Ready.{AllReady, all_ready_iff}

module _ (env : Env) (key : Key) where
  -- The status written is that of an object read, with Ready set; the StatefulSets that the object
  -- owned when they were listed had a newest version, and those of that version are all ready and
  -- at least one.
  pub record IsJustified (q : QuarksStatefulSet) : Type 0 where
    pub when : History
    pub read : QuarksStatefulSet
    pub was_read : env.quarks_at when key ≡ ok read
    pub is_written : q ≡ with_ready read
    pub listing : History
    pub all : List StatefulSet
    pub listed : env.statefulsets_in listing read.meta.namespace ≡ ok all
    pub newest : ℤ
    pub first : StatefulSet
    pub others : List StatefulSet
    pub are_newest : at_version newest (filter_by_owner env read all) ≡ first ∷ others
    pub ready : AllReady (first ∷ others)

  -- Reads, and status updates that are justified.
  pub data Allowed : Call → Type 0 where
    reads : (k : Key) → Allowed (Call.get_quarks k)
    lists : (namespace : String) → Allowed (Call.list_statefulsets namespace)
    writes : {q : QuarksStatefulSet} → IsJustified q → Allowed (Call.update_status q)

  default_is_not_ready : all_ready (default_statefulset ∷ []) ≡ false
  unfolding all_ready count_ready is_ready
  default_is_not_ready = refl

  justified :
      (h : History) (q : QuarksStatefulSet)
      → env.quarks_at h key ≡ ok q
      → (result : List StatefulSet × ℤ) → IsCurrent env q result
      → all_ready result.0 ≡ true
      → IsJustified (with_ready q)
  unfolding or_default
  justified h q was_read result (inl (nowhere, none)) ready =
      absurd (false≢true (sym default_is_not_ready ∙ ap (λ r. all_ready r.0) (sym none) ∙ ready))
  justified h q was_read result (inr c) ready =
      go c.found c.finds (ap (λ r. all_ready r.0) (sym c.is_result) ∙ ready)
    where
      go :
          (found : List StatefulSet × ℤ)
          → Finds (filter_by_owner env q c.all) found
          → all_ready (or_default found).0 ≡ true
          → IsJustified (with_ready q)
      go ([], v) finds ready' = absurd (false≢true (sym default_is_not_ready ∙ ready'))
      go (s ∷ ss, v) finds ready' = record {
        when = h;
        read = q;
        was_read = was_read;
        is_written = refl;
        listing = c.when;
        all = c.all;
        listed = c.listed;
        newest = v;
        first = s;
        others = ss;
        are_newest = sym finds.exact;
        ready = (all_ready_iff s ss).0 ready';
      }

  Emits-when_ready :
      (ready : Bool) (q : QuarksStatefulSet)
      → (ready ≡ true → IsJustified (with_ready q))
      → Emits Allowed (when_ready env ready q)
  unfolding when_ready update_status
  Emits-when_ready true q j = search (emits_rules, writes (j refl))
  Emits-when_ready false q j = search emits_rules

  Emits-reconcile_read :
      (q : QuarksStatefulSet) (h : History)
      → env.quarks_at h key ≡ ok q
      → Emits Allowed (reconcile_read env q)
  unfolding reconcile_read
  Emits-reconcile_read q h e =
      Emits-bind_returning _ _ (Returns-annotate _ _ (Returns-get_max_statefulset_version env q))
        (Emits-annotate _ _ (Emits-get_max_statefulset_version env Allowed lists q))
        λ r c. Emits-when_ready (all_ready r.0) q (justified h q e r c)

  -- Whatever answers its calls, a reconcile of the status only reads, and writes a status only as
  -- that of the object that it read with Ready set, and only where the StatefulSets of the newest
  -- version among those that the object owned are at least one and have all the replicas ready
  -- that they want. So it never resets Ready.
  pub status_reconcile-Allowed : Emits Allowed (reconcile env key)
  unfolding reconcile get_quarks
  status_reconcile-Allowed =
      Emits-on_result_returning {Q = λ q. (h : History) × (env.quarks_at h key ≡ ok q)} _ _ _
        (Returns-ask _ _ λ h q e. (h, e)) (search (emits_rules, reads))
        (λ q (h, e). Emits-reconcile_read q h e) λ e. search emits_rules
