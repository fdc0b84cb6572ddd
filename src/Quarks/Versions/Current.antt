-- ===== src/Quarks/Versions/Current.antt =====
-- What GetMaxStatefulSetVersion returns, for whatever answers its calls.
use quarks_statefulset.Prelude.{
  ◌≡◌, refl, sym, ◌⊎◌, inl, inr, List, [], ◌∷◌, ℤ, pos, ok, String, eq_iff,
}
use quarks_statefulset.Kube.Types.{StatefulSet, QuarksStatefulSet}
use quarks_statefulset.Kube.Calls.{
  Call, History, Returns, Returns-pure, Returns-bind, Returns-ask, Returns-lift, Returns-if, Emits,
  emits_rules,
}
use quarks_statefulset.Kube.Env.{Env}
use quarks_statefulset.Kube.Client.{list_statefulsets}
use quarks_statefulset.Quarks.Versions.{
  get_max_statefulset_version, list_owned_statefulsets, filter_by_owner, scan, or_default,
  default_statefulset,
}
use quarks_statefulset.Quarks.Versions.Highest.{Finds, scan-Highest}

module _ (env : Env) where
  -- The StatefulSets found among those that the QuarksStatefulSet owns at some time.
  pub record Current (q : QuarksStatefulSet) (result : List StatefulSet × ℤ) : Type 0 where
    pub when : History
    pub all : List StatefulSet
    pub listed : env.statefulsets_in when q.meta.namespace ≡ ok all
    pub found : List StatefulSet × ℤ
    pub finds : Finds (filter_by_owner env q all) found
    pub is_result : result ≡ or_default found

  -- Without a namespace nothing is listed.
  abbrev pub IsCurrent : QuarksStatefulSet → List StatefulSet × ℤ → Type 0
  IsCurrent q result =
      ((q.meta.namespace ≡ "") × (result ≡ (default_statefulset ∷ [], pos 0))) ⊎ Current q result

  abbrev Owned : QuarksStatefulSet → List StatefulSet → Type 0
  Owned q owned =
      (when : History) × (all : List StatefulSet) × (env.statefulsets_in when q.meta.namespace
        ≡ ok all)
      × (owned ≡ filter_by_owner env q all)

  Returns-list_owned_statefulsets :
      (q : QuarksStatefulSet) → Returns (Owned q) (list_owned_statefulsets env q)
  unfolding list_owned_statefulsets list_statefulsets
  Returns-list_owned_statefulsets q =
      Returns-bind
        {Q = λ all. (when : History) × (env.statefulsets_in when q.meta.namespace ≡ ok all)} _ _
        (Returns-ask _ _ λ h all e. (h, e)) λ all (h, e). Returns-pure _ (h, all, e, refl)

  pub Returns-get_max_statefulset_version :
      (q : QuarksStatefulSet) → Returns (IsCurrent q) (get_max_statefulset_version env q)
  unfolding get_max_statefulset_version
  Returns-get_max_statefulset_version q =
      Returns-if _ _ _ (λ e. Returns-pure _ (inl ((eq_iff q.meta.namespace "").0 e, refl)))
        λ e.
          Returns-bind _ _ (Returns-list_owned_statefulsets q) λ owned (h, all, listed, is_owned).
            Returns-bind {Q = λ found. scan owned ([], pos 0) ≡ ok found} _ _
              (Returns-lift _ λ found e. e)
              λ found e. Returns-pure _ (
                inr (record {
                  when = h;
                  all = all;
                  listed = listed;
                  found = found;
                  finds = scan-Highest _ found (rw (sym is_owned) e);
                  is_result = refl;
                }))

  -- It only lists StatefulSets.
  pub Emits-get_max_statefulset_version :
      (P : Call → Type 0)
      → ((namespace : String) → P (Call.list_statefulsets namespace))
      → (q : QuarksStatefulSet) → Emits P (get_max_statefulset_version env q)
  unfolding get_max_statefulset_version list_owned_statefulsets list_statefulsets
  Emits-get_max_statefulset_version P lists q = search (emits_rules, lists) depth 10
