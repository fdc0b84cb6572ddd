-- ===== src/Quarks/ActivePassive/Round.antt =====
-- What a whole round of the active/passive reconciler calls.
use quarks_statefulset.Prelude.{
  unequal_test, String, Bool, true, false, none, some, List, [], ◌∷◌, ◌≡◌, refl, sym, ap, ◌∙◌, ℕ,
  StringMap, get, insert, erase, lookup, is_some, get-insert, get-remove, get_elem?, All,
  All-get_elem?, ok, get-insert_self,
}
use quarks_statefulset.Names.Label
use quarks_statefulset.Kube.Types.{Key, StatefulSet, QuarksStatefulSet, Pod}
use quarks_statefulset.Kube.Calls.{
  Call, History, pure, Returns, Returns-ask, Returns-annotate, Returns-lift, Emits, emits_rules,
  Emits-pure, Emits-fail, Emits-ask, Emits-annotate, Emits-bind, Emits-bind_returning, Emits-lift,
  Emits-on_result, Emits-on_result_returning, Emits-if,
}
use quarks_statefulset.Kube.Env.{Env}
use quarks_statefulset.Kube.Client.{get_quarks, list_pods, update_pod, exec_command}
use quarks_statefulset.Quarks.Versions.Current.{Emits-get_max_statefulset_version}
use quarks_statefulset.Quarks.ActivePassive.{
  probe_of, probe_command, add_label, add_active_label, delete_label, delete_active_label,
  mark_active, mark_pod, exec_container_cmd, mark_pods, with_labels, mark_active_containers,
  get_sts_pod_list, mark_statefulsets, reconcile_read, reconcile,
}
use quarks_statefulset.Quarks.ActivePassive.Marks.{IsMarked}

module _ (env : Env) (key : Key) where
  -- A pod that was in the answer to a list of the pods of one StatefulSet, by its name.
  pub record IsListed (p : Pod) : Type 0 where
    pub when : History
    pub namespace : String
    pub statefulset : String
    pub pods : List Pod
    pub listed : env.pods_in when namespace (some ((Label.qsts_name, statefulset) ∷ [])) ≡ ok pods
    pub place : ℕ
    pub is_at : get_elem? pods place ≡ some p

  -- The command of a container's probe, of a QuarksStatefulSet that was read.
  pub record IsProbe (container : String) (command : List String) : Type 0 where
    pub when : History
    pub read : QuarksStatefulSet
    pub was_read : env.quarks_at when key ≡ ok read
    pub is_command : probe_command (probe_of read.spec.active_passive_probes container) ≡ ok command

  pub data Allowed : Call → Type 0 where
    reads : Allowed (Call.get_quarks key)
    lists : (namespace : String) → Allowed (Call.list_statefulsets namespace)
    lists_pods :
        (namespace name : String)
        → Allowed (Call.list_pods namespace (some ((Label.qsts_name, name) ∷ [])))
    probes :
        {p : Pod} {container : String} {command : List String}
        → IsListed p
        → IsProbe container command
        → Allowed (Call.exec_command p container command)
    marks :
        {p p' : Pod} (active : Bool)
        → IsListed p
        → IsMarked active p p'
        → Allowed (Call.update_pod p')
    rewrites : {p : Pod} → IsListed p → p.meta.labels ≡ none → Allowed (Call.update_pod p)

  module _ (p : Pod) (listed : IsListed p) where
    with_label :
        (m : List (String × String))
        → p.meta.labels ≡ some m
        → IsMarked true p (with_labels p (some (insert Label.active_pod "active" m)))
    with_label m e = record {
      same = refl;
      has_label = ap is_some (get-insert_self Label.active_pod "active" m);
      others = λ k ne.
          get-insert Label.active_pod k "active" m
          ∙ rw (unequal_test Label.active_pod k ne) (ap (λ l. get l k) (sym e));
    }

    without_label :
        (m : List (String × String))
        → p.meta.labels ≡ some m
        → IsMarked false p (with_labels p (some (erase Label.active_pod m)))
    without_label m e = record {
      same = refl;
      has_label = ap is_some (get-remove Label.active_pod Label.active_pod (some m));
      others = λ k ne.
          get-remove Label.active_pod k (some m)
          ∙ rw (unequal_test Label.active_pod k ne) (ap (λ l. get l k) (sym e));
    }

    Emits-add_label :
        (labels : StringMap) → p.meta.labels ≡ labels → Emits Allowed (add_label env p labels)
    unfolding add_label update_pod
    Emits-add_label none e = Emits-ask _ _ (rewrites listed e)
    Emits-add_label (some m) e =
        Emits-if (is_some (lookup Label.active_pod m)) (pure tt)
          (update_pod env (with_labels p (some (insert Label.active_pod "active" m))))
          (λ there. Emits-pure tt) λ missing. Emits-ask _ _ (marks true listed (with_label m e))

    Emits-delete_label :
        (labels : StringMap) → p.meta.labels ≡ labels → Emits Allowed (delete_label env p labels)
    unfolding delete_label update_pod
    Emits-delete_label none e = Emits-pure tt
    Emits-delete_label (some m) e =
        Emits-if (is_some (lookup Label.active_pod m))
          (update_pod env (with_labels p (some (erase Label.active_pod m)))) (pure tt)
          (λ there. Emits-ask _ _ (marks false listed (without_label m e))) λ missing. Emits-pure tt

    Emits-mark_active : (ready : Bool) → Emits Allowed (mark_active env ready p)
    unfolding mark_active add_active_label
    Emits-mark_active true = Emits-annotate _ _ (Emits-add_label p.meta.labels refl)
    Emits-mark_active false = Emits-pure tt

    Emits-mark_pod :
        (container : String) (command : List String)
        → IsProbe container command
        → Emits Allowed (mark_pod env container command p)
    unfolding mark_pod delete_active_label exec_container_cmd exec_command
    Emits-mark_pod container command probe =
        Emits-on_result _ _ _
          (Emits-on_result _ _ _ (Emits-lift _)
            (λ executor. Emits-annotate _ _ (Emits-ask _ _ (probes listed probe)))
            λ e. Emits-fail _)
          (λ done. Emits-mark_active (env.is_pod_ready p))
          λ e. Emits-annotate _ _ (Emits-delete_label p.meta.labels refl)

  Emits-mark_pods :
      (container : String) (command : List String) (ps : List Pod)
      → IsProbe container command
      → All IsListed ps
      → Emits Allowed (mark_pods env container command ps)
  unfolding mark_pods
  Emits-mark_pods container command [] probe h = Emits-pure tt
  Emits-mark_pods container command (p ∷ ps) probe (hp, h) =
      Emits-bind _ _ (Emits-mark_pod p hp container command probe)
        λ t. Emits-mark_pods container command ps probe h

  module _ (h : History) (q : QuarksStatefulSet) (was_read : env.quarks_at h key ≡ ok q)
      (container : String) where
    Emits-mark_active_containers :
        (ps : List Pod)
        → All IsListed ps
        → Emits Allowed (mark_active_containers env container ps q)
    unfolding mark_active_containers
    Emits-mark_active_containers ps listed =
        Emits-bind_returning _ _
          (Returns-lift
            {Q = λ command.
              probe_command (probe_of q.spec.active_passive_probes container) ≡ ok command}
            _ λ command e. e)
          (Emits-lift _)
          λ command e.
            Emits-mark_pods container command ps
              (record { when = h; read = q; was_read = was_read; is_command = e }) listed

    Returns-get_sts_pod_list : (s : StatefulSet) → Returns (All IsListed) (get_sts_pod_list env s)
    unfolding get_sts_pod_list list_pods
    Returns-get_sts_pod_list s = Returns-ask _ _ λ when ps e. All-get_elem? IsListed ps λ i p at.
        record {
          when = when;
          namespace = s.meta.namespace;
          statefulset = s.meta.name;
          pods = ps;
          listed = e;
          place = i;
          is_at = at;
        }

    Emits-get_sts_pod_list : (s : StatefulSet) → Emits Allowed (get_sts_pod_list env s)
    unfolding get_sts_pod_list list_pods
    Emits-get_sts_pod_list s = Emits-ask _ _ (lists_pods s.meta.namespace s.meta.name)

    Emits-mark_statefulsets :
        (ss : List StatefulSet) → Emits Allowed (mark_statefulsets env container q ss)
    unfolding mark_statefulsets
    Emits-mark_statefulsets [] = Emits-pure tt
    Emits-mark_statefulsets (s ∷ ss) =
        Emits-bind_returning _ _ (Returns-annotate _ _ (Returns-get_sts_pod_list s))
          (Emits-annotate _ _ (Emits-get_sts_pod_list s))
          λ ps listed.
            Emits-bind _ _ (Emits-mark_active_containers ps listed) λ t. Emits-mark_statefulsets ss

  Emits-reconcile_read :
      (h : History) (q : QuarksStatefulSet)
      → env.quarks_at h key ≡ ok q
      → Emits Allowed (reconcile_read env q)
  unfolding reconcile_read
  Emits-reconcile_read h q e =
      Emits-bind _ _ (Emits-annotate _ _ (Emits-get_max_statefulset_version env Allowed lists q))
        λ r. Emits-bind _ _ (Emits-annotate _ _ (Emits-lift _)) λ container.
          Emits-bind _ _ (Emits-mark_statefulsets h q e container r.0) λ t. Emits-pure _

  -- Whatever answers its calls, a round of the active/passive reconciler runs only the command of a
  -- probe of the object that it read, only in pods that were listed for a StatefulSet, and updates
  -- only such pods: with the active label set or removed and all other labels kept, or, where the
  -- label map is nil, unchanged.
  pub active_passive_reconcile-Allowed : Emits Allowed (reconcile env key)
  unfolding reconcile get_quarks
  active_passive_reconcile-Allowed =
      Emits-on_result_returning {Q = λ q. (h : History) × (env.quarks_at h key ≡ ok q)} _ _ _
        (Returns-ask _ _ λ h q e. (h, e)) (Emits-ask _ _ reads)
        (λ q (h, e). Emits-reconcile_read h q e) λ e. search emits_rules
