-- ===== src/Quarks/ActivePassive/Sweeps.antt =====
-- Which pods a round of the active/passive reconciler has probed when it ends without an error.
use quarks_statefulset.Prelude.{
  String, some, List, [], ◌∷◌, ◌≡◌, sym, ap, subst, ok, ok_injective, ◌∙◌, ℤ,
}
use quarks_statefulset.Names.Label
use quarks_statefulset.Kube.Types.{StatefulSet, QuarksStatefulSet, Pod, Result}
use quarks_statefulset.Kube.Calls.{
  Call, History, pure-returned, bind-returned, annotate-returned, lift-returned, ask-returned,
}
use quarks_statefulset.Kube.Env.{Env}
use quarks_statefulset.Kube.Client.{list_pods}
use quarks_statefulset.Quarks.Versions.{get_max_statefulset_version}
use quarks_statefulset.Quarks.ActivePassive.{
  get_probe_container_name, probe_of, probe_command, mark_pod, mark_pods, mark_active_containers,
  get_sts_pod_list, mark_statefulsets, reconcile_read,
}
use quarks_statefulset.Quarks.ActivePassive.Marks.{Probed, mark_pod-Probed}

module _ (env : Env) (container : String) (command : List String) where
  -- The pods are probed one after the other, in order.
  pub data Sweeps : List Pod → History → History → Type 0 where
    done : {h : History} → Sweeps [] h h
    next :
        {p : Pod} {ps : List Pod} {h after h' : History}
        → Probed env container command p h after
        → Sweeps ps after h'
        → Sweeps (p ∷ ps) h h'

  -- The pods of one StatefulSet after the other are listed by the label of its name, and swept.
  pub data Covers : List StatefulSet → History → History → Type 0 where
    finished : {h : History} → Covers [] h h
    sweep :
        {s : StatefulSet} {ss : List StatefulSet} {h after h' : History} {pods : List Pod}
        → env.pods_in h s.meta.namespace (some ((Label.qsts_name, s.meta.name) ∷ [])) ≡ ok pods
        → Sweeps pods
            (Call.list_pods s.meta.namespace (some ((Label.qsts_name, s.meta.name) ∷ [])) ∷ h)
            after
        → Covers ss after h'
        → Covers (s ∷ ss) h h'

  mark_pods-Sweeps :
      (ps : List Pod) (h : History) {h' : History}
      → mark_pods env container command ps h ≡ (ok tt, h')
      → Sweeps ps h h'
  unfolding mark_pods
  mark_pods-Sweeps [] h e = subst (Sweeps [] h) (pure-returned tt e).1 done
  mark_pods-Sweeps (p ∷ ps) h e =
      let (t, after, marked, rest) = bind-returned (mark_pod env container command p) _ e in
      next
        (subst (Probed env container command p h) (ap (λ r. r.1) marked)
          (mark_pod-Probed env container command p h))
        (mark_pods-Sweeps ps after rest)

  module _ (q : QuarksStatefulSet)
      (is_command : probe_command (probe_of q.spec.active_passive_probes container)
        ≡ ok command) where
    mark_active_containers-Sweeps :
        (ps : List Pod) (h : History) {h' : History}
        → mark_active_containers env container ps q h ≡ (ok tt, h')
        → Sweeps ps h h'
    unfolding mark_active_containers
    mark_active_containers-Sweeps ps h {h'} e =
        let (c, after, found, rest) = bind-returned _ _ e in
        let (is_c, same) = lift-returned _ found in
        mark_pods-Sweeps ps h (
          subst (λ g. mark_pods env container command ps g ≡ (ok tt, h')) same
            (subst (λ d. mark_pods env container d ps after ≡ (ok tt, h'))
              (ok_injective (sym is_c ∙ is_command)) rest))

    mark_statefulsets-Covers :
        (ss : List StatefulSet) (h : History) {h' : History}
        → mark_statefulsets env container q ss h ≡ (ok tt, h')
        → Covers ss h h'
    unfolding mark_statefulsets get_sts_pod_list list_pods
    mark_statefulsets-Covers [] h e = subst (Covers [] h) (pure-returned tt e).1 finished
    mark_statefulsets-Covers (s ∷ ss) h e =
        let (pods, listed, list, rest) = bind-returned _ _ e in
        let (answer, is_listed) = ask-returned _ _ (annotate-returned _ _ list) in
        let (t, after, swept, others) = bind-returned _ _ rest in
        sweep answer
          (subst (λ g. Sweeps pods g after) is_listed
            (mark_active_containers-Sweeps pods listed swept))
          (mark_statefulsets-Covers ss after others)

module _ (env : Env) where
  -- Where a round of the active/passive reconciler over an object that was read ends without an
  -- error, and the probe that is chosen has a command, the newest StatefulSets were found, and for
  -- each of them, in order, the pods were listed by the label of its name and each pod listed was
  -- probed, in order.
  pub reconcile_read-Covers :
      (q : QuarksStatefulSet) (container : String) (command : List String) (h : History)
      {r : Result} {h' : History}
      → get_probe_container_name q.spec.active_passive_probes ≡ ok container
      → probe_command (probe_of q.spec.active_passive_probes container) ≡ ok command
      → reconcile_read env q h ≡ (ok r, h')
      → (ss : List StatefulSet) × (version : ℤ) × (found : History) × (get_max_statefulset_version
            env q h
          ≡ (ok (ss, version), found))
        × Covers env container command ss found h'
  unfolding reconcile_read
  reconcile_read-Covers q container command h named is_command e =
      let (f, found, searched, rest) = bind-returned _ _ e in
      let (c, after, picked, others) = bind-returned _ _ rest in
      let (t, swept, marked, ended) = bind-returned _ _ others in
      let (is_name, same) = lift-returned _ (annotate-returned _ _ picked) in
      (
        f.0,
        f.1,
        found,
        annotate-returned _ _ searched,
        mark_statefulsets-Covers env container command q is_command f.0 found (
            ap (λ d. mark_statefulsets env d q f.0 found) (ok_injective (sym named ∙ is_name))
            ∙ ap (λ g. mark_statefulsets env c q f.0 g) (sym same)
            ∙ marked
            ∙ ap (λ g. (ok tt, g)) (pure-returned _ ended).1),
      )
