-- ===== src/Quarks/ActivePassive/Marks.antt =====
-- What the active/passive reconciler does to pods.
use quarks_statefulset.Prelude.{
  unequal_test, String, Bool, true, false, none, some, List, ◌∷◌, ◌≡◌, ◌≢◌, refl, sym, subst, ap,
  ◌∙◌, get, has, lookup, is_some, get-insert, get-remove, Outcome, ok, err, panic, Error, message,
  wrap_outcome, StringMap, Bool-cases, inl, inr, get-insert_self,
}
use quarks_statefulset.Names.Label
use quarks_statefulset.Kube.Types.{Pod}
use quarks_statefulset.Kube.Calls.{
  Call, History, ◌>>=◌, Exec, annotate, fail, wrap_answer, either_way,
}
use quarks_statefulset.Kube.Env.{Env}
use quarks_statefulset.Kube.Client.{update_pod, exec_command}
use quarks_statefulset.Quarks.ActivePassive.{
  add_label, add_active_label, delete_label, delete_active_label, mark_active, mark_pod,
  exec_container_cmd, with_labels,
}

-- A pod that is `p` up to the active label, which it has or has not.
pub record IsMarked (active : Bool) (p p' : Pod) : Type 0 where
  pub same : p' ≡ with_labels p p'.meta.labels
  pub has_label : has p'.meta.labels Label.active_pod ≡ active
  pub others : (k : String) → k ≢ Label.active_pod → get p'.meta.labels k ≡ get p.meta.labels k

-- The calls of an attempt to give a pod the active label, or to take it, after the calls `h`. A pod
-- whose map of labels is nil is written without the label.
pub data Marks (active : Bool) (p : Pod) (h : History) : History → Type 0 where
  nothing_to_do : has p.meta.labels Label.active_pod ≡ active → Marks active p h h
  update :
      {p' : Pod}
      → IsMarked active p p'
      → has p.meta.labels Label.active_pod ≢ active
      → Marks active p h (Call.update_pod p' ∷ h)
  rewrite : p.meta.labels ≡ none → active ≡ true → Marks active p h (Call.update_pod p ∷ h)

module _ (env : Env) where
  add-Marks :
      (p : Pod) (labels : StringMap) (h : History)
      → p.meta.labels ≡ labels
      → Marks true p h (add_label env p labels h).1
  unfolding add_label update_pod ◌>>=◌
  add-Marks p none h e = rewrite e refl
  add-Marks p (some m) h e = elim (Bool-cases (is_some (lookup Label.active_pod m))) [
    | inl y ↦ rw y (nothing_to_do (ap (λ l. has l Label.active_pod) e ∙ y))
    | inr n ↦ rw n (
        update
          (record {
            same = refl;
            has_label = ap is_some (get-insert_self Label.active_pod "active" m);
            others = λ k ne.
                get-insert Label.active_pod k "active" m
                ∙ rw (unequal_test Label.active_pod k ne) (ap (λ l. get l k) (sym e));
          })
          (λ t. cc (t, n)))
  ]

  delete-Marks :
      (p : Pod) (labels : StringMap) (h : History)
      → p.meta.labels ≡ labels
      → Marks false p h (delete_label env p labels h).1
  unfolding delete_label update_pod ◌>>=◌
  delete-Marks p none h e = nothing_to_do (ap (λ l. has l Label.active_pod) e)
  delete-Marks p (some m) h e = elim (Bool-cases (is_some (lookup Label.active_pod m))) [
    | inr n ↦ rw n (nothing_to_do (ap (λ l. has l Label.active_pod) e ∙ n))
    | inl y ↦ rw y (
        update
          (record {
            same = refl;
            has_label = ap is_some (get-remove Label.active_pod Label.active_pod (some m));
            others = λ k ne.
                get-remove Label.active_pod k (some m)
                ∙ rw (unequal_test Label.active_pod k ne) (ap (λ l. get l k) (sym e));
          })
          (λ t. cc (t, y)))
  ]

  annotate-calls :
      (text : String) (m : Exec (Unit {0})) (h : History) → (annotate text m h).1 ≡ (m h).1
  unfolding ◌>>=◌
  annotate-calls text m h = go (m h)
    where
      go : (r : Outcome (Unit {0}) × History) → (wrap_answer text r).1 ≡ r.1
      go (ok a, g) = refl
      go (err e, g) = refl
      go (panic, g) = refl

  module _ (container : String) (command : List String) (p : Pod) where
    -- What an attempt to run the command in the pod comes to, and its calls: without an executor
    -- there are none.
    pub data Tried (h : History) : Outcome (Unit {0}) → History → Type 0 where
      ran :
          {o o' : Outcome (Unit {0})}
          → env.executor_for p container command ≡ ok tt
          → env.executed h p container command ≡ o
          → o' ≡ wrap_outcome "failed executing command in pod" o
          → Tried h o' (Call.exec_command p container command ∷ h)
      no_executor :
          {e : Error} (x : Error) → env.executor_for p container command ≡ err x → Tried h (err e) h
      crashed : env.executor_for p container command ≡ panic → Tried h panic h

    -- The calls after the probe of a pod, by the probe's result and the pod's readiness.
    pub data Probed (h : History) : History → Type 0 where
      passed :
          {after r : History}
          → Tried h (ok tt) after
          → env.is_pod_ready p ≡ true
          → Marks true p after r
          → Probed h r
      not_ready :
          {after : History} → Tried h (ok tt) after → env.is_pod_ready p ≡ false → Probed h after
      failed :
          {after r : History} (e : Error)
          → Tried h (err e) after
          → Marks false p after r
          → Probed h r
      panicked : {after : History} → Tried h panic after → Probed h after

    exec_container_cmd-Tried :
        (h : History)
        → Tried h
            (exec_container_cmd env p container command h).0
            (exec_container_cmd env p container command h).1
    unfolding exec_container_cmd exec_command ◌>>=◌
    exec_container_cmd-Tried h = made (env.executor_for p container command) refl
      where
        streamed :
            (o : Outcome (Unit {0}))
            → env.executor_for p container command ≡ ok tt
            → env.executed h p container command ≡ o
            → Tried h
                (wrap_answer "failed executing command in pod"
                  (o, Call.exec_command p container command ∷ h)).0
                (wrap_answer "failed executing command in pod"
                  (o, Call.exec_command p container command ∷ h)).1
        streamed (ok tt) m e = ran m e refl
        streamed (err x) m e = ran m e refl
        streamed panic m e = ran m e refl

        made :
            (o : Outcome (Unit {0}))
            → env.executor_for p container command ≡ o
            → Tried h
                (either_way
                  (o, h)
                  (λ executor.
                    annotate "failed executing command in pod"
                      (exec_command env p container command))
                  (λ e. fail (message "failed to initialize remote command executor"))).0
                (either_way
                  (o, h)
                  (λ executor.
                    annotate "failed executing command in pod"
                      (exec_command env p container command))
                  (λ e. fail (message "failed to initialize remote command executor"))).1
        made (ok tt) m = streamed (env.executed h p container command) m refl
        made (err x) m = no_executor x m
        made panic m = crashed m

    -- A pod is probed once. Where the probe passes and the pod is ready, the pod then has the
    -- active label; where the probe fails, it has not. The pod is updated only if that changes it,
    -- and no other label changes; a pod that passes and is not ready keeps what it has, and one
    -- whose map of labels is nil is written unchanged where it passes and is ready.
    pub mark_pod-Probed : (h : History) → Probed h (mark_pod env container command p h).1
    unfolding mark_pod mark_active add_active_label delete_active_label ◌>>=◌
    mark_pod-Probed h =
        go (exec_container_cmd env p container command h).0
          (exec_container_cmd env p container command h).1 (exec_container_cmd-Tried h)
          (env.is_pod_ready p) refl
      where
        go :
            (o : Outcome (Unit {0})) (after : History)
            → Tried h o after
            → (ready : Bool) → env.is_pod_ready p ≡ ready
            → Probed h
                (either_way
                  (o, after)
                  (λ done. mark_active env ready p)
                  (λ e.
                    annotate "couldn't remove label from active pod" (delete_active_label env p))).1
        go (ok tt) after is true ready = passed is ready (
            subst (Marks true p after)
              (sym (annotate-calls "couldn't label pod as active" (add_active_label env p) after))
              (add-Marks p p.meta.labels after refl))
        go (ok tt) after is false ready = not_ready is ready
        go (err e) after is b ready = failed e is (
            subst (Marks false p after)
              (sym (
                annotate-calls "couldn't remove label from active pod" (delete_active_label env p)
                  after))
              (delete-Marks p p.meta.labels after refl))
        go panic after is b ready = panicked is
