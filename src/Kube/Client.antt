-- ===== src/Kube/Client.antt =====
-- The calls of the environment, each of which goes into the history.
use quarks_statefulset.Prelude.{List, String, StringMap, ℤ, Outcome, ok}
use quarks_statefulset.Kube.Types.{Key, StatefulSet, Pod, DataObject, QuarksStatefulSet, PodSpec}
use quarks_statefulset.Kube.Calls.{Call, Exec, ask, ask_with}
use quarks_statefulset.Kube.Env.{Env}

module _ (env : Env) where
  unfoldable pub get_statefulset : Key → Exec StatefulSet
  get_statefulset key = ask (Call.get_statefulset key) (λ h. env.statefulset_at h key)

  unfoldable pub get_quarks : Key → Exec QuarksStatefulSet
  get_quarks key = ask (Call.get_quarks key) (λ h. env.quarks_at h key)

  unfoldable pub get_pod : Key → Exec Pod
  get_pod key = ask (Call.get_pod key) (λ h. env.pod_at h key)

  unfoldable pub get_secret : Key → Exec DataObject
  get_secret key = ask (Call.get_secret key) (λ h. env.secret_at h key)

  unfoldable pub list_statefulsets : String → Exec (List StatefulSet)
  list_statefulsets namespace =
      ask (Call.list_statefulsets namespace) (λ h. env.statefulsets_in h namespace)

  unfoldable pub list_quarks : String → Exec (List QuarksStatefulSet)
  list_quarks namespace = ask (Call.list_quarks namespace) (λ h. env.quarks_in h namespace)

  unfoldable pub list_pods : String → StringMap → Exec (List Pod)
  list_pods namespace selector =
      ask (Call.list_pods namespace selector) (λ h. env.pods_in h namespace selector)

  unfoldable pub read_clock : Exec ℤ
  read_clock = ask Call.read_clock (λ h. ok (env.clock h))

  unfoldable pub create_or_update :
      StatefulSet → (StatefulSet → Outcome StatefulSet) → Exec StatefulSet
  create_or_update s mutate =
      ask_with (Call.create_or_update s) (λ h. env.created_or_updated h s mutate)

  unfoldable pub update_status : QuarksStatefulSet → Exec (Unit {0})
  update_status q = ask (Call.update_status q) (λ h. env.status_updated h q)

  unfoldable pub update_pod : Pod → Exec (Unit {0})
  update_pod p = ask (Call.update_pod p) (λ h. env.pod_updated h p)

  unfoldable pub delete_pod : Pod → Exec (Unit {0})
  delete_pod p = ask (Call.delete_pod p) (λ h. env.pod_deleted h p)

  unfoldable pub exec_command : Pod → String → List String → Exec (Unit {0})
  exec_command p container command =
      ask (Call.exec_command p container command) (λ h. env.executed h p container command)

  unfoldable pub latest_secret : String → String → Exec DataObject
  latest_secret namespace prefix =
      ask (Call.latest_secret namespace prefix) (λ h. env.latest_secret h namespace prefix)

  unfoldable pub set_secret_references : String → PodSpec → Exec PodSpec
  set_secret_references namespace spec =
      ask (Call.set_secret_references namespace spec)
        (λ h. env.secret_references_set h namespace spec)
