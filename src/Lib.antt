-- ===== src/Lib.antt =====
-- Verification of the quarks-statefulset operator, which makes StatefulSets of QuarksStatefulSets,
-- one for each availability zone, and rolls their updates out pod by pod.
--
-- Parts, and how they interact. They share the API server and know nothing of each other's memory:
--   * The QuarksStatefulSet reconciler (pkg/kube/controllers/quarksstatefulset/
--     quarksstatefulset_reconciler.go) brings the secrets of the template up to their latest
--     versions (Quarks/UpdateVersions), asks for the highest version among the StatefulSets there
--     (Quarks/Versions, from util.go and v1alpha1/types.go), generates the StatefulSets of the next
--     version (Quarks/Desired, Quarks/Generate, Quarks/Affinity, Quarks/Envs) and writes them with
--     the function of pkg/kube/util/mutate/mutate.go (Quarks/Reconcile).
--   * The rollout webhook (pkg/kube/controllers/statefulset/statefulset_webhook.go and
--     statefulset_rollout_util.go, in Rollout/Webhook) marks a StatefulSet that is created or whose
--     template changes. CheckUpdate (statefulset_rollout_controller.go, in Rollout/Trigger) then
--     wakes the rollout reconciler (statefulset_rollout_reconciler.go), which moves the partition:
--     Rollout/Reconcile has Reconcile, Rollout/Timeout getTimeOut, Rollout/Pods the functions on
--     single pods, Rollout/Update the writes. Their writes in any order are in
--     Rollout/Interleavings and Rollout/Races, rounds of the reconciler in Rollout/Completion.
--   * The status reconciler (status_reconciler.go, in Quarks/Status) notes when all is ready; the
--     active/passive reconciler (active_passive_reconciler.go, in Quarks/ActivePassive) labels the
--     pods whose probe passes; the pod webhook (pod_mutator.go, in Quarks/PodLabels) labels pods
--     with their ordinals.
--   * Changes of ConfigMaps and Secrets reach the reconciler by GetReconciles
--     (pkg/kube/util/reference/reconciles.go, in Reference), the others by the predicates of the
--     watches (quarksstatefulset_controller.go, active_passive_controller.go, status_controller.go,
--     in Quarks/Trigger).
--   * The root command (cmd/internal/root.go, in Setup/Command) reads the flags, applies the resource
--     definition and starts the manager that NewManager (pkg/kube/operator/operator.go) makes with
--     the functions that add the webhooks and the controllers (pkg/kube/controllers/controllers.go
--     and the files above): plans of library calls in Setup.
--   * The types of pkg/kube/apis/quarksstatefulset/v1alpha1 have a resource definition (register.go,
--     in Kube/Schema) and copies (zz_generated.deepcopy.go, in Kube/Copies, over the memory of
--     Memory); pkg/kube/client has a typed client of them, a fake one, and a lister, in Client.
--
-- How the code is modelled. A reconciler is an action `Exec A` (Kube/Calls): a function from the
-- history of the calls made so far to an outcome and the history after it. A call of the API
-- server, the clock, the exec endpoint or the store of versioned secrets goes into the history;
-- what it answers is a field of the environment `Env` (Kube/Env), which may look at the history, so
-- that a theorem over all environments covers all that other clients do between two calls. The
-- functions of quarks-utils, k8s.io and controller-runtime are fields of `Env` too, with what the
-- code relies on as the laws AppliesMutation (CreateOrUpdate applies the function to an object that
-- it loads), UnitesMaps (UnionMaps), KeepsRollout (SetLastReconcile) and TakesMinimum (MinInt32).
-- An error is a value, a nil pointer that is followed or a nil map that is written is the outcome
-- `panic` (Prelude/Outcomes). A map of strings is an association list, `none` the nil map
-- (Prelude/Maps). Go's integers are whole numbers with their wrap-around where the code can reach
-- it (Prelude/Int). strconv and strings are written out in Text. A method that changes its
-- receiver returns the new value. No loop needs fuel: each goes over a list.
--
-- API objects (Kube/Types) have the fields that the program uses; their other fields are one field
-- `other`. Times are nanoseconds since 1970; the int64 seconds of a deadline wrap
-- (Rollout/Timeout). A range over a Go map is one over a list in the order that the range takes. Log
-- messages and events are left out, and the texts of errors are shortened.
--
-- A client of pkg/kube/client makes a request as a chain of builder calls, or an action, which are
-- data (Client/Requests, Client/Actions) for the parameters Rest and Reactors. A slice, a map or
-- a pointer that is copied is the place of a cell in a list of cells (Memory); a copier of a k8s.io type is a parameter with its law (DeepCopier).
--
-- Not modelled: the fakes of pkg/kube/controllers/fakes, testing and integration, which only serve
-- tests; init of the root command, schemes, the fake clientset and DeepCopyObject, which
-- only call libraries or pass values on; KubeConfig of the active/passive reconciler, which looks for
-- a configuration on the machine.
--
-- Scenarios has an environment with one small cluster (Scenarios/Fake) and runs of the code in it.
pub mod Prelude
pub mod Kube
pub mod Text
pub mod Names
pub mod Rollout
pub mod Quarks
pub mod Reference
pub mod Setup
pub mod Client
pub mod Memory
mod Scenarios
