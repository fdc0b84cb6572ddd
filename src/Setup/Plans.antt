-- ===== src/Setup/Plans.antt =====
-- Straight-line set-up code: calls in order, where the first error, wrapped in messages, ends it.
pub mod Runs
use quarks_statefulset.Prelude.{
  String, List, [], ◌∷◌, ◌++◌, map, ℤ, Bool, true, false, Outcome, ok, err, panic, Error, wrapped,
}

-- What a watch looks at: the objects themselves, or StatefulSets for the object that owns them.
pub data Source : Type 0 where
  quarks_statefulsets statefulsets owned_statefulsets config_maps secrets : Source

-- A call of a library: controllers by name and number of workers, watches of a controller, webhooks
-- by path.
pub data SetupCall : Type 0 where
  new_manager add_scheme setup_certificate apps_client kube_client : SetupCall
  extensions_client apply_crd wait_for_crd : SetupCall
  kube_config start_manager : SetupCall
  new_controller : String → ℤ → SetupCall
  watch : String → Source → SetupCall
  register : String → SetupCall
  create_webhook_config : List String → SetupCall

-- `checked` returns on an error, with the messages wrapped round it, the outermost first; `plain`
-- has no error to return.
pub data Step : Type 0 where
  checked : SetupCall → List String → Step
  plain : SetupCall → Step

abbrev pub call_of : Step → SetupCall
call_of (checked c texts) = c
call_of (plain c) = c

-- The steps of a function whose caller wraps its error.
within_step : String → Step → Step
within_step text (checked c texts) = checked c (text ∷ texts)
within_step text (plain c) = plain c

unfoldable pub within : String → List Step → List Step
unfolding within_step
within text steps = map (within_step text) steps

unfoldable pub explain : List String → Error → Error
explain [] e = e
explain (text ∷ texts) e = wrapped text (explain texts e)

-- The answer to a checked call decides whether the rest is run.
after_answer :
    List String
    → SetupCall
    → Outcome (Unit {0})
    → Outcome (Unit {0}) × List SetupCall
    → Outcome (Unit {0}) × List SetupCall
after_answer texts c (ok t) (result, calls) = (result, c ∷ calls)
after_answer texts c (err e) rest = (err (explain texts e), c ∷ [])
after_answer texts c panic rest = (panic, c ∷ [])

abbrev after_plain :
    SetupCall → Outcome (Unit {0}) × List SetupCall → Outcome (Unit {0}) × List SetupCall
after_plain c (result, calls) = (result, c ∷ calls)

-- The result, and the calls made, the first first.
unfoldable pub run :
    (SetupCall → Outcome (Unit {0})) → List Step → Outcome (Unit {0}) × List SetupCall
unfolding after_answer
run answer [] = (ok tt, [])
run answer (checked c texts ∷ steps) =
    let rest = run answer steps in after_answer texts c (answer c) rest
run answer (plain c ∷ steps) = let rest = run answer steps in after_plain c rest

-- Further code, after a plan that succeeded.
unfoldable pub then_run :
    Outcome (Unit {0}) × List SetupCall
    → Outcome (Unit {0}) × List SetupCall
    → Outcome (Unit {0}) × List SetupCall
then_run (ok t, calls) (result, more) = (result, calls ++ more)
then_run (err e, calls) rest = (err e, calls)
then_run (panic, calls) rest = (panic, calls)
