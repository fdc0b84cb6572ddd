-- ===== src/Kube/Admission.antt =====
-- The admission webhooks' requests and responses (controller-runtime's webhook/admission).
use quarks_statefulset.Prelude.{ℕ, String, Outcome, Error}

-- admission.Request: the operation and the raw objects.
pub record Request : Type 0 where
  pub operation : String
  pub object : String
  pub old_object : String

-- admission.Errored, and admission.PatchResponseFromRaw of the raw object and its new form.
pub data Response : Type 0 where
  errored : ℕ → Error → Response
  patched : String → String → Response

-- The decoder that controller-runtime injects, and the JSON form of an object.
pub record Codec (A : Type 0) : Type 0 where
  pub decode : String → Outcome A
  pub marshal : A → Outcome String
