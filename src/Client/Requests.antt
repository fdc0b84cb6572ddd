-- ===== src/Client/Requests.antt =====
-- Requests of client-go's rest package, as the chain of builder calls that makes one, and what
-- answers them.
use quarks_statefulset.Prelude.{
  String, Bool, Option, none, some, List, ℤ, pos, ◌*ℤ◌, wrap64, Error, Outcome, ok, err,
}
use quarks_statefulset.Kube.Types.{QuarksStatefulSet}

-- metav1.ListOptions
pub record ListOptions : Type 0 where
  pub timeout_seconds : Option ℤ
  pub watch : Bool
  pub other : String

pub record QuarksStatefulSetList : Type 0 where
  pub meta : String
  pub items : List QuarksStatefulSet

pub data Verb : Type 0 where
  get post put delete : Verb
  patch : String → Verb

pub data Params : Type 0 where
  get_options create_options update_options patch_options : String → Params
  list_options : ListOptions → Params

pub data Body : Type 0 where
  object : QuarksStatefulSet → Body
  delete_options : String → Body
  bytes : String → Body

-- A call of the builder.
pub data Part : Type 0 where
  namespace resource name : String → Part
  sub_resource : List String → Part
  versioned_params : Params → Part
  timeout : ℤ → Part
  body : Body → Part

pub record Request : Type 0 where
  pub verb : Verb
  pub parts : List Part

-- What `Do(ctx).Into(result)`, `Do(ctx).Error()` and `Watch(ctx)` come to: the structure that the
-- pointer then holds, from the one that it held, and the error.
pub record Rest : Type 0 where
  pub into : Request → QuarksStatefulSet → QuarksStatefulSet × Option Error
  pub into_list : Request → QuarksStatefulSetList → QuarksStatefulSetList × Option Error
  pub error_of : Request → Option Error
  pub watched : Request → Outcome String

-- `result, err` as one: the object where there is no error.
abbrev pub returned {ℓ} : {A : Type ℓ} → A × Option Error → Outcome A
returned (a, none) = ok a
returned (a, some e) = err e

-- The timeout of a list or a watch, as a duration of 64 bits.
unfoldable pub timeout_of : ListOptions → ℤ
timeout_of options = elim (options.timeout_seconds) [
  | none ↦ pos 0
  | some seconds ↦ wrap64 (wrap64 seconds *ℤ pos 1000000000)
]
