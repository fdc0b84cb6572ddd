-- ===== src/Kube/Calls/Bind.antt =====
-- Calls, histories, and the actions of a controller.
use quarks_statefulset.Prelude.{
  List, ◌∷◌, String, StringMap, Outcome, ok, err, panic, Error, wrapped,
}
use quarks_statefulset.Kube.Types.{Key, StatefulSet, Pod, QuarksStatefulSet, PodSpec}

pub data Call : Type 0 where
  get_statefulset get_quarks get_pod get_secret : Key → Call
  list_statefulsets list_quarks : String → Call
  list_pods : String → StringMap → Call
  read_clock : Call
  create_or_update : StatefulSet → Outcome StatefulSet → Call
  update_status : QuarksStatefulSet → Call
  update_pod : Pod → Call
  delete_pod : Pod → Call
  exec_command : Pod → String → List String → Call
  latest_secret : String → String → Call
  set_secret_references : String → PodSpec → Call

-- The latest call first.
abbrev pub History : Type 0
History = List Call

abbrev pub Exec : Type 0 → Type 0
Exec A = History → Outcome A × History

module _ {A : Type 0} where
  pub pure : A → Exec A
  pure a h = (ok a, h)

  pub fail : Error → Exec A
  fail e h = (err e, h)

  pub crash : Exec A
  crash h = (panic, h)

  pub lift : Outcome A → Exec A
  lift o h = (o, h)

  -- A call that the environment answers.
  pub ask : Call → (History → Outcome A) → Exec A
  ask c answer h = (answer h, c ∷ h)

  -- A call that goes into the history with its answer.
  pub ask_with : (Outcome A → Call) → (History → Outcome A) → Exec A
  ask_with c answer h = let r = answer h in (r, c r ∷ h)

  abbrev pub wrap_answer : String → Outcome A × History → Outcome A × History
  wrap_answer text (ok a, h) = (ok a, h)
  wrap_answer text (err e, h) = (err (wrapped text e), h)
  wrap_answer text (panic, h) = (panic, h)

  -- `errors.Wrap` round whatever error comes back.
  pub annotate : String → Exec A → Exec A
  annotate text m h = wrap_answer text (m h)

  abbrev pub handle_answer : Outcome A × History → (Error → Exec A) → Outcome A × History
  handle_answer (ok a, h) f = (ok a, h)
  handle_answer (err e, h) f = f e h
  handle_answer (panic, h) f = (panic, h)

  -- `if err != nil { ... }` that does more than pass the error on.
  pub rescue : Exec A → (Error → Exec A) → Exec A
  rescue m f h = handle_answer (m h) f

module _ {A B : Type 0} where
  abbrev pub when_ok : Outcome A × History → (A → Exec B) → Outcome B × History
  when_ok (ok a, h) f = f a h
  when_ok (err e, h) f = (err e, h)
  when_ok (panic, h) f = (panic, h)

  abbrev pub either_way :
      Outcome A × History → (A → Exec B) → (Error → Exec B) → Outcome B × History
  either_way (ok a, h) f g = f a h
  either_way (err e, h) f g = g e h
  either_way (panic, h) f g = (panic, h)

  -- `a, err := m` with a way on for a value and one for an error.
  pub on_result : Exec A → (A → Exec B) → (Error → Exec B) → Exec B
  on_result m f g h = either_way (m h) f g

  infixl 5 ◌>>=◌ ◌>>◌
  -- Opening this opens the other actions too.
  unfoldable pub ◌>>=◌ : Exec A → (A → Exec B) → Exec B
  unfolding pure fail crash lift ask ask_with annotate rescue on_result
  ◌>>=◌ m f h = when_ok (m h) f

  abbrev pub ◌>>◌ : Exec A → Exec B → Exec B
  m >> n = m >>= λ _. n
