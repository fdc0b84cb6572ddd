-- ===== src/Rollout/Timeout/Reads.antt =====
-- What getTimeOut calls.
use quarks_statefulset.Prelude.{String, Option, none, some, ℤ, Bool-cases, inl, inr, ◌==◌, get}
use quarks_statefulset.Text.Decimal.{parse_int64}
use quarks_statefulset.Kube.Types.{StatefulSet}
use quarks_statefulset.Kube.Calls.{Call, Emits, emits_rules, Emits-pure, Emits-ask}
use quarks_statefulset.Kube.Env.{Env}
use quarks_statefulset.Kube.Client.{read_clock}
use quarks_statefulset.Rollout.Timeout.{get_time_out, annotated, watched, from_start}

module _ (env : Env) (P : Call → Type 0) (may_read : P Call.read_clock) where
  pub Emits-read_clock : Emits P (read_clock env)
  unfolding read_clock
  Emits-read_clock = Emits-ask _ _ may_read

  Emits-from_start : (watch_time : ℤ) (start : Option ℤ) → Emits P (from_start env watch_time start)
  unfolding from_start
  Emits-from_start watch_time none = Emits-pure _
  Emits-from_start watch_time (some start) = search (emits_rules, Emits-read_clock)

  Emits-watched : (watch_time : Option ℤ) (s : StatefulSet) → Emits P (watched env watch_time s)
  unfolding watched
  Emits-watched none s = Emits-pure _
  Emits-watched (some watch_time) s = Emits-from_start watch_time _

  Emits-annotated : (text : Option String) (s : StatefulSet) → Emits P (annotated env text s)
  unfolding annotated
  Emits-annotated none s = Emits-pure _
  Emits-annotated (some text) s = elim (Bool-cases (text == "")) [
    | inl e ↦ rw e (Emits-pure _)
    | inr n ↦ rw n (Emits-watched (parse_int64 text) s)
  ]

  pub Emits-get_time_out : (s : StatefulSet) (name : String) → Emits P (get_time_out env s name)
  unfolding get_time_out
  Emits-get_time_out s name = Emits-annotated (get s.meta.annotations name) s
