-- ===== src/Rollout/Timeout.antt =====
-- getTimeOut of statefulset_rollout_reconciler.go. Times are whole numbers of nanoseconds
-- since 1970. A `time.Time` holds its seconds since the year 1 as an int64, which wraps, and its
-- nanoseconds apart; the product with time.Millisecond wraps too, and time.Until saturates.
pub mod Reads
use quarks_statefulset.Prelude.{
  ℕ, ◌/◌, ◌%◌, ◌-◌, String, Option, none, some, ℤ, pos, negsuc, ◌+ℤ◌, ◌-ℤ◌, ◌*ℤ◌, wrap64,
  saturate64, eqb_ℤ, get, index, ◌==◌, if◌then◌else◌,
}
use quarks_statefulset.Names.Annotation
use quarks_statefulset.Text.Decimal.{parse_int64}
use quarks_statefulset.Kube.Types.{StatefulSet}
use quarks_statefulset.Kube.Calls.{Exec, pure, ◌>>=◌}
use quarks_statefulset.Kube.Env.{Env}
use quarks_statefulset.Kube.Client.{read_clock}

-- The seconds from the year 1 to 1970.
abbrev pub unix_to_internal : ℤ
unix_to_internal = pos 62135596800

-- A duration in whole seconds, rounded down, and the nanoseconds over.
abbrev whole_seconds : ℤ → ℤ
whole_seconds (pos n) = pos (n / 1000000000)
whole_seconds (negsuc n) = negsuc (n / 1000000000)

abbrev nanoseconds_over : ℤ → ℕ
nanoseconds_over (pos n) = n % 1000000000
nanoseconds_over (negsuc n) = 999999999 - n % 1000000000

-- `time.Unix(start, 0).Add(d)`
unfoldable pub deadline_of : ℤ → ℤ → ℤ
deadline_of start d =
    let begun = wrap64 (start +ℤ unix_to_internal) in
    let ended = wrap64 (begun +ℤ whole_seconds d) in
    (ended -ℤ unix_to_internal) *ℤ pos 1000000000 +ℤ pos (nanoseconds_over d)

abbrev pub minus_one : ℤ
minus_one = negsuc 0

-- What is left of a watch time in milliseconds that began at a time in seconds; 0 is kept apart
-- from "never".
unfoldable pub time_left : ℤ → ℤ → ℤ → ℤ
unfolding deadline_of
time_left watch_time start now =
    let deadline = deadline_of start (wrap64 (watch_time *ℤ pos 1000000)) in
    let left = saturate64 (deadline -ℤ now) in if eqb_ℤ left (pos 0) then minus_one else left

module _ (env : Env) where
  from_start : ℤ → Option ℤ → Exec ℤ
  from_start watch_time none = pure minus_one
  from_start watch_time (some start) = do
    now ← read_clock env
    pure (time_left watch_time start now)

  watched : Option ℤ → StatefulSet → Exec ℤ
  unfolding from_start
  watched none s = pure minus_one
  watched (some watch_time) s =
      from_start watch_time (parse_int64 (index s.meta.annotations Annotation.update_start_time))

  annotated : Option String → StatefulSet → Exec ℤ
  unfolding watched
  annotated none s = pure (pos 0)
  annotated (some text) s = if text == "" then pure (pos 0) else watched (parse_int64 text) s

  unfoldable pub get_time_out : StatefulSet → String → Exec ℤ
  unfolding annotated
  get_time_out s watch_time_annotation = annotated (get s.meta.annotations watch_time_annotation) s
