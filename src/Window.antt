-- ===== src/Window.antt =====
-- internal/controller/cron.go: whether an instant lies in a maintenance window, and how long to
-- wait before the next reconcile. Instants and durations are in nanoseconds; a duration is an
-- int64, so its arithmetic wraps.
pub mod Laws
use zalando_vertical_autosca.Common.{String, ◌<>◌, Bool, true, false, not, if◌then◌else◌}
use zalando_vertical_autosca.Common.Int.{ℤ, pos, negsuc, ◌+ℤ◌, ◌-ℤ◌, ◌*ℤ◌, ltb_ℤ, wrap64, two63}
use zalando_vertical_autosca.Common.Errors.{Result, ok, err, plain, wrap_error, GoError}
use zalando_vertical_autosca.Platform.{Gronx, Runtime}

-- `time.Minute` and `time.Second`
abbrev pub minute : ℤ
minute = pos 60000000000

abbrev pub second : ℤ
second = pos 1000000000

abbrev pub cron_requeue_jitter : ℤ
cron_requeue_jitter = pos 5000000000

pub record WindowResult : Type 0 where
  pub in_window : Bool
  pub next_open : ℤ
  pub window_end : ℤ

-- `t.Before(u)`
abbrev pub before : ℤ → ℤ → Bool
before = ltb_ℤ

-- `t.Sub(u)`, which stops at the ends of int64.
unfoldable pub sub_time : ℤ → ℤ → ℤ
sub_time t u =
    let d = t -ℤ u in
    if ltb_ℤ (pos 9223372036854775807) d
    then pos 9223372036854775807
    else if ltb_ℤ d (negsuc 9223372036854775807)
    then negsuc 9223372036854775807
    else d

unfoldable pub window_duration : ℤ → ℤ
window_duration timeout_minutes = wrap64 (timeout_minutes *ℤ minute)

module _ (gronx : Gronx) (runtime : Runtime) where
  -- The window after `now`, when `now` is in none.
  next_window : String → ℤ → ℤ → Result WindowResult
  next_window cron duration now = elim (gronx.next_tick_after cron now false) [
    | err e ↦ wrap_error ("finding next fire for " <> runtime.quote cron) (err e)
    | ok next ↦ ok (record { in_window = false; next_open = next; window_end = next +ℤ duration })
  ]

  current_window : String → ℤ → ℤ → ℤ → Result WindowResult
  unfolding next_window
  current_window cron duration now prev =
      let window_end = prev +ℤ duration in
      if before now window_end
      then ok (record { in_window = true; next_open = prev; window_end = window_end })
      else next_window cron duration now

  unfoldable pub evaluate : String → ℤ → ℤ → Result WindowResult
  unfolding next_window current_window
  evaluate cron timeout_minutes now =
      if not (gronx.is_valid cron)
      then err (plain ("invalid cron expression: " <> runtime.quote cron))
      else elim (gronx.prev_tick_before cron now true) [
        | err _ ↦ next_window cron (window_duration timeout_minutes) now
        | ok prev ↦ current_window cron (window_duration timeout_minutes) now prev
      ]

-- The wait until an instant and five seconds more.
unfoldable pub wait_until : ℤ → ℤ → ℤ
wait_until t now =
    let wait = sub_time t now in
    if ltb_ℤ wait (pos 0) then cron_requeue_jitter else wrap64 (wait +ℤ cron_requeue_jitter)

-- `RequeueAfter`
unfoldable pub requeue_after : WindowResult → ℤ → ℤ
requeue_after result now =
    if result.in_window then wait_until result.window_end now else wait_until result.next_open now
