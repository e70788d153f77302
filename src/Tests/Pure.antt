-- ===== src/Tests/Pure.antt =====
-- Examples for the parts without effects: windows, conditions, recommendations, gates, patches and
-- parameters.
use zalando_vertical_autosca.Common.{◌≡◌, refl, ◌↔◌, true, false, arith}
use zalando_vertical_autosca.Common.Int.{ℤ, pos, ◌+ℤ◌, ◌≤ℤ◌, ◌<ℤ◌, wrap64, ◌*ℤ◌}
use zalando_vertical_autosca.Common.Errors.{ok}
use zalando_vertical_autosca.Float64.{
  Float64, unit, make, of_int, div, to_int64, overflow, nearest, round_on, round_ratio,
}
use zalando_vertical_autosca.Tests.World.{hourly, plain_text, OnTheHour, hourly-FindsTicks}
use zalando_vertical_autosca.Window.{
  WindowResult, evaluate, window_duration, requeue_after, cron_requeue_jitter,
}
use zalando_vertical_autosca.Window.Laws.{
  IsOpen, evaluate-IsOpen, evaluate_bounds, now-requeue_after, awaited,
}

-- Half of 7 is 3.5, which becomes 3.
half_of_seven : (out : Float64 → ℤ) → to_int64 out (div (of_int (pos 7)) (of_int (pos 2))) ≡ pos 3
unfolding to_int64 div of_int make round_ratio round_on nearest unit overflow
half_of_seven out = refl

-- Ten minutes past an hour, in a window of thirty minutes.
abbrev ten_past : ℤ
ten_past = pos 360600000000000

abbrev half_hour_window : WindowResult
half_hour_window = record {
  in_window = true;
  next_open = pos 360000000000000;
  window_end = pos 361800000000000;
}

evaluated : evaluate hourly plain_text "0 * * * *" (pos 30) ten_past ≡ ok half_hour_window
unfolding evaluate window_duration wrap64 ◌*ℤ◌ ◌+ℤ◌
evaluated = refl

evaluate-IsOpen_example :
    (half_hour_window.in_window ≡ true)
    ↔ IsOpen hourly plain_text OnTheHour "0 * * * *" (pos 30) ten_past
evaluate-IsOpen_example =
    evaluate-IsOpen hourly plain_text OnTheHour hourly-FindsTicks "0 * * * *" (pos 30) ten_past
      half_hour_window evaluated

evaluate_bounds_example :
    OnTheHour "0 * * * *" half_hour_window.next_open
    × (half_hour_window.window_end ≡ half_hour_window.next_open +ℤ window_duration (pos 30))
    × (half_hour_window.in_window ≡ true
        → (half_hour_window.next_open ≤ℤ ten_past) × (ten_past <ℤ half_hour_window.window_end))
    × (half_hour_window.in_window ≡ false → ten_past <ℤ half_hour_window.next_open)
evaluate_bounds_example =
    evaluate_bounds hourly plain_text OnTheHour hourly-FindsTicks "0 * * * *" (pos 30) ten_past
      half_hour_window evaluated

ends_soon : awaited half_hour_window <ℤ (ten_past +ℤ pos 9000000000000000000)
unfolding ◌+ℤ◌
ends_soon = omega arith

-- The window closes at half past, and the next reconcile is five seconds later.
now-requeue_after_example :
    ten_past +ℤ requeue_after half_hour_window ten_past ≡ pos 361800000000000 +ℤ cron_requeue_jitter
now-requeue_after_example =
    now-requeue_after hourly plain_text OnTheHour hourly-FindsTicks "0 * * * *" (pos 30) ten_past
      half_hour_window evaluated ends_soon
