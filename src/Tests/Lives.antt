-- ===== src/Tests/Lives.antt =====
-- The life of a policy on the small platform: a reconcile that is stored, one that is not, and an
-- edit of the spec.
use zalando_vertical_autosca.Common.{◌≤◌, ◌+◌, ◌-◌, ◌*◌, ◌/◌, arith, refl, map, []}
use zalando_vertical_autosca.Common.Int.{
  ℤ, pos, negsuc, ◌+ℤ◌, ◌*ℤ◌, ◌≤ℤ◌, +ℤ_parts, IsInt64, wrap64,
}
use zalando_vertical_autosca.Api.{PostgresMemoryPolicy, PostgresMemoryPolicySpec}
use zalando_vertical_autosca.Window.{minute, window_duration}
use zalando_vertical_autosca.Reconcile.Coherence.{CoherentPolicy}
use zalando_vertical_autosca.Reconcile.Slots.{Apart}
use zalando_vertical_autosca.Reconcile.Windows.{taken}
use zalando_vertical_autosca.Reconcile.Storage.{
  IsSecond, KeepsSeconds, stored_record, stored_condition,
}
use zalando_vertical_autosca.Reconcile.Sequence.{
  Reconciled, created, reconciled, unstored, edited, Keeps, Reconciled-once, Reconciled-Coherent,
}
use zalando_vertical_autosca.Tests.Sample.{policy_spec}
use zalando_vertical_autosca.Tests.Clock.{within-IsClock}
use zalando_vertical_autosca.Tests.Reconciles.{fresh_start, fresh_end, fresh_run, fresh_clock}
use zalando_vertical_autosca.Tests.World.{small_platform, OnTheHour, hourly-FindsTicks, hour}

-- The last whole second.
abbrev last_second : ℤ → ℤ
last_second (pos n) = pos (n / 1000000000 * 1000000000)
last_second (negsuc n) = negsuc ((n / 1000000000 + 1) * 1000000000 - 1)

last_second_not_before : (s t : ℤ) → IsSecond s → s ≤ℤ t → s ≤ℤ last_second t
unfolding ◌*ℤ◌
last_second_not_before s (pos n) (k, e) h = rw e (ground arith)
last_second_not_before s (negsuc n) (k, e) h = rw e (ground arith)

last_second-KeepsSeconds : KeepsSeconds last_second
last_second-KeepsSeconds = record {
  not_later = λ t. ground arith;
  not_before = last_second_not_before;
}

-- Hourly windows of thirty minutes.
half_hours_apart : Apart small_platform policy_spec.maintenance_window OnTheHour
unfolding window_duration ◌*ℤ◌ wrap64
half_hours_apart u v (k, e) (j, f) before =
    rw (e, f) (ground (arith, +ℤ_parts (pos (k * hour)) (pos 1800000000000)))

hour-IsSecond : (v : ℤ) → OnTheHour policy_spec.maintenance_window.cron v → IsSecond v
unfolding ◌*ℤ◌
hour-IsSecond v (k, e) = (pos (k * 3600), rw e (ground arith))

half_hour_fits : IsInt64 (policy_spec.maintenance_window.timeout_minutes *ℤ minute)
unfolding ◌*ℤ◌
half_hour_fits = record { below = omega arith; above = omega arith }

abbrev stored_policy : PostgresMemoryPolicy ℤ
stored_policy = record (fresh_end.policy) {
  status = record (fresh_end.policy.status) {
    maintenance_history =
        map (stored_record last_second) fresh_end.policy.status.maintenance_history;
    conditions = map (stored_condition last_second) fresh_end.policy.status.conditions;
  };
}

abbrev edited_policy : PostgresMemoryPolicy ℤ
edited_policy = record stored_policy { spec = record policy_spec { post_actions = [] } }

-- The users may do as they like to it, if `Allowed` holds of the two specs.
lived :
    (Allowed : PostgresMemoryPolicySpec ℤ → Type 0)
    → Allowed fresh_start.policy.spec
    → Allowed edited_policy.spec
    → Reconciled small_platform Allowed last_second (pos 360605000000000) edited_policy
lived Allowed h k =
    edited
      (unstored (pos 360605000000000)
        (reconciled (pos 360604000000000) {stored = stored_policy} fresh_start
          (created (pos 360600000000000) {p = fresh_start.policy} h refl refl) refl fresh_run
          (within-IsClock (pos 360600000000000) (pos 360604000000000) fresh_end.trace fresh_clock)
          (record { same_spec = refl; same_history = refl; same_conditions = refl }))
        (omega arith))
      k refl

Reconciled-once_example :
    taken
      (pos (100 * hour))
      (pos (100 * hour) +ℤ window_duration (pos 30))
      edited_policy.status.maintenance_history
    ≤ 1
Reconciled-once_example =
    Reconciled-once small_platform policy_spec.maintenance_window OnTheHour last_second
      hourly-FindsTicks half_hours_apart hour-IsSecond half_hour_fits last_second-KeepsSeconds
      (lived (Keeps policy_spec.maintenance_window) refl refl) (pos (100 * hour)) (100, refl)

Reconciled-Coherent_example : CoherentPolicy edited_policy
Reconciled-Coherent_example =
    Reconciled-Coherent small_platform (λ _. Unit) last_second (lived (λ _. Unit) tt tt)
