-- ===== src/Window/Laws.antt =====
-- The window that `Evaluate` finds is the one that the schedule prescribes, and a requeue lands
-- when it closes or when the next one opens.
use zalando_vertical_autosca.Common.{
  String, ◌≡◌, refl, sym, ap, ◌∙◌, ◌↔◌, ◌⊎◌, inl, inr, true, false, arith, if◌then◌else◌,
  Bool-cases,
}
use zalando_vertical_autosca.Common.Int.{
  ℤ, pos, ◌+ℤ◌, ◌-ℤ◌, ◌≤ℤ◌, ◌<ℤ◌, ltb_ℤ, IsInt64, wrap64_of_IsInt64, +ℤ_parts, -ℤ_parts, int_laws,
}
use zalando_vertical_autosca.Common.Errors.{Result, ok, Result-cases}
use zalando_vertical_autosca.Platform.{Gronx, Runtime, FindsTicks}
use zalando_vertical_autosca.Window.{
  WindowResult, before, sub_time, window_duration, cron_requeue_jitter, evaluate, next_window,
  current_window, wait_until, requeue_after,
}

ok-injective : {A : Type 0} {a b : A} → ◌≡◌ {A = Result A} (ok a) (ok b) → a ≡ b
ok-injective h = cc

module _ (gronx : Gronx) (runtime : Runtime) (cron : String) (timeout now : ℤ) where
  -- The two ways to succeed: the latest tick's window is open, or it is not and there is a next.
  abbrev Opened : WindowResult → Type 0
  Opened r =
      (t : ℤ) × (gronx.prev_tick_before cron now true ≡ ok t)
      × (now <ℤ (t +ℤ window_duration timeout))
      × (r ≡ record { in_window = true; next_open = t; window_end = t +ℤ window_duration timeout })

  abbrev Waiting : WindowResult → Type 0
  Waiting r =
      (n : ℤ) × (gronx.next_tick_after cron now false ≡ ok n)
      × (r ≡ record { in_window = false; next_open = n; window_end = n +ℤ window_duration timeout })

  -- No window of the latest tick is open.
  abbrev Expired : Type 0
  Expired =
      (t : ℤ) → gronx.prev_tick_before cron now true ≡ ok t → (t +ℤ window_duration timeout) ≤ℤ now

  Waiting-next_window :
      (r : WindowResult)
      → next_window gronx runtime cron (window_duration timeout) now ≡ ok r
      → Waiting r
  unfolding next_window
  Waiting-next_window r h = elim (Result-cases (gronx.next_tick_after cron now false)) [
    | inl (n, e) ↦ (n, e, ground arith)
    | inr (_, e) ↦ absurd (ground arith)
  ]

  current_window_cases :
      (r : WindowResult) (t : ℤ)
      → gronx.prev_tick_before cron now true ≡ ok t
      → current_window gronx runtime cron (window_duration timeout) now t ≡ ok r
      → Opened r ⊎ (Waiting r × Expired)
  unfolding current_window
  current_window_cases r t found h = elim (Bool-cases (before now (t +ℤ window_duration timeout))) [
    | inl open_now ↦ inl (t, found, ground arith, ground arith)
    | inr shut ↦ inr (
      Waiting-next_window r (rw shut at h),
      λ u e. rw (ok-injective (sym e ∙ found)) (ground arith),
    )
  ]

  evaluate_cases :
      (r : WindowResult)
      → evaluate gronx runtime cron timeout now ≡ ok r
      → Opened r ⊎ (Waiting r × Expired)
  unfolding evaluate
  evaluate_cases r h = elim (Bool-cases (gronx.is_valid cron)) [
    | inl valid ↦ elim (Result-cases (gronx.prev_tick_before cron now true)) [
      | inl (t, e) ↦ current_window_cases r t e (rw (valid, e) at h)
      | inr (_, e) ↦ inr (Waiting-next_window r (rw (valid, e) at h), λ t f. cc)
    ]
    | inr bad ↦ absurd (ground arith)
  ]

module _ (gronx : Gronx) (runtime : Runtime) (IsTick : String → ℤ → Type 0) where
  -- `now` lies in a window that a tick of the schedule opened.
  abbrev pub IsOpen : String → ℤ → ℤ → Type 0
  IsOpen cron timeout now =
      (u : ℤ) × IsTick cron u × (u ≤ℤ now) × (now <ℤ (u +ℤ window_duration timeout))

  module _ (finds : FindsTicks gronx IsTick) (cron : String) (timeout now : ℤ) where
    not-IsOpen : Expired gronx runtime cron timeout now → ¬ (IsOpen cron timeout now)
    not-IsOpen expired (u, tick, started, lasts) =
        let (t, found) = finds.prev_finds cron now u tick started in
        let later = finds.prev_is_latest cron now t u found tick started in
        let over = expired t found in
        omega (
          arith,
          +ℤ_parts u (window_duration timeout),
          +ℤ_parts t (window_duration timeout),
          later,
          over,
        )

    -- If the cron library finds ticks as documented and `Evaluate` succeeds, it reports an open
    -- window exactly when some tick of the schedule, at or before `now`, opened a window of the
    -- timeout's length that has not ended at `now`.
    pub evaluate-IsOpen :
        (r : WindowResult)
        → evaluate gronx runtime cron timeout now ≡ ok r
        → (r.in_window ≡ true) ↔ IsOpen cron timeout now
    evaluate-IsOpen r h = elim (evaluate_cases gronx runtime cron timeout now r h) [
      | inl (t, found, inside, e) ↦
          let (tick, started) = finds.prev_is_tick cron now t found in
          ((λ _. (t, tick, started, inside)), (λ _. ap (λ (w : WindowResult). w.in_window) e))
      | inr ((n, found, e), expired) ↦
          ((λ shown. absurd (ground arith)), (λ is_open. absurd (not-IsOpen expired is_open)))
    ]

    -- If the cron library finds ticks as documented and `Evaluate` succeeds, the reported window
    -- begins at a tick and lasts the timeout; `now` lies in it if it is reported as open, and
    -- before it if not.
    pub evaluate_bounds :
        (r : WindowResult)
        → evaluate gronx runtime cron timeout now ≡ ok r
        → IsTick cron r.next_open
          × (r.window_end ≡ r.next_open +ℤ window_duration timeout)
          × (r.in_window ≡ true → (r.next_open ≤ℤ now) × (now <ℤ r.window_end))
          × (r.in_window ≡ false → now <ℤ r.next_open)
    evaluate_bounds r h = elim (evaluate_cases gronx runtime cron timeout now r h) [
      | inl (t, found, inside, e) ↦
          let (tick, started) = finds.prev_is_tick cron now t found in
          rw e (tick, refl, (λ _. (started, inside)), (λ f. cc))
      | inr ((n, found, e), _) ↦
          let (tick, later) = finds.next_is_tick cron now n found in
          rw e (tick, refl, (λ f. cc), (λ _. later))
    ]

-- How far ahead an instant may be for the wait to be exact: some 285 years.
abbrev pub horizon : ℤ
horizon = pos 9000000000000000000

sub_time-exact : (t now : ℤ) → now ≤ℤ t → t <ℤ (now +ℤ horizon) → sub_time t now ≡ t -ℤ now
unfolding sub_time
sub_time-exact t now h k = ground (arith, -ℤ_parts t now, +ℤ_parts now horizon)

-- The wait, short of the jitter, as an int64 that does not wrap.
wait-IsInt64 :
    (t now : ℤ) → now ≤ℤ t → t <ℤ (now +ℤ horizon) → IsInt64 ((t -ℤ now) +ℤ cron_requeue_jitter)
unfolding ◌-ℤ◌ ◌+ℤ◌
wait-IsInt64 t now h k = ground arith

wait_nonneg : (t now : ℤ) → now ≤ℤ t → ltb_ℤ (t -ℤ now) (pos 0) ≡ false
wait_nonneg t now h = ground (arith, -ℤ_parts t now)

wait_until_lem :
    (t now : ℤ)
    → now ≤ℤ t
    → t <ℤ (now +ℤ horizon)
    → (wait_until t now) ≡ (t -ℤ now) +ℤ cron_requeue_jitter
unfolding wait_until
wait_until_lem t now h k =
    rw (sub_time-exact t now h k, wait_nonneg t now h)
      (wrap64_of_IsInt64 _ (wait-IsInt64 t now h k))

add_wait : (t now j : ℤ) → now +ℤ ((t -ℤ now) +ℤ j) ≡ t +ℤ j
add_wait t now j = omega int_laws

now-wait_until :
    (t now : ℤ)
    → now ≤ℤ t
    → t <ℤ (now +ℤ horizon)
    → now +ℤ wait_until t now ≡ t +ℤ cron_requeue_jitter
now-wait_until t now h k = rw (wait_until_lem t now h k) (add_wait t now cron_requeue_jitter)

-- The instant that a reconcile waits for: the end of an open window, or the next opening.
abbrev pub awaited : WindowResult → ℤ
awaited r = if r.in_window then r.window_end else r.next_open

module _ (gronx : Gronx) (runtime : Runtime) (IsTick : String → ℤ → Type 0) where
  now-le-awaited :
      FindsTicks gronx IsTick
      → (cron : String) (timeout now : ℤ) (r : WindowResult)
      → evaluate gronx runtime cron timeout now ≡ ok r
      → now ≤ℤ awaited r
  now-le-awaited finds cron timeout now r h =
      ground (arith, evaluate_bounds gronx runtime IsTick finds cron timeout now r h)

  -- If the cron library finds ticks as documented, then after a window that `Evaluate` found,
  -- waiting for `RequeueAfter` ends five seconds after the window closes if it is open, and five
  -- seconds after the next one opens if not. The instant awaited must lie within the horizon.
  pub now-requeue_after :
      FindsTicks gronx IsTick
      → (cron : String) (timeout now : ℤ) (r : WindowResult)
      → evaluate gronx runtime cron timeout now ≡ ok r
      → awaited r <ℤ (now +ℤ horizon)
      → now +ℤ requeue_after r now ≡ awaited r +ℤ cron_requeue_jitter
  unfolding requeue_after
  now-requeue_after finds cron timeout now r h k =
      let later = now-le-awaited finds cron timeout now r h in
      ground (arith, now-wait_until r.window_end now, now-wait_until r.next_open now)
