-- ===== src/Tests/Clock.antt =====
-- A test that the readings of the clock in a trace are in order, between two bounds.
use zalando_vertical_autosca.Common.{
  ◌≡◌, ◌⊎◌, ◌∙◌, refl, Bool-cases, ap, sym, Bool, true, ◌&&◌, List, ◌∷◌, [], inl, inr, arith,
  Option, none, some, some-none, some-inj,
}
use zalando_vertical_autosca.Common.Int.{ℤ, ◌≤ℤ◌, leb_ℤ}
use zalando_vertical_autosca.Platform.{Platform}
use zalando_vertical_autosca.Monad.{
  Call, read_clock, got_vpa, got_postgresql, patched_postgresql, got_deployment, got_stateful_set,
  got_daemon_set, patched_workload, recorded_event,
}
use zalando_vertical_autosca.Monad.Trace.{IsReading, Sees}
use zalando_vertical_autosca.Reconcile.Slots.{IsClock}
use zalando_vertical_autosca.Reconcile.Progress.{ReadsInOrder}

module _ {P : Platform} where
  abbrev pub reading_of : Call P → Option ℤ
  reading_of (read_clock t) = some t
  reading_of _ = none

  reading_of_lem : (t : ℤ) (c : Call P) → IsReading t c → reading_of c ≡ some t
  reading_of_lem t (read_clock u) e = ap (λ a. some a) e
  reading_of_lem t (got_vpa _ _ _) h = absurd h
  reading_of_lem t (got_postgresql _ _ _) h = absurd h
  reading_of_lem t (patched_postgresql _ _ _ _) h = absurd h
  reading_of_lem t (got_deployment _ _ _) h = absurd h
  reading_of_lem t (got_stateful_set _ _ _) h = absurd h
  reading_of_lem t (got_daemon_set _ _ _) h = absurd h
  reading_of_lem t (patched_workload _ _ _ _ _) h = absurd h
  reading_of_lem t (recorded_event _ _ _) h = absurd h

  -- No reading is before `low`, and none is after `high` or a reading that came after it.
  abbrev pub within : ℤ → ℤ → List (Call P) → Bool
  within low high [] = leb_ℤ low high
  within low high (c ∷ trace) = elim (reading_of c) [
    | none ↦ within low high trace
    | some t ↦ leb_ℤ t high && within low t trace
  ]

  within-cases :
      (o : Option ℤ) (low high : ℤ) (trace : List (Call P))
      → elim o [ none ↦ within low high trace | some t ↦ leb_ℤ t high && within low t trace ] ≡ true
      → ((o ≡ none) × (within low high trace ≡ true))
        ⊎ ((t : ℤ) × (o ≡ some t) × (t ≤ℤ high) × (within low t trace ≡ true))
  within-cases none low high trace h = inl (refl, h)
  within-cases (some t) low high trace h = elim (Bool-cases (leb_ℤ t high)) [
    | inl e ↦ inr (t, refl, ground (arith, e), ground (arith, e, h))
    | inr e ↦ absurd (ground (arith, e, h))
  ]

  within-bounds :
      (low high : ℤ) (trace : List (Call P)) → within low high trace ≡ true → low ≤ℤ high
  within-bounds low high [] h = ground (arith, h)
  within-bounds low high (c ∷ trace) h = elim (within-cases (reading_of c) low high trace h) [
    | inl (e, k) ↦ within-bounds low high trace k
    | inr (t, e, l, k) ↦ omega (arith, l, within-bounds low t trace k)
  ]

  within-Sees :
      (low high a : ℤ) (trace : List (Call P))
      → within low high trace ≡ true
      → Sees a trace
      → (low ≤ℤ a) × (a ≤ℤ high)
  within-Sees low high a [] h seen = absurd seen
  within-Sees low high a (c ∷ trace) h seen = elim (within-cases (reading_of c) low high trace h) [
    | inl (e, k) ↦ elim seen [
      | inl reads ↦ absurd (some-none (sym (reading_of_lem a c reads) ∙ e))
      | inr later ↦ within-Sees low high a trace k later
    ]
    | inr (t, e, l, k) ↦ elim seen [
      | inl reads ↦
          rw (some-inj (sym (reading_of_lem a c reads) ∙ e)) (within-bounds low t trace k, l)
      | inr later ↦ let (x, y) = within-Sees low t a trace k later in (x, omega (arith, y, l))
    ]
  ]

  within-ordered :
      (low high a b : ℤ) (trace : List (Call P))
      → within low high trace ≡ true
      → ReadsInOrder a b trace
      → a ≤ℤ b
  within-ordered low high a b [] h o = absurd o
  within-ordered low high a b (c ∷ trace) h o =
      elim (within-cases (reading_of c) low high trace h) [
        | inl (e, k) ↦ elim o [
          | inl (reads, _) ↦ absurd (some-none (sym (reading_of_lem b c reads) ∙ e))
          | inr later ↦ within-ordered low high a b trace k later
        ]
        | inr (t, e, l, k) ↦ elim o [
          | inl (reads, seen) ↦
              rw (some-inj (sym (reading_of_lem b c reads) ∙ e))
                ((within-Sees low t a trace k seen).1)
          | inr later ↦ within-ordered low t a b trace k later
        ]
      ]

  pub within-IsClock :
      (low high : ℤ) (trace : List (Call P)) → within low high trace ≡ true → IsClock low high trace
  within-IsClock low high trace h = record {
    forward = within-bounds low high trace h;
    within = λ a. within-Sees low high a trace h;
    ordered = λ a b. within-ordered low high a b trace h;
  }
