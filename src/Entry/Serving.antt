-- ===== src/Entry/Serving.antt =====
-- What `main` does with the manager: it starts it last, when all before that has succeeded.
use zalando_vertical_autosca.Common.{◌≡◌, refl, ◌⊎◌, inl, inr, Bool, true, false, List, ◌∷◌, All}
use zalando_vertical_autosca.Common.Errors.{Result, ok, err, GoError, Result-cases}
use zalando_vertical_autosca.Entry.{
  Packages, SetupCall, set_up_controller, added_healthz, added_readyz, started_manager, Setup, Step,
  goes, stops, exited, ◌>>=◌, Main, and_then, or_exit, noted, reconciler_of, set_up_with_manager,
  run_manager, signal_context,
}

abbrev pub is_ok : {A : Type 0} → Result A → Bool
is_ok (ok _) = true
is_ok (err _) = false

module _ {L : Packages} where
  abbrev pub calls_of : {A : Type 0} → Step L A → List (SetupCall L)
  calls_of (goes _ s) = s.calls
  calls_of (stops _ s) = s.calls

  abbrev pub has_returned : {A : Type 0} → Step L A → Bool
  has_returned (goes _ _) = true
  has_returned (stops _ _) = false

  abbrev pub StartsNothing : SetupCall L → Type 0
  StartsNothing c = elim c [ started_manager _ ↦ ⊥ | _ ↦ Unit ]

  -- The run has stopped, and the manager was not started.
  abbrev pub Halts : {A : Type 0} → Step L A → Type 0
  Halts e = (has_returned e ≡ false) × All StartsNothing (calls_of e)

  -- The calls that were made before the manager was started, the newest first.
  abbrev pub before_start : L.Manager → List (SetupCall L) → List (SetupCall L)
  before_start mgr calls =
      added_readyz "readyz" (ok tt)
      ∷ added_healthz "healthz" (ok tt)
      ∷ set_up_controller (reconciler_of L mgr) (ok tt)
      ∷ calls

  -- The manager was started, with everything set up, and the run returned if the manager did.
  abbrev pub Serves : L.Manager → List (SetupCall L) → Step L (Unit {0}) → Type 0
  Serves mgr calls e =
      (answer : Result (Unit {0})) × (calls_of e ≡ started_manager answer ∷ before_start mgr calls)
      × (has_returned e ≡ is_ok answer)

  -- What holds of a run that makes a noted call and goes on, or stops there.
  pub noted-step :
      {A B : Type 0} (T : Step L B → Type 0) (note : Result A → SetupCall L)
      (call : L.World → Result A × L.World) (k : A → Main L B) (s : Setup L)
      → ((a : A) (w : L.World) → T (k a (record { world = w; calls = note (ok a) ∷ s.calls })))
      → ((e : GoError) (w : L.World)
          → T (stops (exited 1) (record { world = w; calls = note (err e) ∷ s.calls })))
      → T (and_then (noted note call s) k)
  noted-step T note call k s goes_on stops_here = elim (Result-cases (call s.world).0) [
    | inl (a, e) ↦ rw (e, or_exit) (goes_on a (call s.world).1)
    | inr (x, e) ↦ rw (e, or_exit) (stops_here x (call s.world).1)
  ]

  -- The last steps of `main`.
  abbrev serve : L.Manager → Main L (Unit {0})
  serve mgr = signal_context L >>= λ ctx. noted started_manager (L.start mgr ctx)

  pub start-Serves :
      (mgr : L.Manager) (calls : List (SetupCall L)) (s : Setup L)
      → s.calls ≡ before_start mgr calls
      → Serves mgr calls (serve mgr s)
  start-Serves mgr calls s e =
      let (ctx, w) = L.setup_signal_handler s.world in
      elim (Result-cases (L.start mgr ctx w).0) [
        | inl (a, answered) ↦ (ok a, rw (answered, or_exit, e) refl, rw (answered, or_exit) refl)
        | inr (x, answered) ↦ (err x, rw (answered, or_exit, e) refl, rw (answered, or_exit) refl)
      ]

  abbrev pub Ends : L.Manager → List (SetupCall L) → Step L (Unit {0}) → Type 0
  Ends mgr calls e = Serves mgr calls e ⊎ Halts e

  abbrev ready_and_serve : L.Manager → Main L (Unit {0})
  ready_and_serve mgr =
      noted (added_readyz "readyz") (L.add_readyz_check mgr "readyz") >>= λ _. serve mgr

  abbrev healthy_and_serve : L.Manager → Main L (Unit {0})
  healthy_and_serve mgr =
      noted (added_healthz "healthz") (L.add_healthz_check mgr "healthz") >>= λ _.
      ready_and_serve mgr

  pub run_manager-Ends :
      (mgr : L.Manager) (s : Setup L)
      → All StartsNothing s.calls
      → Ends mgr s.calls (run_manager L mgr s)
  unfolding run_manager
  run_manager-Ends mgr s quiet =
      let set_up = set_up_controller (reconciler_of L mgr) in
      noted-step (Ends mgr s.calls) set_up (set_up_with_manager L (reconciler_of L mgr) mgr)
        (λ _. healthy_and_serve mgr) s
        (λ _ w.
          noted-step (Ends mgr s.calls) (added_healthz "healthz")
            (L.add_healthz_check mgr "healthz") (λ _. ready_and_serve mgr)
            (record { world = w; calls = set_up (ok tt) ∷ s.calls })
            (λ _ w'.
              noted-step (Ends mgr s.calls) (added_readyz "readyz")
                (L.add_readyz_check mgr "readyz") (λ _. serve mgr)
                (record {
                  world = w';
                  calls = added_healthz "healthz" (ok tt) ∷ set_up (ok tt) ∷ s.calls;
                })
                (λ _ w''. inl (
                  start-Serves mgr s.calls
                    (record { world = w''; calls = before_start mgr s.calls }) refl))
                (λ x w''. inr (refl, (tt, (tt, (tt, quiet))))))
            (λ x w'. inr (refl, (tt, (tt, quiet)))))
        (λ x w. inr (refl, (tt, quiet)))
