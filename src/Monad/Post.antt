-- ===== src/Monad/Post.antt =====
-- Postconditions: what holds of the value and the state that a call returns, or of the state in
-- which it panics.
use mathlib.Core.Path.{subst}
use zalando_vertical_autosca.Common.{◌≡◌, refl, Bool, true, false, if◌then◌else◌}
use zalando_vertical_autosca.Platform.{Platform}
use zalando_vertical_autosca.Monad.{State, Exec, returned, panicked, M, bind_exec}

module _ {P : Platform} where
  -- `Q` of a return, `N` of a panic.
  abbrev pub Post : {A : Type 0} → (State P → Type 0) → (A → State P → Type 0) → Exec P A → Type 0
  Post N Q (returned a s) = Q a s
  Post N Q (panicked s) = N s

  -- A call that is followed by another.
  pub Post-bind :
      {A B : Type 0} (N : State P → Type 0) (Q : A → State P → Type 0) (R : B → State P → Type 0)
      (e : Exec P A) (f : A → M P B)
      → Post N Q e
      → ((a : A) (s : State P) → Q a s → Post N R (f a s))
      → Post N R (bind_exec e f)
  Post-bind N Q R (returned a s) f h k = k a s h
  Post-bind N Q R (panicked s) f h k = h

  pub Post-map :
      {A : Type 0} (N N' : State P → Type 0) (Q R : A → State P → Type 0) (e : Exec P A)
      → Post N Q e
      → ((s : State P) → N s → N' s)
      → ((a : A) (s : State P) → Q a s → R a s)
      → Post N' R e
  Post-map N N' Q R (returned a s) h n k = k a s h
  Post-map N N' Q R (panicked s) h n k = n s h

  -- A call under a test.
  pub Post-if :
      {A : Type 0} (N : State P → Type 0) (Q : A → State P → Type 0) (b : Bool) (m k : M P A)
      (s : State P)
      → (b ≡ true → Post N Q (m s))
      → (b ≡ false → Post N Q (k s))
      → Post N Q ((if b then m else k) s)
  Post-if N Q true m k s h h' = h refl
  Post-if N Q false m k s h h' = h' refl

  -- What a run is known to return satisfies the postcondition.
  pub Post-returned :
      {A : Type 0} (N : State P → Type 0) (Q : A → State P → Type 0) {a : A} {s : State P}
      (e : Exec P A)
      → Post N Q e
      → e ≡ returned a s
      → Q a s
  Post-returned N Q e h eq = subst (Post N Q) eq h
