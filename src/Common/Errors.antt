-- ===== src/Common/Errors.antt =====
-- Go's `error` values as the controller builds and inspects them, and the pair `(value, error)` of
-- a fallible call.
use Prim.Native.String.{String, ◌++◌ as ◌<>◌}
use mathlib.Core.Bool.{Bool, true, false}
use mathlib.Core.Path.{◌≡◌, refl}
use mathlib.Core.Logic.{◌≢◌, ◌⊎◌, inl, inr}

-- Why the API server refused: `IsNotFound` tells the first from all else.
pub data ApiReason : Type 0 where
  not_found other_reason : ApiReason

-- `api` is an error of the API client. `recommendation` is `*RecommendationError`. `wrapped` is
-- `fmt.Errorf("prefix: %w", err)`. `plain` is any other error.
pub data GoError : Type 0 where
  api : ApiReason → String → GoError
  recommendation : String → String → GoError
  wrapped : String → GoError → GoError
  plain : String → GoError

pub data Result {ℓ} (A : Type ℓ) : Type ℓ where
  ok : A → Result A
  err : GoError → Result A

-- `err.Error()`
unfoldable pub error_string : GoError → String
error_string (api _ message) = message
error_string (recommendation reason message) = reason <> ": " <> message
error_string (wrapped context e) = context <> ": " <> error_string e
error_string (plain message) = message

abbrev is_not_found_reason : ApiReason → Bool
is_not_found_reason not_found = true
is_not_found_reason other_reason = false

-- `apierrors.IsNotFound`, which looks through wrapped errors.
unfoldable pub is_not_found : GoError → Bool
is_not_found (api reason _) = is_not_found_reason reason
is_not_found (recommendation _ _) = false
is_not_found (wrapped _ e) = is_not_found e
is_not_found (plain _) = false

abbrev pub wrap_error {ℓ} : {A : Type ℓ} → String → Result A → Result A
wrap_error context (ok a) = ok a
wrap_error context (err e) = err (wrapped context e)

-- To split on a computed result and keep the equation.
pub Result-cases {ℓ} :
    {A : Type ℓ} (r : Result A) → ((a : A) × (r ≡ ok a)) ⊎ ((e : GoError) × (r ≡ err e))
Result-cases (ok a) = inl (a, refl)
Result-cases (err e) = inr (e, refl)

pub err-ok : {A : Type 0} {e : GoError} {a : A} → err e ≢ ok a
err-ok = cc

pub ok-inj : {A : Type 0} {a b : A} → ok a ≡ ok b → a ≡ b
ok-inj = cc
