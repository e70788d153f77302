-- ===== src/Zalando.antt =====
-- internal/controller/zalando.go: the postgresql resource of the Zalando operator.
pub mod Gates
pub mod Reads
pub mod Patch
pub mod Waiting
use zalando_vertical_autosca.Common.{
  ℕ, String, ◌<>◌, Bool, true, false, Option, none, some, List, [], ◌∷◌, str_eq, if◌then◌else◌,
}
use zalando_vertical_autosca.Common.Int.{ℤ, pos}
use zalando_vertical_autosca.Common.Errors.{
  Result, ok, err, wrapped, wrap_error, GoError, is_not_found,
}
use zalando_vertical_autosca.Platform.{Platform}
use zalando_vertical_autosca.Monad.{
  M, State, Exec, returned, panicked, pure, panic, bind_exec, ◌>>=◌, client_get_postgresql,
}

module _ (P : Platform) where
  open P use {quantities, client}

  -- `getPostgresql`
  unfoldable pub get_postgresql : String → String → M P (Result client.Object)
  get_postgresql namespace name = do
    answer ← client_get_postgresql P namespace name
    pure (wrap_error ("getting postgresql " <> namespace <> "/" <> name) answer)

  -- The `MustParse` at the end of `GetCurrentMemory`, which panics on a text that is no quantity.
  must_parse : String → M P (Result (Option quantities.Quantity))
  must_parse memory_text s = elim (quantities.parse memory_text) [
    | ok q ↦ returned (ok (some q)) s
    | err _ ↦ panicked s
  ]

  memory_path : List String
  memory_path = "spec" ∷ "resources" ∷ "requests" ∷ "memory" ∷ []

  -- The memory request of an object. An error, a missing field and an empty text are all `nil`.
  memory_of : Result (Option String) → M P (Result (Option quantities.Quantity))
  unfolding must_parse
  memory_of (err _) = pure (ok none)
  memory_of (ok none) = pure (ok none)
  memory_of (ok (some memory_text)) =
      if str_eq memory_text "" then pure (ok none) else must_parse memory_text

  -- What `GetCurrentMemory` makes of the answer.
  unfoldable pub current_memory_of :
      Result client.Object → M P (Result (Option quantities.Quantity))
  unfolding memory_of memory_path
  current_memory_of (err e) = if is_not_found e then pure (ok none) else pure (err e)
  current_memory_of (ok pg) = memory_of (client.nested_string pg memory_path)

  -- `GetCurrentMemory`
  unfoldable pub get_current_memory : String → String → M P (Result (Option quantities.Quantity))
  unfolding get_postgresql
  get_current_memory namespace name = do
    answer ← get_postgresql namespace name
    current_memory_of answer

  status_path : List String
  status_path = "status" ∷ "PostgresClusterStatus" ∷ []

  -- `state == "Running"`, where an error or a missing field leaves `state` empty.
  is_running : Result (Option String) → Bool
  is_running (ok (some state)) = str_eq state "Running"
  is_running _ = false

  unfoldable pub is_object_healthy : client.Object → Bool
  unfolding is_running status_path
  is_object_healthy pg = is_running (client.nested_string pg status_path)

  abbrev healthy_of : Result client.Object → Result Bool
  healthy_of (err e) = err e
  healthy_of (ok pg) = ok (is_object_healthy pg)

  -- `IsClusterHealthy`
  unfoldable pub is_cluster_healthy : String → String → M P (Result Bool)
  unfolding get_postgresql
  is_cluster_healthy namespace name = do
    answer ← get_postgresql namespace name
    pure (healthy_of answer)
