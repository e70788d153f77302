-- ===== src/Zalando/Reads.antt =====
-- Reading the postgresql resource changes nothing, and panics only on a memory text that is no
-- quantity.
use zalando_vertical_autosca.Common.{String, arith}
use zalando_vertical_autosca.Common.Errors.{Result, ok, err}
use zalando_vertical_autosca.Platform.{Platform}
use zalando_vertical_autosca.Monad.{State, client_get_postgresql}
use zalando_vertical_autosca.Monad.Trace.{OnlyReads, ReadsOrPanics, ReadsOrPanics-bind, Reads-refl}
use zalando_vertical_autosca.Zalando.{
  get_postgresql, current_memory_of, get_current_memory, is_cluster_healthy,
}

module _ (P : Platform) (s : State P) where
  pub get_postgresql-OnlyReads :
      (namespace name : String) → OnlyReads s (get_postgresql P namespace name s)
  unfolding get_postgresql client_get_postgresql
  get_postgresql-OnlyReads namespace name = ground arith

  -- `IsClusterHealthy` reads and writes nothing.
  pub is_cluster_healthy-OnlyReads :
      (namespace name : String) → OnlyReads s (is_cluster_healthy P namespace name s)
  unfolding is_cluster_healthy client_get_postgresql
  is_cluster_healthy-OnlyReads namespace name = ground arith

  current_memory_of-ReadsOrPanics :
      (answer : Result P.client.Object) → ReadsOrPanics s (current_memory_of P answer s)
  unfolding current_memory_of
  current_memory_of-ReadsOrPanics (err e) = ground (arith, Reads-refl s)
  current_memory_of-ReadsOrPanics (ok pg) = ground (arith, Reads-refl s)

module _ (P : Platform) (s : State P) where
  pub get_current_memory-ReadsOrPanics :
      (namespace name : String) → ReadsOrPanics s (get_current_memory P namespace name s)
  unfolding get_current_memory
  get_current_memory-ReadsOrPanics namespace name =
      ReadsOrPanics-bind s (get_postgresql P namespace name s) (current_memory_of P)
        (get_postgresql-OnlyReads P s namespace name)
        (λ answer t. current_memory_of-ReadsOrPanics P t answer)
