-- ===== src/Vpa/Reads.antt =====
-- Reading the recommendation changes nothing.
use zalando_vertical_autosca.Common.{arith}
use zalando_vertical_autosca.Platform.{Platform}
use zalando_vertical_autosca.Monad.{State, get_vpa}
use zalando_vertical_autosca.Monad.Trace.{OnlyReads}
use zalando_vertical_autosca.Vpa.{read_recommendation}

module _ (P : Platform) (s : State P) where
  pub read_recommendation-OnlyReads : OnlyReads s (read_recommendation P s)
  unfolding read_recommendation get_vpa
  read_recommendation-OnlyReads = ground arith
