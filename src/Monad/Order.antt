-- ===== src/Monad/Order.antt =====
-- What came last in a trace of calls, whose newest call is the first.
use zalando_vertical_autosca.Common.{List, ◌∷◌}
use zalando_vertical_autosca.Platform.{Platform}
use zalando_vertical_autosca.Monad.{Call}

module _ {P : Platform} where
  -- A trace goes on from an earlier one.
  pub data Extends (base : List (Call P)) : List (Call P) → Type 0 where
    same : Extends base base
    more : {c : Call P} {trace : List (Call P)} → Extends base trace → Extends base (c ∷ trace)

  -- Since `base`, and as the newest call, there was one of a kind.
  pub data Newest (Q : Call P → Type 0) (base : List (Call P)) : List (Call P) → Type 0 where
    newest :
        {c : Call P} {trace : List (Call P)} → Q c → Extends base trace → Newest Q base (c ∷ trace)

pub Extends-trans : {P : Platform} (a b c : List (Call P)) → Extends a b → Extends b c → Extends a c
Extends-trans a b c h same = h
Extends-trans a b c h (more k) = more (Extends-trans a b _ h k)

pub Newest-earlier :
    {P : Platform} (Q : Call P → Type 0) (a b c : List (Call P))
    → Extends a b
    → Newest Q b c
    → Newest Q a c
Newest-earlier Q a b c h (newest q k) = newest q (Extends-trans a b _ h k)
