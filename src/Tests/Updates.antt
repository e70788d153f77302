-- ===== src/Tests/Updates.antt =====
-- The update that a reconcile of the sample policy sends.
use zalando_vertical_autosca.Common.{arith}
use zalando_vertical_autosca.Common.Int.{◌-ℤ◌}
use zalando_vertical_autosca.Monad.Post.{Post}
use zalando_vertical_autosca.Vpa.Laws.{AtMost}
use zalando_vertical_autosca.Reconcile.Intents.{Updated}
use zalando_vertical_autosca.Reconcile.Updates.{reconcile_policy-Updated}
use zalando_vertical_autosca.Reconcile.Limits.{SendsLimited, reconcile_policy-SendsLimited}
use zalando_vertical_autosca.Reconcile.Policy.{reconcile_policy}
use zalando_vertical_autosca.Tests.Sample.{start}
use zalando_vertical_autosca.Tests.World.{gi, whole_units, whole_units-IsOrder, small_platform}

reconcile_policy-Updated_example :
    Post
      (λ u. Updated small_platform start u)
      (λ _ u. Updated small_platform start u)
      (reconcile_policy small_platform start)
reconcile_policy-Updated_example = reconcile_policy-Updated small_platform start

bounds_in_order : AtMost whole_units whole_units-IsOrder (gi 1) (gi 40)
unfolding ◌-ℤ◌
bounds_in_order = omega arith

reconcile_policy-SendsLimited_example :
    Post
      (λ u. SendsLimited small_platform whole_units-IsOrder start bounds_in_order u)
      (λ _ u. SendsLimited small_platform whole_units-IsOrder start bounds_in_order u)
      (reconcile_policy small_platform start)
reconcile_policy-SendsLimited_example =
    reconcile_policy-SendsLimited small_platform whole_units-IsOrder start bounds_in_order
