-- ===== src/Reconcile/Limits.antt =====
-- The memory that a reconcile asks for is limited by the policy.
use zalando_vertical_autosca.Common.{◌≡◌, ◌≢◌, inl, inr, ◌⊎◌, ◌∷◌, arith}
use zalando_vertical_autosca.Common.Errors.{Result, ok, err, GoError}
use zalando_vertical_autosca.Api.{VerticalPodAutoscaler}
use zalando_vertical_autosca.Platform.{Platform, IsOrder}
use zalando_vertical_autosca.Monad.{State}
use zalando_vertical_autosca.Monad.Post.{Post, Post-map}
use zalando_vertical_autosca.Monad.Trace.{Update, updates}
use zalando_vertical_autosca.Vpa.{VpaRecommendation, recommend}
use zalando_vertical_autosca.Vpa.Laws.{AtMost, recommend-IsChosen}
use zalando_vertical_autosca.Reconcile.Policy.{reconcile_policy}
use zalando_vertical_autosca.Reconcile.Intents.{Sends, IsInitial, Updated}
use zalando_vertical_autosca.Reconcile.Updates.{reconcile_policy-Updated}

module _ (P : Platform) (order : IsOrder P.quantities) (s : State P)
    (bounds : AtMost P.quantities order s.policy.spec.memory_min s.policy.spec.memory_max) where
  open P use {quantities}

  failed_not_ok :
      (e : GoError) (rec : VpaRecommendation quantities.Quantity)
      → recommend P s.policy (err e) ≢ ok rec
  unfolding recommend
  failed_not_ok e rec h = ground arith

  recommended-AtMost :
      (answer : Result (VerticalPodAutoscaler quantities.Quantity))
      (rec : VpaRecommendation quantities.Quantity)
      → recommend P s.policy answer ≡ ok rec
      → AtMost quantities order rec.memory s.policy.spec.memory_max
  recommended-AtMost (ok vpa) rec e =
      let (_, _, _, _, limit) = recommend-IsChosen P order s.policy vpa rec bounds e in limit
  recommended-AtMost (err x) rec e = absurd (failed_not_ok x rec e)

  -- The update asks for the policy's initial memory, or for no more than its maximum.
  abbrev pub Limited : Update → Type 0
  Limited up =
      (rec : VpaRecommendation quantities.Quantity) × Sends P s rec up
      × (IsInitial P s rec ⊎ AtMost quantities order rec.memory s.policy.spec.memory_max)

  abbrev pub SendsLimited : State P → Type 0
  SendsLimited u =
      (updates u.trace ≡ updates s.trace)
      ⊎ ((up : Update) × (updates u.trace ≡ up ∷ updates s.trace) × Limited up)

  Updated-SendsLimited : (u : State P) → Updated P s u → SendsLimited u
  Updated-SendsLimited u (inl e) = inl e
  Updated-SendsLimited u (inr (up, e, (rec, inl initial, sends))) =
      inr (up, e, (rec, sends, inl initial))
  Updated-SendsLimited u (inr (up, e, (rec, inr (w, chosen), sends))) =
      inr (up, e, (rec, sends, inr (recommended-AtMost _ rec chosen)))

  -- If Cmp is an order as documented and the policy's bounds are in order, a reconcile, however it
  -- ends, sends the cluster nothing, or one update, whose patch asks for the policy's initial memory
  -- or for a memory that is not above the policy's maximum.
  pub reconcile_policy-SendsLimited :
      Post (λ u. SendsLimited u) (λ _ u. SendsLimited u) (reconcile_policy P s)
  reconcile_policy-SendsLimited =
      Post-map _ _ _ _ (reconcile_policy P s) (reconcile_policy-Updated P s)
        (λ u h. Updated-SendsLimited u h) (λ _ u h. Updated-SendsLimited u h)
