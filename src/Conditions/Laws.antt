-- ===== src/Conditions/Laws.antt =====
-- `SetCondition` writes one type of condition and keeps the types distinct.
use mathlib.Core.Option
use text.Mathlib.TextPositions.{eq_refl}
use zalando_vertical_autosca.Common.{
  String, ◌≡◌, refl, ◌∙◌, inl, inr, true, false, ◌&&◌, Option, none, some, List, [], ◌∷◌, ◌++◌,
  arith, str_eq, eq_iff, if◌then◌else◌, find, modify, Option-cases,
}
use zalando_vertical_autosca.Common.Int.{ℤ}
use zalando_vertical_autosca.Api.{ConditionStatus, condition_true, Condition}
use zalando_vertical_autosca.Conditions.{
  status_eq, has_type, update_condition, set_condition_list, is_condition_true_list,
}

status_eq→eq : (a b : ConditionStatus) → status_eq a b ≡ true → a ≡ b
status_eq→eq a b h = ground arith

status_eq_refl : (a : ConditionStatus) → status_eq a a ≡ true
status_eq_refl a = ground arith

-- No two conditions have one type.
abbrev pub DistinctTypes : List Condition → Type 0
DistinctTypes [] = Unit
DistinctTypes (c ∷ cs) = (find (has_type c.type) cs ≡ none) × DistinctTypes cs

module _ (now generation : ℤ) (type : String) (status : ConditionStatus)
    (reason message : String) where
  abbrev fresh : Condition
  fresh = record {
    type = type;
    status = status;
    reason = reason;
    message = message;
    last_transition_time = now;
    observed_generation = generation;
  }

  abbrev update : Condition → Condition
  update = update_condition now generation status reason message

  find-append_fresh :
      (cs : List Condition) (t : String)
      → find (has_type type) cs ≡ none
      → find (has_type t) (cs ++ (fresh ∷ []))
        ≡ (if str_eq type t then some fresh else find (has_type t) cs)
  find-append_fresh [] t h = refl
  find-append_fresh (c ∷ cs) t h =
      ground (arith, find-append_fresh cs t, eq_iff c.type type, eq_iff c.type t, eq_iff type t)

  find-modify-update :
      (cs : List Condition) (t : String)
      → find (has_type t) (modify (has_type type) update cs)
        ≡ (if str_eq type t then Option.map update (find (has_type t) cs) else find (has_type t) cs)
  unfolding update_condition
  find-modify-update [] t = ground arith
  find-modify-update (c ∷ cs) t =
      ground (arith, find-modify-update cs t, eq_iff c.type type, eq_iff c.type t, eq_iff type t)

  -- What `SetCondition` leaves for the type that it is given.
  abbrev shown : Option Condition → Condition
  shown none = fresh
  shown (some c) =
      if status_eq c.status status && str_eq c.reason reason && str_eq c.message message
      then c
      else update c

  find-set_condition :
      (cs : List Condition) (t : String)
      → find (has_type t) (set_condition_list now generation cs type status reason message).0
        ≡ (if str_eq type t then some (shown (find (has_type type) cs)) else find (has_type t) cs)
  unfolding set_condition_list
  find-set_condition cs t = elim (Option-cases (find (has_type type) cs)) [
    | inl absent ↦ ground (arith, find-append_fresh cs t absent, eq_iff type t)
    | inr (c, found) ↦ ground (arith, find-modify-update cs t, eq_iff type t)
  ]

  -- After the call the condition is true exactly when the given status is, and no other type of
  -- condition has become or ceased to be true.
  pub is_condition_true-set_condition :
      (cs : List Condition) (t : String)
      → is_condition_true_list (set_condition_list now generation cs type status reason message).0 t
        ≡ (if str_eq type t then status_eq status condition_true else is_condition_true_list cs t)
  unfolding is_condition_true_list update_condition
  is_condition_true-set_condition cs t = ground (arith, find-set_condition cs t, eq_iff type t)

  DistinctTypes-append_fresh :
      (cs : List Condition)
      → find (has_type type) cs ≡ none
      → DistinctTypes cs
      → DistinctTypes (cs ++ (fresh ∷ []))
  DistinctTypes-append_fresh [] h d = (refl, tt)
  DistinctTypes-append_fresh (c ∷ cs) h d = ground (
    arith,
    find-append_fresh cs c.type,
    DistinctTypes-append_fresh cs,
    eq_iff c.type type,
    eq_iff type c.type,
  )

  DistinctTypes-modify :
      (cs : List Condition) → DistinctTypes cs → DistinctTypes (modify (has_type type) update cs)
  unfolding update_condition
  DistinctTypes-modify [] d = tt
  DistinctTypes-modify (c ∷ cs) d = ground (
    arith,
    find-modify-update cs c.type,
    DistinctTypes-modify cs,
    eq_iff c.type type,
    eq_iff type c.type,
  )

  set_condition-none :
      (cs : List Condition)
      → find (has_type type) cs ≡ none
      → set_condition_list now generation cs type status reason message ≡ (cs ++ (fresh ∷ []), true)
  unfolding set_condition_list
  set_condition-none cs absent = ground arith

  set_condition-some :
      (cs : List Condition) (c : Condition)
      → find (has_type type) cs ≡ some c
      → set_condition_list now generation cs type status reason message ≡ (
          if status_eq c.status status && str_eq c.reason reason && str_eq c.message message
          then (cs, false)
          else (modify (has_type type) update cs, true))
  unfolding set_condition_list
  set_condition-some cs c found = ground arith

  -- Conditions of distinct types have distinct types after the call.
  pub DistinctTypes-set_condition :
      (cs : List Condition)
      → DistinctTypes cs
      → DistinctTypes (set_condition_list now generation cs type status reason message).0
  DistinctTypes-set_condition cs d = elim (Option-cases (find (has_type type) cs)) [
    | inl absent ↦ rw (set_condition-none cs absent) (DistinctTypes-append_fresh cs absent d)
    | inr (c, found) ↦
        rw (set_condition-some cs c found) (ground (arith, DistinctTypes-modify cs d))
  ]

  set_condition-same :
      (cs : List Condition) (c : Condition)
      → find (has_type type) cs ≡ some c
      → c.status ≡ status
      → c.reason ≡ reason
      → c.message ≡ message
      → set_condition_list now generation cs type status reason message ≡ (cs, false)
  set_condition-same cs c found s r m =
      rw (set_condition-some cs c found)
        (ground (arith, eq_iff c.reason reason, eq_iff c.message message, status_eq_refl status))

  shown_fields :
      (o : Option Condition)
      → ((shown o).status ≡ status) × ((shown o).reason ≡ reason) × ((shown o).message ≡ message)
  unfolding update_condition
  shown_fields none = (refl, refl, refl)
  shown_fields (some c) =
      ground (arith, eq_iff c.reason reason, eq_iff c.message message, status_eq→eq c.status status)

-- A second call with the same arguments, at any later instant, changes nothing and reports so.
pub set_condition_again :
    (now later generation : ℤ) (cs : List Condition) (type : String) (status : ConditionStatus)
    (reason message : String)
    → let once = (set_condition_list now generation cs type status reason message).0 in
      set_condition_list later generation once type status reason message ≡ (once, false)
set_condition_again now later generation cs type status reason message =
    let o = find (has_type type) cs in
    let (s, r, m) = shown_fields now generation type status reason message o in
    set_condition-same later generation type status reason message
      (set_condition_list now generation cs type status reason message).0
      (shown now generation type status reason message o)
      (find-set_condition now generation type status reason message cs type ∙ rw eq_refl) s r m
