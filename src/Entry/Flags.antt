-- ===== src/Entry/Flags.antt =====
-- The options of the manager follow the flags.
use zalando_vertical_autosca.Common.{
  ◌≡◌, refl, inl, inr, Option, some, none, Bool, str_eq, Bool-cases, String, List, [], ◌∷◌,
}
use zalando_vertical_autosca.Entry.{
  Packages, FlagValue, text_value, bool_value, ManagerOptions, text_flag, bool_flag,
  manager_options,
}
use zalando_vertical_autosca.Vpa.{lookup}

-- An option has the value of a flag's variable, if that is of its type.
abbrev pub HasText : Option FlagValue → String → Type 0
HasText (some (text_value s)) option = option ≡ s
HasText (some (bool_value _)) option = Unit
HasText none option = Unit

abbrev pub HasBool : Option FlagValue → Bool → Type 0
HasBool (some (bool_value b)) option = option ≡ b
HasBool (some (text_value _)) option = Unit
HasBool none option = Unit

text_flag-HasText :
    (name : String) (vars : List (String × FlagValue))
    → HasText (lookup vars name) (text_flag name vars)
text_flag-HasText name [] = tt
text_flag-HasText name ((n, text_value s) ∷ rest) = elim (Bool-cases (str_eq n name)) [
  | inl this ↦ rw this refl
  | inr other ↦ rw other (text_flag-HasText name rest)
]
text_flag-HasText name ((n, bool_value b) ∷ rest) = elim (Bool-cases (str_eq n name)) [
  | inl this ↦ rw this tt
  | inr other ↦ rw other (text_flag-HasText name rest)
]

bool_flag-HasBool :
    (name : String) (vars : List (String × FlagValue))
    → HasBool (lookup vars name) (bool_flag name vars)
bool_flag-HasBool name [] = tt
bool_flag-HasBool name ((n, bool_value b) ∷ rest) = elim (Bool-cases (str_eq n name)) [
  | inl this ↦ rw this refl
  | inr other ↦ rw other (bool_flag-HasBool name rest)
]
bool_flag-HasBool name ((n, text_value s) ∷ rest) = elim (Bool-cases (str_eq n name)) [
  | inl this ↦ rw this tt
  | inr other ↦ rw other (bool_flag-HasBool name rest)
]

module _ (L : Packages) where
  -- The manager's options have the scheme, and what the flags were set to.
  abbrev pub Follows : L.Scheme → List (String × FlagValue) → ManagerOptions L.Scheme → Type 0
  Follows scheme vars options =
      (options.scheme ≡ scheme)
      × HasText (lookup vars "metrics-bind-address") options.metrics_bind_address
      × HasText (lookup vars "health-probe-bind-address") options.health_probe_bind_address
      × HasBool (lookup vars "leader-elect") options.leader_election
      × (options.leader_election_id ≡ "zalando-vertical-autoscaler.pricefx.io")

  pub manager_options-Follows :
      (scheme : L.Scheme) (vars : List (String × FlagValue))
      → Follows scheme vars (manager_options L scheme vars)
  manager_options-Follows scheme vars = (
    refl,
    text_flag-HasText "metrics-bind-address" vars,
    text_flag-HasText "health-probe-bind-address" vars,
    bool_flag-HasBool "leader-elect" vars,
    refl,
  )
