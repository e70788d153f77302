-- ===== src/Entry/Laws.antt =====
-- The manager is started last, and only when all before it has succeeded.
use zalando_vertical_autosca.Common.{String, ◌≡◌, ◌⊎◌, List, [], ◌∷◌}
use zalando_vertical_autosca.Common.Errors.{ok}
use zalando_vertical_autosca.Entry.{
  Packages, FlagValue, made_manager, Setup, Step, goes, stops, parsed, Parsed, init_scheme,
  default_flags, manager_options, process,
}
use zalando_vertical_autosca.Entry.Flags.{Follows}
use zalando_vertical_autosca.Entry.Serving.{Halts, Serves}

module _ {L : Packages} where
  -- The manager is made with the scheme and the flags, and serves; or the run halts.
  abbrev EndsWith : Parsed → L.Scheme → Step L (Unit {0}) → Type 0
  EndsWith answer scheme e =
      ((vars : List (String × FlagValue)) × (answer ≡ parsed vars)
        × (mgr : L.Manager) × Serves mgr
            (made_manager (manager_options L scheme vars) (ok mgr) ∷ []) e)
      ⊎ Halts e

  -- `init` makes no call.
  abbrev setup_of : {A : Type 0} → Step L A → Setup L
  setup_of (goes _ s) = s
  setup_of (stops _ s) = s

module _ (L : Packages) where
  -- The setup before any call.
  abbrev pub at_start : L.World → Setup L
  at_start w = record { world = w; calls = [] }

  -- The manager was made with the scheme of `init` and with the flags as they were parsed, and
  -- serves.
  abbrev pub IsServed : L.World → Type 0
  IsServed w =
      (scheme : L.Scheme) × (init_scheme L (at_start w) ≡ goes scheme (at_start w))
      × (vars : List (String × FlagValue)) × ((L.parse_flags (L.bind_zap_flags default_flags) w).0
          ≡ parsed vars)
      × Follows L scheme vars (manager_options L scheme vars)
      × (mgr : L.Manager) × Serves mgr (made_manager (manager_options L scheme vars) (ok mgr) ∷ [])
          (process L w)
