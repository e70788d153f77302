-- ===== src/Tests/Entries.antt =====
-- The process on packages that are counted calls: the third call of the process fails, or none does.
use zalando_vertical_autosca.Common.{
  ℕ, suc, ◌≡◌, refl, List, [], ◌∷◌, String, ◌==◌, if◌then◌else◌, true,
}
use zalando_vertical_autosca.Common.Errors.{Result, ok, err, plain}
use zalando_vertical_autosca.Entry.{
  Packages, parsed, Step, stops, exited, process, init_scheme, read_flags, get_config_or_die,
  run_manager, main,
}
use zalando_vertical_autosca.Entry.Serving.{has_returned}

-- The world counts the calls. The call with the number `bad` fails.
abbrev counted : {A : Type 0} → ℕ → A → ℕ → Result A × ℕ
counted bad a n = (if n == bad then err (plain "failed") else ok a, suc n)

abbrev counting : ℕ → Packages
counting bad = record {
  World = ℕ;
  Scheme = List String;
  Config = String;
  Manager = String;
  Client = String;
  Recorder = String;
  new_scheme = [];
  add_client_go = λ s. ok ("core" ∷ s);
  add_vpa = λ s. ok ("vpa" ∷ s);
  add_kinds = λ group version kinds s. ok (group ∷ s);
  bind_zap_flags = λ flags. flags;
  parse_flags = λ flags n. (parsed flags, suc n);
  get_config = counted bad "config";
  new_manager = λ config options. counted bad "manager";
  get_client = λ mgr. "client";
  get_scheme = λ mgr. [];
  get_event_recorder_for = λ mgr name. name;
  complete = λ mgr kind client scheme recorder. counted bad tt;
  add_healthz_check = λ mgr name. counted bad tt;
  add_readyz_check = λ mgr name. counted bad tt;
  Context = String;
  setup_signal_handler = λ n. ("signals", suc n);
  start = λ mgr ctx. counted bad tt;
}

process_returns : has_returned (process (counting 100) 0) ≡ true
unfolding process init_scheme main read_flags get_config_or_die run_manager
process_returns = refl

-- The readiness check is refused: the process exits with 1.
exit_of : {A : Type 0} {L : Packages} → Step L A → List ℕ
exit_of (stops (exited code) s) = code ∷ []
exit_of _ = []

process_exits : exit_of (process (counting 5) 0) ≡ 1 ∷ []
unfolding exit_of process init_scheme main read_flags get_config_or_die run_manager
process_exits = refl
