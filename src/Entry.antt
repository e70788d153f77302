-- ===== src/Entry.antt =====
-- cmd/main.go: the flags, the scheme and the manager, with `NewPostgresMemoryPolicyReconciler` and
-- `SetupWithManager` of the controller and the registrations of api/v1alpha1. The packages flag,
-- client-go and controller-runtime are parameters; log lines are left out. A run of the program
-- returns from `main` or stops, by os.Exit or a panic.
pub mod Flags
pub mod Serving
pub mod Laws
use zalando_vertical_autosca.Common.{
  ℕ, String, Bool, true, false, List, [], ◌∷◌, str_eq, if◌then◌else◌,
}
use zalando_vertical_autosca.Common.Errors.{Result, ok, err}

-- A flag's variable: it holds the default until the flags are parsed.
pub data FlagValue : Type 0 where
  text_value : String → FlagValue
  bool_value : Bool → FlagValue

-- `flag.Parse` with ExitOnError: it exits by itself, or sets the variables.
pub data Parsed : Type 0 where
  exits_with : ℕ → Parsed
  parsed : List (String × FlagValue) → Parsed

-- `ctrl.Options`, as far as they are set.
pub record ManagerOptions (Scheme : Type 0) : Type 0 where
  pub scheme : Scheme
  pub metrics_bind_address : String
  pub health_probe_bind_address : String
  pub leader_election : Bool
  pub leader_election_id : String

-- The packages that the program is built on.
pub record Packages : Type 1 where
  pub World : Type 0
  pub Scheme : Type 0
  pub Config : Type 0
  pub Manager : Type 0
  pub Client : Type 0
  pub Recorder : Type 0
  pub new_scheme : Scheme  -- runtime.NewScheme()
  pub add_client_go : Scheme → Result Scheme  -- clientgoscheme.AddToScheme
  pub add_vpa : Scheme → Result Scheme  -- vpav1.AddToScheme
  -- scheme.Builder.AddToScheme: a group, a version and the registered kinds
  pub add_kinds : String → String → List String → Scheme → Result Scheme
  pub bind_zap_flags : List (String × FlagValue) → List (String × FlagValue)
  pub parse_flags : List (String × FlagValue) → World → Parsed × World
  pub get_config : World → Result Config × World  -- ctrl.GetConfig, which GetConfigOrDie calls
  pub new_manager : Config → ManagerOptions Scheme → World → Result Manager × World
  pub get_client : Manager → Client
  pub get_scheme : Manager → Scheme
  pub get_event_recorder_for : Manager → String → Recorder
  -- ctrl.NewControllerManagedBy(mgr).For(kind).Complete(reconciler), with the parts that the
  -- reconciler was made of
  pub complete : Manager → String → Client → Scheme → Recorder → World → Result (Unit {0}) × World
  pub add_healthz_check : Manager → String → World → Result (Unit {0}) × World
  pub add_readyz_check : Manager → String → World → Result (Unit {0}) × World
  pub Context : Type 0
  pub setup_signal_handler : World → Context × World  -- ctrl.SetupSignalHandler
  pub start : Manager → Context → World → Result (Unit {0}) × World

module _ (L : Packages) where
  open L use {World, Scheme, Config, Manager, Client, Recorder}

  -- The structs of the controller, each with the client that it was made with.
  pub record VpaReader : Type 0 where
    pub client : Client

  pub record ZalandoPatcher : Type 0 where
    pub client : Client

  pub record PostActionExecutor : Type 0 where
    pub client : Client

  pub record PostgresMemoryPolicyReconciler : Type 0 where
    pub client : Client
    pub scheme : Scheme
    pub recorder : Recorder
    pub vpa_reader : VpaReader
    pub zalando_patcher : ZalandoPatcher
    pub post_actions : PostActionExecutor

  abbrev pub new_vpa_reader : Client → VpaReader
  new_vpa_reader c = record { client = c }

  abbrev pub new_zalando_patcher : Client → ZalandoPatcher
  new_zalando_patcher c = record { client = c }

  abbrev pub new_post_action_executor : Client → PostActionExecutor
  new_post_action_executor c = record { client = c }

  -- The window evaluator, a struct without fields, is left out.
  abbrev pub new_reconciler : Client → Scheme → Recorder → PostgresMemoryPolicyReconciler
  new_reconciler c scheme recorder = record {
    client = c;
    scheme = scheme;
    recorder = recorder;
    vpa_reader = new_vpa_reader c;
    zalando_patcher = new_zalando_patcher c;
    post_actions = new_post_action_executor c;
  }

  -- The steps of the start that can fail, with their answers.
  pub data SetupCall : Type 0 where
    made_manager : ManagerOptions Scheme → Result Manager → SetupCall
    set_up_controller : PostgresMemoryPolicyReconciler → Result (Unit {0}) → SetupCall
    added_healthz added_readyz : String → Result (Unit {0}) → SetupCall
    started_manager : Result (Unit {0}) → SetupCall

  -- The newest call first.
  pub record Setup : Type 0 where
    pub world : World
    pub calls : List SetupCall

  pub data Stop : Type 0 where
    exited : ℕ → Stop
    panicked : Stop

  pub data Step (A : Type 0) : Type 0 where
    goes : A → Setup → Step A
    stops : Stop → Setup → Step A

  abbrev pub Main : Type 0 → Type 0
  Main A = Setup → Step A

module _ {L : Packages} where
  abbrev pub and_then : {A B : Type 0} → Step L A → (A → Main L B) → Step L B
  and_then (goes a s) k = k a s
  and_then (stops how s) k = stops how s

  infixl 5 ◌>>=◌ ◌>>◌
  abbrev pub ◌>>=◌ : {A B : Type 0} → Main L A → (A → Main L B) → Main L B
  ◌>>=◌ m k s = and_then (m s) k

  abbrev pub ◌>>◌ : {B : Type 0} → Main L (Unit {0}) → Main L B → Main L B
  m >> k = m >>= λ _. k

  -- `if err != nil { …; os.Exit(1) }`
  abbrev pub or_exit : {A : Type 0} → Result A → Main L A
  or_exit (ok a) s = goes a s
  or_exit (err e) s = stops (exited 1) s

  -- `utilruntime.Must`
  abbrev pub must : {A : Type 0} → Result A → Main L A
  must (ok a) s = goes a s
  must (err e) s = stops panicked s

  -- A call, which is noted with its answer.
  abbrev pub noted :
      {A : Type 0} → (Result A → SetupCall L) → (L.World → Result A × L.World) → Main L A
  noted note call s =
      let (answer, w) = call s.world in
      or_exit answer (record { world = w; calls = note answer ∷ s.calls })

abbrev pub group : String
group = "pricefx.io"

abbrev pub version : String
version = "v1alpha1"

-- The kinds that types.go registers with the scheme builder.
abbrev pub registered : List String
registered = "PostgresMemoryPolicy" ∷ "PostgresMemoryPolicyList" ∷ []

abbrev pub default_flags : List (String × FlagValue)
default_flags =
    ("metrics-bind-address", text_value ":8080")
    ∷ ("health-probe-bind-address", text_value ":8081")
    ∷ ("leader-elect", bool_value false)
    ∷ []

-- The variables that the flags are bound to.
abbrev pub text_flag : String → List (String × FlagValue) → String
text_flag name [] = ""
text_flag name ((n, text_value s) ∷ rest) = if str_eq n name then s else text_flag name rest
text_flag name ((n, bool_value _) ∷ rest) = text_flag name rest

abbrev pub bool_flag : String → List (String × FlagValue) → Bool
bool_flag name [] = false
bool_flag name ((n, bool_value b) ∷ rest) = if str_eq n name then b else bool_flag name rest
bool_flag name ((n, text_value _) ∷ rest) = bool_flag name rest

module _ (L : Packages) where
  open L use {
    Scheme, Config, Manager, new_scheme, add_client_go, add_vpa, add_kinds, bind_zap_flags,
    parse_flags, get_config, new_manager, get_client, get_scheme, get_event_recorder_for, complete,
    add_healthz_check, add_readyz_check, Context, setup_signal_handler, start,
  }

  -- `init`
  unfoldable pub init_scheme : Main L Scheme
  init_scheme = do
    with_client_go ← must (add_client_go new_scheme)
    with_vpa ← must (add_vpa with_client_go)
    must (add_kinds group version registered with_vpa)

  abbrev pub after_parse : Parsed × L.World → Main L (List (String × FlagValue))
  after_parse (exits_with code, w) s = stops (exited code) (record s { world = w })
  after_parse (parsed vars, w) s = goes vars (record s { world = w })

  unfoldable pub read_flags : Main L (List (String × FlagValue))
  read_flags s = after_parse (parse_flags (bind_zap_flags default_flags) s.world) s

  -- `ctrl.GetConfigOrDie`
  unfoldable pub get_config_or_die : Main L Config
  get_config_or_die s =
      let (answer, w) = get_config s.world in or_exit answer (record s { world = w })

  abbrev pub manager_options : Scheme → List (String × FlagValue) → ManagerOptions Scheme
  manager_options scheme vars = record {
    scheme = scheme;
    metrics_bind_address = text_flag "metrics-bind-address" vars;
    health_probe_bind_address = text_flag "health-probe-bind-address" vars;
    leader_election = bool_flag "leader-elect" vars;
    leader_election_id = "zalando-vertical-autoscaler.pricefx.io";
  }

  -- `SetupWithManager`
  abbrev pub set_up_with_manager :
      PostgresMemoryPolicyReconciler L → Manager → L.World → Result (Unit {0}) × L.World
  set_up_with_manager r mgr = complete mgr "PostgresMemoryPolicy" r.client r.scheme r.recorder

  abbrev pub reconciler_of : Manager → PostgresMemoryPolicyReconciler L
  reconciler_of mgr =
      new_reconciler L (get_client mgr) (get_scheme mgr)
        (get_event_recorder_for mgr "zalando-vertical-autoscaler")

  -- The context that the signals end.
  abbrev pub signal_context : Main L Context
  signal_context s =
      let (ctx, w) = setup_signal_handler s.world in goes ctx (record s { world = w })

  -- What `main` does with the manager.
  unfoldable pub run_manager : Manager → Main L (Unit {0})
  run_manager mgr = do
    noted (set_up_controller (reconciler_of mgr)) (set_up_with_manager (reconciler_of mgr) mgr)
    noted (added_healthz "healthz") (add_healthz_check mgr "healthz")
    noted (added_readyz "readyz") (add_readyz_check mgr "readyz")
    ctx ← signal_context
    noted started_manager (start mgr ctx)

  unfoldable pub main : Scheme → Main L (Unit {0})
  main scheme = do
    vars ← read_flags
    config ← get_config_or_die
    mgr ←
        noted (made_manager (manager_options scheme vars))
          (new_manager config (manager_options scheme vars))
    run_manager mgr

  -- A process: the packages are initialised, and `main` is called.
  unfoldable pub process : L.World → Step L (Unit {0})
  process w = (init_scheme >>= main) (record { world = w; calls = [] })
