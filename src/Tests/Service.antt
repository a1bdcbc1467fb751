-- ===== src/Tests/Service.antt =====
-- Tests of the node's service and of the command line.
use Prim.Native.String.{String}
use aleph_node.Common.{ℕ, ◌≡◌, refl, Bool, true, false, none, some, [], ◌∷◌}
use aleph_node.Client.{ok}
use aleph_node.Genesis.{ChainSpec}
use aleph_node.Service.{
  Parts, done, err, telemetry, aura, aleph, CrateTask, crate_spawned, call, fresh, ◌>>=◌, spawn,
  start_network,
}
use aleph_node.Service.Partial.{PartialCalls, new_partial, new_metrics}
use aleph_node.Service.Full.{FullCalls, new_full, start_authority}
use aleph_node.Service.Command.{Cli, CommandCalls, dispatch, run}
use aleph_node.Import
use aleph_node.Metrics.{register}
use aleph_node.Service.Dispatch.{AfterRun, run-AfterRun}
use aleph_node.Tests.Genesis.{crypto, keystores, before}

abbrev parts : Parts
parts = record {
  Client = ℕ;
  Backend = ℕ;
  Keystore = ℕ;
  SelectChain = ℕ;
  Pool = ℕ;
  Queue = ℕ;
  NetworkService = ℕ;
  Rpc = ℕ;
  Extension = ℕ;
  Starter = ℕ;
  Endpoint = ℕ;
  Worker = ℕ;
  Telemetry = ℕ;
  Handle = ℕ;
  Registry = ℕ;
  Proposer = ℕ;
  Aura = ℕ;
  Justification = ℕ;
  Settings = ℕ;
  Future = ℕ;
  Error = ℕ;
}

-- A task of the crates.
abbrev task_of : String → Bool → ℕ → CrateTask parts
task_of name blocking future = record { name = name; blocking = blocking; future = future }

abbrev partial_calls : PartialCalls parts
partial_calls = record {
  telemetry_worker = λ size. done size;
  new_telemetry = λ worker endpoints. worker;
  handle = λ t. t;
  new_full_parts = λ config handle. (done (1, 2, 3), []);
  longest_chain = λ backend. backend;
  new_pool = λ settings is_authority registry client. (settings, task_of "pool" false 21 ∷ []);
  takes_gauges = λ registry. true;
  slot_duration = λ client. done 1000;
  import_queue = λ params. (done params.slot_duration, task_of "import" true 22 ∷ []);
}

abbrev full_calls : FullCalls parts
full_calls = record {
  partial = partial_calls;
  build_network = λ params. (done (4, 5, 6), task_of "network" false 23 ∷ []);
  session_period = λ client number. ok 900;
  millisecs_per_block = λ client number. ok 4000;
  full_system = λ client pool deny_unsafe. pool;
  transaction_payment = λ client. client;
  spawn_tasks = λ params. (done tt, (true, task_of "rpc" false 24) ∷ []);
  proposer_factory = λ client pool registry. client;
  start_aura = λ params. done params.slot_duration;
}

-- A configuration of an authority with metrics; a command is a number.
abbrev calls : CommandCalls parts ℕ (ChainSpec String ℕ ℕ)
calls = record {
  full = full_calls;
  create_runner = λ cmd. done (record {
    telemetry_endpoints = some (7 ∷ []);
    is_authority = true;
    prometheus_registry = some 8;
    extra_sets = [];
    force_authoring = false;
    settings = cmd;
  });
  run_key = λ cmd cli. done tt;
  run_check_block = λ cmd client queue. done tt;
  run_export_blocks = λ cmd client settings. done tt;
  run_export_state = λ cmd client settings. done tt;
  run_import_blocks = λ cmd client queue. err 9;
  run_purge_chain = λ cmd settings. done tt;
  run_revert = λ cmd client backend. done tt;
  spec_error = λ text. 0;
  build_spec = λ spec raw. done "";
}

abbrev cli : Cli ℕ
cli = record { subcommand = none; run = 10 }

starts : run calls keystores (λ a. a) crypto (some "wasm") before cli fresh ≡ (
  done tt,
  record {
    tasks =
        record { name = "telemetry"; essential = false; blocking = false; task = telemetry 16 }
        ∷ crate_spawned true (task_of "pool" false 21)
        ∷ crate_spawned true (task_of "import" true 22)
        ∷ crate_spawned false (task_of "network" false 23)
        ∷ crate_spawned true (task_of "rpc" false 24)
        ∷ record { name = "aura"; essential = true; blocking = true; task = aura 1000 }
        ∷ record {
          name = "aleph";
          essential = true;
          blocking = true;
          task = aleph (record {
            network = 4;
            client = 1;
            select_chain = 2;
            keystore = 3;
            justification_rx = [];
            metrics = some register;
            session_period = 900;
            millisecs_per_block = 4000;
          });
        }
        ∷ [];
    network_started = some 6;
  },
)
unfolding run dispatch new_full new_partial ◌>>=◌ spawn call start_network start_authority
    new_metrics Import.new
starts = refl

run-AfterRun_example :
    AfterRun calls keystores
      (λ a. a)
      crypto
      (some "wasm")
      before
      cli
      cli.subcommand
      (run calls keystores (λ a. a) crypto (some "wasm") before cli fresh)
run-AfterRun_example = run-AfterRun calls keystores (λ a. a) crypto (some "wasm") before cli
