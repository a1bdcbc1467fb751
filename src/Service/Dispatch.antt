-- ===== src/Service/Dispatch.antt =====
-- What `run` of bin/node/src/command.rs starts.
use Prim.Native.String.{String}
use aleph_node.Common.{◌≡◌, refl, Option, none, some}
use aleph_node.Genesis.{ChainSpec, Crypto}
use aleph_node.Bootstrap.{Keystores}
use aleph_node.Service.{
  Parts, Configuration, Node, fresh, Result, done, err, panicked, try, PartialComponents,
}
use aleph_node.Service.Partial.{new_partial}
use aleph_node.Service.Full.{new_full}
use aleph_node.Service.Command.{
  Cli, Subcommand, key, bootstrap_chain, check_block, export_blocks, export_state, import_blocks,
  purge_chain, revert, CommandCalls, bootstrap, async_run, run_subcommand, dispatch, run,
}
use aleph_node.Service.Leads.{
  Answers, IsIdle, Leads, bind-Leads, try_bind, new_partial-IsMade, IsMade,
}
use aleph_node.Service.Starts.{IsReliable, IsStarted, new_full-Leads}

module _ {P : Parts} {Cmd F U K A Public : Type 0} (calls : CommandCalls P Cmd (ChainSpec A U K))
    (stores : Keystores F U K) (account_to_string : A → String) (crypto : Crypto Public A)
    (wasm : Option String) (keystores : F) where
  abbrev Idle : {B : Type 0} → B → Node P → Type 0
  Idle _ = IsIdle

  try-Idle : (r : Result P (Unit {0})) (node : Node P) → IsIdle node → Leads ⊥ Idle (try r node)
  try-Idle (done a) node i = i
  try-Idle (err e) node i = (i, λ h. h)
  try-Idle panicked node i = (i, λ h. h)

  async_run-Idle :
      (cmd : Cmd) (on_parts : Configuration P → PartialComponents P → Result P (Unit {0}))
      (node : Node P)
      → IsIdle node
      → Leads ⊥ Idle
          (async_run calls stores account_to_string crypto wasm keystores cmd on_parts node)
  unfolding async_run
  async_run-Idle cmd on_parts node i =
      try_bind ⊥ Idle (calls.create_runner cmd) _ node i (λ h. absurd h)
        (λ config e.
          bind-Leads ⊥ (IsMade calls.full.partial config.prometheus_registry) Idle
            (new_partial calls.full.partial config) _ node
            (new_partial-IsMade ⊥ calls.full.partial config node i (λ h. absurd h))
            (λ parts node' m. try-Idle (on_parts config parts) node' m.idle))

  run_subcommand-Idle :
      (cli : Cli Cmd) (subcommand : Subcommand Cmd) (node : Node P)
      → IsIdle node
      → Leads ⊥ Idle
          (run_subcommand calls stores account_to_string crypto wasm keystores cli subcommand node)
  unfolding run_subcommand bootstrap
  run_subcommand-Idle cli (bootstrap_chain cmd) node i =
      try_bind ⊥ Idle _ _ node i (λ h. absurd h) (λ json e. i)
  run_subcommand-Idle cli (key cmd) node i = try-Idle (calls.run_key cmd cli) node i
  run_subcommand-Idle cli (check_block cmd) node i = async_run-Idle cmd _ node i
  run_subcommand-Idle cli (export_blocks cmd) node i = async_run-Idle cmd _ node i
  run_subcommand-Idle cli (export_state cmd) node i = async_run-Idle cmd _ node i
  run_subcommand-Idle cli (import_blocks cmd) node i = async_run-Idle cmd _ node i
  run_subcommand-Idle cli (purge_chain cmd) node i =
      try_bind ⊥ Idle (calls.create_runner cmd) _ node i (λ h. absurd h)
        (λ config e. try-Idle (calls.run_purge_chain cmd config.settings) node i)
  run_subcommand-Idle cli (revert cmd) node i = async_run-Idle cmd _ node i

  -- A configuration is made of the command line, and no call of `new_full` fails.
  abbrev pub IsUp : Cli Cmd → Type 0
  IsUp cli = Answers (calls.create_runner cli.run) × IsReliable calls.full

  -- The node is started for the configuration that is made of the command line.
  abbrev pub IsServed : Cli Cmd → Node P → Type 0
  IsServed cli node =
      (config : Configuration P) × (calls.create_runner cli.run ≡ done config)
      × IsStarted calls.full config node

  -- The node that the program leaves: idle after a subcommand; and if there is none, served, or idle
  -- after a call that failed.
  abbrev pub AfterRun : Cli Cmd → Option (Subcommand Cmd) → Result P (Unit {0}) × Node P → Type 0
  AfterRun cli (some subcommand) o = IsIdle o.1
  AfterRun cli none o = Leads (IsUp cli) (λ _. IsServed cli) o

  Leads-Idle : (o : Result P (Unit {0}) × Node P) → Leads ⊥ Idle o → IsIdle o.1
  Leads-Idle (done a, node) l = l
  Leads-Idle (err e, node) l = l.0
  Leads-Idle (panicked, node) l = l.0

  Leads-IsServed :
      (cli : Cli Cmd) (config : Configuration P) (o : Result P (Unit {0}) × Node P)
      → calls.create_runner cli.run ≡ done config
      → Leads (IsUp cli) (λ _. IsStarted calls.full config) o
      → Leads (IsUp cli) (λ _. IsServed cli) o
  Leads-IsServed cli config (done a, node) e l = (config, e, l)
  Leads-IsServed cli config (err x, node) e l = l
  Leads-IsServed cli config (panicked, node) e l = l

  dispatch-AfterRun :
      (cli : Cli Cmd) (subcommand : Option (Subcommand Cmd))
      → AfterRun cli subcommand
          (dispatch calls stores account_to_string crypto wasm keystores cli subcommand fresh)
  unfolding dispatch
  dispatch-AfterRun cli (some subcommand) =
      Leads-Idle
        (run_subcommand calls stores account_to_string crypto wasm keystores cli subcommand fresh)
        (run_subcommand-Idle cli subcommand fresh (tt, refl))
  dispatch-AfterRun cli none =
      try_bind (IsUp cli) (λ _. IsServed cli) (calls.create_runner cli.run) _ fresh (tt, refl)
        (λ up. up.0)
        (λ config e.
          Leads-IsServed cli config (new_full calls.full config fresh) e
            (new_full-Leads (IsUp cli) calls.full config fresh (tt, refl) (λ up. up.1)))

  -- What the program starts, whatever the crates' calls answer and whatever tasks of their own they
  -- spawn. A subcommand starts neither the network nor the making of blocks nor the consensus,
  -- whether it succeeds or not. Without a subcommand,
  -- the program fails or panics only if one of the calls does, and then neither the network nor the
  -- making of blocks nor the consensus has been started. Otherwise the network is started, and after
  -- the tasks of the telemetry and of the crates an authority runs two essential tasks, first the making of blocks and then the consensus, which has
  -- the session period and the block time that the runtime answers at block 0, the metrics of the
  -- configuration's registry, and an empty channel of justifications; another node runs neither.
  pub run-AfterRun :
      (cli : Cli Cmd)
      → AfterRun cli cli.subcommand
          (run calls stores account_to_string crypto wasm keystores cli fresh)
  unfolding run
  run-AfterRun cli = dispatch-AfterRun cli cli.subcommand
