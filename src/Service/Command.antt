-- ===== src/Service/Command.antt =====
-- `run` of bin/node/src/command.rs, with `BootstrapChainCmd::run` of bin/node/src/commands.rs from the
-- specification on. Substrate's own commands are of type `Cmd`.
use Prim.Native.String.{String}
use aleph_node.Common.{Bool, Option, none, some}
use aleph_node.Genesis.{ChainParams, ChainSpec, Crypto, SpecResult}
use aleph_node.Bootstrap.{Keystores}
use aleph_node.Bootstrap
use aleph_node.Service.{
  Parts, Configuration, Result, err, panicked, Action, pure, try, ◌>>=◌, PartialComponents,
}
use aleph_node.Service.Partial.{new_partial}
use aleph_node.Service.Full.{FullCalls, new_full}

pub record BootstrapChainCmd : Type 0 where
  pub raw : Bool
  pub chain_params : ChainParams

pub data Subcommand (Cmd : Type 0) : Type 0 where
  key : Cmd → Subcommand Cmd
  bootstrap_chain : BootstrapChainCmd → Subcommand Cmd
  check_block : Cmd → Subcommand Cmd
  export_blocks : Cmd → Subcommand Cmd
  export_state : Cmd → Subcommand Cmd
  import_blocks : Cmd → Subcommand Cmd
  purge_chain : Cmd → Subcommand Cmd
  revert : Cmd → Subcommand Cmd

pub record Cli (Cmd : Type 0) : Type 0 where
  pub subcommand : Option (Subcommand Cmd)
  pub run : Cmd

-- What Substrate's commands do with what they are given (the database and the chain's specification
-- are among the settings), and the building of a specification's text.
pub record CommandCalls (P : Parts) (Cmd Spec : Type 0) : Type 0 where
  pub full : FullCalls P
  pub create_runner : Cmd → Result P (Configuration P)
  pub run_key : Cmd → Cli Cmd → Result P (Unit {0})
  pub run_check_block : Cmd → P.Client → P.Queue → Result P (Unit {0})
  pub run_export_blocks : Cmd → P.Client → P.Settings → Result P (Unit {0})
  pub run_export_state : Cmd → P.Client → P.Settings → Result P (Unit {0})
  pub run_import_blocks : Cmd → P.Client → P.Queue → Result P (Unit {0})
  pub run_purge_chain : Cmd → P.Settings → Result P (Unit {0})
  pub run_revert : Cmd → P.Client → P.Backend → Result P (Unit {0})
  pub spec_error : String → P.Error
  pub build_spec : Spec → Bool → Result P String

module _ {P : Parts} {Cmd F U K A Public : Type 0} (calls : CommandCalls P Cmd (ChainSpec A U K))
    (stores : Keystores F U K) (account_to_string : A → String) (crypto : Crypto Public A)
    (wasm : Option String) (keystores : F) where
  abbrev pub built : Bool → Option (SpecResult (ChainSpec A U K) × F) → Result P String
  built raw none = panicked
  built raw (some (SpecResult.err e, f)) = err (calls.spec_error e)
  built raw (some (SpecResult.ok spec, f)) = calls.build_spec spec raw

  -- `BootstrapChainCmd::run`; what comes of writing the text to the output is ignored.
  unfoldable pub bootstrap : BootstrapChainCmd → Action P (Unit {0})
  unfolding Bootstrap.run
  bootstrap cmd = do
    json ← try (
        built cmd.raw
          (Bootstrap.run stores account_to_string crypto wasm cmd.chain_params keystores))
    pure tt

  -- `create_runner` and `async_run`: the components are made, then the command runs on them.
  unfoldable pub async_run :
      Cmd → (Configuration P → PartialComponents P → Result P (Unit {0})) → Action P (Unit {0})
  async_run cmd on_parts = do
    config ← try (calls.create_runner cmd)
    parts ← new_partial calls.full.partial config
    try (on_parts config parts)

  unfoldable pub run_subcommand : Cli Cmd → Subcommand Cmd → Action P (Unit {0})
  unfolding bootstrap async_run
  run_subcommand cli (bootstrap_chain cmd) = bootstrap cmd
  run_subcommand cli (key cmd) = try (calls.run_key cmd cli)
  run_subcommand cli (check_block cmd) =
      async_run cmd (λ config parts. calls.run_check_block cmd parts.client parts.import_queue)
  run_subcommand cli (export_blocks cmd) =
      async_run cmd (λ config parts. calls.run_export_blocks cmd parts.client config.settings)
  run_subcommand cli (export_state cmd) =
      async_run cmd (λ config parts. calls.run_export_state cmd parts.client config.settings)
  run_subcommand cli (import_blocks cmd) =
      async_run cmd (λ config parts. calls.run_import_blocks cmd parts.client parts.import_queue)
  run_subcommand cli (purge_chain cmd) = do
    config ← try (calls.create_runner cmd)
    try (calls.run_purge_chain cmd config.settings)
  run_subcommand cli (revert cmd) =
      async_run cmd (λ config parts. calls.run_revert cmd parts.client parts.backend)

  -- The `match` of `run`.
  unfoldable pub dispatch : Cli Cmd → Option (Subcommand Cmd) → Action P (Unit {0})
  unfolding run_subcommand
  dispatch cli (some subcommand) = run_subcommand cli subcommand
  dispatch cli none = do config ← try (calls.create_runner cli.run); new_full calls.full config

  -- `run`, up to the exit signal of the node.
  unfoldable pub run : Cli Cmd → Action P (Unit {0})
  unfolding dispatch
  run cli = dispatch cli cli.subcommand
