-- ===== src/Service/Full.antt =====
-- `new_full` of bin/node/src/service.rs, and bin/node/src/rpc.rs, which it hands to Substrate.
use aleph_node.Common.{ℕ, Bool, true, false, Option, List, [], ◌∷◌, ◌++◌, if◌then◌else◌}
use aleph_node.Client.{BackendResult}
use aleph_node.Import.{AlephBlockImport}
use aleph_node.Service.{
  Parts, Configuration, CrateTask, call, by_handle, by_manager, AlephConfig, aura, aleph, Result,
  Action, pure, try, unwrap, spawn, start_network, ◌>>=◌, ◌>>◌, PartialComponents, peers_set_config,
}
use aleph_node.Service.Partial.{PartialCalls, new_partial, handle_of}

-- `BuildNetworkParams`
pub record BuildNetworkParams (P : Parts) : Type 0 where
  pub config : Configuration P
  pub client : P.Client
  pub transaction_pool : P.Pool
  pub import_queue : P.Queue

-- `SpawnTasksParams`: the builder of extensions is given whether unsafe calls are denied.
pub record SpawnTasksParams (P : Parts) : Type 0 where
  pub network : P.NetworkService
  pub client : P.Client
  pub keystore : P.Keystore
  pub transaction_pool : P.Pool
  pub rpc_extensions_builder : Bool → List P.Extension
  pub backend : P.Backend
  pub system_rpc_tx : P.Rpc
  pub config : Configuration P
  pub telemetry : Option P.Telemetry

-- `StartAuraParams`; the raw slot duration is that of the inherent data which it makes for a block.
pub record StartAuraParams (P : Parts) : Type 0 where
  pub slot_duration : ℕ
  pub client : P.Client
  pub select_chain : P.SelectChain
  pub block_import : AlephBlockImport P.Client P.Justification
  pub proposer_factory : P.Proposer
  pub raw_slot_duration : ℕ
  pub force_authoring : Bool
  pub keystore : P.Keystore
  pub sync_oracle : P.NetworkService
  pub justification_sync_link : P.NetworkService
  pub telemetry : Option P.Handle

-- The calls of Substrate in `new_full` and in `create_full`; those of the runtime are given the number
-- of the block at which they are made. The network is given the handle for spawning tasks, and
-- `spawn_tasks` the task manager; the tasks that they spawn are the second part of what they give.
-- The proposer and the consensus use their handle only when their own tasks run.
pub record FullCalls (P : Parts) : Type 0 where
  pub partial : PartialCalls P
  pub build_network :
      BuildNetworkParams P → Result P (P.NetworkService × P.Rpc × P.Starter) × List (CrateTask P)
  pub session_period : P.Client → ℕ → BackendResult ℕ
  pub millisecs_per_block : P.Client → ℕ → BackendResult ℕ
  pub full_system : P.Client → P.Pool → Bool → P.Extension
  pub transaction_payment : P.Client → P.Extension
  pub spawn_tasks : SpawnTasksParams P → Result P (Unit {0}) × List (Bool × CrateTask P)
  pub proposer_factory : P.Client → P.Pool → Option P.Registry → P.Proposer
  pub start_aura : StartAuraParams P → Result P P.Aura

-- `FullDeps`
pub record FullDeps (P : Parts) : Type 0 where
  pub client : P.Client
  pub pool : P.Pool
  pub deny_unsafe : Bool

module _ {P : Parts} (calls : FullCalls P) where
  -- The two extensions of the handler, in their order.
  unfoldable pub create_full : FullDeps P → List P.Extension
  create_full deps =
      calls.full_system deps.client deps.pool deps.deny_unsafe
      ∷ calls.transaction_payment deps.client
      ∷ []

  -- What an authority starts: the making of blocks, and the consensus.
  unfoldable pub start_authority :
      Configuration P → PartialComponents P → P.NetworkService → ℕ → ℕ → Action P (Unit {0})
  start_authority config parts network session_period millisecs_per_block = do
    slot_duration ← try (calls.partial.slot_duration parts.client)
    future ← try (
        calls.start_aura (record {
          slot_duration = slot_duration;
          client = parts.client;
          select_chain = parts.select_chain;
          block_import = parts.block_import;
          proposer_factory =
              calls.proposer_factory parts.client parts.transaction_pool config.prometheus_registry;
          raw_slot_duration = slot_duration;
          force_authoring = config.force_authoring;
          keystore = parts.keystore_container;
          sync_oracle = network;
          justification_sync_link = network;
          telemetry = handle_of calls.partial parts.telemetry;
        }))
    spawn (record { name = "aura"; essential = true; blocking = true; task = aura future })
    let aleph_config : AlephConfig P = record {
      network = network;
      client = parts.client;
      select_chain = parts.select_chain;
      keystore = parts.keystore_container;
      justification_rx = parts.justification_rx;
      metrics = parts.metrics;
      session_period = session_period;
      millisecs_per_block = millisecs_per_block;
    }
    spawn (record { name = "aleph"; essential = true; blocking = true; task = aleph aleph_config })

  -- `new_full`, whose configuration is extended by the set of peers.
  unfoldable pub new_full : Configuration P → Action P (Unit {0})
  unfolding create_full start_authority peers_set_config
  new_full given = do
    parts ← new_partial calls.partial given
    let config : Configuration P = record given {
      extra_sets = given.extra_sets ++ peers_set_config ∷ [];
    }
    let new_network = calls.build_network (record {
      config = config;
      client = parts.client;
      transaction_pool = parts.transaction_pool;
      import_queue = parts.import_queue;
    })
    net ← call new_network.0 (by_handle false new_network.1)
    session_period ← unwrap (calls.session_period parts.client 0)
    millisecs_per_block ← unwrap (calls.millisecs_per_block parts.client 0)
    let rpc_tasks = calls.spawn_tasks (record {
      network = net.0;
      client = parts.client;
      keystore = parts.keystore_container;
      transaction_pool = parts.transaction_pool;
      rpc_extensions_builder = λ deny_unsafe. create_full (record {
        client = parts.client;
        pool = parts.transaction_pool;
        deny_unsafe = deny_unsafe;
      });
      backend = parts.backend;
      system_rpc_tx = net.1;
      config = config;
      telemetry = parts.telemetry;
    })
    call rpc_tasks.0 (by_manager rpc_tasks.1)
    (if config.is_authority
        then start_authority config parts net.0 session_period millisecs_per_block
        else pure tt)
    start_network net.2
