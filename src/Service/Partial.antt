-- ===== src/Service/Partial.antt =====
-- `new_partial` of bin/node/src/service.rs.
use aleph_node.Common.{ℕ, Bool, true, false, Option, none, some, List, [], ◌∷◌, if◌then◌else◌}
use aleph_node.Metrics.{Metrics, register}
use aleph_node.Import.{AlephBlockImport}
use aleph_node.Import
use aleph_node.Service.{
  Parts, Configuration, CrateTask, telemetry, Result, done, Action, pure, try, call, by_handle,
  by_manager, spawn, ◌>>=◌, ◌>>◌, PartialComponents,
}

-- `ImportQueueParams`: the slot duration is that of the inherent data which it makes for a block.
pub record ImportQueueParams (P : Parts) : Type 0 where
  pub block_import : AlephBlockImport P.Client P.Justification
  pub justification_import : Option (AlephBlockImport P.Client P.Justification)
  pub client : P.Client
  pub slot_duration : ℕ
  pub registry : Option P.Registry
  pub telemetry : Option P.Handle

-- The calls of Substrate in `new_partial`. `new_full_parts` makes the task manager; the pool and the
-- import queue are given its handle for essential tasks. The tasks that these calls spawn are the
-- second part of what they give.
pub record PartialCalls (P : Parts) : Type 0 where
  pub telemetry_worker : ℕ → Result P P.Worker
  pub new_telemetry : P.Worker → List P.Endpoint → P.Telemetry
  pub handle : P.Telemetry → P.Handle
  pub new_full_parts :
      Configuration P
      → Option P.Handle
      → Result P (P.Client × P.Backend × P.Keystore) × List (Bool × CrateTask P)
  pub longest_chain : P.Backend → P.SelectChain
  pub new_pool : P.Settings → Bool → Option P.Registry → P.Client → P.Pool × List (CrateTask P)
  pub takes_gauges : P.Registry → Bool
  pub slot_duration : P.Client → Result P ℕ
  pub import_queue : ImportQueueParams P → Result P P.Queue × List (CrateTask P)

abbrev is_empty {ℓ} : {A : Type ℓ} → List A → Bool
is_empty [] = true
is_empty (x ∷ xs) = false

module _ {P : Parts} (calls : PartialCalls P) where
  -- The endpoints after the `filter`.
  abbrev pub non_empty : Option (List P.Endpoint) → Option (List P.Endpoint)
  non_empty none = none
  non_empty (some endpoints) = if is_empty endpoints then none else some endpoints

  abbrev pub new_telemetry : Option (List P.Endpoint) → Action P (Option (P.Worker × P.Telemetry))
  new_telemetry none = pure none
  new_telemetry (some endpoints) = do
    worker ← try (calls.telemetry_worker 16)
    pure (some (worker, calls.new_telemetry worker endpoints))

  -- `telemetry.as_ref().map(|x| x.handle())`
  abbrev pub handle_of : Option P.Telemetry → Option P.Handle
  handle_of none = none
  handle_of (some t) = some (calls.handle t)

  abbrev pub telemetry_of : Option (P.Worker × P.Telemetry) → Option P.Telemetry
  telemetry_of none = none
  telemetry_of (some (worker, t)) = some t

  abbrev pub spawn_telemetry : Option (P.Worker × P.Telemetry) → Action P (Unit {0})
  spawn_telemetry none = pure tt
  spawn_telemetry (some (worker, t)) =
      spawn (record {
        name = "telemetry";
        essential = false;
        blocking = false;
        task = telemetry worker;
      })

  -- The metrics, if there is a registry which takes their gauges.
  unfoldable pub new_metrics : Option P.Registry → Option Metrics
  new_metrics none = none
  new_metrics (some registry) = if calls.takes_gauges registry then some register else none

  unfoldable pub new_partial : Configuration P → Action P (PartialComponents P)
  unfolding new_metrics Import.new
  new_partial config = do
    worker ← new_telemetry (non_empty config.telemetry_endpoints)
    let new_parts = calls.new_full_parts config (handle_of (telemetry_of worker))
    parts ← call new_parts.0 (by_manager new_parts.1)
    spawn_telemetry worker
    let client : P.Client = parts.0
    let new_pool =
        calls.new_pool config.settings config.is_authority config.prometheus_registry client
    transaction_pool ← call (done new_pool.0) (by_handle true new_pool.1)
    let metrics = new_metrics config.prometheus_registry
    let block_import : AlephBlockImport P.Client P.Justification = Import.new client metrics
    slot_duration ← try (calls.slot_duration client)
    let new_queue = calls.import_queue (record {
      block_import = block_import;
      justification_import = some block_import;
      client = client;
      slot_duration = slot_duration;
      registry = config.prometheus_registry;
      telemetry = handle_of (telemetry_of worker);
    })
    import_queue ← call new_queue.0 (by_handle true new_queue.1)
    pure (record {
      client = client;
      backend = parts.1;
      import_queue = import_queue;
      keystore_container = parts.2;
      select_chain = calls.longest_chain parts.1;
      transaction_pool = transaction_pool;
      block_import = block_import;
      justification_rx = block_import.justification_tx;
      telemetry = telemetry_of worker;
      metrics = metrics;
    })
