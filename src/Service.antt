-- ===== src/Service.antt =====
-- The node's service (bin/node/src/service.rs) and its command line (bin/node/src/command.rs). What
-- Substrate's crates do is the parameter `Substrate`, over the types of their things, `Parts`.
pub mod Partial
pub mod Full
pub mod Command
pub mod Consensus
pub mod Leads
pub mod Starts
pub mod Dispatch
use Prim.Native.String.{String}
use aleph_node.Common.{ℕ, ◌*◌, Bool, true, Option, none, some, List, [], ◌∷◌, ◌++◌}
use aleph_node.Client.{BackendResult, ok, backend_error}
use aleph_node.Justification.{JustificationNotification}
use aleph_node.Metrics.{Metrics}
use aleph_node.Import.{AlephBlockImport}

-- The types of Substrate's things; `Settings` is what a configuration holds that the service only
-- passes on, and `Future` what a task of the crates runs.
pub record Parts : Type 1 where
  pub Client : Type 0
  pub Backend : Type 0
  pub Keystore : Type 0
  pub SelectChain : Type 0
  pub Pool : Type 0
  pub Queue : Type 0
  pub NetworkService : Type 0
  pub Rpc : Type 0
  pub Extension : Type 0
  pub Starter : Type 0
  pub Endpoint : Type 0
  pub Worker : Type 0
  pub Telemetry : Type 0
  pub Handle : Type 0
  pub Registry : Type 0
  pub Proposer : Type 0
  pub Aura : Type 0
  pub Justification : Type 0
  pub Settings : Type 0
  pub Future : Type 0
  pub Error : Type 0

-- `NonDefaultSetConfig`, with the fields of its `SetConfig`.
pub record SetConfig : Type 0 where
  pub notifications_protocol : String
  pub max_notification_size : ℕ
  pub in_peers : ℕ
  pub out_peers : ℕ
  pub reserved_nodes : List ℕ
  pub accept_non_reserved : Bool
  pub fallback_names : List String

abbrev pub aleph_protocol_name : String
aleph_protocol_name = "/cardinals/aleph/1"

-- `peers_set_config` of finality-aleph/src/lib.rs.
unfoldable pub peers_set_config : SetConfig
peers_set_config = record {
  notifications_protocol = aleph_protocol_name;
  max_notification_size = 1024 * 1024;
  in_peers = 0;
  out_peers = 0;
  reserved_nodes = [];
  accept_non_reserved = true;
  fallback_names = [];
}

-- The parts of `Configuration` that the service looks at.
pub record Configuration (P : Parts) : Type 0 where
  pub telemetry_endpoints : Option (List P.Endpoint)
  pub is_authority : Bool
  pub prometheus_registry : Option P.Registry
  pub extra_sets : List SetConfig
  pub force_authoring : Bool
  pub settings : P.Settings

-- `AlephConfig` of finality-aleph/src/lib.rs, without the handle for spawning tasks. The receiver of
-- justifications is what waits in its channel.
pub record AlephConfig (P : Parts) : Type 0 where
  pub network : P.NetworkService
  pub client : P.Client
  pub select_chain : P.SelectChain
  pub keystore : P.Keystore
  pub justification_rx : List (JustificationNotification P.Justification)
  pub metrics : Option Metrics
  pub session_period : ℕ
  pub millisecs_per_block : ℕ

-- The tasks that the service itself spawns, and those that the crates' calls do.
pub data Task (P : Parts) : Type 0 where
  telemetry : P.Worker → Task P
  aura : P.Aura → Task P
  aleph : AlephConfig P → Task P
  crate_task : P.Future → Task P

-- A task of the task manager: spawned as essential or not, as blocking or not.
pub record Spawned (P : Parts) : Type 0 where
  pub name : String
  pub essential : Bool
  pub blocking : Bool
  pub task : Task P

-- A task that a call of the crates spawns by a handle which it is given.
pub record CrateTask (P : Parts) : Type 0 where
  pub name : String
  pub blocking : Bool
  pub future : P.Future

-- What the service does to the node: it spawns tasks and starts the network.
pub record Node (P : Parts) : Type 0 where
  pub tasks : List (Spawned P)
  pub network_started : Option P.Starter

-- The node before the program does anything to it.
abbrev pub fresh : {P : Parts} → Node P
fresh = record { tasks = []; network_started = none }

pub data Result (P : Parts) (A : Type 0) : Type 0 where
  done : A → Result P A
  err : P.Error → Result P A
  panicked : Result P A

-- Code that acts on the node. What it has done stays done after an error or a panic.
abbrev pub Action : Parts → Type 0 → Type 0
Action P A = Node P → Result P A × Node P

module _ {P : Parts} where
  abbrev pub pure : {A : Type 0} → A → Action P A
  pure a node = (done a, node)

  -- The `?` after a call that does nothing to the node.
  abbrev pub try : {A : Type 0} → Result P A → Action P A
  try r node = (r, node)

  abbrev pub crate_spawned : Bool → CrateTask P → Spawned P
  crate_spawned essential t = record {
    name = t.name;
    essential = essential;
    blocking = t.blocking;
    task = crate_task t.future;
  }

  -- The tasks spawned by a handle, which is that of the essential tasks or not.
  abbrev pub by_handle : Bool → List (CrateTask P) → List (Spawned P)
  by_handle essential [] = []
  by_handle essential (t ∷ ts) = crate_spawned essential t ∷ by_handle essential ts

  -- The tasks spawned on the task manager itself, which gives both handles.
  abbrev pub by_manager : List (Bool × CrateTask P) → List (Spawned P)
  by_manager [] = []
  by_manager ((essential, t) ∷ ts) = crate_spawned essential t ∷ by_manager ts

  -- A call that spawns tasks, whether it then fails or not, and the `?` after it.
  unfoldable pub call : {A : Type 0} → Result P A → List (Spawned P) → Action P A
  call r tasks node = (r, record node { tasks = node.tasks ++ tasks })

  -- `unwrap` of a call of the runtime.
  abbrev pub unwrap : {A : Type 0} → BackendResult A → Action P A
  unwrap (ok a) = pure a
  unwrap backend_error = λ node. (panicked, node)

  unfoldable pub spawn : Spawned P → Action P (Unit {0})
  spawn task node = (done tt, record node { tasks = node.tasks ++ task ∷ [] })

  unfoldable pub start_network : P.Starter → Action P (Unit {0})
  start_network starter node = (done tt, record node { network_started = some starter })

infixl 5 ◌>>=◌ ◌>>◌
unfoldable pub ◌>>=◌ : {P : Parts} {A B : Type 0} → Action P A → (A → Action P B) → Action P B
◌>>=◌ m f node =
    let (r, node') = m node in
    elim r [ done a ↦ f a node' | err e ↦ (err e, node') | panicked ↦ (panicked, node') ]

abbrev pub ◌>>◌ : {P : Parts} {B : Type 0} → Action P (Unit {0}) → Action P B → Action P B
m >> k = m >>= λ _. k

-- What `new_partial` makes; its task manager is the node's.
pub record PartialComponents (P : Parts) : Type 0 where
  pub client : P.Client
  pub backend : P.Backend
  pub import_queue : P.Queue
  pub keystore_container : P.Keystore
  pub select_chain : P.SelectChain
  pub transaction_pool : P.Pool
  pub block_import : AlephBlockImport P.Client P.Justification
  pub justification_rx : List (JustificationNotification P.Justification)
  pub telemetry : Option P.Telemetry
  pub metrics : Option Metrics
