-- ===== src/Party/Authority.antt =====
-- A session of an authority: `run_session_as_authority` of finality-aleph/src/party.rs, and what
-- `run_session` does before it. The tasks are those of the other modules, as they are started.
pub mod Starts
use aleph_node.Common.{ℕ, Bool, true, Option, some, List, [], ◌>>=◌, length}
use aleph_node.Client.{Client, Header}
use aleph_node.DataIo
use aleph_node.DataIo.{AlephData, DataStore, Lru}
use aleph_node.DataIo.Provider.{DataIo, data_of}
use aleph_node.Keys
use aleph_node.Keys.{KeyBox}
use aleph_node.Metrics.{Metrics}
use aleph_node.Network.{AuthData, InternalMessage, Network, start_session}
use aleph_node.Network.Split.{Split, NetworkData, split_network}
use aleph_node.Party
use aleph_node.Party.{Running}
use aleph_node.Party.Delays.{Config, Floats, create_aleph_config}
use aleph_node.Party.Shutdown
use aleph_node.Session.{last_block_of_session}

-- The five tasks as they are spawned: the member's configuration and its data, the data store, the
-- aggregator's variables and the last block that it is given, the networks between which the
-- forwarder forwards, and the future that stops them all.
pub record Authority (Cache Sgn Sig M A R : Type 0) : Type 0 where
  pub consensus_config : Config
  pub data_io : DataIo
  pub data_store : DataStore Cache A
  pub aggregator : Running Sig M
  pub last_block : ℕ
  pub networks : Split Sgn A R
  pub shutdown : Shutdown.State

module _ (floats : Floats) (default_aleph_config : ℕ → ℕ → ℕ → Config) (lru : Lru AlephData)
    {Sgn Sig M A R : Type 0} (included_blocks : A → List AlephData) where
  -- The tasks, with the client as the aggregator starts and the best header.
  abbrev pub tasks_of :
      Client → Header → Option Metrics → ℕ → ℕ → ℕ → List ℕ → Authority lru.Cache Sgn Sig M A R
  tasks_of client best_chain_header metrics session_period node_id session_id authorities = record {
    consensus_config =
        create_aleph_config floats default_aleph_config (length authorities) node_id session_id;
    data_io = record {
      best_chain = data_of best_chain_header;
      ordered_batches = [];
      aggregator_open = true;
      metrics = metrics;
    };
    data_store = DataIo.new lru included_blocks;
    aggregator = Party.start client;
    last_block = last_block_of_session session_id session_period;
    networks = split_network session_id;
    shutdown = Shutdown.start;
  }

  -- With the header that the selection of the chain gives.
  unfoldable pub run_session_as_authority :
      Client
      → Option Header
      → Option Metrics
      → ℕ
      → ℕ
      → ℕ
      → List ℕ
      → Option (Authority lru.Cache Sgn Sig M A R)
  unfolding create_aleph_config split_network DataIo.new Party.start last_block_of_session data_of
  run_session_as_authority client best metrics session_period node_id session_id authorities = do
    best_chain_header ← best
    some (tasks_of client best_chain_header metrics session_period node_id session_id authorities)

  -- What `run_session` does once the node is an authority of the session: the key box, the session's
  -- network, and the tasks.
  module _ {Raw Bytes : Type 0} (encode : AuthData → Bytes) (check : ℕ → Bytes → Sgn → Bool)
      (decode : Raw → Option (InternalMessage Sgn (NetworkData A R)))
      (sign_with : ℕ → Bytes → Sgn) where
    unfoldable pub start_authority :
        Client
        → Option Header
        → Option Metrics
        → ℕ
        → ℕ
        → ℕ
        → ℕ
        → List ℕ
        → Network Sgn (NetworkData A R)
        → Option (Authority lru.Cache Sgn Sig M A R × Network Sgn (NetworkData A R))
    unfolding run_session_as_authority
    start_authority client best metrics own_peer session_period node_id session_id authorities net =
        do
          keybox ← Keys.new node_id authorities
          tasks ←
              run_session_as_authority client best metrics session_period node_id session_id
                authorities
          some (
            tasks,
            start_session encode check decode own_peer session_id keybox (sign_with keybox.own) net,
          )
