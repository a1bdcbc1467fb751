-- ===== src/Party/Authority/Starts.antt =====
-- The start of a session of an authority in finality-aleph/src/party.rs: it does not fail.
use aleph_node.Common.{ℕ, ◌≡◌, refl, Bool, Option, some, List, get_elem?}
use aleph_node.Client.{Client, Header}
use aleph_node.DataIo.{AlephData, Lru}
use aleph_node.DataIo.Provider.{data_of}
use aleph_node.Keys
use aleph_node.Keys.{KeyBox}
use aleph_node.Metrics.{Metrics}
use aleph_node.Network.{AuthData, InternalMessage, Network, start_session}
use aleph_node.Network.Split.{NetworkData}
use aleph_node.Party.{get_node_index}
use aleph_node.Party.Authority.{Authority, run_session_as_authority, start_authority, tasks_of}
use aleph_node.Party.Delays.{Config, Floats}
use aleph_node.Party.Node.{get_node_index-IsFirst}
use aleph_node.Session.{last_block_of_session}

module _ (floats : Floats) (default_aleph_config : ℕ → ℕ → ℕ → Config) (lru : Lru AlephData)
    {Raw Bytes Sgn A R : Type 0} (Sig M : Type 0) (included_blocks : A → List AlephData)
    (encode : AuthData → Bytes) (check : ℕ → Bytes → Sgn → Bool)
    (decode : Raw → Option (InternalMessage Sgn (NetworkData A R)))
    (sign_with : ℕ → Bytes → Sgn) where
  -- What has started: the key box is the node's own, the network has its session, the aggregator
  -- stops at the session's last block, and the consensus is offered the best block.
  pub record Started (client : Client) (best : Header) (metrics : Option Metrics)
      (own_peer period node_id session_id : ℕ) (authorities : List ℕ)
      (net : Network Sgn (NetworkData A R)) : Type 0 where
    pub own : ℕ
    pub is_own : get_elem? authorities node_id ≡ some own
    pub tasks : Authority lru.Cache Sgn Sig M A R
    pub ran :
        start_authority floats default_aleph_config lru included_blocks encode check decode
          sign_with client
          (some best)
          metrics
          own_peer
          period
          node_id
          session_id
          authorities
          net
        ≡ some (
          tasks,
          start_session encode check decode own_peer session_id
              (record { id = node_id; own = own; authorities = authorities })
              (sign_with own)
              net,
        )
    pub last : tasks.last_block ≡ last_block_of_session session_id period
    pub offered : tasks.data_io.best_chain ≡ data_of best

  -- A node that finds itself among the authorities starts the session: with a best block to build on,
  -- no step of the start fails.
  pub start_authority-Started :
      (client : Client) (best : Header) (metrics : Option Metrics)
      (own_peer period node_id session_id : ℕ) (authorities keys : List ℕ)
      (net : Network Sgn (NetworkData A R))
      → get_node_index authorities keys ≡ some node_id
      → Started client best metrics own_peer period node_id session_id authorities net
  unfolding start_authority run_session_as_authority Keys.new
  start_authority-Started client best metrics own_peer period node_id session_id authorities keys
        net e =
      let first = (get_node_index-IsFirst authorities keys node_id).0 e in
      record {
        own = first.0;
        is_own = first.1;
        tasks =
            tasks_of floats default_aleph_config lru included_blocks client best metrics period
              node_id session_id authorities;
        ran = rw first.1 refl;
        last = refl;
        offered = refl;
      }
