-- ===== src/Runtime.antt =====
-- bin/runtime/src/lib.rs: what the runtime makes of the pallet's storage, for the other pallets and
-- for the node, and how bin/node/src/service.rs reads it.
pub mod Sessions
use aleph_node.Common.{ℕ, ◌*◌, ◌/◌, Bool, Option, List}
use aleph_node.Pallet.{Pallet, ApiResult}
use aleph_node.Pallet

abbrev pub millisecs_per_block_const : ℕ
millisecs_per_block_const = 1000

abbrev pub slot_duration : ℕ
slot_duration = millisecs_per_block_const

abbrev pub minutes : ℕ
minutes = 60_000 / millisecs_per_block_const

abbrev pub hours : ℕ
hours = minutes * 60

abbrev pub days : ℕ
days = hours * 24

abbrev pub offset : ℕ
offset = 0

module _ {A K : Type 0} where
  -- `MinimumPeriod::get`
  unfoldable pub minimum_period : Pallet A K → ℕ
  minimum_period st = st.millisecs_per_block / 2

  -- `SessionPeriod::get`, which is also the runtime's answer to `session_period`.
  unfoldable pub session_period : Pallet A K → ℕ
  session_period st = st.session_period

  -- `MillisecsPerBlock::get`, which is also the runtime's answer to `millisecs_per_block`.
  unfoldable pub millisecs_per_block : Pallet A K → ℕ
  millisecs_per_block st = st.millisecs_per_block

  -- The runtime's answer to `authorities`.
  unfoldable pub authorities : Pallet A K → List K
  authorities st = st.authorities

  -- `ShouldEndSession`: the crate's `PeriodicSessions` at the runtime's period and offset. It is given
  -- the period, the offset and the number of the block.
  module _ (periodic_sessions : ℕ → ℕ → ℕ → Bool) where
    unfoldable pub should_end_session : Pallet A K → ℕ → Bool
    unfolding session_period
    should_end_session st now = periodic_sessions (session_period st) offset now

-- The runtime's answer to `next_session_authorities`, with the keys that the session pallet has queued.
module _ {A K Keys : Type 0} (get : Keys → Option K) where
  unfoldable pub next_session_authorities : List (A × Keys) → ApiResult (List K)
  next_session_authorities queued_keys = Pallet.next_session_authorities get queued_keys

-- What the node reads as it starts, from the storage at the block with number zero.
pub record NodeConfig : Type 0 where
  pub session_period : ℕ
  pub millisecs_per_block : ℕ

module _ {A K : Type 0} where
  unfoldable pub node_config : Pallet A K → NodeConfig
  unfolding session_period millisecs_per_block
  node_config genesis_storage = record {
    session_period = session_period genesis_storage;
    millisecs_per_block = millisecs_per_block genesis_storage;
  }
