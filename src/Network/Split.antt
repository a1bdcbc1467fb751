-- ===== src/Network/Split.antt =====
-- `split_network` of finality-aleph/src/network.rs, with `DataNetwork`, `AlephNetwork` and
-- `RmcNetwork`: one session's network as two. A channel is the list of what is in it, and a flag for
-- whether its receiver still exists. Consensus messages are of type `A`, multicast messages of `R`.
pub mod Kinds
pub mod Order
use aleph_node.Common.{ℕ, Bool, true, false, Option, none, some, List, [], ◌∷◌, ◌++◌, if◌then◌else◌}
use aleph_node.Network.{Recipient, SessionCommand, map_command}

pub data NetworkData (A R : Type 0) : Type 0 where
  aleph : A → NetworkData A R
  rmc : R → NetworkData A R

-- The crate's `aleph_bft::Recipient`, and the conversion from it.
pub data BftRecipient : Type 0 where
  everyone : BftRecipient
  node : ℕ → BftRecipient

unfoldable pub recipient_from : BftRecipient → Recipient ℕ
recipient_from everyone = Recipient.all
recipient_from (node n) = Recipient.target n

-- `DataNetwork`: what it still has to give its user, and the commands that it has sent.
pub record DataNetwork (Sgn D : Type 0) : Type 0 where
  pub session_id : ℕ
  pub data_from_consensus_network : List D
  pub commands_for_consensus_network : List (SessionCommand Sgn D)
  pub commands_open : Bool

module _ {Sgn D : Type 0} where
  unfoldable pub new : ℕ → DataNetwork Sgn D
  new session_id = record {
    session_id = session_id;
    data_from_consensus_network = [];
    commands_for_consensus_network = [];
    commands_open = true;
  }

  -- The Boolean is `is_ok`.
  unfoldable pub send : D → Recipient ℕ → DataNetwork Sgn D → Bool × DataNetwork Sgn D
  send d recipient net =
      if net.commands_open
      then (
        true,
        record net {
          commands_for_consensus_network =
              net.commands_for_consensus_network
              ++ SessionCommand.payload net.session_id d recipient ∷ [];
        },
      )
      else (false, net)

  abbrev head_of : List D → DataNetwork Sgn D → Option D × DataNetwork Sgn D
  head_of [] net = (none, net)
  head_of (d ∷ ds) net = (some d, record net { data_from_consensus_network = ds })

  -- `next`; `none` is a wait.
  unfoldable pub next : DataNetwork Sgn D → Option D × DataNetwork Sgn D
  next net = head_of net.data_from_consensus_network net

-- The three tasks that `split_network` joins, with the channels between which they forward. `outer` is
-- the session's network, `aleph_network` and `rmc_network` are the results, and `data_store_tx` is
-- the way to the data store.
pub record Split (Sgn A R : Type 0) : Type 0 where
  pub outer : DataNetwork Sgn (NetworkData A R)
  pub data_store_tx : List A
  pub data_store_open : Bool
  pub rmc_data_open : Bool
  pub aleph_network : DataNetwork Sgn A
  pub rmc_network : DataNetwork Sgn R

-- The receivers that the tasks send to: the data store's, the multicast's user's, and the consensus
-- network's.
pub data Receiver : Type 0 where
  data_store : Receiver
  multicast : Receiver
  consensus : Receiver

-- What happens to the split network: the consensus network receives data, a user sends, the user of
-- the multicast's network takes a message, one of the three tasks makes a round, or a receiver goes.
pub data Event (A R : Type 0) : Type 0 where
  received : NetworkData A R → Event A R
  aleph_sent : A → BftRecipient → Event A R
  rmc_sent : R → Recipient ℕ → Event A R
  rmc_taken : Event A R
  forward_data : Event A R
  forward_aleph_cmd : Event A R
  forward_rmc_cmd : Event A R
  dropped : Receiver → Event A R

module _ {Sgn A R : Type 0} where
  -- `split_network`, at a session's network that is still unused.
  unfoldable pub split_network : ℕ → Split Sgn A R
  unfolding new
  split_network session_id = record {
    outer = new session_id;
    data_store_tx = [];
    data_store_open = true;
    rmc_data_open = true;
    aleph_network = new session_id;
    rmc_network = new session_id;
  }

  abbrev pub push_rmc : R → Split Sgn A R → Split Sgn A R
  push_rmc d st = record st {
    rmc_network = record st.rmc_network {
      data_from_consensus_network = st.rmc_network.data_from_consensus_network ++ d ∷ [];
    };
  }

  -- Where a message goes; a closed channel is only logged.
  unfoldable pub forward : NetworkData A R → Split Sgn A R → Split Sgn A R
  forward (aleph d) st =
      if st.data_store_open then record st { data_store_tx = st.data_store_tx ++ d ∷ [] } else st
  forward (rmc d) st = if st.rmc_data_open then push_rmc d st else st

  -- A round of `forward_data`.
  unfoldable pub forward_first : List (NetworkData A R) → Split Sgn A R → Split Sgn A R
  unfolding forward
  forward_first [] st = st
  forward_first (d ∷ ds) st =
      forward d (record st { outer = record st.outer { data_from_consensus_network = ds } })

  abbrev pub push_command : SessionCommand Sgn (NetworkData A R) → Split Sgn A R → Split Sgn A R
  push_command c st = record st {
    outer = record st.outer {
      commands_for_consensus_network = st.outer.commands_for_consensus_network ++ c ∷ [];
    };
  }

  -- A round of `forward_aleph_cmd`; when the consensus network is gone the task ends, and its queue
  -- of commands with it.
  unfoldable pub forward_first_aleph : List (SessionCommand Sgn A) → Split Sgn A R → Split Sgn A R
  forward_first_aleph [] st = st
  forward_first_aleph (c ∷ cs) st =
      if st.outer.commands_open
      then push_command (map_command aleph c) (record st {
        aleph_network = record st.aleph_network { commands_for_consensus_network = cs };
      })
      else record st {
        aleph_network = record st.aleph_network {
          commands_for_consensus_network = [];
          commands_open = false;
        };
      }

  unfoldable pub forward_first_rmc : List (SessionCommand Sgn R) → Split Sgn A R → Split Sgn A R
  forward_first_rmc [] st = st
  forward_first_rmc (c ∷ cs) st =
      if st.outer.commands_open
      then push_command (map_command rmc c) (record st {
        rmc_network = record st.rmc_network { commands_for_consensus_network = cs };
      })
      else record st {
        rmc_network = record st.rmc_network {
          commands_for_consensus_network = [];
          commands_open = false;
        };
      }

  -- What is in a channel is lost with its receiver.
  abbrev pub drop_receiver : Receiver → Split Sgn A R → Split Sgn A R
  drop_receiver data_store st = record st { data_store_tx = []; data_store_open = false }
  drop_receiver multicast st = record st {
    rmc_data_open = false;
    rmc_network = record st.rmc_network { data_from_consensus_network = [] };
  }
  drop_receiver consensus st = record st {
    outer = record st.outer { commands_for_consensus_network = []; commands_open = false };
  }

  unfoldable pub step : Event A R → Split Sgn A R → Split Sgn A R
  unfolding send next recipient_from forward_first forward_first_aleph forward_first_rmc
  step (received d) st = record st {
    outer = record st.outer {
      data_from_consensus_network = st.outer.data_from_consensus_network ++ d ∷ [];
    };
  }
  step (aleph_sent d recipient) st = record st {
    aleph_network = (send d (recipient_from recipient) st.aleph_network).1;
  }
  step (rmc_sent d recipient) st = record st { rmc_network = (send d recipient st.rmc_network).1 }
  step rmc_taken st = record st { rmc_network = (next st.rmc_network).1 }
  step forward_data st = forward_first st.outer.data_from_consensus_network st
  step forward_aleph_cmd st = forward_first_aleph st.aleph_network.commands_for_consensus_network st
  step forward_rmc_cmd st = forward_first_rmc st.rmc_network.commands_for_consensus_network st
  step (dropped receiver) st = drop_receiver receiver st

  unfoldable pub run : List (Event A R) → Split Sgn A R → Split Sgn A R
  unfolding step
  run [] st = st
  run (e ∷ es) st = run es (step e st)
