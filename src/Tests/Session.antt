-- ===== src/Tests/Session.antt =====
-- Tests of a session's networks, of the end of a session, and of the handshake of two nodes.
use aleph_node.Common.{
  ℕ, ◌≡◌, refl, true, false, Bool, some, List, [], ◌∷◌, nat_eq, nat_beq, nat_beq_iff,
}
use aleph_node.Common.Map
use aleph_node.Keys.{KeyBox}
use aleph_node.Network
use aleph_node.Network.{AuthData, InternalMessage, Network, SessionData}
use aleph_node.Network.Handshake.{Handshake, start_session-Handshake}
use aleph_node.Network.Split
use aleph_node.Network.Split.{
  Event, received, aleph_sent, rmc_sent, rmc_taken, forward_data, forward_aleph_cmd,
  forward_rmc_cmd, aleph, rmc, everyone, node, split_network,
}
use aleph_node.Network.Split.Order.{IsFaithful, note_all, unused, run-split_network}
use aleph_node.Party.Shutdown.{
  Action, State, Steps, member, aggregator, forwarder, refresher, data_store, send, await, shutdown,
  start, mark, asked, sent, awaited, ended_now, member_alone, then, done,
}
use aleph_node.Party.Shutdown.Order.{IsOrderly, AllEnded, all_tasks, Steps-IsOrderly, Steps-ends}

abbrev events : List (Event ℕ ℕ)
events =
    received (aleph 1)
    ∷ received (rmc 2)
    ∷ aleph_sent 3 everyone
    ∷ forward_data
    ∷ rmc_sent 4 (Network.target 5)
    ∷ forward_rmc_cmd
    ∷ forward_aleph_cmd
    ∷ received (aleph 6)
    ∷ forward_data
    ∷ rmc_taken
    ∷ aleph_sent 7 (node 1)
    ∷ []

run-split_network_example :
    IsFaithful 5
      (note_all {Sgn = ℕ} 5 events (split_network 5) unused)
      (Split.run events (split_network 5))
run-split_network_example =
    run-split_network 5 events (tt, (tt, (tt, (tt, (tt, (tt, (tt, (tt, (tt, (tt, (tt, tt)))))))))))

abbrev after_member : List Action
after_member =
    send aggregator
    ∷ await aggregator
    ∷ send forwarder
    ∷ await forwarder
    ∷ send refresher
    ∷ await refresher
    ∷ send data_store
    ∷ await data_store
    ∷ []

-- The session is asked to exit, the member ends by itself before it is told to, and the future goes on
-- to the next task.
abbrev stopping : State
stopping = record {
  exit = true;
  todo = after_member;
  signalled = mark member (λ t. false);
  ended = mark member (λ t. false);
}

to_stopping : Steps start stopping
unfolding start shutdown
to_stopping = then (asked _) (
    then (ended_now _ member (member_alone false)) (
      then (sent _ member (await member ∷ after_member) refl refl)
        (then (awaited _ member after_member refl refl refl) (done _))))

Steps-IsOrderly_example : IsOrderly stopping
Steps-IsOrderly_example = Steps-IsOrderly stopping to_stopping

Steps-ends_example :
    (st' : State) × (Steps stopping st' × ((st'.todo ≡ []) × AllEnded st'.ended all_tasks))
Steps-ends_example = Steps-ends stopping to_stopping refl

-- Messages are sent as they are, and the signature with a key is the key.
abbrev keychain_of : ℕ → ℕ → KeyBox
keychain_of id own = record { id = id; own = own; authorities = 7 ∷ 8 ∷ [] }

abbrev signature_check : ℕ → AuthData → ℕ → Bool
signature_check authority msg signature = nat_beq authority signature

abbrev other_node : Network ℕ ℕ
other_node = record Network.new {
  sessions =
      Map.insert 5
        (record {
          user_open = true;
          data_for_user = [];
          status = Network.in_progress;
          keychain = keychain_of 1 8;
          auth_data = record { session_id = 5; peer_id = 21; node_id = 1 };
          auth_signature = record { id = 1; sgn = 8 };
        })
        [];
}

start_session-Handshake_example :
    Handshake {D = ℕ}
      (λ a. a)
      signature_check
      some
      (λ m. m)
      (λ k m. k)
      20
      5
      (keychain_of 0 7)
      Network.new
      Network.new
      other_node
unfolding Network.new Map.insert Map.get
start_session-Handshake_example =
    start_session-Handshake (λ a. a) signature_check some (λ m. m) (λ k m. k) (λ m. refl)
      (λ k m. (nat_beq_iff k k).1 refl) 20 5 (keychain_of 0 7) Network.new Network.new other_node _
      refl refl
