-- ===== src/Tests/Intake.antt =====
-- Tests of the way of a consensus message from the network to the member.
use aleph_node.Common.{
  ℕ, ◌≡◌, refl, Bool, true, Option, none, some, List, [], ◌∷◌, arith, nat_eq, nat_beq, All,
}
use aleph_node.Common.Map.{get, insert, remove, iter, retain}
use aleph_node.Client.{Client}
use aleph_node.Keys.{KeyBox}
use aleph_node.Keys
use aleph_node.DataIo
use aleph_node.DataIo.{AlephData, DataStore, Event, message_received, is_available}
use aleph_node.DataIo.Invariant.{Ready}
use aleph_node.Network.Peers
use aleph_node.Network.{
  AuthData, authentication, InternalMessage, SessionData, in_progress, Network, new, Act, round,
  start, notification_stream_opened, notifications_received, run, act, step, start_session,
  on_peer_connected, on_incoming_messages, on_incoming_message, on_incoming_decoded,
  on_incoming_meta, on_incoming_authentication, on_incoming_data, send_to_user, authenticate_all,
  authenticate_to, drop_terminated,
}
use aleph_node.Network.Authentic.{IsHonest}
use aleph_node.Network.Split
use aleph_node.Network.Split.{
  NetworkData, aleph, received, forward_data, forward, forward_first, split_network,
}
use aleph_node.Intake.{run-new-Delivers}
use aleph_node.Tests.Data.{client, block_data, list_cache}

-- Raw messages are messages, the member's are the lists of their blocks, and a signature is the number
-- of its authority.
abbrev Member : Type 0
Member = List AlephData

abbrev Message : Type 0
Message = InternalMessage ℕ (NetworkData Member ℕ)

abbrev encode : AuthData → AuthData
encode a = a

abbrev check : ℕ → AuthData → ℕ → Bool
check authority a sgn = nat_beq sgn authority

abbrev decode : Message → Option Message
decode m = some m

abbrev keychain : KeyBox
keychain = record { id = 0; own = 10; authorities = 10 ∷ 11 ∷ [] }

abbrev proposal : Member
proposal = block_data 5 ∷ []

-- Peer 7 authenticates as node 1 of session 4 and sends a message.
abbrev hello : Message
hello = InternalMessage.meta (
    authentication (record { session_id = 4; peer_id = 7; node_id = 1 })
      (record { id = 1; sgn = 11 }))

abbrev acts : List (Act {Raw = Message} {D = NetworkData Member ℕ} encode check decode)
acts =
    start 4 keychain (λ a. 10)
    ∷ round (notification_stream_opened 7 0)
    ∷ round (
        notifications_received 7
          ((0, hello) ∷ (0, InternalMessage.payload 4 (aleph proposal)) ∷ []))
    ∷ []

abbrev or_new : Option (Network ℕ (NetworkData Member ℕ)) → Network ℕ (NetworkData Member ℕ)
or_new none = new
or_new (some net) = net

abbrev reached : Network ℕ (NetworkData Member ℕ)
reached = or_new (run encode check decode 1 0 acts new)

all_ok : run encode check decode 1 0 acts new ≡ some reached
unfolding run new act step start_session on_peer_connected on_incoming_messages on_incoming_message
    on_incoming_decoded on_incoming_meta on_incoming_authentication get insert remove iter retain
    Keys.verify authenticate_all authenticate_to drop_terminated Peers.insert Peers.new
    Peers.new_info Peers.is_authenticated Peers.authenticate
all_ok = refl

abbrev session : SessionData ℕ (NetworkData Member ℕ)
session = record {
  user_open = true;
  data_for_user = aleph proposal ∷ [];
  status = in_progress;
  keychain = keychain;
  auth_data = record { session_id = 4; peer_id = 1; node_id = 0 };
  auth_signature = record { id = 0; sgn = 10 };
}

has_session : get reached.sessions 4 ≡ some session
unfolding run new act step start_session on_peer_connected on_incoming_messages on_incoming_message
    on_incoming_decoded on_incoming_meta on_incoming_authentication on_incoming_data send_to_user
    get insert remove iter retain Keys.verify authenticate_all authenticate_to drop_terminated
    Peers.insert Peers.new Peers.new_info Peers.is_authenticated Peers.authenticate
has_session = refl

abbrev IsKeychain : ℕ → KeyBox → Type 0
IsKeychain s k = (s ≡ 4) × (k ≡ keychain)

abbrev Vouched : ℕ → ℕ → ℕ → Type 0
Vouched s n p = p ≡ 7

abbrev IsGenuine : ℕ → NetworkData Member ℕ → Type 0
IsGenuine s d = d ≡ aleph proposal

acts-IsHonest : All (IsHonest encode check decode IsKeychain Vouched IsGenuine) acts
acts-IsHonest = (
  (refl, refl),
  (
    tt,
    (
      (
        (λ a sgn k e own kc ok. refl, λ s n d e v. absurd (ground arith)),
        ((λ a sgn k e own kc ok. refl, λ s n d e v. ground arith), tt),
      ),
      tt,
    ),
  ),
)

abbrev blocks_of : Member → List AlephData
blocks_of m = m

abbrev Known : AlephData → Type 0
Known b = is_available client b ≡ true

abbrev forwarded : List (Split.Event Member ℕ)
forwarded = received (aleph proposal) ∷ forward_data ∷ []

abbrev events : List (Client × Event list_cache blocks_of)
events = (client, message_received proposal) ∷ []

run-new-Delivers_example :
    (store : DataStore list_cache.Cache Member) × (DataIo.run list_cache blocks_of events
        (DataIo.new list_cache blocks_of)
      ≡ some store)
    × All (λ m. IsGenuine 4 (aleph m) × Ready list_cache blocks_of Known m) store.ready_messages
run-new-Delivers_example =
    run-new-Delivers encode check decode IsKeychain Vouched IsGenuine list_cache blocks_of Known 1 0
      acts reached 4 session forwarded [] events [] acts-IsHonest all_ok has_session (tt, (tt, tt))
      refl (unfold Split.run Split.step split_network forward_first forward in refl)
      ((λ b h. h, tt), tt) (omega arith)
