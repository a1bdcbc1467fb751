-- ===== src/Network.antt =====
-- `ConsensusNetwork` of finality-aleph/src/network.rs. The channels are lists in the state: the
-- queue of session commands, and for each session what its user received. What the node does to the
-- substrate network is noted in `sent` and `reserved`. `none` is a panic.
pub mod Peers
pub mod Authentic
pub mod Handshake
pub mod Incoming
pub mod Outgoing
pub mod PeerId
pub mod Split
use aleph_node.Common.{
  ℕ, Bool, true, false, Option, none, some, List, [], ◌∷◌, ◌++◌, map, nat_eq, nat_beq,
  if◌then◌else◌, ◌>>=◌,
}
use aleph_node.Common.Map.{Map, get, insert, iter, retain}
use aleph_node.Keys.{KeyBox, Signature}
use aleph_node.Keys

pub data SessionStatus : Type 0 where
  in_progress : SessionStatus
  terminated : SessionStatus

pub data Recipient (T : Type 0) : Type 0 where
  all : Recipient T
  target : T → Recipient T

pub record AuthData : Type 0 where
  pub session_id : ℕ
  pub peer_id : ℕ
  pub node_id : ℕ

pub data MetaMessage (Sgn : Type 0) : Type 0 where
  authentication : AuthData → Signature Sgn → MetaMessage Sgn
  authentication_request : ℕ → MetaMessage Sgn

pub data InternalMessage (Sgn D : Type 0) : Type 0 where
  meta : MetaMessage Sgn → InternalMessage Sgn D
  payload : ℕ → D → InternalMessage Sgn D

pub data SessionCommand (Sgn D : Type 0) : Type 0 where
  meta : MetaMessage Sgn → Recipient ℕ → SessionCommand Sgn D
  payload : ℕ → D → Recipient ℕ → SessionCommand Sgn D

-- `SessionCommand::map`
unfoldable pub map_command :
    {Sgn D E : Type 0} → (D → E) → SessionCommand Sgn D → SessionCommand Sgn E
map_command f (SessionCommand.meta message recipient) = SessionCommand.meta message recipient
map_command f (SessionCommand.payload session_id d recipient) =
    SessionCommand.payload session_id (f d) recipient

-- `user_open` says whether the receiver of `data_for_user` still exists.
pub record SessionData (Sgn D : Type 0) : Type 0 where
  pub user_open : Bool
  pub data_for_user : List D
  pub status : SessionStatus
  pub keychain : KeyBox
  pub auth_data : AuthData
  pub auth_signature : Signature Sgn

pub data Reserved : Type 0 where
  add_set_reserved : ℕ → Reserved
  remove_set_reserved : ℕ → Reserved

pub record Network (Sgn D : Type 0) : Type 0 where
  pub sessions : Map ℕ (SessionData Sgn D)
  pub commands : List (SessionCommand Sgn D)
  pub peers : Peers.Peers
  pub sent : List (ℕ × InternalMessage Sgn D)
  pub reserved : List Reserved

abbrev pub is_in_progress : SessionStatus → Bool
is_in_progress in_progress = true
is_in_progress terminated = false

abbrev pub optional : Option ℕ → List ℕ
optional none = []
optional (some p) = p ∷ []

module _ {Sgn D : Type 0} where
  unfoldable pub new : Network Sgn D
  new = record { sessions = []; commands = []; peers = Peers.new; sent = []; reserved = [] }

  abbrev pub push_command : SessionCommand Sgn D → Network Sgn D → Network Sgn D
  push_command c net = record net { commands = net.commands ++ c ∷ [] }

  unfoldable pub send_message : ℕ → InternalMessage Sgn D → Network Sgn D → Network Sgn D
  send_message peer_id message net = record net { sent = net.sent ++ (peer_id, message) ∷ [] }

  unfoldable pub send_messages : List ℕ → InternalMessage Sgn D → Network Sgn D → Network Sgn D
  send_messages [] message net = net
  send_messages (p ∷ ps) message net = send_messages ps message (send_message p message net)

  -- `send_to_user`: a closed channel ends the session.
  unfoldable pub send_to_user : D → SessionData Sgn D → SessionData Sgn D
  send_to_user d session_data =
      if session_data.user_open
      then record session_data { data_for_user = session_data.data_for_user ++ d ∷ [] }
      else record session_data { status = terminated }

  unfoldable pub authenticate_to : SessionData Sgn D → ℕ → Network Sgn D → Network Sgn D
  authenticate_to session_data peer_id = push_command (
      SessionCommand.meta (authentication session_data.auth_data session_data.auth_signature)
        (target peer_id))

  unfoldable pub on_incoming_data : ℕ → D → Network Sgn D → Network Sgn D
  on_incoming_data session_id d net = elim (get net.sessions session_id) [
    | none ↦ net
    | some session_data ↦
        if is_in_progress session_data.status
        then record net { sessions = insert session_id (send_to_user d session_data) net.sessions }
        else net
  ]

  unfoldable pub authenticate_all : List (ℕ × SessionData Sgn D) → ℕ → Network Sgn D → Network Sgn D
  authenticate_all [] peer_id net = net
  authenticate_all ((_, session_data) ∷ rest) peer_id net =
      authenticate_all rest peer_id (authenticate_to session_data peer_id net)

  unfoldable pub on_peer_connected : ℕ → Network Sgn D → Network Sgn D
  on_peer_connected peer_id net =
      authenticate_all (iter net.sessions) peer_id
        (record net { peers = Peers.insert peer_id net.peers })

  unfoldable pub on_peer_disconnected : ℕ → Network Sgn D → Network Sgn D
  on_peer_disconnected peer_id net = record net { peers = Peers.remove peer_id net.peers }

  -- To whom `on_command` sends.
  unfoldable pub recipients : SessionCommand Sgn D → Peers.Peers → List ℕ
  recipients (SessionCommand.meta message all) ps = map (λ p. p.0) (iter ps.all_peers)
  recipients (SessionCommand.meta message (target peer_id)) ps = peer_id ∷ []
  recipients (SessionCommand.payload session_id d (target node_id)) ps =
      optional (Peers.get ps session_id node_id)
  recipients (SessionCommand.payload session_id d all) ps =
      Peers.peers_authenticated_for ps session_id

  abbrev pub message_of : SessionCommand Sgn D → InternalMessage Sgn D
  message_of (SessionCommand.meta message recipient) = InternalMessage.meta message
  message_of (SessionCommand.payload session_id d recipient) = InternalMessage.payload session_id d

  unfoldable pub on_command : SessionCommand Sgn D → Network Sgn D → Network Sgn D
  on_command c net = send_messages (recipients c net.peers) (message_of c) net

  -- `retain` at the end of a round of `run`.
  unfoldable pub drop_terminated : Network Sgn D → Network Sgn D
  drop_terminated net = record net {
    sessions = retain (λ _ d. is_in_progress d.status) net.sessions;
  }

  abbrev pub next_command : List (SessionCommand Sgn D) → Network Sgn D → Network Sgn D
  next_command [] net = net
  next_command (c ∷ cs) net = on_command c (record net { commands = cs })

  abbrev pub close : Option (SessionData Sgn D) → ℕ → Network Sgn D → Network Sgn D
  close none session_id net = net
  close (some d) session_id net = record net {
    sessions = insert session_id (record d { user_open = false }) net.sessions;
  }

  abbrev pub fresh_session : KeyBox → AuthData → Signature Sgn → SessionData Sgn D
  fresh_session keychain auth_data signature = record {
    user_open = true;
    data_for_user = [];
    status = in_progress;
    keychain = keychain;
    auth_data = auth_data;
    auth_signature = signature;
  }

-- The encoding of the authentication data, the check of a signature of some authority, and the
-- decoding of raw messages. The crate's multikeychain passes `verify` on to the key box.
module _ {Raw Bytes Sgn D : Type 0} (encode : AuthData → Bytes) (check : ℕ → Bytes → Sgn → Bool)
    (decode : Raw → Option (InternalMessage Sgn D)) where
  abbrev pub register : AuthData → Bool → Network Sgn D → Network Sgn D
  register auth_data true net = record net {
    peers = Peers.authenticate auth_data.peer_id auth_data.session_id auth_data.node_id net.peers;
  }
  register auth_data false net = net

  unfoldable pub on_incoming_authentication :
      AuthData → Signature Sgn → Network Sgn D → Option (Network Sgn D)
  on_incoming_authentication auth_data signature net =
      elim (get net.sessions auth_data.session_id) [
        | none ↦ some net
        | some session_data ↦ do
          valid ←
              Keys.verify check session_data.keychain (encode auth_data) signature auth_data.node_id
          some (register auth_data valid net)
      ]

  unfoldable pub on_incoming_meta : MetaMessage Sgn → ℕ → Network Sgn D → Option (Network Sgn D)
  unfolding on_incoming_authentication
  on_incoming_meta (authentication auth_data signature) peer_id net =
      if nat_beq peer_id auth_data.peer_id
      then on_incoming_authentication auth_data signature net
      else some net
  on_incoming_meta (authentication_request session_id) peer_id net =
      elim (get net.sessions session_id) [
        | none ↦ some net
        | some session_data ↦ some (authenticate_to session_data peer_id net)
      ]

  unfoldable pub on_incoming_decoded :
      ℕ → Option (InternalMessage Sgn D) → Network Sgn D → Option (Network Sgn D)
  on_incoming_decoded peer_id none net = some net
  on_incoming_decoded peer_id (some (InternalMessage.meta message)) net =
      on_incoming_meta message peer_id net
  on_incoming_decoded peer_id (some (InternalMessage.payload session_id d)) net =
      if Peers.is_authenticated net.peers peer_id session_id
      then some (on_incoming_data session_id d net)
      else some (
          push_command (SessionCommand.meta (authentication_request session_id) (target peer_id))
            net)

  unfoldable pub on_incoming_message : ℕ → Raw → Network Sgn D → Option (Network Sgn D)
  unfolding on_incoming_decoded
  on_incoming_message peer_id raw_message net = on_incoming_decoded peer_id (decode raw_message) net

  unfoldable pub on_incoming_messages :
      ℕ → ℕ → List (ℕ × Raw) → Network Sgn D → Option (Network Sgn D)
  on_incoming_messages own_protocol remote [] net = some net
  on_incoming_messages own_protocol remote ((protocol, raw) ∷ rest) net = do
    net' ← (if nat_beq protocol own_protocol then on_incoming_message remote raw net else some net)
    on_incoming_messages own_protocol remote rest net'

  -- What a round of `run` waits for: an event of the substrate network, or the next command.
  pub data Event : Type 0 where
    sync_connected : ℕ → Event
    sync_disconnected : ℕ → Event
    notification_stream_opened : ℕ → ℕ → Event
    notification_stream_closed : ℕ → ℕ → Event
    notifications_received : ℕ → List (ℕ × Raw) → Event
    dht : Event
    command : Event

  -- One round. A stream of another protocol skips the `retain`, by `continue`. A `command` with an
  -- empty queue is no round.
  unfoldable pub step : ℕ → Event → Network Sgn D → Option (Network Sgn D)
  step own_protocol (sync_connected remote) net =
      some
        (drop_terminated (record net { reserved = net.reserved ++ add_set_reserved remote ∷ [] }))
  step own_protocol (sync_disconnected remote) net =
      some (
        drop_terminated (record net { reserved = net.reserved ++ remove_set_reserved remote ∷ [] }))
  step own_protocol (notification_stream_opened remote protocol) net = some (
      if nat_beq protocol own_protocol then drop_terminated (on_peer_connected remote net) else net)
  step own_protocol (notification_stream_closed remote protocol) net = some (
      if nat_beq protocol own_protocol
      then drop_terminated (on_peer_disconnected remote net)
      else net)
  step own_protocol (notifications_received remote messages) net = do
    net' ← on_incoming_messages own_protocol remote messages net
    some (drop_terminated net')
  step own_protocol dht net = some (drop_terminated net)
  step own_protocol command net = some (drop_terminated (next_command net.commands net))

  -- `SessionManager::start_session`, with the signature that the keychain gives.
  unfoldable pub start_session : ℕ → ℕ → KeyBox → (Bytes → Sgn) → Network Sgn D → Network Sgn D
  start_session peer_id session_id keychain signer net =
      let auth_data : AuthData = record {
        session_id = session_id;
        peer_id = peer_id;
        node_id = keychain.id;
      } in
      let signature : Signature Sgn = record {
        id = keychain.id;
        sgn = signer (encode auth_data);
      } in
      push_command (SessionCommand.meta (authentication auth_data signature) all) (record net {
        sessions = insert session_id (fresh_session keychain auth_data signature) net.sessions;
      })

  -- What may happen to the network's state: a round, a new session, a dropped user.
  pub data Act : Type 0 where
    round : Event → Act
    start : ℕ → KeyBox → (Bytes → Sgn) → Act
    send_command : SessionCommand Sgn D → Act
    drop_user : ℕ → Act

  unfoldable pub act : ℕ → ℕ → Act → Network Sgn D → Option (Network Sgn D)
  unfolding step start_session
  act own_peer own_protocol (round event) net = step own_protocol event net
  act own_peer own_protocol (start session_id keychain signer) net =
      some (start_session own_peer session_id keychain signer net)
  act own_peer own_protocol (send_command c) net = some (push_command c net)
  act own_peer own_protocol (drop_user session_id) net =
      some (close (get net.sessions session_id) session_id net)

  unfoldable pub run : ℕ → ℕ → List Act → Network Sgn D → Option (Network Sgn D)
  run own_peer own_protocol [] net = some net
  run own_peer own_protocol (a ∷ acts) net = do
    net' ← act own_peer own_protocol a net
    run own_peer own_protocol acts net'
