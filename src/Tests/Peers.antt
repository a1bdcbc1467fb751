-- ===== src/Tests/Peers.antt =====
-- Tests of the network and its table of peers.
use aleph_node.Common.{
  ℕ, ◌≡◌, ◌≢◌, ◌↔◌, refl, Bool, true, ◌&&◌, Option, none, some, List, [], ◌∷◌, ◌++◌, arith, nat_eq,
  nat_beq, contains, All, if◌then◌else◌, ◌==◌,
}
use aleph_node.Common.Map.{Map, get, insert, remove, iter, retain, get-empty}
use aleph_node.Keys.{KeyBox, Signature}
use aleph_node.Keys
use aleph_node.Network.Peers
use aleph_node.Network.Peers.{Peers}
use aleph_node.Network.Peers.Laws.{
  Consistent, remove-hides, authentication as node_of, authentication-authenticate,
  authentication-insert_peer,
}
use aleph_node.Network.Peers.History.{
  Change, connected, authenticated, history, AreFit, history-Consistent,
}
use aleph_node.Network.{
  AuthData, Recipient, authentication, InternalMessage, SessionCommand, Network, new,
  on_incoming_message, on_command, Act, round, start, notification_stream_opened,
  notifications_received, run, act, step, start_session, on_peer_connected, on_incoming_messages,
  on_incoming_decoded, on_incoming_meta, on_incoming_authentication, authenticate_all,
  authenticate_to, drop_terminated,
}
use aleph_node.Network.Authentic.Messages.{IsAuthentic}
use aleph_node.Network.Authentic.{IsHonest, run-new-IsAuthentic}
use aleph_node.Network.Incoming.{
  IsFatal, on_incoming_message-panics, received, listens, requested, payload-received,
}
use aleph_node.Network.Outgoing.{letters, Addressed, on_command-payload}

-- Peer 7 is node 1 of session 4.
abbrev one_node : Peers
one_node = Peers.authenticate 7 4 1 Peers.new

abbrev changes : List Change
changes = connected 7 ∷ authenticated 7 4 1 ∷ []

seven_is_new : (m : ℕ) → node_of (Peers.insert 7 Peers.new) 7 4 ≢ some m
seven_is_new m h = ground (arith, authentication-insert_peer Peers.new 7 7 4)

changes-AreFit : AreFit changes Peers.new
unfolding Peers.new Peers.get Peers.insert node_of
changes-AreFit = (
  λ s. ground (arith, get-empty {K = ℕ} {V = Peers.PeerInfo} 7),
  (
    (
      λ q h. absurd (ground (arith, get-empty {K = ℕ} {V = Map ℕ ℕ} 4)),
      λ m h. absurd (seven_is_new m h),
    ),
    tt,
  ),
)

history-Consistent_example :
    Consistent (history changes Peers.new)
    × ((s n : ℕ) → Peers.get (Peers.remove 7 (history changes Peers.new)) s n ≢ some 7)
history-Consistent_example = history-Consistent changes 7 changes-AreFit

one_node-7 : node_of one_node 7 4 ≡ some 1
one_node-7 = ground (arith, authentication-authenticate Peers.new 7 4 1 7 4)

remove-hides_example :
    (Peers.is_authenticated (Peers.remove 7 (Peers.authenticate 8 4 1 one_node)) 8 4 ≡ true)
    × (Peers.get (Peers.remove 7 (Peers.authenticate 8 4 1 one_node)) 4 1 ≡ none)
remove-hides_example = remove-hides one_node 7 8 4 1 (λ e. ground arith) one_node-7

-- Raw messages are messages, data are numbers, and a signature is the number of its authority.
abbrev Message : Type 0
Message = InternalMessage ℕ ℕ

abbrev encode : AuthData → AuthData
encode a = a

abbrev check : ℕ → AuthData → ℕ → Bool
check authority a sgn = nat_beq sgn authority

abbrev decode : Message → Option Message
decode m = some m

abbrev keychain : KeyBox
keychain = record { id = 0; own = 10; authorities = 10 ∷ 11 ∷ [] }

-- Peer 7 authenticates as node 1 of session 4.
abbrev hello : ℕ → Message
hello n = InternalMessage.meta (
    authentication (record { session_id = 4; peer_id = 7; node_id = n })
      (record { id = n; sgn = 11 }))

abbrev acts : List (Act {Raw = Message} {D = ℕ} encode check decode)
acts =
    start 4 keychain (λ a. 10)
    ∷ round (notification_stream_opened 7 0)
    ∷ round (notifications_received 7 ((0, hello 1) ∷ (0, InternalMessage.payload 4 99) ∷ []))
    ∷ []

abbrev or_new : Option (Network ℕ ℕ) → Network ℕ ℕ
or_new none = new
or_new (some net) = net

abbrev reached : Network ℕ ℕ
reached = or_new (run encode check decode 1 0 acts new)

abbrev IsKeychain : ℕ → KeyBox → Type 0
IsKeychain s k = (s ≡ 4) × (k ≡ keychain)

-- Only peer 7 is vouched for.
abbrev Vouched : ℕ → ℕ → ℕ → Type 0
Vouched s n p = p ≡ 7

-- Only the number 99 is sent.
abbrev IsGenuine : ℕ → ℕ → Type 0
IsGenuine s d = d ≡ 99

all_ok : run {Raw = Message} {D = ℕ} encode check decode 1 0 acts new ≡ some reached
unfolding run new act step start_session on_peer_connected on_incoming_messages on_incoming_message
    on_incoming_decoded on_incoming_meta on_incoming_authentication get insert remove iter retain
    Keys.verify authenticate_all authenticate_to drop_terminated Peers.insert Peers.new
    Peers.new_info Peers.is_authenticated Peers.authenticate
all_ok = refl

acts-IsHonest : All (IsHonest encode check decode IsKeychain Vouched IsGenuine) acts
acts-IsHonest = (
  (refl, refl),
  (
    tt,
    (
      (
        (λ a sgn k e own kc ok. refl, λ s n d e v. absurd (ground arith)),
        ((λ a sgn k e own kc ok. refl, λ s n d e v. ground arith), tt),
      ),
      tt,
    ),
  ),
)

run-new-IsAuthentic_example : IsAuthentic encode check decode IsKeychain Vouched IsGenuine reached
run-new-IsAuthentic_example =
    run-new-IsAuthentic encode check decode IsKeychain Vouched IsGenuine 1 0 acts reached
      acts-IsHonest all_ok

on_incoming_message-panics_example :
    (on_incoming_message encode check decode 7 (hello 2) reached ≡ none)
    ↔ IsFatal encode check decode 7 (hello 2) reached
on_incoming_message-panics_example =
    on_incoming_message-panics encode check decode 7 (hello 2) reached

payload-received_example :
    (net' : Network ℕ ℕ) × ((on_incoming_message encode check decode 7
          (InternalMessage.payload 4 99)
          reached
        ≡ some net')
      × ((net'.peers ≡ reached.peers)
          × ((net'.commands ≡ (
                if Peers.is_authenticated reached.peers 7 4
                then reached.commands
                else reached.commands ++ requested encode check decode 4 7 ∷ []))
              × ((t : ℕ)
                  → received encode check decode net' t ≡ (
                      if 4 == t
                        && (Peers.is_authenticated reached.peers 7 4
                            && listens encode check decode reached 4)
                      then received encode check decode reached t ++ 99 ∷ []
                      else received encode check decode reached t)))))
payload-received_example =
    payload-received encode check decode 7 (InternalMessage.payload 4 99) 4 99 reached refl

on_command-payload_example :
    (l : List ℕ) × ((on_command (SessionCommand.payload 4 99 Recipient.all) reached
        ≡ (record reached { sent = reached.sent ++ letters l (InternalMessage.payload 4 99) }))
      × ((p : ℕ) → (contains l p ≡ true) ↔ Addressed reached.peers 4 Recipient.all p))
on_command-payload_example = on_command-payload 4 99 Recipient.all reached
