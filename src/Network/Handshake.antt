-- ===== src/Network/Handshake.antt =====
-- How two nodes get to know each other: `start_session` on one side, `on_incoming_message` on the
-- other (finality-aleph/src/network.rs, with `KeyBox` of finality-aleph/src/lib.rs).
use aleph_node.Common.{
  ℕ, ◌≡◌, refl, true, Bool, Option, some, [], ◌∷◌, ◌++◌, arith, nat_eq, get_elem?, map, nat_beq_iff,
}
use aleph_node.Common.Map
use aleph_node.Keys
use aleph_node.Keys.{KeyBox, Signature}
use aleph_node.Network.Peers
use aleph_node.Network.Peers.{authenticate, is_authenticated}
use aleph_node.Network.Peers.Laws.{
  is_authenticated_lem, get-authenticate, authentication-authenticate,
}
use aleph_node.Network.Outgoing.{letters, send_messages_lem}
use aleph_node.Network.{
  AuthData, InternalMessage, MetaMessage, SessionCommand, SessionData, Network, all, start_session,
  on_command, on_incoming_message, on_incoming_decoded, on_incoming_meta,
  on_incoming_authentication, message_of, recipients,
}

module _ {Raw Bytes Sgn D : Type 0} (encode : AuthData → Bytes) (check : ℕ → Bytes → Sgn → Bool)
    (decode : Raw → Option (InternalMessage Sgn D)) (encode_message : InternalMessage Sgn D → Raw)
    (sign_with : ℕ → Bytes → Sgn) where
  -- The announcement of a session by a peer, with its keychain.
  abbrev pub announcement : ℕ → ℕ → KeyBox → SessionCommand Sgn D
  announcement peer s keychain =
      let auth_data : AuthData = record { session_id = s; peer_id = peer; node_id = keychain.id } in
      SessionCommand.meta
        (MetaMessage.authentication auth_data
          (record { id = keychain.id; sgn = sign_with keychain.own (encode auth_data) }))
        all

  -- What the two sides do: the first queues the announcement, which it sends to the peers that are
  -- connected at that time and to no others; the second takes the encoded announcement from the
  -- first, and the first is then authenticated with it for the session, and as its node.
  pub record Handshake (peer s : ℕ) (keychain : KeyBox) (a a' b : Network Sgn D) : Type 0 where
    pub queued :
        (start_session encode check decode peer s keychain (sign_with keychain.own) a).commands
        ≡ a.commands ++ announcement peer s keychain ∷ []
    pub sent : on_command (announcement peer s keychain) a' ≡ (record a' {
      sent =
          a'.sent
          ++ letters
              (map (λ p. p.0) (Map.iter a'.peers.all_peers))
              (message_of (announcement peer s keychain));
    })
    pub after : Network Sgn D
    pub taken :
        on_incoming_message encode check decode peer
          (encode_message (message_of (announcement peer s keychain)))
          b
        ≡ some after
    pub accepted : Peers.is_authenticated after.peers peer s ≡ true
    pub reached : Peers.get after.peers s keychain.id ≡ some peer
    pub kept : after.sessions ≡ b.sessions

  -- A node that starts a session introduces itself to every other node of the session. For a peer
  -- that starts the session with a keychain, and for any other node that runs the session with a
  -- keychain whose authority at the first one's index is the first one's own key: the handshake holds
  -- from any state of the two, and for any state of the first in which the announcement is sent. The
  -- messages' decoding undoes their encoding, and signatures with a key pass the check against it.
  pub start_session-Handshake :
      ((m : InternalMessage Sgn D) → decode (encode_message m) ≡ some m)
      → ((authority : ℕ) (msg : Bytes) → check authority msg (sign_with authority msg) ≡ true)
      → (peer s : ℕ) (keychain : KeyBox) (a a' b : Network Sgn D) (d : SessionData Sgn D)
      → Map.get b.sessions s ≡ some d
      → get_elem? d.keychain.authorities keychain.id ≡ some keychain.own
      → Handshake peer s keychain a a' b
  unfolding start_session on_command recipients on_incoming_message on_incoming_decoded
      on_incoming_meta on_incoming_authentication Keys.verify
  start_session-Handshake decodes verifies peer s keychain a a' b d running key = record {
    queued = refl;
    sent = send_messages_lem _ _ a';
    after = record b { peers = authenticate peer s keychain.id b.peers };
    taken =
        let auth_data : AuthData = record {
          session_id = s;
          peer_id = peer;
          node_id = keychain.id;
        } in
        rw decodes (
          ground (arith, verifies keychain.own (encode auth_data), (nat_beq_iff peer peer).1 refl));
    accepted = ground (
      arith,
      is_authenticated_lem (authenticate peer s keychain.id b.peers) peer s,
      authentication-authenticate b.peers peer s keychain.id peer s,
    );
    reached = ground (arith, get-authenticate b.peers peer s keychain.id s keychain.id);
    kept = refl;
  }
