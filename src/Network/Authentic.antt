-- ===== src/Network/Authentic.antt =====
-- Who is registered as which node, in finality-aleph/src/network.rs.
pub mod Messages
use mathlib.Core.Path.{subst₂}
use aleph_node.Common.{
  ℕ, ◌≡◌, refl, sym, ◌∙◌, ap, subst, inl, inr, Bool, true, false, ◌&&◌, Option, none, some,
  some_inj, List, [], ◌∷◌, arith, nat_eq, nat_beq, ◌==◌, Bool-cases, Option-cases, All,
}
use aleph_node.Common.Map.{Map, get, insert, iter, get-insert, get-retain, get-empty}
use aleph_node.Keys.{KeyBox, Signature}
use aleph_node.Keys
use aleph_node.Network.Peers
use aleph_node.Network.Peers.Laws.{
  authentication as node_of, get-authenticate, authentication-authenticate, get-remove_peer,
  authentication-remove_peer, get-insert_peer, authentication-insert_peer,
}
use aleph_node.Network.Authentic.Messages.{
  IsAuthentic, Vouches, Same-IsAuthentic, messages-IsAuthentic, written-IsAuthentic, Carries,
}
use aleph_node.Network.{
  AuthData, MetaMessage, Recipient, authentication, authentication_request, InternalMessage,
  SessionData, SessionCommand, Network, new, send_message, send_messages, send_to_user,
  authenticate_to, authenticate_all, on_peer_connected, on_peer_disconnected, on_incoming_data,
  on_command, drop_terminated, on_incoming_meta, on_incoming_decoded, on_incoming_message,
  on_incoming_messages, is_in_progress, Event, sync_connected, sync_disconnected,
  notification_stream_opened, notification_stream_closed, notifications_received, dht, command,
  next_command, push_command, step, start_session, Act, round, start, send_command, drop_user, act,
  run, register, close, fresh_session,
}

module _ {Raw Bytes Sgn D : Type 0} (encode : AuthData → Bytes) (check : ℕ → Bytes → Sgn → Bool)
    (decode : Raw → Option (InternalMessage Sgn D)) (IsKeychain : ℕ → KeyBox → Type 0)
    (Vouched : ℕ → ℕ → ℕ → Type 0) (IsGenuine : ℕ → D → Type 0) where
  abbrev Authentic : Network Sgn D → Type 0
  Authentic = IsAuthentic encode check decode IsKeychain Vouched IsGenuine

  drop-IsAuthentic : (net : Network Sgn D) → Authentic net → Authentic (drop_terminated net)
  unfolding drop_terminated
  drop-IsAuthentic net v =
      Same-IsAuthentic encode check decode IsKeychain Vouched IsGenuine net _
        (
          refl,
          λ s d q. (
            d,
            ground (
              arith,
              get-retain (λ _ (x : SessionData Sgn D). is_in_progress x.status) net.sessions s,
            ),
            refl,
            refl,
          ),
        )
        v

  authenticate_all-IsAuthentic :
      (remote : ℕ) (l : List (ℕ × SessionData Sgn D)) (m : Network Sgn D)
      → Authentic m
      → Authentic (authenticate_all l remote m)
  unfolding authenticate_all authenticate_to
  authenticate_all-IsAuthentic remote [] m u = u
  authenticate_all-IsAuthentic remote ((s, d) ∷ l) m u =
      authenticate_all-IsAuthentic remote l (authenticate_to d remote m) (
        Same-IsAuthentic encode check decode IsKeychain Vouched IsGenuine m _
          (refl, λ s' d' q. (d', q, refl, refl)) u)

  connected-IsAuthentic :
      (remote : ℕ) (net : Network Sgn D) → Authentic net → Authentic (on_peer_connected remote net)
  unfolding on_peer_connected
  connected-IsAuthentic remote net v =
      authenticate_all-IsAuthentic remote (iter net.sessions)
        (record net { peers = Peers.insert remote net.peers })
        (record {
          keychains = v.keychains;
          received = v.received;
          nodes = λ s n p e. v.nodes s n p (ground (arith, get-insert_peer net.peers remote s n));
          records = λ s n p e.
              v.records s n p (ground (arith, authentication-insert_peer net.peers remote p s));
        })

  disconnected-IsAuthentic :
      (remote : ℕ) (net : Network Sgn D)
      → Authentic net
      → Authentic (on_peer_disconnected remote net)
  unfolding on_peer_disconnected
  disconnected-IsAuthentic remote net v = record {
    keychains = v.keychains;
    received = v.received;
    nodes = λ s n p e. v.nodes s n p (ground (arith, get-remove_peer net.peers remote s n));
    records = λ s n p e.
        v.records s n p (ground (arith, authentication-remove_peer net.peers remote p s));
  }

  send_messages-IsAuthentic :
      (ps : List ℕ) (m : InternalMessage Sgn D) (net : Network Sgn D)
      → Authentic net
      → Authentic (send_messages ps m net)
  unfolding send_messages send_message
  send_messages-IsAuthentic [] m net v = v
  send_messages-IsAuthentic (p ∷ ps) m net v =
      send_messages-IsAuthentic ps m (send_message p m net) (
        Same-IsAuthentic encode check decode IsKeychain Vouched IsGenuine net _
          (refl, λ s d q. (d, q, refl, refl)) v)

  next_command-IsAuthentic :
      (cs : List (SessionCommand Sgn D)) (net : Network Sgn D)
      → Authentic net
      → Authentic (next_command cs net)
  unfolding on_command
  next_command-IsAuthentic [] net v = v
  next_command-IsAuthentic (c ∷ cs) net v =
      send_messages-IsAuthentic _ _ (record net { commands = cs })
        (Same-IsAuthentic encode check decode IsKeychain Vouched IsGenuine net _
          (refl, λ s d q. (d, q, refl, refl)) v)

  -- What is asked of an act: messages vouch for their senders, and a new session's keychain is its.
  abbrev pub IsHonest : Act encode check decode → Type 0
  IsHonest (round (notifications_received remote messages)) =
      All
        (λ m.
          Vouches encode check decode IsKeychain Vouched IsGenuine remote m.1
          × Carries encode check decode IsKeychain Vouched IsGenuine remote m.1)
        messages
  IsHonest (start session_id keychain signer) = IsKeychain session_id keychain
  IsHonest _ = Unit {0}

  step-IsAuthentic :
      (own : ℕ) (event : Event encode check decode) (net net' : Network Sgn D)
      → IsHonest (round event)
      → step encode check decode own event net ≡ some net'
      → Authentic net
      → Authentic net'
  unfolding step
  step-IsAuthentic own (sync_connected remote) net net' h e v = subst Authentic (some_inj e) (
      drop-IsAuthentic _ (
        Same-IsAuthentic encode check decode IsKeychain Vouched IsGenuine net _
          (refl, λ s d q. (d, q, refl, refl)) v))
  step-IsAuthentic own (sync_disconnected remote) net net' h e v = subst Authentic (some_inj e) (
      drop-IsAuthentic _ (
        Same-IsAuthentic encode check decode IsKeychain Vouched IsGenuine net _
          (refl, λ s d q. (d, q, refl, refl)) v))
  step-IsAuthentic own (notification_stream_opened remote protocol) net net' h e v =
      subst Authentic (some_inj e) (elim (Bool-cases (nat_beq protocol own)) [
        | inl t ↦ rw t (drop-IsAuthentic _ (connected-IsAuthentic remote net v))
        | inr f ↦ rw f v
      ])
  step-IsAuthentic own (notification_stream_closed remote protocol) net net' h e v =
      subst Authentic (some_inj e) (elim (Bool-cases (nat_beq protocol own)) [
        | inl t ↦ rw t (drop-IsAuthentic _ (disconnected-IsAuthentic remote net v))
        | inr f ↦ rw f v
      ])
  step-IsAuthentic own (notifications_received remote messages) net net' h e v =
      elim (Option-cases (on_incoming_messages encode check decode own remote messages net)) [
        | inl q ↦ absurd (ground arith)
        | inr (net'', q) ↦ subst Authentic {x = drop_terminated net''} (some_inj (ground arith)) (
            drop-IsAuthentic net'' (
              messages-IsAuthentic encode check decode IsKeychain Vouched IsGenuine own remote
                messages net net'' h q v))
      ]
  step-IsAuthentic own dht net net' h e v = subst Authentic (some_inj e) (drop-IsAuthentic net v)
  step-IsAuthentic own command net net' h e v =
      subst Authentic (some_inj e)
        (drop-IsAuthentic _ (next_command-IsAuthentic net.commands net v))

  started-IsAuthentic :
      (peer session_id : ℕ) (keychain : KeyBox) (signer : Bytes → Sgn) (net : Network Sgn D)
      → IsKeychain session_id keychain
      → Authentic net
      → Authentic (start_session encode check decode peer session_id keychain signer net)
  unfolding start_session
  started-IsAuthentic peer session_id keychain signer net k v = record {
    keychains = λ s d q. elim (Bool-cases (session_id == s)) [
      | inl t ↦
          let same : fresh_session keychain auth signature ≡ d =
            ground (
              arith,
              get-insert net.sessions session_id s (fresh_session keychain auth signature),
            ) in
          subst₂ IsKeychain (ground arith) (ap (λ (x : SessionData Sgn D). x.keychain) same) k
      | inr f ↦ v.keychains s d (
          ground
            (arith, get-insert net.sessions session_id s (fresh_session keychain auth signature)))
    ];
    nodes = v.nodes;
    records = v.records;
    received = λ s d q. elim (Bool-cases (session_id == s)) [
      | inl t ↦
          let same : fresh_session keychain auth signature ≡ d =
            ground (
              arith,
              get-insert net.sessions session_id s (fresh_session keychain auth signature),
            ) in
          subst (λ x. All (IsGenuine s) x.data_for_user) same tt
      | inr f ↦ v.received s d (
          ground
            (arith, get-insert net.sessions session_id s (fresh_session keychain auth signature)))
    ];
  }
    where
      auth : AuthData
      auth = record { session_id = session_id; peer_id = peer; node_id = keychain.id }

      signature : Signature Sgn
      signature = record { id = keychain.id; sgn = signer (encode auth) }

  close-IsAuthentic :
      (session_id : ℕ) (net : Network Sgn D)
      → Authentic net
      → Authentic (close (get net.sessions session_id) session_id net)
  close-IsAuthentic session_id net v = elim (Option-cases (get net.sessions session_id)) [
    | inl q ↦ rw q v
    | inr (d, q) ↦ rw q (
        written-IsAuthentic encode check decode IsKeychain Vouched IsGenuine net session_id d _ q
          refl (v.received session_id d q) v)
  ]

  act-IsAuthentic :
      (own_peer own_protocol : ℕ) (a : Act encode check decode) (net net' : Network Sgn D)
      → IsHonest a
      → act encode check decode own_peer own_protocol a net ≡ some net'
      → Authentic net
      → Authentic net'
  unfolding act
  act-IsAuthentic own_peer own (round event) net net' h e v =
      step-IsAuthentic own event net net' h e v
  act-IsAuthentic own_peer own (start s keychain signer) net net' h e v =
      subst Authentic (some_inj e) (started-IsAuthentic own_peer s keychain signer net h v)
  act-IsAuthentic own_peer own (send_command c) net net' h e v = subst Authentic (some_inj e) (
      Same-IsAuthentic encode check decode IsKeychain Vouched IsGenuine net _
        (refl, λ s d q. (d, q, refl, refl)) v)
  act-IsAuthentic own_peer own (drop_user s) net net' h e v =
      subst Authentic (some_inj e) (close-IsAuthentic s net v)

  run-IsAuthentic :
      (own_peer own_protocol : ℕ) (acts : List (Act encode check decode)) (net net' : Network Sgn D)
      → All IsHonest acts
      → run encode check decode own_peer own_protocol acts net ≡ some net'
      → Authentic net
      → Authentic net'
  unfolding run
  run-IsAuthentic own_peer own [] net net' h e v = subst Authentic (some_inj e) v
  run-IsAuthentic own_peer own (a ∷ acts) net net' h e v =
      elim (Option-cases (act encode check decode own_peer own a net)) [
        | inl q ↦ absurd (ground arith)
        | inr (net'', q) ↦
            run-IsAuthentic own_peer own acts net'' net' h.1 (ground arith)
              (act-IsAuthentic own_peer own a net net'' h.0 q v)
      ]

  -- After any run of a new network, whoever is registered as a node of a session, in either of the
  -- two tables, is vouched for: by the reading of `Vouched` and `IsKeychain`, it sent itself an
  -- authentication in its own name, with a signature that a keychain of the session accepts for that
  -- node. And whatever data the user of a session was given is genuine: by the reading of `IsGenuine`,
  -- it was sent for that session by a peer that is vouched for.
  pub run-new-IsAuthentic :
      (own_peer own_protocol : ℕ) (acts : List (Act encode check decode)) (net : Network Sgn D)
      → All IsHonest acts
      → run encode check decode own_peer own_protocol acts new ≡ some net
      → IsAuthentic encode check decode IsKeychain Vouched IsGenuine net
  unfolding new
  run-new-IsAuthentic own_peer own acts net h e =
      run-IsAuthentic own_peer own acts new net h e (record {
        keychains = λ s d q. absurd (ground (arith, get-empty {V = SessionData Sgn D} s));
        received = λ s d q. absurd (ground (arith, get-empty {V = SessionData Sgn D} s));
        nodes = λ s n p q.
            absurd (unfold Peers.new Peers.get in ground (arith, get-empty {V = Map ℕ ℕ} s));
        records = λ s n p q.
            absurd (unfold Peers.new node_of in ground (arith, get-empty {V = Peers.PeerInfo} p));
      })
