-- ===== src/Network/Authentic/Messages.antt =====
-- What the messages that a node of finality-aleph/src/network.rs receives do to its peers.
use aleph_node.Common.{
  ℕ, ◌≡◌, refl, sym, subst, inl, inr, Bool, true, false, ◌&&◌, Option, none, some, some_inj, List,
  [], ◌∷◌, arith, nat_eq, nat_beq, ◌==◌, Bool-cases, Option-cases, All, All-append,
}
use aleph_node.Common.Map.{get, insert, get-insert}
use aleph_node.Keys.{KeyBox, Signature}
use aleph_node.Keys
use aleph_node.Network.Peers
use aleph_node.Network.Peers.Laws.{
  authentication as node_of, is_authenticated_lem, get-authenticate, authentication-authenticate,
}
use aleph_node.Network.{
  AuthData, MetaMessage, Recipient, authentication, authentication_request, InternalMessage,
  SessionData, SessionCommand, Network, send_to_user, authenticate_to, on_incoming_data,
  on_incoming_meta, on_incoming_decoded, on_incoming_message, on_incoming_messages, is_in_progress,
  push_command, register,
}

module _ {Raw Bytes Sgn D : Type 0} (encode : AuthData → Bytes) (check : ℕ → Bytes → Sgn → Bool)
    (decode : Raw → Option (InternalMessage Sgn D)) (IsKeychain : ℕ → KeyBox → Type 0)
    (Vouched : ℕ → ℕ → ℕ → Type 0) (IsGenuine : ℕ → D → Type 0) where
  -- The sessions have keychains that are theirs, and whoever is registered as a node, in either
  -- table, is vouched for. The data that a session's user was given are genuine.
  pub record IsAuthentic (net : Network Sgn D) : Type 0 where
    pub keychains :
        (s : ℕ) (d : SessionData Sgn D) → get net.sessions s ≡ some d → IsKeychain s d.keychain
    pub nodes : (s n p : ℕ) → Peers.get net.peers s n ≡ some p → Vouched s n p
    pub records : (s n p : ℕ) → node_of net.peers p s ≡ some n → Vouched s n p
    pub received :
        (s : ℕ) (d : SessionData Sgn D)
        → get net.sessions s ≡ some d
        → All (IsGenuine s) d.data_for_user

  -- A message vouches for its sender, if it is an authentication in the sender's own name whose
  -- signature some keychain of the session accepts for the node.
  abbrev pub Vouches : ℕ → Raw → Type 0
  Vouches remote raw =
      (a : AuthData) (sgn : Signature Sgn) (keychain : KeyBox)
      → decode raw ≡ some (InternalMessage.meta (authentication a sgn))
      → a.peer_id ≡ remote
      → IsKeychain a.session_id keychain
      → Keys.verify check keychain (encode a) sgn a.node_id ≡ some true
      → Vouched a.session_id a.node_id remote

  -- A message carries genuine data, if what is sent by a peer that is vouched for is genuine.
  abbrev pub Carries : ℕ → Raw → Type 0
  Carries remote raw =
      (s n : ℕ) (d : D)
      → decode raw ≡ some (InternalMessage.payload s d)
      → Vouched s n remote
      → IsGenuine s d

  -- A change that leaves the peers, and every session's keychain and data.
  abbrev pub Same : Network Sgn D → Network Sgn D → Type 0
  Same net net' =
      (net'.peers ≡ net.peers)
      × ((s : ℕ) (d : SessionData Sgn D)
          → get net'.sessions s ≡ some d
          → (d' : SessionData Sgn D) × (get net.sessions s ≡ some d')
            × (d.keychain ≡ d'.keychain)
            × (d.data_for_user ≡ d'.data_for_user))

  pub Same-IsAuthentic :
      (net net' : Network Sgn D) → Same net net' → IsAuthentic net → IsAuthentic net'
  Same-IsAuthentic net net' h v = record {
    keychains = λ s d e.
        let (d', e', k, _) = h.1 s d e in subst (IsKeychain s) (sym k) (v.keychains s d' e');
    nodes = λ s n p e. v.nodes s n p (ground (arith, h.0));
    records = λ s n p e. v.records s n p (ground (arith, h.0));
    received = λ s d e.
        let (d', e', _, r) = h.1 s d e in subst (All (IsGenuine s)) (sym r) (v.received s d' e');
  }

  register-IsAuthentic :
      (net : Network Sgn D) (a : AuthData)
      → IsAuthentic net
      → Vouched a.session_id a.node_id a.peer_id
      → IsAuthentic (register encode check decode a true net)
  register-IsAuthentic net a v ok = record {
    keychains = v.keychains;
    received = v.received;
    nodes = λ s n p e. elim (Bool-cases (a.session_id == s && a.node_id == n)) [
      | inl t ↦
          vouch s n p (ground arith) (ground arith)
            (ground (arith, get-authenticate net.peers a.peer_id a.session_id a.node_id s n))
      | inr f ↦
          v.nodes s n p
            (ground (arith, get-authenticate net.peers a.peer_id a.session_id a.node_id s n))
    ];
    records = λ s n p e. elim (Bool-cases (a.peer_id == p && a.session_id == s)) [
      | inl t ↦
          vouch s n p (ground arith)
            (ground
              (arith, authentication-authenticate net.peers a.peer_id a.session_id a.node_id p s))
            (ground arith)
      | inr f ↦ v.records s n p (
          ground
            (arith, authentication-authenticate net.peers a.peer_id a.session_id a.node_id p s))
    ];
  }
    where
      vouch : (s n p : ℕ) → a.session_id ≡ s → a.node_id ≡ n → a.peer_id ≡ p → Vouched s n p
      vouch s n p e f g =
          subst (λ x. Vouched s n x) g
            (subst (λ x. Vouched s x a.peer_id) f (subst (λ x. Vouched x a.node_id a.peer_id) e ok))

  on_incoming_meta-IsAuthentic :
      (remote : ℕ) (raw : Raw) (m : MetaMessage Sgn) (net net' : Network Sgn D)
      → decode raw ≡ some (InternalMessage.meta m)
      → Vouches remote raw
      → on_incoming_meta encode check decode m remote net ≡ some net'
      → IsAuthentic net
      → IsAuthentic net'
  unfolding on_incoming_meta
  on_incoming_meta-IsAuthentic remote raw (authentication a sgn) net net' d h e v =
      elim (Bool-cases (nat_beq remote a.peer_id)) [
        | inr f ↦ subst IsAuthentic (some_inj (ground arith)) v
        | inl t ↦ elim (Option-cases (get net.sessions a.session_id)) [
          | inl q ↦ subst IsAuthentic (some_inj (ground arith)) v
          | inr (data', q) ↦
              elim (Option-cases (Keys.verify check data'.keychain (encode a) sgn a.node_id)) [
                | inl p ↦ absurd (ground arith)
                | inr (false, p) ↦ subst IsAuthentic (some_inj (ground arith)) v
                | inr (true, p) ↦
                    let own : a.peer_id ≡ remote = ground arith in
                    subst IsAuthentic {x = register encode check decode a true net}
                      (some_inj (ground arith))
                      (register-IsAuthentic net a v (
                        subst (Vouched a.session_id a.node_id) (sym own)
                          (h a sgn data'.keychain d own (v.keychains a.session_id data' q) p)))
              ]
        ]
      ]
  on_incoming_meta-IsAuthentic remote raw (authentication_request s) net net' d h e v =
      elim (Option-cases (get net.sessions s)) [
        | inl q ↦ subst IsAuthentic (some_inj (ground arith)) v
        | inr (data', q) ↦
            subst IsAuthentic {x = authenticate_to data' remote net} (some_inj (ground arith)) (
              unfold authenticate_to in
              Same-IsAuthentic net (authenticate_to data' remote net)
                (refl, λ s d e. (d, e, refl, refl)) v)
      ]

  -- To write a session with the keychain that it has, and with genuine data.
  pub written-IsAuthentic :
      (net : Network Sgn D) (session_id : ℕ) (d d' : SessionData Sgn D)
      → get net.sessions session_id ≡ some d
      → d'.keychain ≡ d.keychain
      → All (IsGenuine session_id) d'.data_for_user
      → IsAuthentic net
      → IsAuthentic (record net { sessions = insert session_id d' net.sessions })
  written-IsAuthentic net session_id d d' e k g v = record {
    keychains = λ s x q. elim (Bool-cases (session_id == s)) [
      | inl t ↦
          let here : session_id ≡ s = ground arith in
          let same : d' ≡ x = ground (arith, get-insert net.sessions session_id s d') in
          subst (λ y. IsKeychain s y.keychain) same
            (subst (IsKeychain s) (sym k) (v.keychains s d (ground arith)))
      | inr f ↦ v.keychains s x (ground (arith, get-insert net.sessions session_id s d'))
    ];
    nodes = v.nodes;
    records = v.records;
    received = λ s x q. elim (Bool-cases (session_id == s)) [
      | inl t ↦
          let here : session_id ≡ s = ground arith in
          let same : d' ≡ x = ground (arith, get-insert net.sessions session_id s d') in
          subst (λ y. All (IsGenuine s) y.data_for_user) same
            (subst (λ r. All (IsGenuine r) d'.data_for_user) here g)
      | inr f ↦ v.received s x (ground (arith, get-insert net.sessions session_id s d'))
    ];
  }

  send_to_user-keychain : (d : D) (s : SessionData Sgn D) → (send_to_user d s).keychain ≡ s.keychain
  unfolding send_to_user
  send_to_user-keychain d s = ground arith

  send_to_user-data :
      (session_id : ℕ) (d : D) (s : SessionData Sgn D)
      → IsGenuine session_id d
      → All (IsGenuine session_id) s.data_for_user
      → All (IsGenuine session_id) (send_to_user d s).data_for_user
  unfolding send_to_user
  send_to_user-data session_id d s g old = elim (Bool-cases s.user_open) [
    | inl t ↦ rw t (All-append (IsGenuine session_id) s.data_for_user (d ∷ []) old (g, tt))
    | inr f ↦ rw f old
  ]

  on_incoming_data-IsAuthentic :
      (session_id : ℕ) (d : D) (net : Network Sgn D)
      → IsGenuine session_id d
      → IsAuthentic net
      → IsAuthentic (on_incoming_data session_id d net)
  unfolding on_incoming_data
  on_incoming_data-IsAuthentic session_id d net g v =
      elim (Option-cases (get net.sessions session_id)) [
        | inl q ↦ rw (q, on_incoming_data) v
        | inr (x, q) ↦ elim (Bool-cases (is_in_progress x.status)) [
          | inr f ↦ rw (q, on_incoming_data, f) v
          | inl t ↦
              rw (q, on_incoming_data, t)
                (written-IsAuthentic net session_id x (send_to_user d x) q
                  (send_to_user-keychain d x)
                  (send_to_user-data session_id d x g (v.received session_id x q)) v)
        ]
      ]

  -- Who is authenticated for a session is recorded as some node.
  recorded :
      (net : Network Sgn D) (remote s : ℕ)
      → Peers.is_authenticated net.peers remote s ≡ true
      → (n : ℕ) × (node_of net.peers remote s ≡ some n)
  recorded net remote s t = elim (Option-cases (node_of net.peers remote s)) [
    | inl e ↦ absurd (ground (arith, is_authenticated_lem net.peers remote s))
    | inr r ↦ r
  ]

  message-IsAuthentic :
      (remote : ℕ) (raw : Raw) (net net' : Network Sgn D)
      → Vouches remote raw
      → Carries remote raw
      → on_incoming_message encode check decode remote raw net ≡ some net'
      → IsAuthentic net
      → IsAuthentic net'
  unfolding on_incoming_message
  message-IsAuthentic remote raw net net' h c e v = go (decode raw) refl e
    where
      go :
          (o : Option (InternalMessage Sgn D))
          → decode raw ≡ o
          → on_incoming_decoded encode check decode remote o net ≡ some net'
          → IsAuthentic net'
      go none d e = subst IsAuthentic (some_inj e) v
      go (some (InternalMessage.meta m)) d e =
          on_incoming_meta-IsAuthentic remote raw m net net' d h e v
      go (some (InternalMessage.payload s x)) d e =
          elim (Bool-cases (Peers.is_authenticated net.peers remote s)) [
            | inl t ↦
                let (n, r) = recorded net remote s t in
                subst IsAuthentic {x = on_incoming_data s x net} (some_inj (ground arith))
                  (on_incoming_data-IsAuthentic s x net (c s n x d (v.records s n remote r)) v)
            | inr f ↦
                subst IsAuthentic
                  {x = push_command
                    (SessionCommand.meta (authentication_request s) (Recipient.target remote)) net}
                  (some_inj (ground arith))
                  (Same-IsAuthentic net _ (refl, λ s' d' q. (d', q, refl, refl)) v)
          ]

  pub messages-IsAuthentic :
      (own remote : ℕ) (messages : List (ℕ × Raw)) (net net' : Network Sgn D)
      → All (λ m. Vouches remote m.1 × Carries remote m.1) messages
      → on_incoming_messages encode check decode own remote messages net ≡ some net'
      → IsAuthentic net
      → IsAuthentic net'
  unfolding on_incoming_messages
  messages-IsAuthentic own remote [] net net' h e v = subst IsAuthentic (some_inj e) v
  messages-IsAuthentic own remote ((protocol, raw) ∷ rest) net net' h e v =
      elim (Bool-cases (nat_beq protocol own)) [
        | inr f ↦ messages-IsAuthentic own remote rest net net' h.1 (ground arith) v
        | inl t ↦ elim (Option-cases (on_incoming_message encode check decode remote raw net)) [
          | inl q ↦ absurd (ground arith)
          | inr (net'', q) ↦
              messages-IsAuthentic own remote rest net'' net' h.1 (ground arith)
                (message-IsAuthentic remote raw net net'' h.0.0 h.0.1 q v)
        ]
      ]
