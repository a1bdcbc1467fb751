-- ===== src/Network/Incoming.antt =====
-- What a received message does, in finality-aleph/src/network.rs: which messages make the network's
-- task panic, and what they deliver to the users of sessions.
use aleph_node.Common.{
  ℕ, ◌≡◌, ◌↔◌, refl, inl, inr, Option, none, some, Bool, false, List, [], ◌∷◌, ◌++◌, ◌&&◌, arith,
  nat_eq, nat_beq, ◌==◌, Bool-cases, Option-cases, if◌then◌else◌, length, get_elem?, ◌≤◌, zero, suc,
}
use aleph_node.Common.Map.{get, insert, get-insert}
use aleph_node.Keys.{KeyBox, Signature, verify}
use aleph_node.Network.Peers
use aleph_node.Network.{
  AuthData, SessionCommand, Recipient, authentication, authentication_request, InternalMessage,
  SessionData, Network, send_to_user, on_incoming_data, on_incoming_authentication,
  on_incoming_meta, on_incoming_decoded, on_incoming_message, is_in_progress, push_command,
}

get_elem?-none {ℓ} : {A : Type ℓ} (xs : List A) (i : ℕ) → (get_elem? xs i ≡ none) ↔ (length xs ≤ i)
get_elem?-none [] i = ground arith
get_elem?-none (x ∷ xs) zero = ground arith
get_elem?-none (x ∷ xs) (suc i) = ground (arith, get_elem?-none xs i)

module _ {Raw Bytes Sgn D : Type 0} (encode : AuthData → Bytes) (check : ℕ → Bytes → Sgn → Bool)
    (decode : Raw → Option (InternalMessage Sgn D)) where
  verify-none :
      (k : KeyBox) (msg : Bytes) (sgn : Signature Sgn) (n : ℕ)
      → (verify check k msg sgn n ≡ none) ↔ (length k.authorities ≤ n)
  unfolding verify
  verify-none k msg sgn n = ground (arith, get_elem?-none k.authorities n)

  -- An authentication in the sender's own name, for a session that the node is in, as a node that
  -- the session does not have.
  abbrev pub IsFatal : ℕ → Raw → Network Sgn D → Type 0
  IsFatal remote raw net =
      (a : AuthData) × (sgn : Signature Sgn) × (x : SessionData Sgn D) × (decode raw
        ≡ some (InternalMessage.meta (authentication a sgn)))
      × (a.peer_id ≡ remote)
      × (get net.sessions a.session_id ≡ some x)
      × (length x.keychain.authorities ≤ a.node_id)

  -- The task panics on a message exactly if the message is fatal: the index of the node is not
  -- compared with the number of authorities before the key box looks it up.
  pub on_incoming_message-panics :
      (remote : ℕ) (raw : Raw) (net : Network Sgn D)
      → (on_incoming_message encode check decode remote raw net ≡ none) ↔ IsFatal remote raw net
  unfolding on_incoming_message on_incoming_decoded on_incoming_meta on_incoming_authentication
  on_incoming_message-panics remote raw net = (go (decode raw) refl, back)
    where
      go :
          (o : Option (InternalMessage Sgn D))
          → decode raw ≡ o
          → on_incoming_decoded encode check decode remote o net ≡ none
          → IsFatal remote raw net
      go none d e = absurd (ground arith)
      go (some (InternalMessage.payload s x)) d e = absurd (ground arith)
      go (some (InternalMessage.meta (authentication_request s))) d e = absurd (ground arith)
      go (some (InternalMessage.meta (authentication a sgn))) d e =
          elim (Bool-cases (nat_beq remote a.peer_id)) [
            | inr f ↦ absurd (ground arith)
            | inl t ↦ elim (Option-cases (get net.sessions a.session_id)) [
              | inl q ↦ absurd (ground arith)
              | inr (x, q) ↦ (
                a,
                sgn,
                x,
                d,
                ground arith,
                q,
                ground (arith, verify-none x.keychain (encode a) sgn a.node_id),
              )
            ]
          ]

      back : IsFatal remote raw net → on_incoming_message encode check decode remote raw net ≡ none
      back (a, sgn, x, d, p, q, l) = ground (arith, verify-none x.keychain (encode a) sgn a.node_id)

  -- What the user of a session has received.
  abbrev pub received : Network Sgn D → ℕ → List D
  received net s = elim (get net.sessions s) [ none ↦ [] | some x ↦ x.data_for_user ]

  -- Whether the user of a session still listens.
  abbrev pub listens : Network Sgn D → ℕ → Bool
  listens net s = elim (get net.sessions s) [
    | none ↦ false
    | some x ↦ is_in_progress x.status && x.user_open
  ]

  abbrev pub requested : ℕ → ℕ → SessionCommand Sgn D
  requested s remote = SessionCommand.meta (authentication_request s) (Recipient.target remote)

  -- Data from a peer never makes the task panic and never changes who is authenticated. If the peer is
  -- authenticated for the session and the session's user listens, then the data comes last in what
  -- that user has received; in every other case no user receives anything, and nobody else receives
  -- anything in any case. If the peer is not authenticated for the session, a request to authenticate
  -- for it is queued for the peer; otherwise no command is queued.
  pub payload-received :
      (remote : ℕ) (raw : Raw) (s : ℕ) (d : D) (net : Network Sgn D)
      → decode raw ≡ some (InternalMessage.payload s d)
      → (net' : Network Sgn D) × ((on_incoming_message encode check decode remote raw net
            ≡ some net')
          × ((net'.peers ≡ net.peers)
              × ((net'.commands ≡ (
                    if Peers.is_authenticated net.peers remote s
                    then net.commands
                    else net.commands ++ requested s remote ∷ []))
                  × ((t : ℕ)
                      → received net' t ≡ (
                          if s == t && (Peers.is_authenticated net.peers remote s && listens net s)
                          then received net t ++ d ∷ []
                          else received net t)))))
  unfolding on_incoming_message on_incoming_decoded on_incoming_data send_to_user
  payload-received remote raw s d net e =
      elim (Bool-cases (Peers.is_authenticated net.peers remote s)) [
        | inr f ↦ (
          push_command (requested s remote) net,
          (ground arith, (refl, (ground arith, λ t. ground arith))),
        )
        | inl a ↦ elim (Option-cases (get net.sessions s)) [
          | inl q ↦ (net, (ground arith, (refl, (ground arith, λ t. ground arith))))
          | inr (x, q) ↦ elim (Bool-cases (is_in_progress x.status)) [
            | inr f ↦ (net, (ground arith, (refl, (ground arith, λ t. ground arith))))
            | inl p ↦ (
              record net { sessions = insert s (send_to_user d x) net.sessions },
              (
                ground arith,
                (
                  refl,
                  (
                    ground arith,
                    λ t. ground (arith, get-insert net.sessions s t (send_to_user d x)),
                  ),
                ),
              ),
            )
          ]
        ]
      ]
