-- ===== src/Network/Outgoing.antt =====
-- To whom `on_command` of finality-aleph/src/network.rs sends.
use aleph_node.Common.{
  ℕ, ◌≡◌, ◌↔◌, refl, inl, inr, some, true, List, [], ◌∷◌, ◌++◌, map, append-nil, append_assoc,
  arith, nat_eq, contains, ◌==◌, Bool-cases, Option-cases,
}
use aleph_node.Common.Map
use aleph_node.Common.Map.{has_entry, has_entry-iter, is_value}
use aleph_node.Network.Peers
use aleph_node.Network.Peers.{or_default}
use aleph_node.Network.{
  Recipient, SessionCommand, InternalMessage, Network, on_command, recipients, send_message,
  send_messages,
}

module _ {Sgn D : Type 0} where
  abbrev pub letters : List ℕ → InternalMessage Sgn D → List (ℕ × InternalMessage Sgn D)
  letters ps m = map (λ p. (p, m)) ps

  pub send_messages_lem :
      (ps : List ℕ) (m : InternalMessage Sgn D) (net : Network Sgn D)
      → send_messages ps m net ≡ (record net { sent = net.sent ++ letters ps m })
  unfolding send_messages send_message
  send_messages_lem [] m net = rw (append-nil net.sent) refl
  send_messages_lem (p ∷ ps) m net =
      rw
        (
          send_messages_lem ps m (record net { sent = net.sent ++ (p, m) ∷ [] }),
          append_assoc net.sent ((p, m) ∷ []) (letters ps m),
        )
        refl

second_of-key :
    (l : List (ℕ × ℕ)) (p : ℕ)
    → contains (map (λ e. e.1) l) p ≡ true
    → (n : ℕ) × (has_entry l n p ≡ true)
unfolding contains has_entry
second_of-key [] p h = absurd (ground arith)
second_of-key ((n, q) ∷ l) p h = elim (Bool-cases (q == p)) [
  | inl t ↦ (n, ground arith)
  | inr f ↦ let (m, r) = second_of-key l p (ground arith) in (m, ground arith)
]

-- Whoever is listed for a session is the peer of some node of it.
authenticated_for-get :
    (ps : Peers.Peers) (s p : ℕ)
    → contains (Peers.peers_authenticated_for ps s) p ≡ true
    → (n : ℕ) × (Peers.get ps s n ≡ some p)
unfolding Peers.peers_authenticated_for Peers.get
authenticated_for-get ps s p h = elim (Option-cases (Map.get ps.to_peer s)) [
  | inl e ↦ absurd (unfold Map.iter contains in ground arith)
  | inr (hm, e) ↦
      let (n, r) = second_of-key (Map.iter hm) p (ground arith) in
      (n, ground (arith, has_entry-iter hm n p))
]

-- The other way: the peer of a node of the session is listed.
key-second :
    (l : List (ℕ × ℕ)) (n p : ℕ) → has_entry l n p ≡ true → contains (map (λ e. e.1) l) p ≡ true
unfolding contains has_entry
key-second [] n p h = ground arith
key-second ((m, q) ∷ l) n p h = ground (arith, key-second l n p)

get-authenticated_for :
    (ps : Peers.Peers) (s n p : ℕ)
    → Peers.get ps s n ≡ some p
    → contains (Peers.peers_authenticated_for ps s) p ≡ true
unfolding Peers.peers_authenticated_for Peers.get
get-authenticated_for ps s n p h = elim (Option-cases (Map.get ps.to_peer s)) [
  | inl e ↦ absurd (ground arith)
  | inr (hm, e) ↦ rw e (key-second (Map.iter hm) n p (ground (arith, has_entry-iter hm n p)))
]

-- Which nodes a recipient stands for.
abbrev pub Meant : Recipient ℕ → ℕ → Type 0
Meant Recipient.all n = Unit {0}
Meant (Recipient.target m) n = m ≡ n

-- A peer that is registered as a node of the session which the recipient stands for.
abbrev pub Addressed : Peers.Peers → ℕ → Recipient ℕ → ℕ → Type 0
Addressed ps s r p = (n : ℕ) × ((Peers.get ps s n ≡ some p) × Meant r n)

recipients-Addressed :
    {D : Type 0} (Sgn : Type 0) (s : ℕ) (d : D) (r : Recipient ℕ) (ps : Peers.Peers) (p : ℕ)
    → (contains (recipients {Sgn = Sgn} (SessionCommand.payload s d r) ps) p ≡ true)
      ↔ Addressed ps s r p
unfolding recipients contains
recipients-Addressed Sgn s d Recipient.all ps p = (
  λ h. (let r = authenticated_for-get ps s p h in (r.0, (r.1, tt))),
  λ h. get-authenticated_for ps s h.0 p h.1.0,
)
recipients-Addressed Sgn s d (Recipient.target m) ps p = elim (Option-cases (Peers.get ps s m)) [
  | inl e ↦ (λ h. absurd (ground arith), λ h. absurd (ground (arith, h.1.0, h.1.1)))
  | inr (q, e) ↦ (λ h. (m, (ground arith, refl)), λ h. ground arith)
]

module _ {Sgn D : Type 0} where
  -- A command with data for a session is sent as one message to each of a list of peers, and
  -- nothing else of the network changes; a peer is in the list exactly if it is registered as a node
  -- of that session, and as the addressed one when the command names a node.
  pub on_command-payload :
      (s : ℕ) (d : D) (r : Recipient ℕ) (net : Network Sgn D)
      → (l : List ℕ) × ((on_command (SessionCommand.payload s d r) net
            ≡ (record net { sent = net.sent ++ letters l (InternalMessage.payload s d) }))
          × ((p : ℕ) → (contains l p ≡ true) ↔ Addressed net.peers s r p))
  unfolding on_command
  on_command-payload s d r net = (
    recipients (SessionCommand.payload s d r) net.peers,
    (
      send_messages_lem _ (InternalMessage.payload s d) net,
      recipients-Addressed Sgn s d r net.peers,
    ),
  )
