-- ===== src/Network/Peers/History.antt =====
-- The table of peers of finality-aleph/src/network.rs along everything that happens to it.
use aleph_node.Common.{ℕ, ◌≡◌, ◌≢◌, none, some, List, [], ◌∷◌, arith, nat_eq}
use aleph_node.Common.Map
use aleph_node.Network.Peers.{PeerInfo, Peers, new, insert, authenticate, remove, get}
use aleph_node.Network.Peers.Laws.{
  authentication, Consistent, authentication-insert_peer, get-insert_peer, authenticate-Consistent,
  remove-Consistent,
}

-- What the handlers do to the table: a peer connects, has authenticated for a session as a node, or
-- disconnects.
pub data Change : Type 0 where
  connected : ℕ → Change
  authenticated : ℕ → ℕ → ℕ → Change
  disconnected : ℕ → Change

abbrev pub change : Change → Peers → Peers
change (connected peer) ps = insert peer ps
change (authenticated peer s n) ps = authenticate peer s n ps
change (disconnected peer) ps = remove peer ps

-- A peer that connects is not authenticated for a session; one that authenticates is the only one to
-- do so as this node, and does so as no other node of the session.
abbrev pub IsFit : Change → Peers → Type 0
IsFit (connected peer) ps = (s : ℕ) → authentication ps peer s ≡ none
IsFit (authenticated peer s n) ps =
    ((q : ℕ) → get ps s n ≡ some q → q ≡ peer)
    × ((m : ℕ) → authentication ps peer s ≡ some m → m ≡ n)
IsFit (disconnected peer) ps = Unit {0}

abbrev pub history : List Change → Peers → Peers
history [] ps = ps
history (c ∷ cs) ps = history cs (change c ps)

abbrev pub AreFit : List Change → Peers → Type 0
AreFit [] ps = Unit {0}
AreFit (c ∷ cs) ps = IsFit c ps × AreFit cs (change c ps)

insert-Consistent :
    (ps : Peers) (peer : ℕ)
    → Consistent ps
    → ((s : ℕ) → authentication ps peer s ≡ none)
    → Consistent (insert peer ps)
insert-Consistent ps peer c free s n p = (
  λ h.
      ground (
        arith,
        get-insert_peer ps peer s n,
        authentication-insert_peer ps peer p s,
        c s n p,
        free s,
      ),
  λ h. ground (arith, get-insert_peer ps peer s n, authentication-insert_peer ps peer p s, c s n p),
)

change-Consistent :
    (c : Change) (ps : Peers) → IsFit c ps → Consistent ps → Consistent (change c ps)
change-Consistent (connected peer) ps f v = insert-Consistent ps peer v f
change-Consistent (authenticated peer s n) ps f v = authenticate-Consistent ps peer s n v f.0 f.1
change-Consistent (disconnected peer) ps f v = (remove-Consistent ps peer v).0

history-keeps :
    (cs : List Change) (ps : Peers) → AreFit cs ps → Consistent ps → Consistent (history cs ps)
history-keeps [] ps f v = v
history-keeps (c ∷ cs) ps f v = history-keeps cs (change c ps) f.1 (change-Consistent c ps f.0 v)

new-Consistent : Consistent new
unfolding new get authentication
new-Consistent s n p = (
  λ h. absurd (ground (arith, Map.get-empty {V = Map.Map ℕ ℕ} s)),
  λ h. absurd (ground (arith, Map.get-empty {V = PeerInfo} p)),
)

-- After whatever peers have connected, authenticated and disconnected, the two tables agree: the
-- messages for a node of a session go to a peer exactly if the peer is authenticated as this node;
-- and after a further peer has disconnected, they go to it for no node. No node of a session may
-- have been claimed by two peers at a time, nor two nodes of it by one peer, and no authenticated
-- peer may have connected again.
pub history-Consistent :
    (cs : List Change) (peer : ℕ)
    → AreFit cs new
    → Consistent (history cs new) × ((s n : ℕ) → get (remove peer (history cs new)) s n ≢ some peer)
history-Consistent cs peer f =
    let v = history-keeps cs new f new-Consistent in
    (v, (remove-Consistent (history cs new) peer v).1)
