-- ===== src/Network/Peers/Laws.antt =====
-- The two tables of `Peers` in finality-aleph/src/network.rs, read as functions.
use aleph_node.Common.{
  ℕ, ◌≡◌, ◌≢◌, refl, inl, inr, true, false, not, ◌&&◌, Option, none, some, List, [], ◌∷◌, arith,
  nat_eq, ◌==◌, if◌then◌else◌, ◌>>=◌, Option-cases,
}
use aleph_node.Common.Map
use aleph_node.Common.Map.{
  get-insert, get-remove, get-retain, has_entry, has_entry-iter, kept, is_value,
}
use aleph_node.Network.Peers.{
  PeerInfo, Peers, new_info, or_default, is_empty, info_nodes, insert, is_authenticated,
  authenticate, remove_node, remove_nodes, remove, get,
}

-- The node as which a peer is authenticated in a session, by the table of peers.
unfoldable pub authentication : Peers → ℕ → ℕ → Option ℕ
authentication ps peer session_id = do
  info ← Map.get ps.all_peers peer
  Map.get info.authentications session_id

abbrev Nodes : Type 0
Nodes = Map.Map ℕ (Map.Map ℕ ℕ)

node : Nodes → ℕ → ℕ → Option ℕ
node t s n = Map.get (or_default [] (Map.get t s)) n

get-node : (ps : Peers) (s n : ℕ) → get ps s n ≡ node ps.to_peer s n
unfolding get node
get-node ps s n = ground (arith, Map.get-empty {V = ℕ} n)

pub is_authenticated_lem :
    (ps : Peers) (peer s : ℕ)
    → is_authenticated ps peer s
      ≡ (elim (authentication ps peer s) [ none ↦ false | some _ ↦ true ])
unfolding is_authenticated authentication
is_authenticated_lem ps peer s = ground arith

-- `authenticate` sets one entry of each table.
pub get-authenticate :
    (ps : Peers) (peer s n s' n' : ℕ)
    → get (authenticate peer s n ps) s' n'
      ≡ (if s == s' && n == n' then some peer else get ps s' n')
unfolding authenticate node
get-authenticate ps peer s n s' n' = rw (get-node (authenticate peer s n ps) s' n') (
    ground (
      arith,
      get-node ps s' n',
      get-insert ps.to_peer s s' (Map.insert n peer (or_default [] (Map.get ps.to_peer s))),
      get-insert (or_default [] (Map.get ps.to_peer s)) n n' peer,
      Map.get-empty {V = ℕ} n',
    ))

pub authentication-authenticate :
    (ps : Peers) (peer s n peer' s' : ℕ)
    → authentication (authenticate peer s n ps) peer' s'
      ≡ (if peer == peer' && s == s' then some n else authentication ps peer' s')
unfolding authentication authenticate new_info
authentication-authenticate ps peer s n peer' s' = elim (Option-cases (Map.get ps.all_peers peer)) [
  | inl e ↦
      let added = Map.insert peer new_info ps.all_peers in
      ground (
        arith,
        get-insert ps.all_peers peer peer new_info,
        get-insert ps.all_peers peer peer' new_info,
        get-insert added peer peer' (record { authentications = Map.insert s n [] }),
        get-insert {V = ℕ} [] s s' n,
        Map.get-empty {V = ℕ} s',
      )
  | inr (info, e) ↦ ground (
    arith,
    get-insert ps.all_peers peer peer'
        (record { authentications = Map.insert s n info.authentications }),
    get-insert info.authentications s s' n,
  )
]

node-remove_node :
    (t : Nodes) (s n s' n' : ℕ)
    → node (remove_node s n t) s' n' ≡ (if s == s' && n == n' then none else node t s' n')
unfolding node remove_node
node-remove_node t s n s' n' = elim (Option-cases (Map.get t s)) [
  | inl e ↦ rw (e, remove_node) (ground (arith, Map.get-empty {V = ℕ} n'))
  | inr (hm, e) ↦
      rw (e, remove_node) (ground (arith, get-insert t s s' (Map.remove n hm), get-remove hm n n'))
]

node-remove_nodes :
    (l : List (ℕ × ℕ)) (t : Nodes) (s n : ℕ)
    → node (remove_nodes l t) s n ≡ (if has_entry l s n then none else node t s n)
unfolding remove_nodes has_entry
node-remove_nodes [] t s n = refl
node-remove_nodes ((s', n') ∷ l) t s n =
    ground (arith, node-remove_nodes l (remove_node s' n' t) s n, node-remove_node t s' n' s n)

node-retain :
    (t : Nodes) (s n : ℕ) → node (Map.retain (λ _ hm. not (is_empty hm)) t) s n ≡ node t s n
unfolding node
node-retain t s n = rw (get-retain (λ _ hm. not (is_empty hm)) t s) (go (Map.get t s))
  where
    go :
        (o : Option (Map.Map ℕ ℕ))
        → Map.get (or_default [] (kept (λ _ hm. not (is_empty hm)) s o)) n
          ≡ Map.get (or_default [] o) n
    go none = refl
    go (some []) = refl
    go (some (x ∷ hm)) = refl

-- `insert` and `remove` at the table of nodes: an entry goes exactly if it is among those that the
-- removed peer's own record lists.
pub get-remove_peer :
    (ps : Peers) (peer s n : ℕ)
    → get (remove peer ps) s n
      ≡ (if is_value (authentication ps peer s) n then none else get ps s n)
unfolding remove authentication
get-remove_peer ps peer s n =
    rw
      (
        get-node (remove peer ps) s n,
        get-node ps s n,
        node-retain (remove_nodes (info_nodes (Map.get ps.all_peers peer)) ps.to_peer) s n,
        node-remove_nodes (info_nodes (Map.get ps.all_peers peer)) ps.to_peer s n,
      )
      (go (Map.get ps.all_peers peer))
  where
    go :
        (o : Option PeerInfo)
        → (if has_entry (info_nodes o) s n then none else node ps.to_peer s n) ≡ (
            if is_value (o >>= λ info. Map.get info.authentications s) n
            then none
            else node ps.to_peer s n)
    go none = unfold has_entry in refl
    go (some info) = rw (has_entry-iter info.authentications s n)

pub authentication-remove_peer :
    (ps : Peers) (peer peer' s : ℕ)
    → authentication (remove peer ps) peer' s
      ≡ (if peer == peer' then none else authentication ps peer' s)
unfolding authentication remove
authentication-remove_peer ps peer peer' s = ground (arith, get-remove ps.all_peers peer peer')

pub get-insert_peer : (ps : Peers) (peer s n : ℕ) → get (insert peer ps) s n ≡ get ps s n
unfolding insert get
get-insert_peer ps peer s n = refl

-- A new connection forgets what the peer was authenticated for.
pub authentication-insert_peer :
    (ps : Peers) (peer peer' s : ℕ)
    → authentication (insert peer ps) peer' s
      ≡ (if peer == peer' then none else authentication ps peer' s)
unfolding authentication insert
authentication-insert_peer ps peer peer' s =
    ground (arith, get-insert ps.all_peers peer peer' new_info, Map.get-empty {V = ℕ} s)

-- The two tables say the same.
abbrev pub Consistent : Peers → Type 0
Consistent ps =
    (s n peer : ℕ)
    → ((get ps s n ≡ some peer) → (authentication ps peer s ≡ some n))
      × ((authentication ps peer s ≡ some n) → (get ps s n ≡ some peer))

-- If the tables agree, the node is free or the peer's own, and the peer is not another node in the
-- session, then they agree after `authenticate`.
pub authenticate-Consistent :
    (ps : Peers) (peer s n : ℕ)
    → Consistent ps
    → ((q : ℕ) → get ps s n ≡ some q → q ≡ peer)
    → ((m : ℕ) → authentication ps peer s ≡ some m → m ≡ n)
    → Consistent (authenticate peer s n ps)
authenticate-Consistent ps peer s n c free own s' n' p = (
  λ h. ground (
    arith,
    get-authenticate ps peer s n s' n',
    authentication-authenticate ps peer s n p s',
    c s' n' p,
    own n',
  ),
  λ h. ground (
    arith,
    get-authenticate ps peer s n s' n',
    authentication-authenticate ps peer s n p s',
    c s' n' p,
    free p,
  ),
)

-- If the tables agree, they agree after `remove`, and no node is the removed peer's any more.
pub remove-Consistent :
    (ps : Peers) (peer : ℕ)
    → Consistent ps
    → Consistent (remove peer ps) × ((s n : ℕ) → get (remove peer ps) s n ≢ some peer)
remove-Consistent ps peer c = (
  (λ s n p. (
    λ h.
        ground
          (arith, get-remove_peer ps peer s n, authentication-remove_peer ps peer p s, c s n p),
    λ h. ground (
      arith,
      get-remove_peer ps peer s n,
      authentication-remove_peer ps peer p s,
      c s n p,
      c s n peer,
    ),
  )),
  λ s n h. ground (arith, get-remove_peer ps peer s n, c s n peer),
)

-- Two peers as one node: when a second peer authenticates as the node of a first, and the first
-- disconnects, then the second is still authenticated for the session, but the node has no peer.
pub remove-hides :
    (ps : Peers) (first second s n : ℕ)
    → first ≢ second
    → authentication ps first s ≡ some n
    → let ps' = remove first (authenticate second s n ps) in
      (is_authenticated ps' second s ≡ true) × (get ps' s n ≡ none)
remove-hides ps first second s n ne e =
    let ps' = authenticate second s n ps in
    let kept = authentication-authenticate ps second s n first s in
    let new_one = authentication-authenticate ps second s n second s in
    (
      ground (
        arith,
        is_authenticated_lem (remove first ps') second s,
        authentication-remove_peer ps' first second s,
      ),
      ground (arith, get-remove_peer ps' first s n),
    )
