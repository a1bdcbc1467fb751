-- ===== src/Network/Peers.antt =====
-- `PeerInfo` and `Peers` of finality-aleph/src/network.rs. A session id is a map's key only once, so
-- are node indices and peer ids.
pub mod Laws
pub mod History
use aleph_node.Common.{
  ℕ, Bool, true, false, not, Option, none, some, List, [], ◌∷◌, map, nat_eq, if◌then◌else◌, ◌>>=◌,
}
use aleph_node.Common.Map

pub record PeerInfo : Type 0 where
  pub authentications : Map.Map ℕ ℕ

unfoldable pub new_info : PeerInfo
new_info = record { authentications = [] }

unfoldable pub authenticated_for : PeerInfo → ℕ → Bool
authenticated_for info session_id = elim (Map.get info.authentications session_id) [
  | none ↦ false
  | some _ ↦ true
]

unfoldable pub authenticate_info : ℕ → ℕ → PeerInfo → PeerInfo
authenticate_info session_id node_id info = record {
  authentications = Map.insert session_id node_id info.authentications;
}

pub record Peers : Type 0 where
  pub all_peers : Map.Map ℕ PeerInfo
  pub to_peer : Map.Map ℕ (Map.Map ℕ ℕ)

unfoldable pub new : Peers
new = record { all_peers = []; to_peer = [] }

-- `entry(k).or_insert_with(default)`
abbrev pub or_default {ℓ} : {A : Type ℓ} → A → Option A → A
or_default d none = d
or_default d (some a) = a

unfoldable pub insert : ℕ → Peers → Peers
unfolding new_info
insert peer ps = record ps { all_peers = Map.insert peer new_info ps.all_peers }

unfoldable pub is_authenticated : Peers → ℕ → ℕ → Bool
unfolding authenticated_for
is_authenticated ps peer session_id = elim (Map.get ps.all_peers peer) [
  | some info ↦ authenticated_for info session_id
  | none ↦ false
]

-- The first statement of `authenticate`.
abbrev pub insert_if_new : ℕ → Peers → Peers
insert_if_new peer ps = elim (Map.get ps.all_peers peer) [ none ↦ insert peer ps | some _ ↦ ps ]

unfoldable pub authenticate : ℕ → ℕ → ℕ → Peers → Peers
unfolding insert authenticate_info
authenticate peer session_id node_id ps =
    let ps' = insert_if_new peer ps in
    record {
      all_peers =
          Map.insert peer
            (authenticate_info session_id node_id
              (or_default new_info (Map.get ps'.all_peers peer)))
            ps'.all_peers;
      to_peer =
          Map.insert session_id
            (Map.insert node_id peer (or_default [] (Map.get ps'.to_peer session_id))) ps'.to_peer;
    }

-- One round of the loop of `remove`: `entry(session).and_modify(...)`.
unfoldable pub remove_node : ℕ → ℕ → Map.Map ℕ (Map.Map ℕ ℕ) → Map.Map ℕ (Map.Map ℕ ℕ)
remove_node session_id node_id t = elim (Map.get t session_id) [
  | none ↦ t
  | some hm ↦ Map.insert session_id (Map.remove node_id hm) t
]

unfoldable pub remove_nodes : List (ℕ × ℕ) → Map.Map ℕ (Map.Map ℕ ℕ) → Map.Map ℕ (Map.Map ℕ ℕ)
remove_nodes [] t = t
remove_nodes ((session_id, node_id) ∷ rest) t = remove_nodes rest (remove_node session_id node_id t)

abbrev pub is_empty {ℓ} : {A : Type ℓ} → List A → Bool
is_empty [] = true
is_empty (x ∷ xs) = false

-- The nodes that `remove` takes out.
abbrev pub info_nodes : Option PeerInfo → List (ℕ × ℕ)
info_nodes none = []
info_nodes (some info) = Map.iter info.authentications

unfoldable pub remove : ℕ → Peers → Peers
remove peer ps = record {
  all_peers = Map.remove peer ps.all_peers;
  to_peer =
      Map.retain (λ _ hm. not (is_empty hm))
        (remove_nodes (info_nodes (Map.get ps.all_peers peer)) ps.to_peer);
}

unfoldable pub peers_authenticated_for : Peers → ℕ → List ℕ
peers_authenticated_for ps session_id =
    map (λ p. p.1) (Map.iter (or_default [] (Map.get ps.to_peer session_id)))

unfoldable pub get : Peers → ℕ → ℕ → Option ℕ
get ps session_id node_id = do hm ← Map.get ps.to_peer session_id; Map.get hm node_id
