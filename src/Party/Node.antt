-- ===== src/Party/Node.antt =====
-- `get_node_index` of finality-aleph/src/party.rs.
use aleph_node.Common.{
  ◌≡◌, ◌↔◌, refl, subst, inl, inr, ℕ, zero, suc, ◌<◌, true, false, some, List, [], ◌∷◌, arith,
  nat_eq, contains, Bool-cases, Option-cases, get_elem?,
}
use aleph_node.Party.{position, get_node_index}

-- The first place of a list whose element is one of the keys.
abbrev pub IsFirst : List ℕ → List ℕ → ℕ → Type 0
IsFirst keys l i =
    (a : ℕ) × (get_elem? l i ≡ some a)
    × (contains keys a ≡ true)
    × ((j b : ℕ) → j < i → get_elem? l j ≡ some b → contains keys b ≡ false)

position-IsFirst :
    (keys l : List ℕ) (i : ℕ) → position (λ a. contains keys a) l ≡ some i → IsFirst keys l i
unfolding position
position-IsFirst keys [] i e = absurd (ground arith)
position-IsFirst keys (x ∷ l) i e = elim (Bool-cases (contains keys x)) [
  | inl t ↦
      subst (IsFirst keys (x ∷ l)) {x = 0} (ground arith)
        (x, refl, t, λ j b h q. absurd (ground arith))
  | inr f ↦ elim (Option-cases (position (λ a. contains keys a) l)) [
    | inl n ↦ absurd (ground arith)
    | inr (k, n) ↦
        let (a, at, c, m) = position-IsFirst keys l k n in
        subst (IsFirst keys (x ∷ l)) {x = suc k} (ground arith) (a, at, c, before k m f)
  ]
]
  where
    before :
        (k : ℕ)
        → ((j b : ℕ) → j < k → get_elem? l j ≡ some b → contains keys b ≡ false)
        → contains keys x ≡ false
        → (j b : ℕ) → j < suc k
        → get_elem? (x ∷ l) j ≡ some b
        → contains keys b ≡ false
    before k m f zero b h q = ground arith
    before k m f (suc j) b h q = m j b (ground arith) q

IsFirst-position :
    (keys l : List ℕ) (i : ℕ) → IsFirst keys l i → position (λ a. contains keys a) l ≡ some i
unfolding position
IsFirst-position keys [] i (a, e, c, m) = ground arith
IsFirst-position keys (x ∷ l) zero (a, e, c, m) = ground arith
IsFirst-position keys (x ∷ l) (suc i) (a, e, c, m) =
    let other = m 0 x (ground arith) refl in
    let rest = IsFirst-position keys l i (a, e, c, λ j b h q. m (suc j) b (ground arith) q) in
    ground arith

-- `get_node_index` gives a place exactly if it is the first one in the list of authorities whose key
-- the keystore has.
pub get_node_index-IsFirst :
    (authorities keys : List ℕ) (i : ℕ)
    → (get_node_index authorities keys ≡ some i) ↔ IsFirst keys authorities i
unfolding get_node_index
get_node_index-IsFirst authorities keys i =
    (position-IsFirst keys authorities i, IsFirst-position keys authorities i)
