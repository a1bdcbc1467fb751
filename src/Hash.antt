-- ===== src/Hash.antt =====
-- `OrdForHash` and `Wrapper` of finality-aleph/src/hash.rs: hashes with the order of their bytes. The
-- hashes of the crate are of type `O`, with their bytes and the hash of a sequence of bytes.
pub mod Order
use aleph_node.Common.{ℕ, List, [], ◌∷◌, ltb, if◌then◌else◌}

pub data Ordering : Type 0 where
  less : Ordering
  equal : Ordering
  greater : Ordering

-- `Ord::cmp` of slices: byte by byte, and a prefix is less.
unfoldable pub cmp_bytes : List ℕ → List ℕ → Ordering
cmp_bytes [] [] = equal
cmp_bytes [] (b ∷ ys) = less
cmp_bytes (a ∷ xs) [] = greater
cmp_bytes (a ∷ xs) (b ∷ ys) =
    let rest = cmp_bytes xs ys in if ltb a b then less else if ltb b a then greater else rest

pub record OrdForHash (O : Type 0) : Type 0 where
  pub inner : O

module _ {O : Type 0} (as_ref : O → List ℕ) where
  unfoldable pub cmp : OrdForHash O → OrdForHash O → Ordering
  unfolding cmp_bytes
  cmp a b = cmp_bytes (as_ref a.inner) (as_ref b.inner)

  -- `Wrapper::hash`
  module _ (hash_bytes : List ℕ → O) where
    unfoldable pub hash : List ℕ → OrdForHash O
    hash s = record { inner = hash_bytes s }
