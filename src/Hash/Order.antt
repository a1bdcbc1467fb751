-- ===== src/Hash/Order.antt =====
-- The order of hashes in finality-aleph/src/hash.rs is a total one.
use aleph_node.Common.{ℕ, ◌≡◌, ◌↔◌, refl, ap, sym, ◌∙◌, List, [], ◌∷◌, arith}
use aleph_node.Hash.{Ordering, less, equal, greater, cmp_bytes, OrdForHash, cmp}

abbrev pub opposite : Ordering → Ordering
opposite less = greater
opposite equal = equal
opposite greater = less

cmp_bytes-opposite : (xs ys : List ℕ) → cmp_bytes ys xs ≡ opposite (cmp_bytes xs ys)
unfolding cmp_bytes
cmp_bytes-opposite [] [] = refl
cmp_bytes-opposite [] (y ∷ ys) = refl
cmp_bytes-opposite (x ∷ xs) [] = refl
cmp_bytes-opposite (x ∷ xs) (y ∷ ys) = ground (arith, cmp_bytes-opposite xs ys)

cmp_bytes-equal : (xs ys : List ℕ) → cmp_bytes xs ys ≡ equal → xs ≡ ys
unfolding cmp_bytes
cmp_bytes-equal [] [] h = refl
cmp_bytes-equal [] (y ∷ ys) h = absurd (ground arith)
cmp_bytes-equal (x ∷ xs) [] h = absurd (ground arith)
cmp_bytes-equal (x ∷ xs) (y ∷ ys) h = ground (arith, cmp_bytes-equal xs ys)

cmp_bytes-same : (xs : List ℕ) → cmp_bytes xs xs ≡ equal
unfolding cmp_bytes
cmp_bytes-same [] = refl
cmp_bytes-same (x ∷ xs) = ground (arith, cmp_bytes-same xs)

cmp_bytes-less :
    (xs ys zs : List ℕ) → cmp_bytes xs ys ≡ less → cmp_bytes ys zs ≡ less → cmp_bytes xs zs ≡ less
unfolding cmp_bytes
cmp_bytes-less [] [] zs h k = k
cmp_bytes-less [] (y ∷ ys) [] h k = absurd (ground arith)
cmp_bytes-less [] (y ∷ ys) (z ∷ zs) h k = refl
cmp_bytes-less (x ∷ xs) [] zs h k = absurd (ground arith)
cmp_bytes-less (x ∷ xs) (y ∷ ys) [] h k = absurd (ground arith)
cmp_bytes-less (x ∷ xs) (y ∷ ys) (z ∷ zs) h k = ground (arith, cmp_bytes-less xs ys zs)

module _ {O : Type 0} (as_ref : O → List ℕ) where
  -- Two hashes compare as equal exactly when their bytes are the same, to swap them is to turn the
  -- comparison round, and less than is transitive.
  pub record IsOrder (a b c : OrdForHash O) : Type 0 where
    pub same : (cmp as_ref a b ≡ equal) ↔ (as_ref a.inner ≡ as_ref b.inner)
    pub swapped : cmp as_ref b a ≡ opposite (cmp as_ref a b)
    pub transitive : cmp as_ref a b ≡ less → cmp as_ref b c ≡ less → cmp as_ref a c ≡ less

  -- Any three hashes are in order.
  pub cmp-IsOrder : (a b c : OrdForHash O) → IsOrder a b c
  unfolding cmp
  cmp-IsOrder a b c = record {
    same = (
      cmp_bytes-equal (as_ref a.inner) (as_ref b.inner),
      λ h. ap (cmp_bytes (as_ref a.inner)) (sym h) ∙ cmp_bytes-same (as_ref a.inner),
    );
    swapped = cmp_bytes-opposite (as_ref a.inner) (as_ref b.inner);
    transitive = cmp_bytes-less (as_ref a.inner) (as_ref b.inner) (as_ref c.inner);
  }
