-- ===== src/Common/Count.antt =====
-- Counting the elements of a list that pass a test.
use Prim.Native.Nat.{ℕ, ◌+◌, ◌≤◌, ◌<◌}
use mathlib.Core.Path.{◌≡◌, refl, sym, ap}
use mathlib.Core.Logic.{inl, inr}
use mathlib.Core.Bool.{Bool, true, false, ◌&&◌}
use mathlib.Core.List.{List, [], ◌∷◌}
use native.Mathlib.Omega.{arith}
use aleph_node.Common.Tests.{Eq, ◌==◌, if◌then◌else◌, Bool-cases}
use aleph_node.Common.Lists.{
  All, length, contains, contains-set_insert, set_insert, set_insert-Distinct, Distinct,
}

abbrev pub flag : Bool → ℕ
flag true = 1
flag false = 0

module _ {ℓ} {A : Type ℓ} where
  unfoldable pub count : (A → Bool) → List A → ℕ
  count p [] = 0
  count p (x ∷ xs) = flag (p x) + count p xs

  pub count_ext : (p q : A → Bool) (xs : List A) → ((x : A) → p x ≡ q x) → count p xs ≡ count q xs
  unfolding count
  count_ext p q [] h = refl
  count_ext p q (x ∷ xs) h = omega (arith, ap flag (h x), count_ext p q xs h)

  -- A weaker test counts no less.
  pub count_mono :
      (p q : A → Bool) (xs : List A) → ((x : A) → p x ≡ true → q x ≡ true) → count p xs ≤ count q xs
  unfolding count
  count_mono p q [] h = omega arith
  count_mono p q (x ∷ xs) h = ground (arith, h x, count_mono p q xs h)

  pub count_none : (p : A → Bool) (xs : List A) → ((x : A) → p x ≡ false) → count p xs ≡ 0
  unfolding count
  count_none p [] h = refl
  count_none p (x ∷ xs) h = omega (arith, ap flag (h x), count_none p xs h)

flag-le : (b : Bool) → flag b ≤ 1
flag-le b = ground arith

module _ {ℓ} {A : Type ℓ} ⦃e : Eq A⦄ where
  -- Where nothing counts, nothing passes.
  pub count-zero :
      (p : A → Bool) (xs : List A) (x : A) → count p xs ≡ 0 → contains xs x ≡ true → p x ≡ false
  unfolding count contains
  count-zero p [] x h c = ground arith
  count-zero p (y ∷ xs) x h c = elim (Bool-cases (y == x)) [
    | inl t ↦ rw (← (e.beq_iff y x).0 t) (ground arith)
    | inr f ↦ count-zero p xs x (omega arith) (ground arith)
  ]

  pub count-pos :
      (p : A → Bool) (xs : List A) (x : A) → contains xs x ≡ true → p x ≡ true → 1 ≤ count p xs
  unfolding count contains
  count-pos p [] x c h = ground arith
  count-pos p (y ∷ xs) x c h = elim (Bool-cases (y == x)) [
    | inl t ↦ rw ((e.beq_iff y x).0 t) (ground arith)
    | inr f ↦ omega (arith, count-pos p xs x (ground arith) h)
  ]

  abbrev pub without : A → (A → Bool) → A → Bool
  without b p c = if b == c then false else p c

  count-without_absent :
      (p : A → Bool) (xs : List A) (b : A)
      → contains xs b ≡ false
      → count (without b p) xs ≡ count p xs
  unfolding count contains
  count-without_absent p [] b h = refl
  count-without_absent p (x ∷ xs) b h =
      ground (arith, e.beq_iff x b, e.beq_iff b x, count-without_absent p xs b)

  -- To rule one element out lowers the count by one, where it is there and passed.
  pub count-without :
      (p : A → Bool) (xs : List A) (b : A)
      → Distinct xs
      → count (without b p) xs + flag (contains xs b && p b) ≡ count p xs
  unfolding count contains
  count-without p [] b d = refl
  count-without p (x ∷ xs) b d = elim (Bool-cases (x == b)) [
    | inl t ↦
        let q = (e.beq_iff x b).0 t in
        let p_eq = ap p q in
        let in_eq = ap (contains xs) q in
        let back = (e.beq_iff b x).1 (sym q) in ground (arith, count-without_absent p xs b)
    | inr f ↦ ground (arith, e.beq_iff x b, e.beq_iff b x, count-without p xs b d.1)
  ]

  without-head :
      (r c : A) (rs : List A)
      → contains rs r ≡ false
      → without r (contains (r ∷ rs)) c ≡ contains rs c
  unfolding contains
  without-head r c rs h = elim (Bool-cases (r == c)) [
    | inl t ↦ let q = ap (contains rs) ((e.beq_iff r c).0 t) in ground arith
    | inr f ↦ ground arith
  ]

  -- At most as many elements of a set are in `rs` as `rs` is long.
  pub count-contains-le : (rs xs : List A) → Distinct xs → count (contains rs) xs ≤ length rs
  unfolding contains
  count-contains-le [] xs d = omega (arith, count_none (contains []) xs (λ x. refl))
  count-contains-le (r ∷ rs) xs d = omega (
    arith,
    count-without (contains (r ∷ rs)) xs r d,
    count_mono (without r (contains (r ∷ rs))) (contains rs) xs
        (λ c h. ground (arith, e.beq_iff r c)),
    count-contains-le rs xs d,
    flag-le (contains xs r && contains (r ∷ rs) r),
  )

  -- Exactly as many, if `rs` is a set of elements of `xs`.
  pub count-contains :
      (rs xs : List A)
      → Distinct xs
      → Distinct rs
      → All (λ r. contains xs r ≡ true) rs
      → count (contains rs) xs ≡ length rs
  unfolding contains
  count-contains [] xs d dr sub = count_none (contains []) xs (λ x. refl)
  count-contains (r ∷ rs) xs d dr sub =
      let split = count-without (contains (r ∷ rs)) xs r d in
      let same =
        count_ext (without r (contains (r ∷ rs))) (contains rs) xs
          (λ c. without-head r c rs dr.0) in
      let one : flag (contains xs r && contains (r ∷ rs) r) ≡ 1 =
        ground (arith, sub.0, e.beq_iff r r) in
      omega (arith, split, same, one, count-contains rs xs d dr.1 sub.1)

  unfoldable pub dedup : List A → List A
  dedup [] = []
  dedup (x ∷ xs) = set_insert x (dedup xs)

  pub contains-dedup : (xs : List A) (a : A) → contains (dedup xs) a ≡ contains xs a
  unfolding dedup contains
  contains-dedup [] a = refl
  contains-dedup (x ∷ xs) a =
      ground (arith, contains-set_insert x a (dedup xs), contains-dedup xs a)

  pub dedup-Distinct : (xs : List A) → Distinct (dedup xs)
  unfolding dedup
  dedup-Distinct [] = tt
  dedup-Distinct (x ∷ xs) = set_insert-Distinct x (dedup xs) (dedup-Distinct xs)

  pub count-le-length : (p : A → Bool) (xs : List A) → count p xs ≤ length xs
  unfolding count
  count-le-length p [] = omega arith
  count-le-length p (x ∷ xs) = omega (arith, flag-le (p x), count-le-length p xs)

  length-dedup-le : (xs : List A) → length (dedup xs) ≤ length xs
  unfolding dedup set_insert
  length-dedup-le [] = omega arith
  length-dedup-le (x ∷ xs) = ground (arith, length-dedup-le xs)

  -- A list in which something stands twice gets shorter.
  pub length-dedup-lt : (xs : List A) → ¬ Distinct xs → length (dedup xs) < length xs
  unfolding dedup set_insert
  length-dedup-lt [] h = absurd (h tt)
  length-dedup-lt (x ∷ xs) h = elim (Bool-cases (contains xs x)) [
    | inl twice ↦ ground (arith, length-dedup-le xs, contains-dedup xs x)
    | inr once ↦ ground (arith, length-dedup-lt xs (λ d. h (once, d)), contains-dedup xs x)
  ]
