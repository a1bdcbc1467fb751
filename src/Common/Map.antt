-- ===== src/Common/Map.antt =====
-- `HashMap` as an association list. `get` reads the first entry with a key, and every operation is
-- determined by what `get` returns, so hidden entries never show. The order of `iter` is one of
-- those that the source's unordered iteration may take.
use mathlib.Core.Path.{◌≡◌, refl, ap}
use mathlib.Core.Logic.{inl, inr}
use mathlib.Core.Bool.{Bool, true, false, ◌&&◌, ◌||◌}
use mathlib.Core.Option.{Option, none, some}
use mathlib.Core.List.{List, [], ◌∷◌, map}
use native.Mathlib.Omega.{arith}
use aleph_node.Common.Tests.{Eq, ◌==◌, if◌then◌else◌, eq_refl, Bool-cases}
use aleph_node.Common.Lists.{contains, Distinct}

abbrev pub Map {ℓ} : Type ℓ → Type ℓ → Type ℓ
Map K V = List (K × V)

module _ {ℓ} {K V : Type ℓ} ⦃e : Eq K⦄ where
  unfoldable pub get : Map K V → K → Option V
  get [] k = none
  get ((j, v) ∷ m) k = if j == k then some v else get m k

  unfoldable pub remove : K → Map K V → Map K V
  remove k [] = []
  remove k ((j, v) ∷ m) = let rest = remove k m in if j == k then rest else (j, v) ∷ rest

  unfoldable pub insert : K → V → Map K V → Map K V
  unfolding remove
  insert k v m = (k, v) ∷ remove k m

  -- `HashMap::retain`; an entry that goes takes those it hides with it.
  unfoldable pub retain : (K → V → Bool) → Map K V → Map K V
  unfolding remove
  retain p [] = []
  retain p ((k, v) ∷ m) = let rest = retain p m in if p k v then (k, v) ∷ rest else remove k rest

  -- The entries, each key once.
  unfoldable pub iter : Map K V → List (K × V)
  unfolding remove
  iter [] = []
  iter ((k, v) ∷ m) = (k, v) ∷ remove k (iter m)

  pub get-remove : (m : Map K V) (k j : K) → get (remove k m) j ≡ (if k == j then none else get m j)
  unfolding get remove
  get-remove [] k j = ground arith
  get-remove ((i, v) ∷ m) k j =
      ground (arith, get-remove m k j, e.beq_iff i k, e.beq_iff i j, e.beq_iff k j)

  pub get-insert :
      (m : Map K V) (k j : K) (v : V) → get (insert k v m) j ≡ (if k == j then some v else get m j)
  unfolding get insert
  get-insert m k j v = ground (arith, get-remove m k j)

  -- What `retain` leaves of one lookup.
  abbrev pub kept : (K → V → Bool) → K → Option V → Option V
  kept p k none = none
  kept p k (some v) = if p k v then some v else none

  test-eq : (p : K → V → Bool) (k j : K) (v : V) → (k == j) ≡ true → p k v ≡ p j v
  test-eq p k j v t = rw ((e.beq_iff k j).0 t)

  pub get-retain :
      (p : K → V → Bool) (m : Map K V) (j : K) → get (retain p m) j ≡ kept p j (get m j)
  unfolding get retain
  get-retain p [] j = refl
  get-retain p ((k, v) ∷ m) j =
      ground (arith, test-eq p k j v, get-retain p m j, get-remove (retain p m) k j)

  pub get-iter : (m : Map K V) (j : K) → get (iter m) j ≡ get m j
  unfolding get iter
  get-iter [] j = refl
  get-iter ((k, v) ∷ m) j = ground (arith, get-remove (iter m) k j, get-iter m j)

  abbrev pub keys : Map K V → List K
  keys m = map (λ p. p.0) m

  contains-keys-remove :
      (m : Map K V) (k j : K)
      → contains (keys (remove k m)) j ≡ (if k == j then false else contains (keys m) j)
  unfolding contains remove
  contains-keys-remove [] k j = ground arith
  contains-keys-remove ((i, v) ∷ m) k j =
      ground (arith, contains-keys-remove m k j, e.beq_iff i k, e.beq_iff i j, e.beq_iff k j)

  remove-Distinct : (m : Map K V) (k : K) → Distinct (keys m) → Distinct (keys (remove k m))
  unfolding remove
  remove-Distinct [] k d = tt
  remove-Distinct ((i, v) ∷ m) k d =
      ground (arith, contains-keys-remove m k i, remove-Distinct m k d.1)

  -- Iteration meets no key twice.
  pub iter-Distinct : (m : Map K V) → Distinct (keys (iter m))
  unfolding iter
  iter-Distinct [] = tt
  iter-Distinct ((k, v) ∷ m) = (
    rw (contains-keys-remove (iter m) k k, eq_refl k),
    remove-Distinct (iter m) k (iter-Distinct m),
  )

pub get-empty {ℓ} : {K V : Type ℓ} ⦃e : Eq K⦄ (k : K) → get {V = V} [] k ≡ none
unfolding get
get-empty k = refl

pub ruleset map_laws = (get-empty, get-insert, get-remove, get-retain, get-iter)

abbrev pub is_value {ℓ} : {V : Type ℓ} ⦃f : Eq V⦄ → Option V → V → Bool
is_value none v = false
is_value (some w) v = w == v

-- The entries of a map, as `iter` lists them.
module _ {ℓ} {K V : Type ℓ} ⦃e : Eq K⦄ ⦃f : Eq V⦄ where
  unfoldable pub has_entry : List (K × V) → K → V → Bool
  has_entry [] k v = false
  has_entry ((j, w) ∷ m) k v = (j == k && w == v) || has_entry m k v

  absent-has_entry :
      (m : List (K × V)) (k : K) (v : V) → contains (keys m) k ≡ false → has_entry m k v ≡ false
  unfolding has_entry contains
  absent-has_entry [] k v h = refl
  absent-has_entry ((j, w) ∷ m) k v h = ground (arith, absent-has_entry m k v)

  Distinct-has_entry :
      (m : List (K × V)) (k : K) (v : V)
      → Distinct (keys m)
      → has_entry m k v ≡ is_value (get m k) v
  unfolding has_entry get
  Distinct-has_entry [] k v d = refl
  Distinct-has_entry ((j, w) ∷ m) k v d = elim (Bool-cases (j == k)) [
    | inl t ↦
        let q = ap (contains (keys m)) ((e.beq_iff j k).0 t) in
        ground (arith, absent-has_entry m k v, d.0)
    | inr ne ↦ ground (arith, Distinct-has_entry m k v d.1)
  ]

  -- Iteration meets exactly the entries that `get` finds.
  pub has_entry-iter : (m : Map K V) (k : K) (v : V) → has_entry (iter m) k v ≡ is_value (get m k) v
  has_entry-iter m k v = rw (Distinct-has_entry (iter m) k v (iter-Distinct m), get-iter m k)
