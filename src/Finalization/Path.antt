-- ===== src/Finalization/Path.antt =====
-- The result of `chain_extension_step` (finality-aleph/src/finalization.rs) against the path
-- between two blocks.
use mathlib.Core.List.{reverse, reverse-cons}
use aleph_node.Common.{
  ℕ, zero, suc, ◌+◌, ◌<◌, ◌≡◌, refl, sym, ap, ◌∙◌, ◌≢◌, ◌⊎◌, inl, inr, false, Option, none, some,
  List, [], ◌∷◌, ◌++◌, append-nil, append_assoc, arith, leb, nat_eq, ◌==◌, Bool-cases, Option-cases,
  All, length,
}
use aleph_node.Client.{BackendResult, ok, backend_error, Header, Client}
use aleph_node.DataIo.{AlephData}
use aleph_node.Finalization.{ancestors, is_correct, chain_extension_step}

-- The client stores each header under its hash, a parent's number is one less, and `number` is that
-- of the header.
pub record IsCoherent (client : Client) : Type 0 where
  pub stored : (h : ℕ) (x : Header) → client.header h ≡ ok (some x) → x.hash ≡ h
  pub parent :
      (h : ℕ) (x y : Header)
      → client.header h ≡ ok (some x)
      → client.header x.parent_hash ≡ ok (some y)
      → y.number + 1 ≡ x.number
  pub numbered :
      (h n : ℕ)
      → client.number h ≡ ok (some n)
      → (x : Header) × (client.header h ≡ ok (some x)) × (x.number ≡ n)

-- `rs` are the headers met on the way from the block `h` down to `base`, that of `base` left out.
abbrev pub Descends : Client → ℕ → List Header → ℕ → Type 0
Descends client base [] h = h ≡ base
Descends client base (x ∷ rs) h =
    (client.header h ≡ ok (some x)) × Descends client base rs x.parent_hash

pub header-cases :
    (client : Client) (h : ℕ)
    → ((x : Header) × (client.header h ≡ ok (some x)))
      ⊎ ((client.header h ≡ ok none) ⊎ (client.header h ≡ backend_error))
header-cases client h = go (client.header h) refl
  where
    go :
        (r : BackendResult (Option Header))
        → client.header h ≡ r
        → ((x : Header) × (client.header h ≡ ok (some x)))
          ⊎ ((client.header h ≡ ok none) ⊎ (client.header h ≡ backend_error))
    go (ok (some x)) e = inl (x, e)
    go (ok none) e = inr (inl e)
    go backend_error e = inr (inr e)

module _ (client : Client) (base last : ℕ) where
  -- What the loop returns is nothing, or the path from the base behind what it has so far.
  ancestors_sound :
      (fuel h : ℕ) (acc hs : List Header)
      → ancestors client base last fuel h acc ≡ some hs
      → (hs ≡ [])
        ⊎ ((rs : List Header) × Descends client base rs h
            × (hs ≡ reverse rs ++ acc)
            × All (λ x. last < x.number) rs)
  unfolding ancestors
  ancestors_sound zero h acc hs e = absurd (ground arith)
  ancestors_sound (suc fuel) h acc hs e = elim (header-cases client h) [
    | inr (inl q) ↦ inl (ground arith)
    | inr (inr q) ↦ inl (ground arith)
    | inl (x, q) ↦ elim (Bool-cases (leb x.number last)) [
      | inl low ↦ elim (Bool-cases (h == base)) [
        | inl t ↦ inr ([], ground arith, ground arith, tt)
        | inr f ↦ inl (ground arith)
      ]
      | inr high ↦ elim (ancestors_sound fuel x.parent_hash (x ∷ acc) hs (ground arith)) [
        | inl nil ↦ inl nil
        | inr (rs, d, r, a) ↦ inr (
          x ∷ rs,
          (q, d),
          r
              ∙ sym (append_assoc (reverse rs) (x ∷ []) acc)
              ∙ ap (λ l. l ++ acc) (sym (reverse-cons x rs)),
          (ground arith, a),
        )
      ]
    ]
  ]

  -- With enough fuel the loop ends.
  ancestors-total :
      IsCoherent client
      → (fuel h : ℕ) (acc : List Header)
      → ((x : Header) → client.header h ≡ ok (some x) → x.number < fuel)
      → 0 < fuel
      → ancestors client base last fuel h acc ≢ none
  unfolding ancestors
  ancestors-total c zero h acc small pos = absurd (omega arith)
  ancestors-total c (suc fuel) h acc small pos = elim (header-cases client h) [
    | inr (inl q) ↦ ground arith
    | inr (inr q) ↦ ground arith
    | inl (x, q) ↦ elim (Bool-cases (leb x.number last)) [
      | inl low ↦ ground arith
      | inr high ↦ ground (
        arith,
        ancestors-total c fuel x.parent_hash (x ∷ acc)
            (λ y r. omega (arith, c.parent h x y q r, small x q)) (ground (arith, small x q)),
      )
    ]
  ]

module _ (client : Client) (c : IsCoherent client) (base last : ℕ) (b : Header)
    (at_base : client.header base ≡ ok (some b)) (base_number : b.number ≡ last) where
  -- The number of a block is that of the base and the length of the path.
  Descends-number :
      (rs : List Header) (h : ℕ)
      → Descends client base rs h
      → (x : Header) × (client.header h ≡ ok (some x)) × (x.number ≡ last + length rs)
  Descends-number [] h d = (b, ground arith, omega arith)
  Descends-number (x ∷ rs) h d =
      let (y, e, n) = Descends-number rs x.parent_hash d.1 in
      (x, d.0, omega (arith, c.parent h x y d.0 e))

  ancestors_complete :
      (rs : List Header) (fuel h : ℕ) (acc : List Header)
      → Descends client base rs h
      → length rs < fuel
      → ancestors client base last fuel h acc ≡ some (reverse rs ++ acc)
  unfolding ancestors
  ancestors_complete rs zero h acc d small = absurd (omega arith)
  ancestors_complete [] (suc fuel) h acc d small =
      let e : client.header h ≡ ok (some b) = ground arith in ground arith
  ancestors_complete (x ∷ rs) (suc fuel) h acc d small =
      let (y, e, n) = Descends-number (x ∷ rs) h d in
      let above : leb x.number last ≡ false = ground arith in
      let again = ancestors_complete rs fuel x.parent_hash (x ∷ acc) d.1 (omega arith) in
      ground (arith, reverse-cons x rs, append_assoc (reverse rs) (x ∷ []) acc)

-- Where `chain_extension_step` enters its loop.
record Entered (last_finalized : ℕ) (new_data : AlephData) (client : Client) : Type 0 where
  base_number : ℕ
  header : Header
  numbered : client.number last_finalized ≡ ok (some base_number)
  found : client.header new_data.hash ≡ ok (some header)
  correct : header.number ≡ new_data.number
  enters :
      chain_extension_step last_finalized new_data client
      ≡ ancestors client last_finalized base_number (new_data.number + 1) new_data.hash []

step-cases :
    (last : ℕ) (new : AlephData) (client : Client)
    → (chain_extension_step last new client ≡ some []) ⊎ Entered last new client
unfolding chain_extension_step is_correct
step-cases last new client = elim (Bool-cases (new.hash == last)) [
  | inl same ↦ inl (ground arith)
  | inr ne ↦ with_number (client.number last) refl
]
  where
    with_header :
        (n : ℕ)
        → client.number last ≡ ok (some n)
        → (new.hash == last) ≡ false
        → (chain_extension_step last new client ≡ some []) ⊎ Entered last new client
    with_header n e ne = elim (header-cases client new.hash) [
      | inr (inl q) ↦ inl (ground arith)
      | inr (inr q) ↦ inl (ground arith)
      | inl (x, q) ↦ elim (Bool-cases (x.number == new.number)) [
        | inr wrong ↦ inl (ground arith)
        | inl right ↦ inr (record {
          base_number = n;
          header = x;
          numbered = e;
          found = q;
          correct = ground arith;
          enters = ground arith;
        })
      ]
    ]

    with_number :
        (r : BackendResult (Option ℕ))
        → client.number last ≡ r
        → (chain_extension_step last new client ≡ some []) ⊎ Entered last new client
    with_number (ok (some n)) e = elim (Bool-cases (new.hash == last)) [
      | inl same ↦ inl (ground arith)
      | inr ne ↦ with_header n e ne
    ]
    with_number (ok none) e = inl (ground arith)
    with_number backend_error e = inl (ground arith)

-- On a coherent client the fuel is enough: the function always returns.
pub chain_extension_step-total :
    (client : Client) (last_finalized : ℕ) (new_data : AlephData)
    → IsCoherent client
    → (hs : List Header) × (chain_extension_step last_finalized new_data client ≡ some hs)
chain_extension_step-total client last new c =
    elim (Option-cases (chain_extension_step last new client)) [
      | inr (hs, e) ↦ (hs, e)
      | inl e ↦ elim (step-cases last new client) [
        | inl q ↦ absurd (ground arith)
        | inr q ↦ absurd (
            ancestors-total client last q.base_number c (new.number + 1) new.hash []
              (λ x e'. ground (arith, q.found, q.correct)) (omega arith) (sym q.enters ∙ e))
      ]
    ]

-- What the function returns is nothing, or the headers on the path from `last_finalized` to
-- `new_data`, oldest first, that of `last_finalized` left out; their numbers exceed its number.
pub chain_extension_step_sound :
    (client : Client) (last_finalized : ℕ) (new_data : AlephData) (hs : List Header)
    → chain_extension_step last_finalized new_data client ≡ some hs
    → (hs ≡ [])
      ⊎ ((rs : List Header) × (n : ℕ) × (hs ≡ reverse rs)
          × Descends client last_finalized rs new_data.hash
          × (client.number last_finalized ≡ ok (some n))
          × All (λ x. n < x.number) rs)
chain_extension_step_sound client last new hs e = elim (step-cases last new client) [
  | inl q ↦ inl (ground arith)
  | inr q ↦
      elim (ancestors_sound client last q.base_number (new.number + 1) new.hash [] hs
        (sym q.enters ∙ e)) [
          | inl nil ↦ inl nil
          | inr (rs, d, r, a) ↦
              inr (rs, q.base_number, r ∙ append-nil (reverse rs), d, q.numbered, a)
        ]
]

-- If the client is coherent, knows the number of `last_finalized`, and there is a path of at least
-- one block from it up to `new_data`, whose number is right, then the function returns that path.
pub chain_extension_step_complete :
    (client : Client) (last_finalized n : ℕ) (new_data : AlephData) (x : Header) (rs : List Header)
    → IsCoherent client
    → client.number last_finalized ≡ ok (some n)
    → Descends client last_finalized (x ∷ rs) new_data.hash
    → x.number ≡ new_data.number
    → chain_extension_step last_finalized new_data client ≡ some (reverse (x ∷ rs))
unfolding chain_extension_step is_correct
chain_extension_step_complete client last n new x rs c e d right =
    let (b, at_base, bn) = c.numbered last n e in
    let (y, q, count) = Descends-number client c last n b at_base bn (x ∷ rs) new.hash d in
    let run =
      ancestors_complete client c last n b at_base bn (x ∷ rs) (new.number + 1) new.hash [] d
        (ground arith) in
    let apart : (new.hash == last) ≡ false = ground arith in
    ground (arith, append-nil (reverse (x ∷ rs)))
