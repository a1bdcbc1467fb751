-- ===== src/Party/Links.antt =====
-- The chain of headers that `run_aggregator` of finality-aleph/src/party.rs walks along.
use mathlib.Core.List.{reverse, reverse-cons}
use aleph_node.Common.{
  ◌≡◌, refl, sym, ◌∙◌, ap, subst, inl, inr, ℕ, suc, ◌<◌, true, Option, some, List, [], ◌∷◌, ◌++◌,
  map, arith, nat_eq, contains, ◌==◌, All, Bool-cases,
}
use aleph_node.Client.{BackendResult, ok, backend_error, Header, Client}
use aleph_node.DataIo.{AlephData}
use aleph_node.Finalization.{chain_extension_step}
use aleph_node.Finalization.Path.{Descends, chain_extension_step_sound}
use aleph_node.Justification.{JustificationNotification}
use aleph_node.Party.{unwrap_number}

-- The hashes of a chain in the order of the numbers, from a child of `base` to `last`.
abbrev pub Chain : (ℕ → ℕ) → ℕ → List ℕ → ℕ → Type 0
Chain parent_of base [] last = last ≡ base
Chain parent_of base (h ∷ hs) last = (parent_of h ≡ base) × Chain parent_of h hs last

pub Chain-snoc :
    (parent_of : ℕ → ℕ) (base : ℕ) (hs : List ℕ) (last h : ℕ)
    → Chain parent_of base hs last
    → parent_of h ≡ last
    → Chain parent_of base (hs ++ h ∷ []) h
Chain-snoc parent_of base [] last h c p = (p ∙ c, refl)
Chain-snoc parent_of base (x ∷ hs) last h c p = (c.0, Chain-snoc parent_of x hs last h c.1 p)

pub All-contains : (P : ℕ → Type 0) (xs : List ℕ) (h : ℕ) → All P xs → contains xs h ≡ true → P h
unfolding contains
All-contains P [] h a c = absurd (ground arith)
All-contains P (x ∷ xs) h a c = elim (Bool-cases (x == h)) [
  | inl t ↦ subst P (ground arith) a.0
  | inr f ↦ All-contains P xs h a.1 (ground arith)
]

-- The tree of blocks that the client's snapshots agree on, and the last block of the session.
module _ (parent_of number_of : ℕ → ℕ) where
  -- A snapshot shows blocks of the tree: a block never changes.
  pub record Agrees (client : Client) : Type 0 where
    pub header :
        (h : ℕ) (x : Header)
        → client.header h ≡ ok (some x)
        → (x.hash ≡ h) × (number_of h ≡ x.number) × (parent_of h ≡ x.parent_hash)
    pub number : (h n : ℕ) → client.number h ≡ ok (some n) → number_of h ≡ n

  -- Block numbers count up from block 0.
  abbrev pub Counts : Type 0
  Counts = (h : ℕ) → 0 < number_of h → number_of h ≡ suc (number_of (parent_of h))

  -- Headers from a child of `b` to `e`, in the order of their numbers.
  abbrev pub Links : List Header → ℕ → ℕ → Type 0
  Links [] b e = e ≡ b
  Links (x ∷ xs) b e =
      (parent_of x.hash ≡ b)
      × (number_of x.hash ≡ x.number)
      × (number_of x.hash ≡ suc (number_of b))
      × Links xs x.hash e

  Links-snoc :
      (hs : List Header) (b e : ℕ) (x : Header)
      → Links hs b e
      → parent_of x.hash ≡ e
      → number_of x.hash ≡ x.number
      → number_of x.hash ≡ suc (number_of e)
      → Links (hs ++ x ∷ []) b x.hash
  Links-snoc [] b e x l p n s = (p ∙ l, n, s ∙ ap (λ y. suc (number_of y)) l, refl)
  Links-snoc (y ∷ hs) b e x l p n s = (l.0, l.1, l.2, Links-snoc hs y.hash e x l.3 p n s)

  Descends-Links :
      (client : Client) (b n : ℕ) (rs : List Header) (h : ℕ)
      → Agrees client
      → Counts
      → Descends client b rs h
      → All (λ x. n < x.number) rs
      → Links (reverse rs) b h
  Descends-Links client b n [] h a c d l = d
  Descends-Links client b n (x ∷ rs) h a c d l =
      let (same, number, parent) = a.header h x d.0 in
      let below = Descends-Links client b n rs x.parent_hash a c d.1 l.1 in
      let linked =
        Links-snoc (reverse rs) b x.parent_hash x below (ap parent_of same ∙ parent)
          (ap number_of same ∙ number)
          (ap number_of same ∙ c h (ground (arith, l.0)) ∙ ap (λ y. suc (number_of y)) parent) in
      rw (reverse-cons x rs) (subst (λ e. Links (reverse rs ++ x ∷ []) b e) same linked)

  pub step-Links :
      (client : Client) (last : ℕ) (new : AlephData) (hs : List Header)
      → Agrees client
      → Counts
      → chain_extension_step last new client ≡ some hs
      → (e : ℕ) × Links hs last e
  step-Links client last new hs a c q = elim (chain_extension_step_sound client last new hs q) [
    | inl n ↦ (last, subst (λ l. Links l last last) (sym n) refl)
    | inr (rs, n, r, d, m, l) ↦ (
      new.hash,
      subst (λ l. Links l last new.hash) (sym r) (Descends-Links client last n rs new.hash a c d l),
    )
  ]

pub map-snoc :
    {Sig : Type 0} (ns : List (JustificationNotification Sig)) (n : JustificationNotification Sig)
    → map (λ m. m.hash) (ns ++ n ∷ []) ≡ map (λ m. m.hash) ns ++ n.hash ∷ []
map-snoc [] n = refl
map-snoc (m ∷ ns) n = ap (λ l. m.hash ∷ l) (map-snoc ns n)

pub unwrap_number-some :
    (r : BackendResult (Option ℕ)) (n : ℕ) → unwrap_number r ≡ some n → r ≡ ok (some n)
unwrap_number-some (ok o) n e = ap ok e
unwrap_number-some backend_error n e = absurd (ground arith)
