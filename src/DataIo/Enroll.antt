-- ===== src/DataIo/Enroll.antt =====
-- `add_pending_message` of finality-aleph/src/data_io.rs keeps the invariant.
use aleph_node.Common.{
  ℕ, ◌+◌, ◌-◌, ◌^◌, ◌<◌, ◌≡◌, subst, ap, ◌⊎◌, inl, inr, true, false, none, some, List, [], ◌∷◌,
  nat_eq, leb, ◌==◌, arith, length, contains, All, Distinct, Bool-cases, Option-cases,
}
use aleph_node.Common.Count.{
  count, dedup, contains-dedup, dedup-Distinct, count_ext, count-contains, count-contains-le,
}
use aleph_node.Common.Map.{get, insert, get-insert}
use aleph_node.DataIo.{
  AlephData, data_eq, data_beq_iff, Lru, DataStore, enroll, add_pending_message, add_dependents,
  message_id_boundary,
}
use aleph_node.DataIo.Waits.{Table, waits, waits-add_dependents, add_dependents-IsProper}
use aleph_node.DataIo.Invariant.{outstanding, Inv, Counted}
use aleph_node.DataIo.Forget.{forget-Inv}

-- A message that waited for nothing waits for its requirements, and no other's waiting changes.
outstanding-new :
    (t : Table) (id : ℕ) (rs blocks : List AlephData)
    → ((b : AlephData) → waits t b id ≡ false)
    → outstanding (add_dependents id rs t) id blocks ≡ count (contains rs) (dedup blocks)
outstanding-new t id rs blocks none_yet =
    count_ext (λ b. waits (add_dependents id rs t) b id) (contains rs) (dedup blocks)
      (λ b. ground (arith, waits-add_dependents id rs t b id, none_yet b))

outstanding-other :
    (t : Table) (id j : ℕ) (rs blocks : List AlephData)
    → (id == j) ≡ false
    → outstanding (add_dependents id rs t) j blocks ≡ outstanding t j blocks
outstanding-other t id j rs blocks ne =
    count_ext (λ b. waits (add_dependents id rs t) b j) (λ b. waits t b j) (dedup blocks)
      (λ b. ground (arith, waits-add_dependents id rs t b j))

module _ {Message : Type 0} (lru : Lru AlephData) (included_blocks : Message → List AlephData)
    (IsAvailable : AlephData → Type 0) where
  abbrev S : Type 0
  S = DataStore lru.Cache Message

  abbrev I : S → Type 0
  I s = Inv lru included_blocks IsAvailable s []

  abbrev C : S → ℕ → Message → Type 0
  C s id m = Counted lru included_blocks IsAvailable s [] id m

  -- What `add_message` knows of the requirements that it found.
  pub record Found (m : Message) (rs : List AlephData) : Type 0 where
    pub some_left : 0 < length rs
    pub within : All (λ b. contains (included_blocks m) b ≡ true) rs
    pub rest :
        (b : AlephData)
        → contains (included_blocks m) b ≡ true
        → IsAvailable b ⊎ (contains rs b ≡ true)
    pub once : Distinct (included_blocks m) → Distinct rs

  pub All-contains :
      (bs rs : List AlephData) (b : AlephData)
      → All (λ r. contains bs r ≡ true) rs
      → contains rs b ≡ true
      → contains bs b ≡ true
  unfolding contains
  All-contains bs [] b a h = ground arith
  All-contains bs (r ∷ rs) b a h = elim (Bool-cases (r == b)) [
    | inl t ↦ let q = ap (contains bs) ((data_beq_iff r b).0 t) in ground (arith, a.0)
    | inr f ↦ All-contains bs rs b a.1 (ground arith)
  ]

  module _ (s : S) (v : I s) (m : Message) (rs : List AlephData) (f : Found m rs) where
    abbrev id : ℕ
    id = s.next_message_id

    not_pending : get s.pending_messages id ≡ none
    not_pending = elim (Option-cases (get s.pending_messages id)) [
      | inl e ↦ e
      | inr (m', e) ↦ absurd (omega (arith, v.fresh id m' e))
    ]

    not_waiting : (b : AlephData) → waits s.dependent_messages b id ≡ false
    not_waiting b = elim (Bool-cases (waits s.dependent_messages b id)) [
      | inl w ↦ let (m', q, _) = v.known b id w in absurd (omega (arith, v.fresh id m' q))
      | inr e ↦ e
    ]

    new-counted : C (enroll lru included_blocks m rs s) id m
    unfolding enroll contains
    new-counted = record {
      requirement = length rs;
      stored = ground (arith, get-insert s.message_requirements id id (length rs));
      positive = f.some_left;
      bounded = omega (
        arith,
        outstanding-new s.dependent_messages id rs (included_blocks m) not_waiting,
        count-contains-le rs (dedup (included_blocks m)) (dedup-Distinct (included_blocks m)),
      );
      exact = λ d. omega (
        arith,
        outstanding-new s.dependent_messages id rs (included_blocks m) not_waiting,
        count-contains rs (dedup (included_blocks m)) (dedup-Distinct (included_blocks m))
            (f.once d) (within_dedup rs f.within),
      );
    }
      where
        within_dedup :
            (qs : List AlephData)
            → All (λ b. contains (included_blocks m) b ≡ true) qs
            → All (λ b. contains (dedup (included_blocks m)) b ≡ true) qs
        within_dedup [] a = tt
        within_dedup (q ∷ qs) a =
            (rw (contains-dedup (included_blocks m) q) a.0, within_dedup qs a.1)

    old-counted :
        (j : ℕ) (m' : Message)
        → (id == j) ≡ false
        → C s j m'
        → C (enroll lru included_blocks m rs s) j m'
    unfolding enroll contains
    old-counted j m' ne c =
        let same = outstanding-other s.dependent_messages id j rs (included_blocks m') ne in
        record {
          requirement = c.requirement;
          stored = ground (arith, c.stored, get-insert s.message_requirements id j (length rs));
          positive = c.positive;
          bounded = ground (arith, c.bounded);
          exact = λ d. ground (arith, c.exact d);
        }

    is_new :
        (j : ℕ) (m' : Message)
        → (id == j) ≡ true
        → get (insert id m s.pending_messages) j ≡ some m'
        → (id ≡ j) × (m ≡ m')
    is_new j m' t q = ground (arith, get-insert s.pending_messages id j m)

    is_old :
        (j : ℕ) (m' : Message)
        → (id == j) ≡ false
        → get (insert id m s.pending_messages) j ≡ some m'
        → get s.pending_messages j ≡ some m'
    is_old j m' ne q = ground (arith, get-insert s.pending_messages id j m)

    enroll-covered :
        (j : ℕ) (m' : Message) (b : AlephData)
        → get (insert id m s.pending_messages) j ≡ some m'
        → contains (included_blocks m') b ≡ true
        → IsAvailable b ⊎ (waits (add_dependents id rs s.dependent_messages) b j ≡ true)
    enroll-covered j m' b q h = elim (Bool-cases (id == j)) [
      | inl t ↦
          let (_, same) = is_new j m' t q in
          elim (f.rest b (ground arith)) [
            | inl a ↦ inl a
            | inr r ↦ inr (ground (arith, waits-add_dependents id rs s.dependent_messages b j))
          ]
      | inr ne ↦ elim (v.covered j m' b (is_old j m' ne q) h) [
        | inl a ↦ inl a
        | inr w ↦ inr (ground (arith, waits-add_dependents id rs s.dependent_messages b j))
      ]
    ]

    enroll-known :
        (b : AlephData) (j : ℕ)
        → waits (add_dependents id rs s.dependent_messages) b j ≡ true
        → (m' : Message) × (get (insert id m s.pending_messages) j ≡ some m')
          × (contains (included_blocks m') b ≡ true)
    enroll-known b j w = elim (Bool-cases (id == j)) [
      | inl t ↦ (
        m,
        ground (arith, get-insert s.pending_messages id j m),
        All-contains (included_blocks m) rs b f.within
            (ground (arith, waits-add_dependents id rs s.dependent_messages b j, not_waiting b)),
      )
      | inr ne ↦
          let (m', q, h) =
            v.known b j (ground (arith, waits-add_dependents id rs s.dependent_messages b j)) in
          (m', ground (arith, get-insert s.pending_messages id j m), h)
    ]

    pub enroll-Inv : id + 1 < 2 ^ 64 → I (enroll lru included_blocks m rs s)
    unfolding enroll contains
    enroll-Inv small = record {
      proper = add_dependents-IsProper id rs s.dependent_messages v.proper;
      known = enroll-known;
      todo_known = λ j h. ground arith;
      counted = λ j m' q. elim (Bool-cases (id == j)) [
        | inl t ↦
            let (e, same) = is_new j m' t q in
            subst (λ k. C (enroll lru included_blocks m rs s) k m') e
              (subst (C (enroll lru included_blocks m rs s) id) same new-counted)
        | inr ne ↦ old-counted j m' ne (v.counted j m' (is_old j m' ne q))
      ];
      matched = λ j q. ground (
        arith,
        get-insert s.pending_messages id j m,
        get-insert s.message_requirements id j (length rs),
        v.matched j,
      );
      fresh = λ j m' q. ground (arith, get-insert s.pending_messages id j m, v.fresh j m');
      covered = enroll-covered;
      cached = v.cached;
      sent = v.sent;
    }

  pub add_pending_message-Inv :
      (s : S)
      → I s
      → (m : Message) (rs : List AlephData) → Found m rs
      → s.next_message_id + 1 < 2 ^ 64
      → I (add_pending_message lru included_blocks m rs s)
  unfolding add_pending_message
  add_pending_message-Inv s v m rs f small =
      elim (Bool-cases (leb message_id_boundary s.next_message_id)) [
        | inl t ↦
            rw (t, add_pending_message)
              (forget-Inv lru included_blocks IsAvailable _ (enroll-Inv s v m rs f small)
                (s.next_message_id - message_id_boundary))
        | inr e ↦ rw (e, add_pending_message) (enroll-Inv s v m rs f small)
      ]
