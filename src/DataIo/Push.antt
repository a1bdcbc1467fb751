-- ===== src/DataIo/Push.antt =====
-- `push_messages` of finality-aleph/src/data_io.rs keeps the invariant, and meets no `expect`.
use aleph_node.Common.{
  ℕ, ◌+◌, ◌≡◌, ap, ◌&&◌, inl, inr, true, some, List, [], nat_eq, ◌==◌, arith, contains, Bool-cases,
  Option-cases,
}
use aleph_node.Common.Count.{
  dedup, flag, contains-dedup, dedup-Distinct, count-without, count_ext, without,
}
use aleph_node.Common.Map.{get, remove}
use aleph_node.DataIo.{AlephData, data_eq, data_beq_iff, Lru, DataStore, push_messages, add_block}
use aleph_node.DataIo.Waits.{Table, waits, waits-remove, waits-get, remove-IsProper}
use aleph_node.DataIo.Invariant.{outstanding, Inv, Counted}
use aleph_node.DataIo.Lower.{push_ids-Inv}

-- Taking a block off the table takes one from what its ids wait for.
pub outstanding-remove :
    (t : Table) (b : AlephData) (ids : List ℕ) (j : ℕ) (blocks : List AlephData)
    → get t b ≡ some ids
    → (contains ids j ≡ true → contains blocks b ≡ true)
    → outstanding (remove b t) j blocks + flag (contains ids j) ≡ outstanding t j blocks
outstanding-remove t b ids j blocks e within = omega (
  arith,
  count-without (λ c. waits t c j) (dedup blocks) b (dedup-Distinct blocks),
  count_ext (λ c. waits (remove b t) c j) (without b (λ c. waits t c j)) (dedup blocks)
      (λ c. waits-remove t b c j),
  ap flag same,
)
  where
    same : (contains (dedup blocks) b && waits t b j) ≡ contains ids j
    same = ground (arith, within, waits-get t b j e, contains-dedup blocks b)

module _ {Message : Type 0} (lru : Lru AlephData) (included_blocks : Message → List AlephData)
    (IsAvailable : AlephData → Type 0) where
  abbrev S : Type 0
  S = DataStore lru.Cache Message

  abbrev I : S → List ℕ → Type 0
  I s todo = Inv lru included_blocks IsAvailable s todo

  abbrev C : S → List ℕ → ℕ → Message → Type 0
  C s todo id m = Counted lru included_blocks IsAvailable s todo id m

  removed-counted :
      (s : S) (b : AlephData) (ids : List ℕ) (j : ℕ) (m : Message)
      → get s.dependent_messages b ≡ some ids
      → get s.pending_messages j ≡ some m
      → I s []
      → C (record s { dependent_messages = remove b s.dependent_messages }) ids j m
  unfolding contains
  removed-counted s b ids j m e q v =
      let c = v.counted j m q in
      let split = outstanding-remove s.dependent_messages b ids j (included_blocks m) e (λ h.
        let (m', q', k) = v.known b j (rw (waits-get s.dependent_messages b j e) h) in
        ground arith) in
      record {
        requirement = c.requirement;
        stored = c.stored;
        positive = c.positive;
        bounded = ground (arith, c.bounded);
        exact = λ d. ground (arith, c.exact d);
      }

  -- A block that is available may be taken off the table; its ids are then to be lowered.
  removed-Inv :
      (s : S) (b : AlephData) (ids : List ℕ)
      → get s.dependent_messages b ≡ some ids
      → IsAvailable b
      → I s []
      → I (record s { dependent_messages = remove b s.dependent_messages }) ids
  removed-Inv s b ids e a v = record {
    proper = remove-IsProper s.dependent_messages b v.proper;
    known = λ c j w. v.known c j (ground (arith, waits-remove s.dependent_messages b c j));
    todo_known =
        λ j h. let (m, q, _) = v.known b j (rw (waits-get s.dependent_messages b j e) h) in (m, q);
    counted = λ j m q. removed-counted s b ids j m e q v;
    matched = v.matched;
    fresh = v.fresh;
    covered = λ j m c q h. elim (v.covered j m c q h) [
      | inl ok ↦ inl ok
      | inr w ↦ elim (Bool-cases (b == c)) [
        | inl t ↦ inl (rw (← (data_beq_iff b c).0 t) a)
        | inr f ↦ inr (rw (waits-remove s.dependent_messages b c j, f) w)
      ]
    ];
    cached = v.cached;
    sent = v.sent;
  }

  push_messages-Inv :
      (b : AlephData) (s : S)
      → IsAvailable b
      → I s []
      → (s' : S) × (push_messages b s ≡ some s') × I s' []
  unfolding push_messages
  push_messages-Inv b s a v = elim (Option-cases (get s.dependent_messages b)) [
    | inl e ↦ (s, rw (e, push_messages), v)
    | inr (ids, e) ↦
        let (s', pushed, v') =
          push_ids-Inv lru included_blocks IsAvailable ids _ (v.proper b ids e)
            (removed-Inv s b ids e a v) in
        (s', rw (e, push_messages) pushed, v')
  ]

  -- The block enters the cache, and its messages are served.
  pub add_block-Inv :
      (b : AlephData) (s : S)
      → IsAvailable b
      → I s []
      → (s' : S) × (add_block lru included_blocks b s ≡ some s') × I s' []
  unfolding add_block
  add_block-Inv b s a v = push_messages-Inv b _ a (record {
    proper = v.proper;
    known = v.known;
    todo_known = v.todo_known;
    counted = λ j m q.
        let c = v.counted j m q in
        record {
          requirement = c.requirement;
          stored = c.stored;
          positive = c.positive;
          bounded = c.bounded;
          exact = c.exact;
        };
    matched = v.matched;
    fresh = v.fresh;
    covered = v.covered;
    cached = λ c h. elim (lru.contains-put s.available_blocks b c h) [
      | inl q ↦ rw (← q) a
      | inr old ↦ v.cached c old
    ];
    sent = v.sent;
  })
