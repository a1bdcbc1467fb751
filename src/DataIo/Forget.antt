-- ===== src/DataIo/Forget.antt =====
-- `forget_message` of finality-aleph/src/data_io.rs keeps the invariant.
use aleph_node.Common.{
  ℕ, ◌≡◌, inl, inr, false, none, some, List, [], nat_eq, ◌==◌, arith, contains, Option-cases,
}
use aleph_node.Common.Count.{dedup, count_ext}
use aleph_node.Common.Map.{get, remove, get-remove}
use aleph_node.DataIo.{AlephData, data_eq, Lru, DataStore, forget_message, forget_dependents}
use aleph_node.DataIo.Waits.{Table, waits, waits-forget_dependents, forget_dependents-IsProper}
use aleph_node.DataIo.Invariant.{outstanding, Inv, Counted}

outstanding-forget :
    (t : Table) (id j : ℕ) (bs blocks : List AlephData)
    → (id == j) ≡ false
    → outstanding (forget_dependents id bs t) j blocks ≡ outstanding t j blocks
outstanding-forget t id j bs blocks ne =
    count_ext (λ b. waits (forget_dependents id bs t) b j) (λ b. waits t b j) (dedup blocks)
      (λ b. ground (arith, waits-forget_dependents id bs t b j))

module _ {Message : Type 0} (lru : Lru AlephData) (included_blocks : Message → List AlephData)
    (IsAvailable : AlephData → Type 0) where
  abbrev S : Type 0
  S = DataStore lru.Cache Message

  abbrev I : S → Type 0
  I s = Inv lru included_blocks IsAvailable s []

  abbrev C : S → ℕ → Message → Type 0
  C s id m = Counted lru included_blocks IsAvailable s [] id m

  module _ (s : S) (v : I s) (id : ℕ) where
    still_there :
        (j : ℕ) (m' : Message)
        → get (remove id s.pending_messages) j ≡ some m'
        → ((id == j) ≡ false) × (get s.pending_messages j ≡ some m')
    still_there j m' q = ground (arith, get-remove s.pending_messages id j)

    -- The state after the message `id`, with blocks `bs`, is dropped.
    abbrev dropped : List AlephData → S
    dropped bs = record s {
      message_requirements = remove id s.message_requirements;
      pending_messages = remove id s.pending_messages;
      dependent_messages = forget_dependents id bs s.dependent_messages;
    }

    dropped-counted :
        (bs : List AlephData) (j : ℕ) (m : Message)
        → (id == j) ≡ false
        → C s j m
        → C (dropped bs) j m
    unfolding contains
    dropped-counted bs j m ne c =
        let same = outstanding-forget s.dependent_messages id j bs (included_blocks m) ne in
        record {
          requirement = c.requirement;
          stored = ground (arith, c.stored, get-remove s.message_requirements id j);
          positive = c.positive;
          bounded = ground (arith, c.bounded);
          exact = λ d. ground (arith, c.exact d);
        }

    dropped-Inv :
        (m : Message) → get s.pending_messages id ≡ some m → I (dropped (included_blocks m))
    unfolding contains
    dropped-Inv m p = record {
      proper = forget_dependents-IsProper id (included_blocks m) s.dependent_messages v.proper;
      known = λ b j w.
          let table = waits-forget_dependents id (included_blocks m) s.dependent_messages b j in
          let (m', q, h) = v.known b j (ground arith) in
          (m', ground (arith, get-remove s.pending_messages id j), h);
      todo_known = λ j h. ground arith;
      counted = λ j m' q.
          let (ne, q') = still_there j m' q in
          dropped-counted (included_blocks m) j m' ne (v.counted j m' q');
      matched = λ j q. ground (
        arith,
        get-remove s.pending_messages id j,
        get-remove s.message_requirements id j,
        v.matched j,
      );
      fresh = λ j m' q. v.fresh j m' (still_there j m' q).1;
      covered = λ j m' b q h.
          let (ne, q') = still_there j m' q in
          let table = waits-forget_dependents id (included_blocks m) s.dependent_messages b j in
          elim (v.covered j m' b q' h) [ inl a ↦ inl a | inr w ↦ inr (ground arith) ];
      cached = v.cached;
      sent = v.sent;
    }

    absent-counted :
        (j : ℕ) (m : Message)
        → get s.pending_messages id ≡ none
        → get s.pending_messages j ≡ some m
        → C s j m
        → C (record s { message_requirements = remove id s.message_requirements }) j m
    absent-counted j m p q c = record {
      requirement = c.requirement;
      stored = ground (arith, c.stored, get-remove s.message_requirements id j);
      positive = c.positive;
      bounded = c.bounded;
      exact = c.exact;
    }

    pub forget-Inv : I (forget_message lru included_blocks id s)
    unfolding forget_message
    forget-Inv = elim (Option-cases (get s.pending_messages id)) [
      | inr (m, p) ↦ rw (p, forget_message) (dropped-Inv m p)
      | inl p ↦
          rw (p, forget_message)
            (record {
              proper = v.proper;
              known = v.known;
              todo_known = v.todo_known;
              counted = λ j m q. absent-counted j m p q (v.counted j m q);
              matched = λ j q. ground (arith, get-remove s.message_requirements id j, v.matched j);
              fresh = v.fresh;
              covered = v.covered;
              cached = v.cached;
              sent = v.sent;
            })
    ]
