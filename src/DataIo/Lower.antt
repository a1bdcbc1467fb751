-- ===== src/DataIo/Lower.antt =====
-- `push_message` of finality-aleph/src/data_io.rs lowers a requirement or sends the message.
use aleph_node.Common.{
  ℕ, zero, suc, ◌+◌, ◌<◌, ◌≡◌, refl, inl, inr, true, false, some, List, [], ◌∷◌, ◌++◌, nat_eq, ◌==◌,
  if◌then◌else◌, arith, contains, All-append, Distinct,
}
use aleph_node.Common.Count.{dedup, count-zero, contains-dedup}
use aleph_node.Common.Map.{get, insert, remove, get-insert, get-remove}
use aleph_node.DataIo.{AlephData, data_eq, Lru, DataStore, send_if_ready, push_message, push_ids}
use aleph_node.DataIo.Waits.{waits}
use aleph_node.DataIo.Invariant.{outstanding, Inv, Counted, Ready}

module _ {Message : Type 0} (lru : Lru AlephData) (included_blocks : Message → List AlephData)
    (IsAvailable : AlephData → Type 0) where
  abbrev S : Type 0
  S = DataStore lru.Cache Message

  abbrev I : S → List ℕ → Type 0
  I s todo = Inv lru included_blocks IsAvailable s todo

  abbrev C : S → List ℕ → ℕ → Message → Type 0
  C s todo id m = Counted lru included_blocks IsAvailable s todo id m

  -- The state after a requirement is lowered to a positive number.
  abbrev lowered : ℕ → ℕ → S → S
  lowered id r s = record s { message_requirements = insert id r s.message_requirements }

  -- The state after a message is sent.
  abbrev released : ℕ → ℕ → Message → S → S
  released id r m s = record s {
    pending_messages = remove id s.pending_messages;
    ready_messages = s.ready_messages ++ m ∷ [];
    message_requirements = remove id (insert id r s.message_requirements);
  }

  -- The other ids, and the id itself if its requirement stays positive.
  lowered-counted :
      (s : S) (todo : List ℕ) (id j : ℕ) (m : Message) (r : ℕ)
      → contains todo id ≡ false
      → get s.message_requirements id ≡ some (r + 1)
      → 0 < r
      → C s (id ∷ todo) j m
      → C (lowered id r s) todo j m
  unfolding contains
  lowered-counted s todo id j m r absent e pos c = record {
    requirement = if id == j then r else c.requirement;
    stored = ground (arith, c.stored, get-insert s.message_requirements id j r);
    positive = ground (arith, c.positive);
    bounded = ground (arith, c.bounded, c.stored);
    exact = λ d. ground (arith, c.exact d, c.stored);
  }

  lowered-Inv :
      (s : S) (todo : List ℕ) (id : ℕ) (m : Message) (r : ℕ)
      → I s (id ∷ todo)
      → contains todo id ≡ false
      → get s.pending_messages id ≡ some m
      → get s.message_requirements id ≡ some (r + 1)
      → 0 < r
      → I (lowered id r s) todo
  unfolding contains
  lowered-Inv s todo id m r v absent p e pos = record {
    proper = v.proper;
    known = v.known;
    todo_known = λ j h. v.todo_known j (ground arith);
    counted = λ j m' q. lowered-counted s todo id j m' r absent e pos (v.counted j m' q);
    matched = λ j q. ground (arith, get-insert s.message_requirements id j r, v.matched j q);
    fresh = v.fresh;
    covered = v.covered;
    cached = v.cached;
    sent = v.sent;
  }

  released-counted :
      (s : S) (todo : List ℕ) (id j r : ℕ) (m m' : Message)
      → (id == j) ≡ false
      → C s (id ∷ todo) j m'
      → C (released id r m s) todo j m'
  unfolding contains
  released-counted s todo id j r m m' ne c = record {
    requirement = c.requirement;
    stored = ground (
      arith,
      c.stored,
      get-insert s.message_requirements id j r,
      get-remove (insert id r s.message_requirements) id j,
    );
    positive = c.positive;
    bounded = ground (arith, c.bounded);
    exact = λ d. ground (arith, c.exact d);
  }

  module _ (s : S) (todo : List ℕ) (id : ℕ) (m : Message) (v : I s (id ∷ todo))
      (p : get s.pending_messages id ≡ some m) (e : get s.message_requirements id ≡ some 1)
      (absent : contains todo id ≡ false) where
    -- The last requirement is the one that is lowered.
    none_outstanding : outstanding s.dependent_messages id (included_blocks m) ≡ 0
    unfolding contains
    none_outstanding = let c = v.counted id m p in ground (arith, c.stored, c.bounded)

    not_waiting :
        (b : AlephData)
        → contains (included_blocks m) b ≡ true
        → waits s.dependent_messages b id ≡ false
    not_waiting b h =
        count-zero (λ c. waits s.dependent_messages c id) (dedup (included_blocks m)) b
          none_outstanding (rw (contains-dedup (included_blocks m) b) h)

    still_pending :
        (j : ℕ) (m' : Message)
        → get (remove id s.pending_messages) j ≡ some m'
        → ((id == j) ≡ false) × (get s.pending_messages j ≡ some m')
    still_pending j m' q = ground (arith, get-remove s.pending_messages id j)

    released-Inv : (r : ℕ) → I (released id r m s) todo
    unfolding contains
    released-Inv r = record {
      proper = v.proper;
      known = λ b j w.
          let (m', q, h) = v.known b j w in
          (m', ground (arith, get-remove s.pending_messages id j, not_waiting b), h);
      todo_known = λ j h.
          let (m', q) = v.todo_known j (ground arith) in
          (m', ground (arith, get-remove s.pending_messages id j));
      counted = λ j m' q.
          let (ne, q') = still_pending j m' q in
          released-counted s todo id j r m m' ne (v.counted j m' q');
      matched = λ j q. ground (
        arith,
        get-remove s.pending_messages id j,
        get-insert s.message_requirements id j r,
        get-remove (insert id r s.message_requirements) id j,
        v.matched j,
      );
      fresh = λ j m' q. v.fresh j m' (still_pending j m' q).1;
      covered = λ j m' b q h. v.covered j m' b (still_pending j m' q).1 h;
      cached = v.cached;
      sent = All-append _ s.ready_messages (m ∷ []) v.sent (ready, tt);
    }
      where
        ready : Ready lru included_blocks IsAvailable m
        ready b h = elim (v.covered id m b p h) [
          | inl a ↦ a
          | inr w ↦ absurd (ground (arith, not_waiting b h))
        ]

  push_message-Inv :
      (s : S) (todo : List ℕ) (id : ℕ)
      → I s (id ∷ todo)
      → contains todo id ≡ false
      → (s' : S) × (push_message id s ≡ some s') × I s' todo
  unfolding push_message send_if_ready contains
  push_message-Inv s todo id v absent =
      let (m, p) = v.todo_known id (ground arith) in
      let c = v.counted id m p in go m p c.requirement c.stored c.positive
    where
      go :
          (m : Message)
          → get s.pending_messages id ≡ some m
          → (r : ℕ) → get s.message_requirements id ≡ some r
          → 0 < r
          → (s' : S) × (push_message id s ≡ some s') × I s' todo
      go m p zero e pos = absurd (omega arith)
      go m p (suc zero) e pos =
          (released id 0 m s, ground arith, released-Inv s todo id m v p e absent 0)
      go m p (suc (suc r)) e pos = (
        lowered id (suc r) s,
        ground arith,
        lowered-Inv s todo id m (suc r) v absent p (ground arith) (omega arith),
      )

  pub push_ids-Inv :
      (ids : List ℕ) (s : S)
      → Distinct ids
      → I s ids
      → (s' : S) × (push_ids ids s ≡ some s') × I s' []
  unfolding push_ids
  push_ids-Inv [] s d v = (s, refl, v)
  push_ids-Inv (id ∷ ids) s d v =
      let (s', e, v') = push_message-Inv s ids id v d.0 in rw e (push_ids-Inv ids s' d.1 v')
