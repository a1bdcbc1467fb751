-- ===== src/DataIo/Release.antt =====
-- When `push_messages` of finality-aleph/src/data_io.rs sends a message.
use mathlib.Core.List.{Mem, mem-append_left, mem-append_right, mem-cons_self}
use aleph_node.Common.{
  ℕ, some_inj, subst, ◌≡◌, sym, inl, inr, true, false, none, some, List, [], ◌∷◌, ◌++◌, nat_eq,
  nat_beq, ◌==◌, arith, contains, Distinct, Bool-cases, Option-cases,
}
use aleph_node.Common.Count.{
  count_none, dedup, contains-dedup, dedup-Distinct, count-without, without,
}
use aleph_node.Common.Map.{get, insert, remove, get-insert, get-remove}
use aleph_node.DataIo.{
  AlephData, data_eq, data_beq_iff, Lru, DataStore, decrement, push_message, send_if_ready,
  push_ids, push_messages, add_block,
}
use aleph_node.DataIo.Waits.{waits, waits-get}
use aleph_node.DataIo.Invariant.{Inv}

module _ {Cache Message : Type 0} where
  -- The message `id` has left the store, through the channel.
  abbrev Gone : ℕ → Message → DataStore Cache Message → Type 0
  Gone id m s = (get s.pending_messages id ≡ none) × Mem m s.ready_messages

  -- One more block, and the message `id` goes.
  abbrev Due : ℕ → Message → DataStore Cache Message → Type 0
  Due id m s = (get s.pending_messages id ≡ some m) × (get s.message_requirements id ≡ some 1)

  abbrev lowered : ℕ → ℕ → DataStore Cache Message → DataStore Cache Message
  lowered id r s = record s { message_requirements = insert id r s.message_requirements }

  abbrev released : ℕ → ℕ → Message → DataStore Cache Message → DataStore Cache Message
  released id r m s = record s {
    pending_messages = remove id s.pending_messages;
    ready_messages = s.ready_messages ++ m ∷ [];
    message_requirements = remove id (insert id r s.message_requirements);
  }

  -- A round that succeeds lowers a requirement, or sends the message and drops the requirement.
  pub push_message_cases {ℓ} :
      (P : DataStore Cache Message → Type ℓ) (j : ℕ) (s s' : DataStore Cache Message)
      → push_message j s ≡ some s'
      → ((r : ℕ)
          → get s.message_requirements j ≡ some r
          → nat_beq (decrement r) 0 ≡ false
          → P (lowered j (decrement r) s))
      → ((r : ℕ) (m : Message)
          → get s.message_requirements j ≡ some r
          → get s.pending_messages j ≡ some m
          → nat_beq (decrement r) 0 ≡ true
          → P (released j (decrement r) m s))
      → P s'
  unfolding push_message send_if_ready
  push_message_cases P j s s' e low send = elim (Option-cases (get s.message_requirements j)) [
    | inl q ↦ absurd (ground arith)
    | inr (r, q) ↦ elim (Bool-cases (nat_beq (decrement r) 0)) [
      | inr f ↦
          let e' : some (lowered j (decrement r) s) ≡ some s' = ground arith in
          subst P (some_inj e') (low r q f)
      | inl t ↦ elim (Option-cases (get s.pending_messages j)) [
        | inl p ↦ absurd (ground arith)
        | inr (m, p) ↦
            let e' : some (released j (decrement r) m s) ≡ some s' = ground arith in
            subst P (some_inj e') (send r m q p t)
      ]
    ]
  ]

  push_message-Gone :
      (id j : ℕ) (m : Message) (s s' : DataStore Cache Message)
      → push_message j s ≡ some s'
      → Gone id m s
      → Gone id m s'
  push_message-Gone id j m s s' e (g, mem) =
      push_message_cases (Gone id m) j s s' e (λ r q f. (g, mem))
        (λ r m' q p t.
          (ground (arith, get-remove s.pending_messages j id), mem-append_left (m' ∷ []) mem))

  push_message-Due :
      (id j : ℕ) (m : Message) (s s' : DataStore Cache Message)
      → push_message j s ≡ some s'
      → (j == id) ≡ false
      → Due id m s
      → Due id m s'
  push_message-Due id j m s s' e ne (d, one) =
      push_message_cases (Due id m) j s s' e
        (λ r q f. (d, ground (arith, get-insert s.message_requirements j id (decrement r))))
        (λ r m' q p t. (
          ground (arith, get-remove s.pending_messages j id),
          ground (
            arith,
            get-remove (insert j (decrement r) s.message_requirements) j id,
            get-insert s.message_requirements j id (decrement r),
          ),
        ))

  push_message-sends :
      (id : ℕ) (m : Message) (s s' : DataStore Cache Message)
      → push_message id s ≡ some s'
      → Due id m s
      → Gone id m s'
  push_message-sends id m s s' e (d, one) =
      push_message_cases (Gone id m) id s s' e (λ r q f. absurd (ground arith))
        (λ r m' q p t. (
          ground (arith, get-remove s.pending_messages id id),
          let same : m' ≡ m = ground arith in
              subst (λ x. Mem m (s.ready_messages ++ x ∷ [])) (sym same)
                (mem-append_right s.ready_messages mem-cons_self),
        ))

  -- The first round of a loop that succeeds.
  pub push_ids_first :
      (j : ℕ) (ids : List ℕ) (s s' : DataStore Cache Message)
      → push_ids (j ∷ ids) s ≡ some s'
      → (t : DataStore Cache Message) × (push_message j s ≡ some t) × (push_ids ids t ≡ some s')
  unfolding push_ids
  push_ids_first j ids s s' e = elim (Option-cases (push_message j s)) [
    | inl q ↦ absurd (ground arith)
    | inr (t, q) ↦ (t, q, ground arith)
  ]

  push_ids-Gone :
      (id : ℕ) (m : Message) (ids : List ℕ) (s s' : DataStore Cache Message)
      → push_ids ids s ≡ some s'
      → Gone id m s
      → Gone id m s'
  unfolding push_ids
  push_ids-Gone id m [] s s' e g = subst (Gone id m) (some_inj e) g
  push_ids-Gone id m (j ∷ ids) s s' e g =
      let (t, q, e') = push_ids_first j ids s s' e in
      push_ids-Gone id m ids t s' e' (push_message-Gone id j m s t q g)

  push_ids-sends :
      (id : ℕ) (m : Message) (ids : List ℕ) (s s' : DataStore Cache Message)
      → push_ids ids s ≡ some s'
      → contains ids id ≡ true
      → Due id m s
      → Gone id m s'
  unfolding contains
  push_ids-sends id m [] s s' e c d = absurd (ground arith)
  push_ids-sends id m (j ∷ ids) s s' e c d =
      let (t, q, e') = push_ids_first j ids s s' e in
      elim (Bool-cases (j == id)) [
        | inl hit ↦
            let same : j ≡ id = ground arith in
            push_ids-Gone id m ids t s' e'
              (push_message-sends id m s t (subst (λ k. push_message k s ≡ some t) same q) d)
        | inr ne ↦
            push_ids-sends id m ids t s' e' (ground arith) (push_message-Due id j m s t q ne d)
      ]

module _ {Message : Type 0} (lru : Lru AlephData) (included_blocks : Message → List AlephData)
    (IsAvailable : AlephData → Type 0) where
  -- A message that speaks of each block once, and waits for one block only, has requirement one.
  last_requirement :
      (s : DataStore lru.Cache Message) (id : ℕ) (m : Message) (b : AlephData)
      → Inv lru included_blocks IsAvailable s []
      → get s.pending_messages id ≡ some m
      → Distinct (included_blocks m)
      → waits s.dependent_messages b id ≡ true
      → ((c : AlephData) → waits s.dependent_messages c id ≡ true → c ≡ b)
      → get s.message_requirements id ≡ some 1
  unfolding contains
  last_requirement s id m b v p d w only =
      let c = v.counted id m p in
      let (m', p', within) = v.known b id w in
      let in_m : contains (included_blocks m) b ≡ true = ground arith in
      let split =
        count-without (λ x. waits s.dependent_messages x id) (dedup (included_blocks m)) b
          (dedup-Distinct (included_blocks m)) in
      let rest =
        count_none (without b (λ x. waits s.dependent_messages x id)) (dedup (included_blocks m))
          (λ x. ruled_out x) in
      ground (arith, c.stored, c.exact d, contains-dedup (included_blocks m) b)
    where
      ruled_out : (x : AlephData) → without b (λ x. waits s.dependent_messages x id) x ≡ false
      ruled_out x = elim (Bool-cases (waits s.dependent_messages x id)) [
        | inl t ↦ ground (arith, only x t, data_beq_iff b x)
        | inr f ↦ ground arith
      ]

  -- A pending message that speaks of each block once, and waits for the block `b` only, is sent
  -- when `b` is added: it leaves the pending messages, and is among those sent.
  pub add_block-sends :
      (s s' : DataStore lru.Cache Message) (id : ℕ) (m : Message) (b : AlephData)
      → Inv lru included_blocks IsAvailable s []
      → get s.pending_messages id ≡ some m
      → Distinct (included_blocks m)
      → waits s.dependent_messages b id ≡ true
      → ((c : AlephData) → waits s.dependent_messages c id ≡ true → c ≡ b)
      → add_block lru included_blocks b s ≡ some s'
      → (get s'.pending_messages id ≡ none) × Mem m s'.ready_messages
  unfolding add_block push_messages
  add_block-sends s s' id m b v p d w only e = elim (Option-cases (get s.dependent_messages b)) [
    | inl q ↦ absurd (ground (arith, waits-get s.dependent_messages b id q))
    | inr (ids, q) ↦
        push_ids-sends id m ids
          (record s {
            available_blocks = lru.put b s.available_blocks;
            dependent_messages = remove b s.dependent_messages;
          })
          s' (ground arith) (ground (arith, waits-get s.dependent_messages b id q))
          (p, last_requirement s id m b v p d w only)
  ]
