-- ===== src/DataIo/Only.antt =====
-- The data store of finality-aleph/src/data_io.rs makes up no messages: it keeps and sends only those
-- that it has received.
use aleph_node.Common.{
  ℕ, ◌≡◌, inl, inr, Bool, some, some_inj, subst, List, [], ◌∷◌, nat_eq, nat_beq, leb, arith, All,
  All-append, Bool-cases, Option-cases, bind_some,
}
use aleph_node.Common.Map.{get, get-insert, get-remove, get-empty}
use aleph_node.Client.{Client}
use aleph_node.DataIo.{
  AlephData, data_eq, Lru, DataStore, decrement, is_available, send_if_ready, push_message,
  push_ids, push_messages, new, forget_message, enroll, add_pending_message, add_block, requires,
  requirements_of, send_or_wait, message_id_boundary, add_message, add_available, maintain, Event,
  message_received, block_imported, maintenance_timeout, step, run,
}

module _ {Message : Type 0} (lru : Lru AlephData) (included_blocks : Message → List AlephData)
    (P : Message → Type 0) where
  abbrev S : Type 0
  S = DataStore lru.Cache Message

  -- The messages that were sent and those that wait all have the property.
  pub record Only (s : S) : Type 0 where
    pub ready : All P s.ready_messages
    pub pending : (id : ℕ) (m : Message) → get s.pending_messages id ≡ some m → P m

  send_if_ready-Only : (id r : ℕ) (s s' : S) → send_if_ready id r s ≡ some s' → Only s → Only s'
  unfolding send_if_ready
  send_if_ready-Only id r s s' e v = elim (Bool-cases (nat_beq r 0)) [
    | inr f ↦ subst Only (some_inj (rw f at e)) v
    | inl t ↦ elim (Option-cases (get s.pending_messages id)) [
      | inl n ↦ absurd (ground arith)
      | inr (m, q) ↦ subst Only (some_inj (rw (t, q) at e)) (record {
        ready = All-append P s.ready_messages (m ∷ []) v.ready (v.pending id m q, tt);
        pending = λ j m' h. v.pending j m' (ground (arith, get-remove s.pending_messages id j));
      })
    ]
  ]

  push_message-Only : (id : ℕ) (s s' : S) → push_message id s ≡ some s' → Only s → Only s'
  unfolding push_message
  push_message-Only id s s' e v =
      let (r, (_, f)) = bind_some (get s.message_requirements id) _ s' e in
      send_if_ready-Only id (decrement r) _ s' f (record { ready = v.ready; pending = v.pending })

  push_ids-Only : (ids : List ℕ) (s s' : S) → push_ids ids s ≡ some s' → Only s → Only s'
  unfolding push_ids
  push_ids-Only [] s s' e v = subst Only (some_inj e) v
  push_ids-Only (id ∷ ids) s s' e v =
      let (t, (q, f)) = bind_some (push_message id s) _ s' e in
      push_ids-Only ids t s' f (push_message-Only id s t q v)

  push_messages-Only : (b : AlephData) (s s' : S) → push_messages b s ≡ some s' → Only s → Only s'
  unfolding push_messages
  push_messages-Only b s s' e v = elim (Option-cases (get s.dependent_messages b)) [
    | inl n ↦ subst Only (some_inj (rw (n, push_messages) at e)) v
    | inr (ids, n) ↦
        push_ids-Only ids _ s' (rw (n, push_messages) at e)
          (record { ready = v.ready; pending = v.pending })
  ]

  add_block-Only :
      (b : AlephData) (s s' : S) → add_block lru included_blocks b s ≡ some s' → Only s → Only s'
  unfolding add_block
  add_block-Only b s s' e v =
      push_messages-Only b _ s' e (record { ready = v.ready; pending = v.pending })

  requires-Only :
      (client : Client) (b : AlephData) (s s' : S) (needed : Bool)
      → requires lru included_blocks client b s ≡ some (needed, s')
      → Only s
      → Only s'
  unfolding requires
  requires-Only client b s s' needed e v = elim (Bool-cases (lru.contains s.available_blocks b)) [
    | inl t ↦ subst Only (ground arith) v
    | inr f ↦ elim (Bool-cases (is_available client b)) [
      | inr g ↦ subst Only (ground arith) v
      | inl g ↦
          let (t, (q, h)) =
            bind_some (add_block lru included_blocks b s) _ (needed, s') (rw (f, g) at e) in
          subst Only (ground (arith, h)) (add_block-Only b s t q v)
    ]
  ]

  requirements_of-Only :
      (client : Client) (bs : List AlephData) (s s' : S) (rs : List AlephData)
      → requirements_of lru included_blocks client bs s ≡ some (rs, s')
      → Only s
      → Only s'
  unfolding requirements_of
  requirements_of-Only client [] s s' rs e v = subst Only (ground arith) v
  requirements_of-Only client (b ∷ bs) s s' rs e v =
      let ((needed, t), (q, f)) =
        bind_some (requires lru included_blocks client b s) _ (rs, s') e in
      let ((more, u), (q', g)) =
        bind_some (requirements_of lru included_blocks client bs t) _ (rs, s') f in
      subst Only (ground (arith, g))
        (requirements_of-Only client bs t u more q' (requires-Only client b s t needed q v))

  forget_message-Only : (id : ℕ) (s : S) → Only s → Only (forget_message lru included_blocks id s)
  unfolding forget_message
  forget_message-Only id s v = elim (Option-cases (get s.pending_messages id)) [
    | inl n ↦ rw (n, forget_message) (record { ready = v.ready; pending = v.pending })
    | inr (m, n) ↦
        rw (n, forget_message)
          (record {
            ready = v.ready;
            pending = λ j m' h. v.pending j m' (ground (arith, get-remove s.pending_messages id j));
          })
  ]

  enroll-Only :
      (m : Message) (rs : List AlephData) (s : S)
      → P m
      → Only s
      → Only (enroll lru included_blocks m rs s)
  unfolding enroll
  enroll-Only m rs s p v = record {
    ready = v.ready;
    pending = λ j m' h. elim (Bool-cases (nat_beq s.next_message_id j)) [
      | inl t ↦ subst P (ground (arith, get-insert s.pending_messages s.next_message_id j m)) p
      | inr f ↦ v.pending j m' (ground (arith, get-insert s.pending_messages s.next_message_id j m))
    ];
  }

  send_or_wait-Only :
      (m : Message) (rs : List AlephData) (s : S)
      → P m
      → Only s
      → Only (send_or_wait lru included_blocks m rs s)
  unfolding add_pending_message
  send_or_wait-Only m [] s p v = record {
    ready = All-append P s.ready_messages (m ∷ []) v.ready (p, tt);
    pending = v.pending;
  }
  send_or_wait-Only m (r ∷ rs) s p v =
      elim (Bool-cases (leb message_id_boundary s.next_message_id)) [
        | inl t ↦ rw t (forget_message-Only _ _ (enroll-Only m (r ∷ rs) s p v))
        | inr f ↦ rw f (enroll-Only m (r ∷ rs) s p v)
      ]

  add_available-Only :
      (client : Client) (bs : List AlephData) (s s' : S)
      → add_available lru included_blocks client bs s ≡ some s'
      → Only s
      → Only s'
  unfolding add_available
  add_available-Only client [] s s' e v = subst Only (some_inj e) v
  add_available-Only client (b ∷ bs) s s' e v = elim (Bool-cases (is_available client b)) [
    | inr f ↦ add_available-Only client bs s s' (rw (f, add_available) at e) v
    | inl a ↦
        let (t, (q, f)) =
          bind_some (add_block lru included_blocks b s) _ s' (rw (a, add_available) at e) in
        add_available-Only client bs t s' f (add_block-Only b s t q v)
  ]

  -- A message that an event brings has the property.
  abbrev pub Brings : Client × Event lru included_blocks → Type 0
  Brings (client, message_received m) = P m
  Brings (client, block_imported b) = Unit {0}
  Brings (client, maintenance_timeout) = Unit {0}

  step-Only :
      (client : Client) (event : Event lru included_blocks) (s s' : S)
      → Brings (client, event)
      → step lru included_blocks client event s ≡ some s'
      → Only s
      → Only s'
  unfolding step add_message maintain
  step-Only client (message_received m) s s' p e v =
      let ((rs, t), (q, f)) =
        bind_some (requirements_of lru included_blocks client (included_blocks m) s) _ s' e in
      subst Only (some_inj f)
        (send_or_wait-Only m rs t p (requirements_of-Only client (included_blocks m) s t rs q v))
  step-Only client (block_imported b) s s' p e v = add_block-Only b s s' e v
  step-Only client maintenance_timeout s s' p e v = add_available-Only client _ s s' e v

  run-Only :
      (events : List (Client × Event lru included_blocks)) (s s' : S)
      → All Brings events
      → run lru included_blocks events s ≡ some s'
      → Only s
      → Only s'
  unfolding run
  run-Only [] s s' p e v = subst Only (some_inj e) v
  run-Only ((client, event) ∷ events) s s' p e v =
      let (t, (q, f)) = bind_some (step lru included_blocks client event s) _ s' e in
      run-Only events t s' p.1 f (step-Only client event s t p.0 q v)

  -- Whatever property all received messages have, the messages which the data store has sent and
  -- which it keeps have it as well.
  pub run-new-Only :
      (events : List (Client × Event lru included_blocks)) (s : S)
      → All Brings events
      → run lru included_blocks events (new lru included_blocks) ≡ some s
      → Only s
  unfolding new
  run-new-Only events s p e = run-Only events (new lru included_blocks) s p e (record {
    ready = tt;
    pending = λ id m h. absurd (ground (arith, get-empty {V = Message} id));
  })
