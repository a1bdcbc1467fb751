-- ===== src/DataIo/Run.antt =====
-- The data store of finality-aleph/src/data_io.rs over any run: it never panics, and what it sends
-- is available.
use aleph_node.Common.{
  ℕ, ◌+◌, ◌^◌, ◌≤◌, ◌<◌, ◌≡◌, refl, ◌∙◌, inl, inr, Option, some, List, [], ◌∷◌, nat_eq, arith,
  length, contains, All, All-append, Bool-cases,
}
use aleph_node.Common.Map.{keys, iter, get-empty}
use aleph_node.Client.{Client}
use aleph_node.DataIo.{
  AlephData, data_eq, Lru, DataStore, is_available, add_message, send_or_wait, add_pending_message,
  enroll, forget_message, add_available, maintain, Event, message_received, block_imported,
  maintenance_timeout, step, run, new,
}
use aleph_node.DataIo.Waits.{waits}
use aleph_node.DataIo.Invariant.{Inv, Ready}
use aleph_node.DataIo.Push.{add_block-Inv}
use aleph_node.DataIo.Enroll.{add_pending_message-Inv}
use aleph_node.DataIo.Sift.{add_block-next, IsSound, Sifted, requirements_of-Sifted}

module _ {Message : Type 0} (lru : Lru AlephData) (included_blocks : Message → List AlephData)
    (IsAvailable : AlephData → Type 0) where
  abbrev S : Type 0
  S = DataStore lru.Cache Message

  abbrev I : S → Type 0
  I s = Inv lru included_blocks IsAvailable s []

  -- One operation that succeeds keeps the invariant and uses one message id at most.
  abbrev pub Serves : S → Option S → Type 0
  Serves s r = (s' : S) × (r ≡ some s') × I s' × (s'.next_message_id ≤ s.next_message_id + 1)

  send_or_wait-Inv :
      (m : Message) (s s' : S) (rs : List AlephData)
      → Sifted lru included_blocks IsAvailable (included_blocks m) s rs s'
      → s.next_message_id + 1 < 2 ^ 64
      → I (send_or_wait lru included_blocks m rs s')
  unfolding contains
  send_or_wait-Inv m s s' [] f small = record {
    proper = f.inv.proper;
    known = f.inv.known;
    todo_known = f.inv.todo_known;
    counted = λ j m' q.
        let c = f.inv.counted j m' q in
        record {
          requirement = c.requirement;
          stored = c.stored;
          positive = c.positive;
          bounded = c.bounded;
          exact = c.exact;
        };
    matched = f.inv.matched;
    fresh = f.inv.fresh;
    covered = f.inv.covered;
    cached = f.inv.cached;
    sent =
        All-append (Ready lru included_blocks IsAvailable) s'.ready_messages (m ∷ []) f.inv.sent
          ((λ b h. elim (f.rest b h) [ inl a ↦ a | inr bad ↦ absurd (ground arith) ]), tt);
  }
  send_or_wait-Inv m s s' (r ∷ rs) f small =
      add_pending_message-Inv lru included_blocks IsAvailable s' f.inv m (r ∷ rs)
        (record { some_left = omega arith; within = f.within; rest = f.rest; once = f.once })
        (omega (arith, f.same_next))

  send_or_wait-next :
      (m : Message) (rs : List AlephData) (s : S)
      → s.next_message_id + 1 < 2 ^ 64
      → (send_or_wait lru included_blocks m rs s).next_message_id ≤ s.next_message_id + 1
  unfolding add_pending_message enroll forget_message
  send_or_wait-next m [] s small = omega arith
  send_or_wait-next m (r ∷ rs) s small = ground arith

  add_message-Serves :
      (client : Client) (m : Message) (s : S)
      → IsSound lru included_blocks IsAvailable client
      → I s
      → s.next_message_id + 1 < 2 ^ 64
      → Serves s (add_message lru included_blocks client m s)
  unfolding add_message
  add_message-Serves client m s sound v small =
      let (rs, s', e, f) =
        requirements_of-Sifted lru included_blocks IsAvailable client (included_blocks m) s sound
          v in
      (
        send_or_wait lru included_blocks m rs s',
        rw e,
        send_or_wait-Inv m s s' rs f small,
        omega (arith, f.same_next, send_or_wait-next m rs s'),
      )

  add_available-Serves :
      (client : Client) (bs : List AlephData) (s : S)
      → IsSound lru included_blocks IsAvailable client
      → I s
      → (s' : S) × (add_available lru included_blocks client bs s ≡ some s')
        × I s'
        × (s'.next_message_id ≡ s.next_message_id)
  unfolding add_available
  add_available-Serves client [] s sound v = (s, refl, v, refl)
  add_available-Serves client (b ∷ bs) s sound v = elim (Bool-cases (is_available client b)) [
    | inl got ↦
        let (t, e, u) = add_block-Inv lru included_blocks IsAvailable b s (sound b got) v in
        let (s', e', v', n) = add_available-Serves client bs t sound u in
        (s', rw (got, e, e'), v', n ∙ add_block-next lru included_blocks IsAvailable b s t e)
    | inr lost ↦
        let (s', e', v', n) = add_available-Serves client bs s sound v in (s', rw (lost, e'), v', n)
  ]

  -- An event whose client is sound, and that reports an imported block only if it is available.
  abbrev pub IsSoundEvent : Client × Event lru included_blocks → Type 0
  IsSoundEvent (client, message_received m) =
      IsSound lru included_blocks IsAvailable client × Unit {0}
  IsSoundEvent (client, block_imported b) =
      IsSound lru included_blocks IsAvailable client × IsAvailable b
  IsSoundEvent (client, maintenance_timeout) =
      IsSound lru included_blocks IsAvailable client × Unit {0}

  pub step-Serves :
      (client : Client) (event : Event lru included_blocks) (s : S)
      → IsSoundEvent (client, event)
      → I s
      → s.next_message_id + 1 < 2 ^ 64
      → Serves s (step lru included_blocks client event s)
  unfolding step maintain
  step-Serves client (message_received m) s sound v small =
      add_message-Serves client m s sound.0 v small
  step-Serves client (block_imported b) s sound v small =
      let (s', e, v') = add_block-Inv lru included_blocks IsAvailable b s sound.1 v in
      (s', e, v', omega (arith, add_block-next lru included_blocks IsAvailable b s s' e))
  step-Serves client maintenance_timeout s sound v small =
      let (s', e, v', n) =
        add_available-Serves client (keys (iter s.dependent_messages)) s sound.0 v in
      (s', e, v', omega (arith, n))

  run-Inv :
      (events : List (Client × Event lru included_blocks)) (s : S)
      → All IsSoundEvent events
      → I s
      → s.next_message_id + length events < 2 ^ 64
      → (s' : S) × (run lru included_blocks events s ≡ some s') × I s'
  unfolding run
  run-Inv [] s sound v small = (s, refl, v)
  run-Inv ((client, event) ∷ events) s sound v small =
      let (t, e, u, n) = step-Serves client event s sound.0 v (omega arith) in
      rw e (run-Inv events t sound.1 u (omega arith))

  pub new-Inv : I (new lru included_blocks)
  unfolding new waits contains
  new-Inv = record {
    proper = λ b ids e. absurd (ground (arith, get-empty {V = List ℕ} b));
    known = λ b id w. absurd (ground (arith, get-empty {V = List ℕ} b));
    todo_known = λ id h. absurd (ground arith);
    counted = λ id m q. absurd (ground (arith, get-empty {V = Message} id));
    matched = λ id q. get-empty id;
    fresh = λ id m q. absurd (ground (arith, get-empty {V = Message} id));
    covered = λ id m b q h. absurd (ground (arith, get-empty {V = Message} id));
    cached = λ b h. absurd (ground (arith, lru.contains-new 1000 b));
    sent = tt;
  }

  -- Whatever messages, imports and timeouts come in whatever order, fewer than 2 ^ 64 of them, the
  -- data store meets no missing entry, and the state that it reaches satisfies the invariant: each
  -- pending message has a positive requirement, no lower than the number of its blocks that it
  -- waits for, each block of a pending message is available or waited for, and each message that
  -- was sent has available blocks only. This holds for every property `IsAvailable` that the
  -- blocks have which the events and their clients report.
  pub run-new-Inv :
      (events : List (Client × Event lru included_blocks))
      → All IsSoundEvent events
      → length events < 2 ^ 64
      → (s : S) × (run lru included_blocks events (new lru included_blocks) ≡ some s) × I s
  unfolding new
  run-new-Inv events sound small =
      run-Inv events (new lru included_blocks) sound new-Inv (omega arith)
