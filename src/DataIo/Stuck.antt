-- ===== src/DataIo/Stuck.antt =====
-- A message that names a block twice, in finality-aleph/src/data_io.rs: its requirement counts the
-- block twice, and the table of dependent messages lists it once.
use aleph_node.Common.{
  ℕ, ◌+◌, ◌<◌, ◌≡◌, refl, sym, subst, ◌∙◌, inl, inr, false, Option, some, some_inj, List, [], ◌∷◌,
  ◌>>=◌, nat_eq, ◌==◌, if◌then◌else◌, arith, contains, All, Distinct, length, Option-cases,
}
use aleph_node.Common.Count.{dedup, flag, count-le-length, length-dedup-lt}
use aleph_node.Common.Map.{get, insert, remove, get-insert, get-remove}
use aleph_node.Client.{Client}
use aleph_node.DataIo.{
  AlephData, data_eq, Lru, DataStore, decrement, push_message, push_ids, push_messages, add_block,
  is_available, requires, requirements_of, message_received, step, add_message, send_or_wait,
  add_dependents, add_pending_message, enroll, message_id_boundary,
}
use aleph_node.DataIo.Waits.{waits, waits-get}
use aleph_node.DataIo.Invariant.{outstanding, Inv}
use aleph_node.DataIo.Push.{outstanding-remove, add_block-Inv}
use aleph_node.DataIo.Run.{step-Serves}
use aleph_node.DataIo.Release.{push_message_cases, push_ids_first}

module _ {Message : Type 0} (lru : Lru AlephData) (included_blocks : Message → List AlephData) where
  abbrev S : Type 0
  S = DataStore lru.Cache Message

  abbrev I : S → Type 0
  I s = Inv lru included_blocks (λ _. Unit {0}) s []

  -- The message is pending, and its requirement exceeds the number of blocks that it waits for.
  record Surplus (id : ℕ) (m : Message) (todo : List ℕ) (s : S) : Type 0 where
    pending : get s.pending_messages id ≡ some m
    requirement : ℕ
    stored : get s.message_requirements id ≡ some requirement
    exceeds :
        outstanding s.dependent_messages id (included_blocks m) + flag (contains todo id)
        < requirement

  push_message-Surplus :
      (id j : ℕ) (m : Message) (todo : List ℕ) (s s' : S)
      → push_message j s ≡ some s'
      → contains todo j ≡ false
      → Surplus id m (j ∷ todo) s
      → Surplus id m todo s'
  unfolding contains
  push_message-Surplus id j m todo s s' e once p =
      push_message_cases (Surplus id m todo) j s s' e
        (λ r q f. record {
          pending = p.pending;
          requirement = if j == id then decrement r else p.requirement;
          stored = ground (arith, p.stored, get-insert s.message_requirements j id (decrement r));
          exceeds = ground (arith, p.stored, p.exceeds);
        })
        (λ r m' q q' f. record {
          pending =
              ground (arith, p.pending, p.stored, p.exceeds, get-remove s.pending_messages j id);
          requirement = p.requirement;
          stored = ground (
            arith,
            p.stored,
            p.exceeds,
            get-insert s.message_requirements j id (decrement r),
            get-remove (insert j (decrement r) s.message_requirements) j id,
          );
          exceeds = ground (arith, p.stored, p.exceeds);
        })

  push_ids-Surplus :
      (id : ℕ) (m : Message) (ids : List ℕ) (s s' : S)
      → push_ids ids s ≡ some s'
      → Distinct ids
      → Surplus id m ids s
      → Surplus id m [] s'
  unfolding push_ids
  push_ids-Surplus id m [] s s' e d p = subst (Surplus id m []) (some_inj e) p
  push_ids-Surplus id m (j ∷ ids) s s' e d p =
      let (t, q, e') = push_ids_first j ids s s' e in
      push_ids-Surplus id m ids t s' e' d.1 (push_message-Surplus id j m ids s t q d.0 p)

  add_block-Surplus :
      (id : ℕ) (m : Message) (b : AlephData) (s s' : S)
      → I s
      → add_block lru included_blocks b s ≡ some s'
      → Surplus id m [] s
      → Surplus id m [] s'
  unfolding add_block push_messages
  add_block-Surplus id m b s s' v e p = elim (Option-cases (get s.dependent_messages b)) [
    | inl q ↦ subst (Surplus id m []) (some_inj {a = cached} (ground arith)) (record {
      pending = p.pending;
      requirement = p.requirement;
      stored = p.stored;
      exceeds = p.exceeds;
    })
    | inr (ids, q) ↦
        push_ids-Surplus id m ids
          (record cached { dependent_messages = remove b s.dependent_messages }) s' (ground arith)
          (v.proper b ids q)
          (record {
            pending = p.pending;
            requirement = p.requirement;
            stored = p.stored;
            exceeds = omega (arith, p.exceeds, fewer ids q);
          })
  ]
    where
      cached : S
      cached = record s { available_blocks = lru.put b s.available_blocks }

      fewer :
          (ids : List ℕ)
          → get s.dependent_messages b ≡ some ids
          → outstanding (remove b s.dependent_messages) id (included_blocks m)
              + flag (contains ids id)
            ≡ outstanding s.dependent_messages id (included_blocks m)
      fewer ids q = outstanding-remove s.dependent_messages b ids id (included_blocks m) q (λ h.
          let (m', q', k) = v.known b id (rw (waits-get s.dependent_messages b id q) h) in
          ground (arith, p.pending))

  -- Import notifications, one after the other.
  pub add_blocks : List AlephData → S → Option S
  add_blocks [] s = some s
  add_blocks (b ∷ bs) s = do s' ← add_block lru included_blocks b s; add_blocks bs s'

  add_blocks-Surplus :
      (id : ℕ) (m : Message) (bs : List AlephData) (s : S)
      → I s
      → Surplus id m [] s
      → (s' : S) × (add_blocks bs s ≡ some s') × Surplus id m [] s'
  unfolding add_blocks
  add_blocks-Surplus id m [] s v p = (s, refl, p)
  add_blocks-Surplus id m (b ∷ bs) s v p =
      let (t, e, u) = add_block-Inv lru included_blocks (λ _. Unit {0}) b s tt v in
      let (s', e', p') = add_blocks-Surplus id m bs t u (add_block-Surplus id m b s t v e p) in
      (s', rw e e', p')

  -- The client does not have the block, and the cache does not know it.
  abbrev pub Missing : Client → S → AlephData → Type 0
  Missing client s b = (lru.contains s.available_blocks b ≡ false) × (is_available client b ≡ false)

  requirements_of-Missing :
      (client : Client) (bs : List AlephData) (s : S)
      → All (Missing client s) bs
      → requirements_of lru included_blocks client bs s ≡ some (bs, s)
  unfolding requirements_of requires
  requirements_of-Missing client [] s h = refl
  requirements_of-Missing client (b ∷ bs) s h =
      rw (h.0.0, h.0.1, requirements_of-Missing client bs s h.1)

  enroll-Surplus :
      (m : Message) (s : S)
      → ¬ Distinct (included_blocks m)
      → Surplus s.next_message_id m [] (enroll lru included_blocks m (included_blocks m) s)
  unfolding enroll contains
  enroll-Surplus m s twice =
      let id = s.next_message_id in
      let bs = included_blocks m in
      record {
        pending = ground (arith, get-insert s.pending_messages id id m);
        requirement = length bs;
        stored = ground (arith, get-insert s.message_requirements id id (length bs));
        exceeds = omega (
          arith,
          count-le-length (λ b. waits (add_dependents id bs s.dependent_messages) b id) (dedup bs),
          length-dedup-lt bs twice,
        );
      }

  add_message-Missing :
      (client : Client) (m : Message) (s : S)
      → All (Missing client s) (included_blocks m)
      → s.next_message_id < message_id_boundary
      → ¬ Distinct (included_blocks m)
      → (add_message lru included_blocks client m s
          ≡ some (enroll lru included_blocks m (included_blocks m) s))
  unfolding add_message add_pending_message
  add_message-Missing client m s missing below twice =
      rw (requirements_of-Missing client (included_blocks m) s missing)
        (nonempty (included_blocks m) twice)
    where
      nonempty :
          (bs : List AlephData)
          → ¬ Distinct bs
          → some (send_or_wait lru included_blocks m bs s)
            ≡ some (enroll lru included_blocks m bs s)
      nonempty [] twice = absurd (twice tt)
      nonempty (b ∷ bs) twice = ground arith

  -- A message that names some block twice, and none of whose blocks are known when it comes, is
  -- stuck: it becomes pending under the next id, and whatever blocks are imported afterwards, all of
  -- its own too, it is still pending. This is for the first 100,000 messages, in which
  -- no message is forgotten when another comes.
  pub duplicate-stuck :
      (client : Client) (m : Message) (s : S) (imported : List AlephData)
      → I s
      → ¬ Distinct (included_blocks m)
      → All (Missing client s) (included_blocks m)
      → s.next_message_id < message_id_boundary
      → (t : S) × (s' : S) × (add_message lru included_blocks client m s ≡ some t)
        × (add_blocks imported t ≡ some s')
        × (get s'.pending_messages s.next_message_id ≡ some m)
  unfolding step
  duplicate-stuck client m s imported v twice missing below =
      let e = add_message-Missing client m s missing below twice in
      let (t, e', u, _) =
        step-Serves lru included_blocks (λ _. Unit {0}) client (message_received m) s
          ((λ _ _. tt), tt) v (omega arith) in
      let same : enroll lru included_blocks m (included_blocks m) s ≡ t = some_inj (sym e ∙ e') in
      let (s', done, p) =
        add_blocks-Surplus s.next_message_id m imported
          (enroll lru included_blocks m (included_blocks m) s) (subst I (sym same) u)
          (enroll-Surplus m s twice) in
      (enroll lru included_blocks m (included_blocks m) s, s', e, done, p.pending)
