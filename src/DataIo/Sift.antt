-- ===== src/DataIo/Sift.antt =====
-- `requirements_of` in the data store of finality-aleph/src/data_io.rs: which blocks a message waits
-- for, and what is kept while they are looked up.
use aleph_node.Common.{
  ℕ, ◌≡◌, refl, subst, ◌∙◌, ◌⊎◌, inl, inr, Bool, true, false, some, List, [], ◌∷◌, nat_eq, ◌==◌,
  arith, contains, All, All-mono, Distinct, Bool-cases, Option-cases,
}
use aleph_node.Common.Map.{get, remove}
use aleph_node.Client.{Client}
use aleph_node.DataIo.{
  AlephData, data_eq, data_beq_iff, Lru, DataStore, push_message, send_if_ready, push_ids,
  push_messages, add_block, is_available, requires, requirements_of, keep_if,
}
use aleph_node.DataIo.Invariant.{Inv}
use aleph_node.DataIo.Push.{add_block-Inv}
use aleph_node.DataIo.Enroll.{All-contains}

module _ {Cache Message : Type 0} where
  push_message-next :
      (id : ℕ) (s s' : DataStore Cache Message)
      → push_message id s ≡ some s'
      → s'.next_message_id ≡ s.next_message_id
  unfolding push_message send_if_ready
  push_message-next id s s' e = ground arith

  push_ids-next :
      (ids : List ℕ) (s s' : DataStore Cache Message)
      → push_ids ids s ≡ some s'
      → s'.next_message_id ≡ s.next_message_id
  unfolding push_ids
  push_ids-next [] s s' e = ground arith
  push_ids-next (id ∷ ids) s s' e = elim (Option-cases (push_message id s)) [
    | inl q ↦ absurd (ground arith)
    | inr (t, q) ↦ push_ids-next ids t s' (ground arith) ∙ push_message-next id s t q
  ]

  push_messages-next :
      (b : AlephData) (s s' : DataStore Cache Message)
      → push_messages b s ≡ some s'
      → s'.next_message_id ≡ s.next_message_id
  unfolding push_messages
  push_messages-next b s s' e = elim (Option-cases (get s.dependent_messages b)) [
    | inl q ↦ ground arith
    | inr (ids, q) ↦
        push_ids-next ids (record s { dependent_messages = remove b s.dependent_messages }) s'
          (ground arith)
  ]

module _ {Message : Type 0} (lru : Lru AlephData) (included_blocks : Message → List AlephData)
    (IsAvailable : AlephData → Type 0) where
  abbrev S : Type 0
  S = DataStore lru.Cache Message

  abbrev I : S → Type 0
  I s = Inv lru included_blocks IsAvailable s []

  pub add_block-next :
      (b : AlephData) (s s' : S)
      → add_block lru included_blocks b s ≡ some s'
      → s'.next_message_id ≡ s.next_message_id
  unfolding add_block
  add_block-next b s s' e =
      push_messages-next b (record s { available_blocks = lru.put b s.available_blocks }) s' e

  -- What the client calls available is.
  abbrev pub IsSound : Client → Type 0
  IsSound client = (b : AlephData) → is_available client b ≡ true → IsAvailable b

  pub record Sifted (bs : List AlephData) (s : S) (rs : List AlephData) (s' : S) : Type 0 where
    pub inv : I s'
    pub same_next : s'.next_message_id ≡ s.next_message_id
    pub within : All (λ b. contains bs b ≡ true) rs
    pub rest : (b : AlephData) → contains bs b ≡ true → IsAvailable b ⊎ (contains rs b ≡ true)
    pub once : Distinct bs → Distinct rs

  record Judged (b : AlephData) (s : S) (needed : Bool) (s' : S) : Type 0 where
    inv : I s'
    same_next : s'.next_message_id ≡ s.next_message_id
    available : needed ≡ false → IsAvailable b

  requires-Inv :
      (client : Client) (b : AlephData) (s : S)
      → IsSound client
      → I s
      → (needed : Bool) × (s' : S) × (requires lru included_blocks client b s ≡ some (needed, s'))
        × Judged b s needed s'
  unfolding requires
  requires-Inv client b s sound v = elim (Bool-cases (lru.contains s.available_blocks b)) [
    | inl hit ↦
        (false, s, rw hit, record { inv = v; same_next = refl; available = λ _. v.cached b hit })
    | inr miss ↦ elim (Bool-cases (is_available client b)) [
      | inl got ↦
          let (s', e, v') = add_block-Inv lru included_blocks IsAvailable b s (sound b got) v in
          (
            false,
            s',
            rw (miss, got, e),
            record { inv = v'; same_next = add_block-next b s s' e; available = λ _. sound b got },
          )
      | inr lost ↦ (
        true,
        s,
        rw (miss, lost),
        record { inv = v; same_next = refl; available = λ h. absurd (ground arith) },
      )
    ]
  ]

  Sifted-nil : (s : S) → I s → Sifted [] s [] s
  unfolding contains
  Sifted-nil s v = record {
    inv = v;
    same_next = refl;
    within = tt;
    rest = λ b h. absurd (ground arith);
    once = λ d. tt;
  }

  within_cons :
      (b : AlephData) (bs rs : List AlephData)
      → All (λ c. contains bs c ≡ true) rs
      → All (λ c. contains (b ∷ bs) c ≡ true) rs
  unfolding contains
  within_cons b bs = All-mono (λ c h. ground arith)

  Sifted-cons :
      (b : AlephData) (bs : List AlephData) (s : S) (needed : Bool) (s' : S) (rs : List AlephData)
      (s'' : S)
      → Judged b s needed s'
      → Sifted bs s' rs s''
      → Sifted (b ∷ bs) s (keep_if needed b rs) s''
  unfolding contains
  Sifted-cons b bs s true s' rs s'' j f = record {
    inv = f.inv;
    same_next = f.same_next ∙ j.same_next;
    within = (ground (arith, data_beq_iff b b), within_cons b bs rs f.within);
    rest = λ c h. elim (Bool-cases (b == c)) [
      | inl t ↦ inr (ground arith)
      | inr ne ↦ elim (f.rest c (ground arith)) [ inl a ↦ inl a | inr r ↦ inr (ground arith) ]
    ];
    once = λ d. (
      elim (Bool-cases (contains rs b)) [
        | inl t ↦
            let within_bs = All-contains lru included_blocks IsAvailable bs rs b f.within t in
            absurd (ground (arith, d.0))
        | inr e ↦ e
      ],
      f.once d.1,
    );
  }
  Sifted-cons b bs s false s' rs s'' j f = record {
    inv = f.inv;
    same_next = f.same_next ∙ j.same_next;
    within = within_cons b bs rs f.within;
    rest = λ c h. elim (Bool-cases (b == c)) [
      | inl t ↦ inl (subst IsAvailable ((data_beq_iff b c).0 t) (j.available refl))
      | inr ne ↦ f.rest c (ground arith)
    ];
    once = λ d. f.once d.1;
  }

  pub requirements_of-Sifted :
      (client : Client) (bs : List AlephData) (s : S)
      → IsSound client
      → I s
      → (rs : List AlephData) × (s' : S) × (requirements_of lru included_blocks client bs s
          ≡ some (rs, s'))
        × Sifted bs s rs s'
  unfolding requirements_of
  requirements_of-Sifted client [] s sound v = ([], s, refl, Sifted-nil s v)
  requirements_of-Sifted client (b ∷ bs) s sound v =
      let (needed, s', e, j) = requires-Inv client b s sound v in
      let (rs, s'', e', f) = requirements_of-Sifted client bs s' sound j.inv in
      (keep_if needed b rs, s'', rw (e, e'), Sifted-cons b bs s needed s' rs s'' j f)
