-- ===== src/Aggregator/Order.antt =====
-- The signed hashes of finality-aleph/src/aggregator.rs come in the order of the starts, each with a
-- signature of the multicast.
use aleph_node.Common.{
  ◌≡◌, refl, sym, ◌∙◌, ℕ, true, false, Option, none, some, List, [], ◌∷◌, ◌++◌, arith, append_assoc,
  append-nil, nat_eq, contains, contains-set_insert, contains-append, ◌==◌, All, Distinct,
  Bool-cases, Option-cases, inl, inr, some_inj, subst,
}
use aleph_node.Common.Map.{get, insert, remove, get-insert, get-remove, get-empty}
use aleph_node.Aggregator.{
  Aggregator, Event, multisigned_hash, message_from_rmc, message_from_network, Outcome, pending,
  panicked, returned, new, start_aggregation, ready, wait, next_multisigned_hash,
}

snoc-Distinct :
    (xs : List ℕ) (h : ℕ) → contains xs h ≡ false → Distinct xs → Distinct (xs ++ h ∷ [])
unfolding contains
snoc-Distinct [] h n d = (refl, tt)
snoc-Distinct (x ∷ xs) h n d = (
  unfold contains in ground (arith, contains-append xs (h ∷ []) x, d.0),
  snoc-Distinct xs h (ground arith) d.1,
)

-- The hash that an answer adds to what was returned.
abbrev pub answered {ℓ} : {Sig : Type ℓ} → Option (ℕ × Sig) → List ℕ
answered none = []
answered (some (h, s)) = h ∷ []

abbrev pub AnswerIsSigned : {Sig : Type 0} → (ℕ → Sig → Type 0) → Option (ℕ × Sig) → Type 0
AnswerIsSigned IsSigned none = Unit {0}
AnswerIsSigned IsSigned (some (h, s)) = IsSigned h s

module _ {Sig M : Type 0} (IsSigned : ℕ → Sig → Type 0) where
  -- What was returned so far, then the queue, is what the multicast was told to start, no hash twice;
  -- the set of started hashes has the same elements; and every stored signature is the multicast's.
  pub record Inv (out : List ℕ) (st : Aggregator Sig M) : Type 0 where
    pub order : out ++ st.hash_queue ≡ st.rmc_started
    pub distinct : Distinct st.rmc_started
    pub members : (h : ℕ) → contains st.started_hashes h ≡ contains st.rmc_started h
    pub signed : (h : ℕ) (s : Sig) → get st.signatures h ≡ some s → IsSigned h s

  pub new-Inv : Inv [] new
  unfolding new
  new-Inv = record {
    order = refl;
    distinct = tt;
    members = λ h. refl;
    signed = λ h s e. absurd (ground (arith, get-empty {V = Sig} h));
  }

  pub start_aggregation-Inv :
      (out : List ℕ) (h : ℕ) (st : Aggregator Sig M) → Inv out st → Inv out (start_aggregation h st)
  unfolding start_aggregation
  start_aggregation-Inv out h st v = elim (Bool-cases (contains st.started_hashes h)) [
    | inl t ↦ rw t v
    | inr f ↦ rw f (record {
      order = rw (sym (append_assoc out st.hash_queue (h ∷ [])), v.order);
      distinct = snoc-Distinct st.rmc_started h (sym (v.members h) ∙ f) v.distinct;
      members = λ g.
          unfold contains in
          ground (
            arith,
            contains-set_insert h g st.started_hashes,
            contains-append st.rmc_started (h ∷ []) g,
            v.members g,
          );
      signed = v.signed;
    })
  ]

  -- After an outcome, for the hashes that were returned before it.
  abbrev pub OutcomeInv : List ℕ → Outcome Sig M → Type 0
  OutcomeInv out (pending st) = Inv out st
  OutcomeInv out panicked = Unit {0}
  OutcomeInv out (returned answer st es) =
      Inv (out ++ answered answer) st × AnswerIsSigned IsSigned answer

  -- An event is honest if a multisigned hash has a signature for it.
  abbrev pub IsHonest : Event Sig M → Type 0
  IsHonest (multisigned_hash h s) = IsSigned h s
  IsHonest _ = Unit {0}

  ready-Inv :
      (out : List ℕ) (queue : List ℕ) (st st' : Aggregator Sig M) (a : Option (ℕ × Sig))
      → queue ≡ st.hash_queue
      → ready queue st ≡ some (a, st')
      → Inv out st
      → Inv (out ++ answered a) st' × AnswerIsSigned IsSigned a
  unfolding ready
  ready-Inv out [] st st' a q e v = elim (Bool-cases st.last_hash_placed) [
    | inr f ↦ absurd (ground arith)
    | inl t ↦ subst Answer {x = (none, st)} (some_inj (ground arith)) (rw (append-nil out) v, tt)
  ]
    where
      Answer : Option (ℕ × Sig) × Aggregator Sig M → Type 0
      Answer p = Inv (out ++ answered p.0) p.1 × AnswerIsSigned IsSigned p.0
  ready-Inv out (h ∷ queue) st st' a q e v = elim (Option-cases (get st.signatures h)) [
    | inl n ↦ absurd (ground arith)
    | inr (s, g) ↦
        subst Answer
          {x = (some (h, s), record st { signatures = remove h st.signatures; hash_queue = queue })}
          (some_inj (ground arith))
          (
            record {
              order = rw (append_assoc out (h ∷ []) queue, q, v.order);
              distinct = v.distinct;
              members = v.members;
              signed = λ h' s' e'. v.signed h' s' (ground (arith, get-remove st.signatures h h'));
            },
            v.signed h s g,
          )
  ]
    where
      Answer : Option (ℕ × Sig) × Aggregator Sig M → Type 0
      Answer p = Inv (out ++ answered p.0) p.1 × AnswerIsSigned IsSigned p.0

  messages-Inv :
      (out : List ℕ) (st : Aggregator Sig M) (sent fed : List M)
      → Inv out st
      → Inv out (record st { sent = sent; messages_for_rmc = fed })
  messages-Inv out st sent fed v = record {
    order = v.order;
    distinct = v.distinct;
    members = v.members;
    signed = v.signed;
  }

  signature-Inv :
      (out : List ℕ) (st : Aggregator Sig M) (g : ℕ) (s : Sig)
      → IsSigned g s
      → Inv out st
      → Inv out (record st { signatures = insert g s st.signatures })
  signature-Inv out st g s ok v = record {
    order = v.order;
    distinct = v.distinct;
    members = v.members;
    signed = λ h s' e. elim (Bool-cases (g == h)) [
      | inl t ↦
          let a : g ≡ h = ground arith in
          let b : s ≡ s' = ground (arith, get-insert st.signatures g h s) in
          subst (λ x. IsSigned x s') a (subst (IsSigned g) b ok)
      | inr f ↦ v.signed h s' (ground (arith, get-insert st.signatures g h s))
    ];
  }

  wait-Inv :
      (out : List ℕ) (es : List (Event Sig M)) (st : Aggregator Sig M)
      → All IsHonest es
      → Inv out st
      → OutcomeInv out (wait es st)
  unfolding wait
  wait-Inv out [] st h v = v
  wait-Inv out (multisigned_hash g s ∷ es) st h v =
      let st' : Aggregator Sig M = record st { signatures = insert g s st.signatures } in
      let v' = signature-Inv out st g s h.0 v in
      elim (Option-cases (ready st'.hash_queue st')) [
        | inl n ↦
            subst (OutcomeInv out) {x = wait es st'} (ground arith) (wait-Inv out es st' h.1 v')
        | inr ((a, st''), n) ↦
            subst (OutcomeInv out) {x = returned a st'' es} (ground arith)
              (ready-Inv out st'.hash_queue st' st'' a refl n v')
      ]
  wait-Inv out (message_from_rmc (some m) true ∷ es) st h v =
      wait-Inv out es _ h.1 (messages-Inv out st _ _ v)
  wait-Inv out (message_from_rmc (some m) false ∷ es) st h v = tt
  wait-Inv out (message_from_rmc none accepted ∷ es) st h v = wait-Inv out es st h.1 v
  wait-Inv out (message_from_network (some m) ∷ es) st h v =
      wait-Inv out es _ h.1 (messages-Inv out st _ _ v)
  wait-Inv out (message_from_network none ∷ es) st h v = (rw (append-nil out) v, tt)

  -- What `next_multisigned_hash` returns keeps the order of the starts, and comes with a signature
  -- for it, if the multicast's signatures are.
  pub next_multisigned_hash-Inv :
      (out : List ℕ) (es : List (Event Sig M)) (st : Aggregator Sig M)
      → All IsHonest es
      → Inv out st
      → OutcomeInv out (next_multisigned_hash es st)
  unfolding next_multisigned_hash
  next_multisigned_hash-Inv out es st h v = elim (Option-cases (ready st.hash_queue st)) [
    | inl n ↦ subst (OutcomeInv out) {x = wait es st} (ground arith) (wait-Inv out es st h v)
    | inr ((a, st'), n) ↦
        subst (OutcomeInv out) {x = returned a st' es} (ground arith)
          (ready-Inv out st.hash_queue st st' a refl n v)
  ]
