-- ===== src/Aggregator/Wait.antt =====
-- When `next_multisigned_hash` of finality-aleph/src/aggregator.rs returns.
use aleph_node.Common.{
  ◌≡◌, ◌≢◌, refl, inl, inr, ℕ, Bool, true, false, Option, none, some, List, [], ◌∷◌, ◌++◌, arith,
  nat_eq, All, Option-cases, subst,
}
use aleph_node.Common.Map.{get, insert, remove, get-insert}
use aleph_node.Aggregator.{
  Aggregator, Event, multisigned_hash, message_from_rmc, message_from_network, Outcome, pending,
  panicked, returned, ready, wait, next_multisigned_hash,
}

module _ {Sig M : Type 0} where
  -- An event that neither ends the wait nor panics: the network is open and takes what it is sent.
  abbrev pub IsOpen : Event Sig M → Type 0
  IsOpen (message_from_rmc (some m) false) = ⊥
  IsOpen (message_from_network none) = ⊥
  IsOpen _ = Unit {0}

  abbrev pub Returns : ℕ → Outcome Sig M → Type 0
  Returns hash o =
      (s : Sig) × (st : Aggregator Sig M) × (rest : List (Event Sig M)) × (o
        ≡ returned (some (hash, s)) st rest)

  -- The state after the front of the queue was returned.
  abbrev taken : ℕ → List ℕ → Aggregator Sig M → Aggregator Sig M
  taken hash queue st = record st { signatures = remove hash st.signatures; hash_queue = queue }

  wait-front :
      (hash : ℕ) (queue : List ℕ) (s : Sig) (before after : List (Event Sig M))
      (st : Aggregator Sig M)
      → st.hash_queue ≡ hash ∷ queue
      → All IsOpen before
      → Returns hash (wait (before ++ multisigned_hash hash s ∷ after) st)
  unfolding wait ready
  wait-front hash queue s [] after st q h = (
    s,
    taken hash queue (record st { signatures = insert hash s st.signatures }),
    after,
    ground (arith, get-insert st.signatures hash hash s),
  )
  wait-front hash queue s (multisigned_hash g s' ∷ es) after st q h =
      let st' : Aggregator Sig M = record st { signatures = insert g s' st.signatures } in
      elim (Option-cases (get st'.signatures hash)) [
        | inl n ↦
            let r = wait-front hash queue s es after st' q h.1 in
            (r.0, r.1, r.2, ground (arith, r.3))
        | inr (s'', n) ↦
            (s'', taken hash queue st', es ++ multisigned_hash hash s ∷ after, ground arith)
      ]
  wait-front hash queue s (message_from_rmc (some m) true ∷ es) after st q h =
      wait-front hash queue s es after _ q h.1
  wait-front hash queue s (message_from_rmc (some m) false ∷ es) after st q h = absurd h.0
  wait-front hash queue s (message_from_rmc none accepted ∷ es) after st q h =
      wait-front hash queue s es after st q h.1
  wait-front hash queue s (message_from_network (some m) ∷ es) after st q h =
      wait-front hash queue s es after _ q h.1
  wait-front hash queue s (message_from_network none ∷ es) after st q h = absurd h.0

  -- The next hash in the order of the starts is returned once the multicast has signed it, whatever
  -- other hashes it has signed before and whatever messages went through, if the network is open
  -- until then: the wait does not end without it, nor with another hash.
  pub next_multisigned_hash-front :
      (hash : ℕ) (queue : List ℕ) (s : Sig) (before after : List (Event Sig M))
      (st : Aggregator Sig M)
      → st.hash_queue ≡ hash ∷ queue
      → All IsOpen before
      → Returns hash (next_multisigned_hash (before ++ multisigned_hash hash s ∷ after) st)
  unfolding next_multisigned_hash ready
  next_multisigned_hash-front hash queue s before after st q h =
      elim (Option-cases (get st.signatures hash)) [
        | inl n ↦
            let r = wait-front hash queue s before after st q h in
            (r.0, r.1, r.2, ground (arith, r.3))
        | inr (s', n) ↦
            (s', taken hash queue st, before ++ multisigned_hash hash s ∷ after, ground arith)
      ]

  abbrev pub closes : List (Event Sig M) → Bool
  closes [] = false
  closes (message_from_network none ∷ es) = true
  closes (_ ∷ es) = closes es

  ready-none :
      (queue : List ℕ) (st st' : Aggregator Sig M)
      → ready queue st ≡ some (none, st')
      → (queue ≡ []) × (st.last_hash_placed ≡ true)
  unfolding ready
  ready-none [] st st' e = (refl, ground arith)
  ready-none (h ∷ queue) st st' e = absurd (ground arith)

  -- The answer that ends an outcome's stream of hashes.
  abbrev pub Ends : Outcome Sig M → Type 0
  Ends o = (st : Aggregator Sig M) × (rest : List (Event Sig M)) × (o ≡ returned none st rest)

  wait-Ends :
      (es : List (Event Sig M)) (st : Aggregator Sig M)
      → Ends (wait es st)
      → closes es ≡ false
      → (st.hash_queue ≡ []) × (st.last_hash_placed ≡ true)
  unfolding wait
  wait-Ends [] st (st', rest, e) c = absurd (ground arith)
  wait-Ends (multisigned_hash g s ∷ es) st (st', rest, e) c =
      let next : Aggregator Sig M = record st { signatures = insert g s st.signatures } in
      elim (Option-cases (ready next.hash_queue next)) [
        | inl n ↦ wait-Ends es next (st', rest, ground arith) c
        | inr ((none, st''), n) ↦ ready-none next.hash_queue next st'' n
        | inr ((some a, st''), n) ↦ absurd (ground arith)
      ]
  wait-Ends (message_from_rmc (some m) true ∷ es) st r c = wait-Ends es _ r c
  wait-Ends (message_from_rmc (some m) false ∷ es) st (st', rest, e) c = absurd (ground arith)
  wait-Ends (message_from_rmc none accepted ∷ es) st r c = wait-Ends es st r c
  wait-Ends (message_from_network (some m) ∷ es) st r c = wait-Ends es _ r c
  wait-Ends (message_from_network none ∷ es) st r c = absurd (ground arith)

  -- Unless the network was closed, the stream of hashes ends only when every started hash was
  -- returned and the last one was announced.
  pub next_multisigned_hash-Ends :
      (es : List (Event Sig M)) (st : Aggregator Sig M)
      → Ends (next_multisigned_hash es st)
      → closes es ≡ false
      → (st.hash_queue ≡ []) × (st.last_hash_placed ≡ true)
  unfolding next_multisigned_hash
  next_multisigned_hash-Ends es st (st', rest, e) c = elim (Option-cases (ready st.hash_queue st)) [
    | inl n ↦ wait-Ends es st (st', rest, ground arith) c
    | inr ((none, st''), n) ↦ ready-none st.hash_queue st st'' n
    | inr ((some a, st''), n) ↦ absurd (ground arith)
  ]

  -- What an outcome's multicast was told to start.
  abbrev pub HasStarted : List ℕ → Outcome Sig M → Type 0
  HasStarted l (pending st) = st.rmc_started ≡ l
  HasStarted l panicked = Unit {0}
  HasStarted l (returned answer st rest) = st.rmc_started ≡ l

  ready-started :
      (queue : List ℕ) (st st' : Aggregator Sig M) (a : Option (ℕ × Sig))
      → ready queue st ≡ some (a, st')
      → st'.rmc_started ≡ st.rmc_started
  unfolding ready
  ready-started [] st st' a e = ground arith
  ready-started (h ∷ queue) st st' a e = ground arith

  wait-HasStarted :
      (es : List (Event Sig M)) (st : Aggregator Sig M) → HasStarted st.rmc_started (wait es st)
  unfolding wait
  wait-HasStarted [] st = refl
  wait-HasStarted (multisigned_hash g s ∷ es) st =
      let next : Aggregator Sig M = record st { signatures = insert g s st.signatures } in
      elim (Option-cases (ready next.hash_queue next)) [
        | inl n ↦
            subst (HasStarted st.rmc_started) {x = wait es next} (ground arith)
              (wait-HasStarted es next)
        | inr ((a, st''), n) ↦
            subst (HasStarted st.rmc_started) {x = returned a st'' es} (ground arith)
              (ready-started next.hash_queue next st'' a n)
      ]
  wait-HasStarted (message_from_rmc (some m) true ∷ es) st = wait-HasStarted es _
  wait-HasStarted (message_from_rmc (some m) false ∷ es) st = tt
  wait-HasStarted (message_from_rmc none accepted ∷ es) st = wait-HasStarted es st
  wait-HasStarted (message_from_network (some m) ∷ es) st = wait-HasStarted es _
  wait-HasStarted (message_from_network none ∷ es) st = refl

  -- Waiting starts nothing.
  pub next_multisigned_hash-HasStarted :
      (es : List (Event Sig M)) (st : Aggregator Sig M)
      → HasStarted st.rmc_started (next_multisigned_hash es st)
  unfolding next_multisigned_hash
  next_multisigned_hash-HasStarted es st = elim (Option-cases (ready st.hash_queue st)) [
    | inl n ↦
        subst (HasStarted st.rmc_started) {x = wait es st} (ground arith) (wait-HasStarted es st)
    | inr ((a, st'), n) ↦
        subst (HasStarted st.rmc_started) {x = returned a st' es} (ground arith)
          (ready-started st.hash_queue st st' a n)
  ]

  -- An event whose message the network takes.
  abbrev pub IsTaken : Event Sig M → Type 0
  IsTaken (message_from_rmc (some m) false) = ⊥
  IsTaken _ = Unit {0}

  wait-panics :
      (es : List (Event Sig M)) (st : Aggregator Sig M) → All IsTaken es → wait es st ≢ panicked
  unfolding wait
  wait-panics [] st h e = absurd (ground arith)
  wait-panics (multisigned_hash g s ∷ es) st h e =
      let next : Aggregator Sig M = record st { signatures = insert g s st.signatures } in
      elim (Option-cases (ready next.hash_queue next)) [
        | inl n ↦ wait-panics es next h.1 (ground arith)
        | inr ((a, st''), n) ↦ absurd (ground arith)
      ]
  wait-panics (message_from_rmc (some m) true ∷ es) st h e = wait-panics es _ h.1 e
  wait-panics (message_from_rmc (some m) false ∷ es) st h e = absurd h.0
  wait-panics (message_from_rmc none accepted ∷ es) st h e = wait-panics es st h.1 e
  wait-panics (message_from_network (some m) ∷ es) st h e = wait-panics es _ h.1 e
  wait-panics (message_from_network none ∷ es) st h e = absurd (ground arith)

  pub next_multisigned_hash-panics :
      (es : List (Event Sig M)) (st : Aggregator Sig M)
      → All IsTaken es
      → next_multisigned_hash es st ≢ panicked
  unfolding next_multisigned_hash
  next_multisigned_hash-panics es st h e = elim (Option-cases (ready st.hash_queue st)) [
    | inl n ↦ wait-panics es st h (ground arith)
    | inr ((a, st'), n) ↦ absurd (ground arith)
  ]
