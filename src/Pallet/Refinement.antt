-- ===== src/Pallet/Refinement.antt =====
-- The storage of pallet/src/lib.rs against a specification: one pending change of the validators.
use aleph_node.Common.{
  ◌≡◌, refl, subst, ap, ℕ, ◌<◌, ◌≤◌, true, false, Option, none, some, List, [], ◌∷◌, ◌++◌, leb,
  if◌then◌else◌, arith, le→leb, ◌↔◌, map, All, inl, inr, Bool-cases,
}
use aleph_node.Pallet.{
  Pallet, Call, change, session_planned, session_started, call, run, build, new_session,
  change_validators, change_validators_event, on_new_session, update_authorities, GenesisConfig,
  initialize_authorities, on_genesis_session, ApiResult, ok, decode_key, next_session_authorities,
  collect, ok_or, is_empty,
}

abbrev pub nones {ℓ} : {B : Type ℓ} → List ℕ → List (Option B)
nones [] = []
nones (s ∷ ss) = none ∷ nones ss

module _ {A K : Type 0} where
  -- What a call does to the pending change: the validators, and the first session they may start with.
  abbrev pub pending_call : Call A K → Option (List A × ℕ) → Option (List A × ℕ)
  pending_call (change true validators session) p = some (validators, session)
  pending_call (change false validators session) p = p
  pending_call (session_planned session) none = none
  pending_call (session_planned session) (some (validators, first)) =
      if leb first session then none else some (validators, first)
  pending_call (session_started validators) p = p

  -- What a call answers.
  abbrev pub pending_answer : Call A K → Option (List A × ℕ) → Option (List A)
  pending_answer (session_planned session) (some (validators, first)) =
      if leb first session then some validators else none
  pending_answer _ _ = none

  abbrev pub answers : List (Call A K) → Option (List A × ℕ) → List (Option (List A))
  answers [] p = []
  answers (c ∷ cs) p = pending_answer c p ∷ answers cs (pending_call c p)

  abbrev pub pending_after : List (Call A K) → Option (List A × ℕ) → Option (List A × ℕ)
  pending_after [] p = p
  pending_after (c ∷ cs) p = pending_after cs (pending_call c p)

  abbrev pub Shows : Pallet A K → Option (List A × ℕ) → Type 0
  Shows st none = (st.validators ≡ none) × (st.session_for_validators_change ≡ none)
  Shows st (some (validators, first)) =
      (st.validators ≡ some validators) × (st.session_for_validators_change ≡ some first)

  call-Shows :
      (c : Call A K) (st : Pallet A K) (p : Option (List A × ℕ))
      → Shows st p
      → (st' : Pallet A K) × ((call c st ≡ some (pending_answer c p, st'))
          × Shows st' (pending_call c p))
  unfolding call change_validators new_session on_new_session update_authorities
  call-Shows (change true vs s) st p h = (_, (refl, (refl, refl)))
  call-Shows (change false vs s) st p h = (st, (refl, h))
  call-Shows (session_planned s) st none h = (st, (ground arith, h))
  call-Shows (session_planned s) st (some (vs, first)) h = elim (Bool-cases (leb first s)) [
    | inl t ↦ (
      record st { validators = none; session_for_validators_change = none },
      (ground arith, rw t (refl, refl)),
    )
    | inr f ↦ (st, (ground arith, rw f h))
  ]
  call-Shows (session_started vs) st none h = (_, (refl, h))
  call-Shows (session_started vs) st (some (ws, first)) h = (_, (refl, h))

  run-Shows :
      (cs : List (Call A K)) (st : Pallet A K) (p : Option (List A × ℕ))
      → Shows st p
      → (st' : Pallet A K) × ((run cs st ≡ some (answers cs p, st'))
          × Shows st' (pending_after cs p))
  unfolding run
  run-Shows [] st p h = (st, (refl, h))
  run-Shows (c ∷ cs) st p h =
      let one = call-Shows c st p h in
      let rest = run-Shows cs one.0 (pending_call c p) one.1.1 in
      (rest.0, (rw (one.1.0, rest.1.0) refl, rest.1.1))

  -- After the genesis build no call panics, in any order of calls: every answer to `pallet_session`
  -- is the one of the specification with one pending change, the genesis validators from session
  -- zero on being the first, and the two storage items show the pending change.
  pub run-build :
      (config : GenesisConfig A K) (st : Pallet A K) (cs : List (Call A K))
      → (st' : Pallet A K) × ((run cs (build config st)
            ≡ some (answers cs (some (config.validators, 0)), st'))
          × Shows st' (pending_after cs (some (config.validators, 0))))
  unfolding build
  run-build config st cs = run-Shows cs (build config st) (some (config.validators, 0)) (refl, refl)

  abbrev pub planned : List ℕ → List (Call A K)
  planned [] = []
  planned (s ∷ ss) = session_planned s ∷ planned ss

  answers-early :
      (vs : List A) (first : ℕ) (before : List ℕ) (cs : List (Call A K))
      → All (λ s. s < first) before
      → answers (planned before ++ cs) (some (vs, first))
        ≡ nones before ++ answers cs (some (vs, first))
  answers-early vs first [] cs h = refl
  answers-early vs first (s ∷ before) cs h = elim (Bool-cases (leb first s)) [
    | inl t ↦ absurd (ground arith)
    | inr f ↦ rw (f, answers-early vs first before cs h.1) refl
  ]

answers-none :
    {A : Type 0} (K : Type 0) (ss : List ℕ) → answers {A = A} {K = K} (planned ss) none ≡ nones ss
answers-none K [] = refl
answers-none K (s ∷ ss) = ap (λ x. none ∷ x) (answers-none K ss)

module _ {A K : Type 0} where
  -- Once root has changed the validators, from any storage: as long as there is no further change, the
  -- planned sessions below the requested one get no validators, the first one that has reached it gets
  -- exactly the requested validators, and no later one gets any. No call panics.
  pub run-change :
      (vs : List A) (first session : ℕ) (before after : List ℕ) (st : Pallet A K)
      → All (λ s. s < first) before
      → first ≤ session
      → (st' : Pallet A K) × (run
            (change true vs first ∷ (planned before ++ session_planned session ∷ planned after))
            st
          ≡ some (none ∷ (nones before ++ some vs ∷ nones after), st'))
  unfolding run call change_validators
  run-change vs first session before after st h l =
      let due : answers {A = A} {K = K} (session_planned session ∷ planned after) (some (vs, first))
          ≡ some vs ∷ nones after =
        rw (le→leb first session l, answers-none K after) refl in
      let rest =
        run-Shows (planned before ++ session_planned session ∷ planned after)
          (record st {
            validators = some vs;
            session_for_validators_change = some first;
            events = st.events ++ change_validators_event vs first ∷ [];
          })
          (some (vs, first)) (refl, refl) in
      (
        rest.0,
        rw
            (
              rest.1.0,
              answers-early vs first before (session_planned session ∷ planned after) h,
              due,
            )
            refl,
      )

  -- The genesis session panics exactly when there are authorities already and new ones come.
  pub on_genesis_session-cases :
      (validators : List (A × K)) (st : Pallet A K)
      → (on_genesis_session validators st ≡ none)
        ↔ ((is_empty validators ≡ false) × (is_empty st.authorities ≡ false))
  unfolding on_genesis_session initialize_authorities
  on_genesis_session-cases [] st = ground arith
  on_genesis_session-cases (v ∷ vs) st = ground arith

module _ {A K Keys : Type 0} (get : Keys → Option K) where
  -- `next_session_authorities` answers with a list exactly when every queued validator has an Aleph
  -- key: the list is then these keys, in the order of the queue. Otherwise it answers with an error.
  pub next_session_authorities-ok :
      (queued : List (A × Keys)) (keys : List K)
      → (next_session_authorities get queued ≡ ok keys)
        ↔ (map (λ k. get k.1) queued ≡ map some keys)
  unfolding next_session_authorities
  next_session_authorities-ok queued keys = (collected queued keys, uncollected queued keys)
    where
      cons_inj : (x y : Option K) (xs ys : List (Option K)) → x ∷ xs ≡ y ∷ ys → (x ≡ y) × (xs ≡ ys)
      cons_inj x y xs ys e = (cc, cc)

      head :
          (o : Option K) (rs : List (ApiResult K)) (r : ApiResult (List K))
          → collect rs ≡ r
          → (keys : List K) → collect (ok_or o ∷ rs) ≡ ok keys
          → (l : List (Option K)) → ((ks : List K) → collect rs ≡ ok ks → l ≡ map some ks)
          → o ∷ l ≡ map some keys
      head none rs r h keys e l ih = ground arith
      head (some k) rs decode_key h keys e l ih = absurd (ground arith)
      head (some k) rs (ok xs) h keys e l ih =
          let eq : k ∷ xs ≡ keys = ground arith in
          subst (λ y. some k ∷ l ≡ map some y) eq (ap (λ y. some k ∷ y) (ih xs h))

      collected :
          (queued : List (A × Keys)) (keys : List K)
          → collect (map (λ k. ok_or (get k.1)) queued) ≡ ok keys
          → map (λ k. get k.1) queued ≡ map some keys
      collected [] [] e = refl
      collected [] (k ∷ keys) e = ground arith
      collected (q ∷ queued) keys e =
          head (get q.1) (map (λ k. ok_or (get k.1)) queued) _ refl keys e _
            (λ ks. collected queued ks)

      uncollected :
          (queued : List (A × Keys)) (keys : List K)
          → map (λ k. get k.1) queued ≡ map some keys
          → collect (map (λ k. ok_or (get k.1)) queued) ≡ ok keys
      uncollected [] [] e = refl
      uncollected [] (k ∷ keys) e = ground arith
      uncollected (q ∷ queued) [] e = ground arith
      uncollected (q ∷ queued) (k ∷ keys) e =
          let es = cons_inj _ _ _ _ e in rw (es.0, uncollected queued keys es.1) refl
