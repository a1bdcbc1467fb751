-- ===== src/Runtime/Sessions.antt =====
-- The sessions of the runtime (bin/runtime/src/lib.rs) and those of the node
-- (finality-aleph/src/lib.rs).
use native.Mathlib.Nat.{div-eq_of_lt-le, mod-eq_of_lt, mul-add-mod_self_right, mul-mod_left}
use aleph_node.Common.{
  ◌≡◌, ◌≢◌, sym, ap, ◌∙◌, subst, ℕ, zero, suc, ◌+◌, ◌-◌, ◌*◌, ◌/◌, ◌%◌, ◌<◌, ◌≤◌, Bool, true, false,
  Option, some, List, [], ◌∷◌, arith, ◌↔◌, bind_some, Bool-cases, inl, inr, ltb, ltb→lt, tests,
}
use aleph_node.Pallet
use aleph_node.Pallet.{
  Pallet, GenesisConfig, Call, change, session_planned, session_started, call, run, build,
  new_session, change_validators, on_new_session, update_authorities, on_genesis_session,
  initialize_authorities,
}
use aleph_node.Runtime.{should_end_session, session_period, node_config}
use aleph_node.Session.{session_id_from_block_num, u32_max}

module _ {A K : Type 0} where
  -- No call of the pallet changes the period.
  call-period :
      (c : Call A K) (st st' : Pallet A K) (a : Option (List A))
      → call c st ≡ some (a, st')
      → st'.session_period ≡ st.session_period
  unfolding call change_validators new_session on_new_session update_authorities
  call-period (change true vs s) st st' a e = ground arith
  call-period (change false vs s) st st' a e = ground arith
  call-period (session_planned s) st st' a e = ground arith
  call-period (session_started vs) st st' a e = ground arith

  run-period :
      (cs : List (Call A K)) (st st' : Pallet A K) (answers : List (Option (List A)))
      → run cs st ≡ some (answers, st')
      → st'.session_period ≡ st.session_period
  unfolding run
  run-period [] st st' answers e = ground arith
  run-period (c ∷ cs) st st' answers e =
      let one = bind_some (call c st) _ _ e in
      let rest = bind_some (run cs one.0.1) _ _ one.1.1 in
      let step = call-period c st one.0.1 one.0.0 one.1.0 in
      let steps = run-period cs one.0.1 rest.0.1 rest.0.0 rest.1.0 in
      let last : rest.0.1.session_period ≡ st'.session_period = ground arith in
      sym last ∙ (steps ∙ step)

-- What the crate says of `PeriodicSessions`: a session ends at every block that is a whole number of
-- periods after the offset.
abbrev pub IsPeriodic : (ℕ → ℕ → ℕ → Bool) → Type 0
IsPeriodic periodic_sessions =
    (period off now : ℕ)
    → off ≤ now
    → (periodic_sessions period off now ≡ true) ↔ ((now - off) % period ≡ 0)

-- The remainder of a block number in its session.
suc-mod : (k p r : ℕ) → r < p → (k * p + r) % p ≡ r
suc-mod k p r h = mul-add-mod_self_right k p r ∙ mod-eq_of_lt h

module _ {A K : Type 0} (periodic_sessions : ℕ → ℕ → ℕ → Bool) where
  -- What the session pallet says of its index: it starts with zero, and a block at which the session
  -- is to end begins with the next one.
  pub record IsIndex (storage : ℕ → Pallet A K) (index : ℕ → ℕ) : Type 0 where
    pub first : index 0 ≡ 0
    pub rotates :
        (n : ℕ)
        → should_end_session periodic_sessions (storage (suc n)) (suc n) ≡ true
        → index (suc n) ≡ suc (index n)
    pub remains :
        (n : ℕ)
        → should_end_session periodic_sessions (storage (suc n)) (suc n) ≡ false
        → index (suc n) ≡ index n

module _ {A K : Type 0} where
  -- A chain of storages. That of block zero is the genesis one: the pallet's build, and then what the
  -- genesis of the session pallet calls, which plans sessions and names their first validators. From
  -- block to block there are only calls of the pallet.
  pub record IsChain (config : GenesisConfig A K) (storage : ℕ → Pallet A K) : Type 0 where
    pub plans : List (Call A K)
    pub planned : List (Option (List A))
    pub built : Pallet A K
    pub validators : List (A × K)
    pub builds : run plans (build config Pallet.new) ≡ some (planned, built)
    pub genesis : on_genesis_session validators built ≡ some (storage 0)
    pub calls : ℕ → List (Call A K)
    pub answers : ℕ → List (Option (List A))
    pub goes_on : (n : ℕ) → run (calls n) (storage n) ≡ some (answers n, storage (suc n))

  genesis-period :
      (validators : List (A × K)) (st st' : Pallet A K)
      → on_genesis_session validators st ≡ some st'
      → st'.session_period ≡ st.session_period
  unfolding on_genesis_session initialize_authorities
  genesis-period validators st st' e = ground arith

  chain-period :
      (config : GenesisConfig A K) (storage : ℕ → Pallet A K)
      → IsChain config storage
      → (n : ℕ) → (storage n).session_period ≡ config.session_period
  unfolding build
  chain-period config storage chain zero =
      genesis-period chain.validators chain.built (storage 0) chain.genesis
      ∙ run-period chain.plans (build config Pallet.new) chain.built chain.planned chain.builds
  chain-period config storage chain (suc n) =
      run-period (chain.calls n) (storage n) (storage (suc n)) (chain.answers n) (chain.goes_on n)
      ∙ chain-period config storage chain n

-- Where a block stands in its session: the session and the place.
record IsPlace (p k n : ℕ) : Type 0 where
  place : ℕ
  within : place < p
  sum : n ≡ k * p + place

sub_zero : (m : ℕ) → m - 0 ≡ m
sub_zero m = omega arith

-- The next block begins the next session exactly when it is a whole number of periods.
IsPlace-ends : (p k n : ℕ) → 0 < p → IsPlace p k n → suc n % p ≡ 0 → IsPlace p (suc k) (suc n)
IsPlace-ends p k n pos at h = elim (Bool-cases (ltb (suc at.place) p)) [
  | inl t ↦
      let q : suc n ≡ k * p + suc at.place = omega (arith, at.sum) in
      absurd (grind (tests, q, h, suc-mod k p (suc at.place) (ltb→lt (suc at.place) p t)))
  | inr f ↦
      let last : suc at.place ≡ p = grind (tests, at.within) in
      record { place = 0; within = pos; sum = grind (arith, at.sum) }
]

IsPlace-goes : (p k n : ℕ) → IsPlace p k n → suc n % p ≢ 0 → IsPlace p k (suc n)
IsPlace-goes p k n at h = elim (Bool-cases (ltb (suc at.place) p)) [
  | inl t ↦ record {
    place = suc at.place;
    within = ltb→lt (suc at.place) p t;
    sum = omega (arith, at.sum);
  }
  | inr f ↦
      let last : suc at.place ≡ p = grind (tests, at.within) in
      let q : suc n ≡ suc k * p = grind (arith, at.sum) in
      absurd (h (ap (λ (m : ℕ). m % p) q ∙ mul-mod_left (suc k) p))
]

module _ {A K : Type 0} (periodic_sessions : ℕ → ℕ → ℕ → Bool) where
  index-IsPlace :
      (config : GenesisConfig A K) (storage : ℕ → Pallet A K) (index : ℕ → ℕ)
      → 0 < config.session_period
      → IsPeriodic periodic_sessions
      → IsChain config storage
      → IsIndex periodic_sessions storage index
      → (n : ℕ) → IsPlace config.session_period (index n) n
  unfolding should_end_session session_period
  index-IsPlace config storage index pos periodic chain is_index zero = record {
    place = 0;
    within = pos;
    sum = ground (arith, is_index.first);
  }
  index-IsPlace config storage index pos periodic chain is_index (suc n) =
      let p = config.session_period in
      let at = index-IsPlace config storage index pos periodic chain is_index n in
      let same = chain-period config storage chain (suc n) in
      let test : (should_end_session periodic_sessions (storage (suc n)) (suc n) ≡ true)
          ↔ (suc n % p ≡ 0) =
        subst (λ q. (periodic_sessions q 0 (suc n) ≡ true) ↔ (suc n % p ≡ 0)) (sym same)
          (subst (λ m. (periodic_sessions p 0 (suc n) ≡ true) ↔ (m % p ≡ 0)) (sub_zero (suc n))
            (periodic p 0 (suc n) (omega arith))) in
      elim (Bool-cases (should_end_session periodic_sessions (storage (suc n)) (suc n))) [
        | inl e ↦
            subst (λ k. IsPlace p k (suc n)) (sym (is_index.rotates n e))
              (IsPlace-ends p (index n) n pos at (test.0 e))
        | inr e ↦
            subst (λ k. IsPlace p k (suc n)) (sym (is_index.remains n e))
              (IsPlace-goes p (index n) n at (λ h. absurd (ground (arith, test.1 h))))
      ]

  -- The runtime and the node agree on the sessions. On every chain that starts with a genesis
  -- configuration of a positive period and whose blocks call the pallet in any way, the index that the
  -- session pallet gives a block is the session id that the node computes from the block's number, at
  -- the period that the node reads from the storage of block zero. For block numbers of 32 bits, and a
  -- session pallet that ends its sessions as `IsPeriodic` and counts them as `IsIndex` says.
  pub index-session_id :
      (config : GenesisConfig A K) (storage : ℕ → Pallet A K) (index : ℕ → ℕ)
      → 0 < config.session_period
      → IsPeriodic periodic_sessions
      → IsChain config storage
      → IsIndex periodic_sessions storage index
      → (n : ℕ) → n ≤ u32_max
      → session_id_from_block_num n (node_config (storage 0)).session_period ≡ some (index n)
  unfolding session_id_from_block_num node_config session_period
  index-session_id config storage index pos periodic chain is_index n small =
      let p = config.session_period in
      let at = index-IsPlace config storage index pos periodic chain is_index n in
      let same = chain-period config storage chain 0 in
      let q : n / p ≡ index n =
        div-eq_of_lt-le p (omega (arith, at.sum)) (grind (arith, at.sum, at.within)) in
      rw same (ground (arith, q))
