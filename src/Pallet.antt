-- ===== src/Pallet.antt =====
-- The pallet of pallet/src/lib.rs: its storage is a record, account ids are of type `A` and
-- authority ids of type `K`. A call that panics is `none`.
pub mod Refinement
use aleph_node.Common.{
  ℕ, Bool, true, false, Option, none, some, List, [], ◌∷◌, ◌++◌, leb, if◌then◌else◌, map, ◌>>=◌,
}

abbrev pub default_session_period : ℕ
default_session_period = 5

abbrev pub default_millisecs_per_block : ℕ
default_millisecs_per_block = 4000

-- `AlephApiError` has one case.
pub data ApiResult {ℓ} (T : Type ℓ) : Type ℓ where
  ok : T → ApiResult T
  decode_key : ApiResult T

pub data DispatchResult (S : Type 0) : Type 0 where
  ok : S → DispatchResult S
  bad_origin : DispatchResult S

pub data Event (A : Type 0) : Type 0 where
  change_validators_event : List A → ℕ → Event A

pub record Pallet (A K : Type 0) : Type 0 where
  pub validators : Option (List A)
  pub session_for_validators_change : Option ℕ
  pub authorities : List K
  pub session_period : ℕ
  pub millisecs_per_block : ℕ
  pub events : List (Event A)

pub record GenesisConfig (A K : Type 0) : Type 0 where
  pub authorities : List K
  pub session_period : ℕ
  pub millisecs_per_block : ℕ
  pub validators : List A

abbrev pub is_empty {ℓ} : {T : Type ℓ} → List T → Bool
is_empty [] = true
is_empty (x ∷ xs) = false

-- `collect` of results, which stops at the first error.
abbrev pub collect {ℓ} : {T : Type ℓ} → List (ApiResult T) → ApiResult (List T)
collect [] = ok []
collect (decode_key ∷ rs) = decode_key
collect (ok x ∷ rs) = elim (collect rs) [ ok xs ↦ ok (x ∷ xs) | decode_key ↦ decode_key ]

-- `Option::ok_or(AlephApiError::DecodeKey)`
abbrev pub ok_or {ℓ} : {T : Type ℓ} → Option T → ApiResult T
ok_or none = decode_key
ok_or (some x) = ok x

module _ {A K : Type 0} where
  -- The values that the storage items have before anything is put.
  unfoldable pub new : Pallet A K
  new = record {
    validators = none;
    session_for_validators_change = none;
    authorities = [];
    session_period = default_session_period;
    millisecs_per_block = default_millisecs_per_block;
    events = [];
  }

  unfoldable pub default : GenesisConfig A K
  default = record {
    authorities = [];
    session_period = default_session_period;
    millisecs_per_block = default_millisecs_per_block;
    validators = [];
  }

  unfoldable pub build : GenesisConfig A K → Pallet A K → Pallet A K
  build config st = record st {
    session_period = config.session_period;
    millisecs_per_block = config.millisecs_per_block;
    validators = some config.validators;
    session_for_validators_change = some 0;
  }

  -- `is_root` is what `ensure_root` finds of the origin.
  unfoldable pub change_validators : Bool → List A → ℕ → Pallet A K → DispatchResult (Pallet A K)
  change_validators is_root validators session_for_validators_change st =
      if is_root
      then ok (record st {
        validators = some validators;
        session_for_validators_change = some session_for_validators_change;
        events = st.events ++ change_validators_event validators session_for_validators_change ∷ [];
      })
      else bad_origin

  unfoldable pub initialize_authorities : List K → Pallet A K → Option (Pallet A K)
  initialize_authorities authorities st =
      if is_empty authorities
      then some st
      else if is_empty st.authorities
      then some (record st { authorities = authorities })
      else none

  unfoldable pub update_authorities : List K → Pallet A K → Pallet A K
  update_authorities authorities st = record st { authorities = authorities }

  -- The answer is the new validators, if there are any, and the new storage.
  unfoldable pub new_session : ℕ → Pallet A K → Option (Option (List A) × Pallet A K)
  new_session session st = elim st.session_for_validators_change [
    | none ↦ some (none, st)
    | some session_for_validators_change ↦
        if leb session_for_validators_change session
        then (st.validators >>= λ validators. some (
          some validators,
          record st { validators = none; session_for_validators_change = none },
        ))
        else some (none, st)
  ]

  unfoldable pub on_genesis_session : List (A × K) → Pallet A K → Option (Pallet A K)
  on_genesis_session validators st = initialize_authorities (map (λ v. v.1) validators) st

  unfoldable pub on_new_session : List (A × K) → Pallet A K → Pallet A K
  on_new_session validators st = update_authorities (map (λ v. v.1) validators) st

-- The keys that `pallet_session` has queued, and `OpaqueKeys::get` for the pallet's key type.
module _ {A K Keys : Type 0} (get : Keys → Option K) where
  unfoldable pub next_session_authorities : List (A × Keys) → ApiResult (List K)
  next_session_authorities queued_keys = collect (map (λ k. ok_or (get k.1)) queued_keys)

-- The calls of the pallet that a chain makes after genesis.
pub data Call (A K : Type 0) : Type 0 where
  change : Bool → List A → ℕ → Call A K
  session_planned : ℕ → Call A K
  session_started : List (A × K) → Call A K

module _ {A K : Type 0} where
  abbrev pub dispatched : DispatchResult (Pallet A K) → Pallet A K → Pallet A K
  dispatched (ok st') st = st'
  dispatched bad_origin st = st

  -- A call, and what it answers to `pallet_session`; a refused one changes nothing.
  unfoldable pub call : Call A K → Pallet A K → Option (Option (List A) × Pallet A K)
  unfolding change_validators on_new_session update_authorities
  call (change is_root validators session) st =
      some (none, dispatched (change_validators is_root validators session st) st)
  call (session_planned session) st = new_session session st
  call (session_started validators) st = some (none, on_new_session validators st)

  unfoldable pub run : List (Call A K) → Pallet A K → Option (List (Option (List A)) × Pallet A K)
  run [] st = some ([], st)
  run (c ∷ cs) st = do
    answered ← call c st
    rest ← run cs answered.1
    some (answered.0 ∷ rest.0, rest.1)
