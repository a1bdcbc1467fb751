-- ===== src/Genesis.antt =====
-- The chain specification of bin/node/src/chain_spec.rs: the parameters, the genesis configuration and
-- the two specifications. Account ids are of type `A`, Aura keys of type `U` and Aleph keys of type
-- `K`. `none` is a panic.
pub mod Start
use Prim.Native.String.{String, ◌++◌ as concat}
use aleph_node.Common.{
  ℕ, suc, zero, ◌+◌, ◌/◌, ◌%◌, ◌^◌, ltb, Option, none, some, List, [], ◌∷◌, ◌++◌, map,
  if◌then◌else◌, ◌>>=◌, get_elem?,
}
use aleph_node.Pallet.{default_millisecs_per_block, default_session_period}
use aleph_node.Pallet

abbrev pub devnet_id : String
devnet_id = "dev"

abbrev faucet_hash : String
faucet_hash = "eaefd9d9b42915bda608154f17bb03e407cbf244318a0499912c2fb1cd879b74"

abbrev root_hash : String
root_hash = "848274306fea52dc528eabc8e14e6ae78ea275bc4247a5d6e2882ac8e948fe68"

-- `Option::unwrap_or`
abbrev unwrap_or {ℓ} : {T : Type ℓ} → T → Option T → T
unwrap_or d none = d
unwrap_or d (some x) = x

-- `to_string` of a number, on fuel that its digits do not use up.
abbrev digit_texts : List String
digit_texts = "0" ∷ "1" ∷ "2" ∷ "3" ∷ "4" ∷ "5" ∷ "6" ∷ "7" ∷ "8" ∷ "9" ∷ []

abbrev digit : ℕ → String
digit n = unwrap_or "" (get_elem? digit_texts n)

abbrev digits : ℕ → ℕ → String
digits zero n = ""
digits (suc fuel) n =
    let high = digits fuel (n / 10) in if ltb n 10 then digit n else concat high (digit (n % 10))

unfoldable pub to_string : ℕ → String
to_string n = digits (suc n) n

-- `map` and `collect` of calls that may panic.
abbrev pub traverse {ℓ κ} : {S : Type ℓ} {T : Type κ} → (S → Option T) → List S → Option (List T)
traverse f [] = some []
traverse f (x ∷ xs) = do y ← f x; ys ← traverse f xs; some (y ∷ ys)

-- `0..n`
abbrev range_from : ℕ → ℕ → List ℕ
range_from first zero = []
range_from first (suc n) = first ∷ range_from (suc first) n

-- The parsing of accounts and key pairs, which are crates': an account from its text, the public key of
-- the pair of a secret's text, the account of a public key, and the account of 32 bytes in hexadecimal.
pub record Crypto (Public A : Type 0) : Type 0 where
  pub account_from_string : String → Option A
  pub pair_from_string : String → Option Public
  pub into_account : Public → A
  pub from_bytes : String → A

pub record AuthorityKeys (A U K : Type 0) : Type 0 where
  pub account_id : A
  pub aura_key : U
  pub aleph_key : K

pub record ChainParams : Type 0 where
  pub chain_id : String
  pub base_path : Option String
  pub session_period : Option ℕ
  pub millisecs_per_block : Option ℕ
  pub chain_name : Option String
  pub token_symbol : Option String
  pub account_ids : Option (List String)
  pub n_members : Option ℕ

unfoldable pub millisecs_per_block : ChainParams → ℕ
millisecs_per_block params = unwrap_or default_millisecs_per_block params.millisecs_per_block

unfoldable pub session_period : ChainParams → ℕ
session_period params = unwrap_or default_session_period params.session_period

unfoldable pub token_symbol : ChainParams → String
token_symbol params = unwrap_or "DZERO" params.token_symbol

unfoldable pub chain_name : ChainParams → String
chain_name params = unwrap_or "Aleph Zero Development" params.chain_name

module _ {Public A : Type 0} (crypto : Crypto Public A) where
  unfoldable pub get_from_seed : String → Option Public
  get_from_seed seed = crypto.pair_from_string (concat "//" seed)

  unfoldable pub get_account_id_from_seed : String → Option A
  unfolding get_from_seed
  get_account_id_from_seed seed = do public ← get_from_seed seed; some (crypto.into_account public)

  unfoldable pub account_ids : ChainParams → Option (List A)
  unfolding get_account_id_from_seed to_string
  account_ids params = elim params.account_ids [
    | some ids ↦ traverse crypto.account_from_string ids
    | none ↦
        (params.n_members >>= λ n_members.
        traverse (λ id. get_account_id_from_seed (to_string id)) (range_from 0 n_members))
  ]

pub record SessionKeys (U K : Type 0) : Type 0 where
  pub aura : U
  pub aleph : K

-- The runtime's `GenesisConfig`; the session's keys come with an account and a validator id.
pub record Genesis (A U K : Type 0) : Type 0 where
  pub code : String
  pub balances : List (A × ℕ)
  pub aura_authorities : List U
  pub sudo_key : A
  pub aleph : Pallet.GenesisConfig A K
  pub session_keys : List (A × (A × SessionKeys U K))
  pub vesting : List A

pub data ChainType : Type 0 where
  development : ChainType
  live : ChainType

pub record ChainSpec (A U K : Type 0) : Type 0 where
  pub name : String
  pub id : String
  pub chain_type : ChainType
  pub genesis_config : Genesis A U K
  pub properties : List (String × String)

pub data SpecResult (T : Type 0) : Type 0 where
  ok : T → SpecResult T
  err : String → SpecResult T

abbrev wasm_missing : String
wasm_missing = "Development wasm not available"

module _ {A U K : Type 0} where
  abbrev pub keys_entry : AuthorityKeys A U K → A × (A × SessionKeys U K)
  keys_entry auth =
      (auth.account_id, (auth.account_id, record { aura = auth.aura_key; aleph = auth.aleph_key }))

  unfoldable pub genesis :
      String → List (AuthorityKeys A U K) → A → List A → ChainParams → Genesis A U K
  unfolding session_period millisecs_per_block
  genesis wasm_binary authorities root_key rich_accounts params = record {
    code = wasm_binary;
    balances = map (λ k. (k, 2 ^ 60)) (map (λ auth. auth.account_id) authorities ++ rich_accounts);
    aura_authorities = [];
    sudo_key = root_key;
    aleph = record {
      authorities = [];
      session_period = session_period params;
      millisecs_per_block = millisecs_per_block params;
      validators = map (λ auth. auth.account_id) authorities;
    };
    session_keys = map keys_entry authorities;
    vesting = [];
  }

  -- The specification that both configurations build.
  abbrev from_genesis :
      String
      → ChainType
      → String
      → List (AuthorityKeys A U K)
      → A
      → List A
      → ChainParams
      → ChainSpec A U K
  from_genesis id chain_type wasm_binary authorities sudo_account rich_accounts params = record {
    name = chain_name params;
    id = id;
    chain_type = chain_type;
    genesis_config = genesis wasm_binary authorities sudo_account rich_accounts params;
    properties = ("tokenSymbol", token_symbol params) ∷ [];
  }

module _ {Public A U K : Type 0} (crypto : Crypto Public A) (wasm : Option String) where
  -- The rich accounts come from the texts first, so that the first of them is the administrator's.
  unfoldable pub development_config :
      ChainParams → List (AuthorityKeys A U K) → Option (SpecResult (ChainSpec A U K))
  unfolding get_account_id_from_seed genesis chain_name token_symbol
  development_config params authorities = elim wasm [
    | none ↦ some (err wasm_missing)
    | some wasm_binary ↦
        (traverse (get_account_id_from_seed crypto)
            ("Alice" ∷ "Alice//stash" ∷ "Bob" ∷ "Bob//stash" ∷ "Charlie" ∷ "Dave" ∷ "Eve" ∷ [])
          >>= λ rich.
              (get_elem? rich 0 >>= λ sudo_account. some (
                ok (
                  from_genesis devnet_id development wasm_binary authorities sudo_account
                    (rich ++ crypto.from_bytes faucet_hash ∷ []) params))))
  ]

  unfoldable pub config :
      ChainParams → List (AuthorityKeys A U K) → String → SpecResult (ChainSpec A U K)
  unfolding genesis chain_name token_symbol
  config params authorities chain_id = elim wasm [
    | none ↦ err wasm_missing
    | some wasm_binary ↦
        let sudo_account = crypto.from_bytes root_hash in
        ok (
          from_genesis chain_id live wasm_binary authorities sudo_account
            (crypto.from_bytes faucet_hash ∷ sudo_account ∷ []) params)
  ]
