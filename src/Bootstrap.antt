-- ===== src/Bootstrap.antt =====
-- `BootstrapChainCmd` of bin/node/src/commands.rs: the keys of the first authorities and the chain
-- specification for them. The keystores are a state of type `F`. `none` is a panic.
pub mod Laws
pub mod Keys
use Prim.Native.String.{String}
use text.Mathlib.Text.{◌==◌}
use aleph_node.Common.{
  ℕ, Bool, true, false, Option, none, some, List, [], ◌∷◌, if◌then◌else◌, ◌>>=◌,
}
use aleph_node.Genesis.{
  AuthorityKeys, ChainParams, Crypto, ChainSpec, SpecResult, account_ids, development_config,
  config, devnet_id,
}

-- The keystores, which are a crate's: where the one of an authority is (`config_dir` and
-- `keystore_config`, with the base path, the authority and the chain; `none` is an error), its opening,
-- and for both types of keys the public keys that one at a place holds and the generation of a new
-- one, `none` being an error.
pub record Keystores (F U K : Type 0) : Type 0 where
  pub place : String → String → String → Option String
  pub open_at : String → F → Option F
  pub aura_public_keys : String → F → List U
  pub aura_generate_new : String → F → Option (U × F)
  pub aleph_public_keys : String → F → List K
  pub aleph_generate_new : String → F → Option (K × F)

-- `Vec::pop`
abbrev pub last {ℓ} : {T : Type ℓ} → List T → Option T
last [] = none
last (x ∷ []) = some x
last (x ∷ (y ∷ ys)) = last (y ∷ ys)

-- The last key that there is, or else a new one.
abbrev pub last_or : {T F : Type 0} → Option T → Option (T × F) → F → Option (T × F)
last_or none generated f = generated
last_or (some k) generated f = some (k, f)

-- The specification that `run` chooses by the chain's id.
abbrev pub chain_spec :
    {Public A U K : Type 0}
    → Crypto Public A
    → Option String
    → ChainParams
    → List (AuthorityKeys A U K)
    → Option (SpecResult (ChainSpec A U K))
chain_spec crypto wasm params authorities =
    if params.chain_id == devnet_id
    then development_config crypto wasm params authorities
    else some (config crypto wasm params authorities params.chain_id)

module _ {F U K : Type 0} (stores : Keystores F U K) where
  unfoldable pub aura_key : String → F → Option (U × F)
  aura_key path f =
      last_or (last (stores.aura_public_keys path f)) (stores.aura_generate_new path f) f

  unfoldable pub aleph_key : String → F → Option (K × F)
  aleph_key path f =
      last_or (last (stores.aleph_public_keys path f)) (stores.aleph_generate_new path f) f

  -- `open_keystore`: the place, and the keystores with this one open.
  unfoldable pub open_keystore : ChainParams → String → String → F → Option (String × F)
  open_keystore params authority chain_id f = do
    base_path ← params.base_path
    path ← stores.place base_path authority chain_id
    opened ← stores.open_at path f
    some (path, opened)

  module _ {A : Type 0} (account_to_string : A → String) where
    -- A round of the map over the accounts.
    unfoldable pub authority_keys : ChainParams → A → F → Option (AuthorityKeys A U K × F)
    unfolding aura_key aleph_key open_keystore
    authority_keys params account_id f = do
      opened ← open_keystore params (account_to_string account_id) params.chain_id f
      aura ← aura_key opened.0 opened.1
      aleph ← aleph_key opened.0 aura.1
      some (record { account_id = account_id; aura_key = aura.0; aleph_key = aleph.0 }, aleph.1)

    unfoldable pub genesis_authorities :
        ChainParams → List A → F → Option (List (AuthorityKeys A U K) × F)
    unfolding authority_keys
    genesis_authorities params [] f = some ([], f)
    genesis_authorities params (account_id ∷ ids) f = do
      one ← authority_keys params account_id f
      rest ← genesis_authorities params ids one.1
      some (one.0 ∷ rest.0, rest.1)

    -- `run`, up to the printing of the specification, and the keystores that it leaves.
    unfoldable pub run :
        {Public : Type 0}
        → Crypto Public A
        → Option String
        → ChainParams
        → F
        → Option (SpecResult (ChainSpec A U K) × F)
    unfolding account_ids genesis_authorities
    run crypto wasm params f = do
      ids ← account_ids crypto params
      made ← genesis_authorities params ids f
      spec ← chain_spec crypto wasm params made.0
      some (spec, made.1)
