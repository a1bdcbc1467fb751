-- ===== src/Genesis/Start.antt =====
-- The genesis configuration of bin/node/src/chain_spec.rs under the pallet of pallet/src/lib.rs: the
-- committee with which the chain starts.
use Prim.Native.String.{String}
use aleph_node.Common.{◌≡◌, refl, ap, ◌∙◌, Option, none, some, List, [], ◌∷◌, map, All, ◌>>=◌}
use aleph_node.Pallet.{Pallet, new_session, on_genesis_session, initialize_authorities, build}
use aleph_node.Pallet
use aleph_node.Genesis.{
  AuthorityKeys, ChainParams, SessionKeys, Genesis, keys_entry, genesis, traverse,
}

initialize-authorities :
    {A K : Type 0} (keys : List K) (st : Pallet A K)
    → st.authorities ≡ []
    → (st' : Pallet A K) × ((initialize_authorities keys st ≡ some st') × (st'.authorities ≡ keys))
unfolding initialize_authorities
initialize-authorities [] st h = (st, (refl, h))
initialize-authorities (k ∷ keys) st h = (record st { authorities = k ∷ keys }, (rw h refl, refl))

module _ {A U K : Type 0} where
  -- The validators with the Aleph keys that are found for them.
  abbrev pub queue : (A → Option (SessionKeys U K)) → List A → Option (List (A × K))
  queue load = traverse (λ v. load v >>= λ keys. some (v, keys.aleph))

  -- The start of the chain on a genesis configuration: the pallet gives the session zero its first
  -- validators, and with the keys that are found for them the genesis session sets the authorities.
  pub record Starts (g : Genesis A U K) (load : A → Option (SessionKeys U K)) (validators : List A)
      (keys : List K) : Type 0 where
    pub planned : Pallet A K
    pub queued : List (A × K)
    pub started : Pallet A K
    pub plan : new_session 0 (build g.aleph Pallet.new) ≡ some (some validators, planned)
    pub found : queue load validators ≡ some queued
    pub start : on_genesis_session queued planned ≡ some started
    pub committee : started.authorities ≡ keys

  -- The keys of every entry are found under its account.
  abbrev pub IsFound : (A → Option (SessionKeys U K)) → List (A × (A × SessionKeys U K)) → Type 0
  IsFound load = All (λ e. load e.0 ≡ some e.1.1)

  abbrev pub aleph_entry : AuthorityKeys A U K → A × K
  aleph_entry auth = (auth.account_id, auth.aleph_key)

  queue-genesis :
      (load : A → Option (SessionKeys U K)) (auths : List (AuthorityKeys A U K))
      → IsFound load (map keys_entry auths)
      → queue load (map (λ auth. auth.account_id) auths) ≡ some (map aleph_entry auths)
  queue-genesis load [] h = refl
  queue-genesis load (a ∷ auths) h = rw (h.0, queue-genesis load auths h.1) refl

  map-aleph_entry :
      (auths : List (AuthorityKeys A U K))
      → map (λ v. v.1) (map aleph_entry auths) ≡ map (λ auth. auth.aleph_key) auths
  map-aleph_entry [] = refl
  map-aleph_entry (a ∷ auths) = ap (λ l. a.aleph_key ∷ l) (map-aleph_entry auths)

  -- A chain whose genesis configuration is made for some authorities starts with them. Whatever keys
  -- the session pallet finds, as long as those in the configuration are found under their accounts:
  -- the pallet plans session zero with the authorities' accounts, in their order, each has an Aleph
  -- key, the genesis session does not panic, and the committee is the authorities' Aleph keys, in the
  -- same order.
  pub genesis-Starts :
      (wasm_binary : String) (auths : List (AuthorityKeys A U K)) (root : A) (rich : List A)
      (params : ChainParams) (load : A → Option (SessionKeys U K))
      → IsFound load (genesis wasm_binary auths root rich params).session_keys
      → Starts
          (genesis wasm_binary auths root rich params)
          load
          (map (λ auth. auth.account_id) auths)
          (map (λ auth. auth.aleph_key) auths)
  unfolding genesis build new_session on_genesis_session Pallet.new
  genesis-Starts wasm_binary auths root rich params load h =
      let config = (genesis wasm_binary auths root rich params).aleph in
      let planned : Pallet A K = record (build config Pallet.new) {
        validators = none;
        session_for_validators_change = none;
      } in
      let done = initialize-authorities (map (λ v. v.1) (map aleph_entry auths)) planned refl in
      record {
        planned = planned;
        queued = map aleph_entry auths;
        started = done.0;
        plan = refl;
        found = queue-genesis load auths h;
        start = done.1.0;
        committee = done.1.1 ∙ map-aleph_entry auths;
      }
