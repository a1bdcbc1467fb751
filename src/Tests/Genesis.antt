-- ===== src/Tests/Genesis.antt =====
-- Tests of the genesis configuration, the bootstrap command and the sessions of the runtime.
use Prim.Native.String.{String}
use text.Mathlib.Text.{◌==◌}
use text.Mathlib.TextEquality.{eq_iff}
use aleph_node.Common.{
  ℕ, suc, ◌-◌, ◌/◌, ◌%◌, ◌≡◌, refl, true, false, Bool, Option, none, some, List, [], ◌∷◌, map,
  nat_beq, nat_beq_iff, arith, if◌then◌else◌,
}
use aleph_node.Pallet
use aleph_node.Pallet.{Pallet, GenesisConfig, build}
use aleph_node.Genesis.{AuthorityKeys, ChainParams, Crypto, SessionKeys, genesis, config, to_string}
use aleph_node.Genesis.Start.{Starts, genesis-Starts}
use aleph_node.Bootstrap.{Keystores, run}
use aleph_node.Bootstrap.Laws.{IsKeystores}
use aleph_node.Bootstrap.Keys.{run-run}
use aleph_node.Runtime.{node_config, should_end_session, session_period}
use aleph_node.Runtime.Sessions.{index-session_id}
use aleph_node.Session.{session_id_from_block_num}

to_string_test : map to_string (0 ∷ 7 ∷ 10 ∷ 4096 ∷ []) ≡ "0" ∷ "7" ∷ "10" ∷ "4096" ∷ []
unfolding to_string
to_string_test = refl

abbrev alice_and_bob : List (AuthorityKeys ℕ ℕ ℕ)
alice_and_bob =
    record { account_id = 1; aura_key = 10; aleph_key = 100 }
    ∷ record { account_id = 2; aura_key = 20; aleph_key = 200 }
    ∷ []

abbrev params : ChainParams
params = record {
  chain_id = "a0dnet1";
  base_path = some "/tmp";
  session_period = none;
  millisecs_per_block = some 1000;
  chain_name = none;
  token_symbol = none;
  account_ids = some ("alice" ∷ "bob" ∷ []);
  n_members = none;
}

abbrev load : ℕ → Option (SessionKeys ℕ ℕ)
load a =
    if nat_beq a 1
    then some (record { aura = 10; aleph = 100 })
    else some (record { aura = 20; aleph = 200 })

genesis-Starts_example :
    Starts (genesis "wasm" alice_and_bob 5 (6 ∷ []) params) load (1 ∷ 2 ∷ []) (100 ∷ 200 ∷ [])
unfolding genesis
genesis-Starts_example =
    genesis-Starts "wasm" alice_and_bob 5 (6 ∷ []) params load (refl, (refl, tt))

-- Keystores as two lists of keys with their places, the newest first, and the next key.
pub record Store : Type 0 where
  pub aura : List (String × ℕ)
  pub aleph : List (String × ℕ)
  pub next : ℕ

pub keys_at : String → List (String × ℕ) → List ℕ
keys_at p [] = []
keys_at p ((q, k) ∷ l) = let rest = keys_at p l in if p == q then k ∷ rest else rest

abbrev pub keystores : Keystores Store ℕ ℕ
keystores = record {
  place = λ base authority chain. some authority;
  open_at = λ p f. some f;
  aura_public_keys = λ p f. keys_at p f.aura;
  aura_generate_new =
      λ p f. some (f.next, record f { aura = (p, f.next) ∷ f.aura; next = suc f.next });
  aleph_public_keys = λ p f. keys_at p f.aleph;
  aleph_generate_new =
      λ p f. some (f.next, record f { aleph = (p, f.next) ∷ f.aleph; next = suc f.next });
}

keys_at-other :
    (p q : String) (k : ℕ) (l : List (String × ℕ))
    → (p == q) ≡ false
    → keys_at p ((q, k) ∷ l) ≡ keys_at p l
unfolding keys_at
keys_at-other p q k l h = ground arith

keys_at-new :
    (p : String) (k : ℕ) (l : List (String × ℕ))
    → keys_at p l ≡ []
    → keys_at p ((p, k) ∷ l) ≡ k ∷ []
unfolding keys_at
keys_at-new p k l h = ground (arith, (eq_iff p p).1 refl)

keystores-IsKeystores : IsKeystores keystores
keystores-IsKeystores = record {
  open_again = λ p f g e. refl;
  open_open = λ p q f g o e. refl;
  open_aura = λ p q f g e. ground arith;
  open_aleph = λ p q f g e. ground arith;
  aura_open = λ p q u f g o e. refl;
  aura_new = λ p u f g e h. ground (arith, keys_at-new p u f.aura h);
  aura_aura = λ p q u f g n e. ground (arith, keys_at-other p q u f.aura n);
  aura_aleph = λ p q u f g e. ground arith;
  aleph_open = λ p q k f g o e. refl;
  aleph_new = λ p k f g e h. ground (arith, keys_at-new p k f.aleph h);
  aleph_aleph = λ p q k f g n e. ground (arith, keys_at-other p q k f.aleph n);
  aleph_aura = λ p q k f g e. ground arith;
}

-- The accounts are their texts.
abbrev pub crypto : Crypto String String
crypto = record {
  account_from_string = some;
  pair_from_string = some;
  into_account = λ p. p;
  from_bytes = λ h. h;
}

-- Before the command Alice has an Aura key and nobody has another one.
abbrev pub before : Store
before = record { aura = ("alice", 30) ∷ []; aleph = []; next = 31 }

abbrev after : Store
after = record {
  aura = ("bob", 32) ∷ ("alice", 30) ∷ [];
  aleph = ("bob", 33) ∷ ("alice", 31) ∷ [];
  next = 34;
}

abbrev made : List (AuthorityKeys String ℕ ℕ)
made =
    record { account_id = "alice"; aura_key = 30; aleph_key = 31 }
    ∷ record { account_id = "bob"; aura_key = 32; aleph_key = 33 }
    ∷ []

run-run_example :
    run keystores (λ a. a) crypto (some "wasm") params after
    ≡ some (config crypto (some "wasm") params made "a0dnet1", after)
unfolding run keys_at
run-run_example =
    run-run keystores keystores-IsKeystores (λ a. a) crypto (some "wasm") params
      (config crypto (some "wasm") params made "a0dnet1") before after refl

abbrev every_third : GenesisConfig ℕ ℕ
every_third = record {
  authorities = [];
  session_period = 3;
  millisecs_per_block = 1000;
  validators = 1 ∷ 2 ∷ [];
}

abbrev storage : ℕ → Pallet ℕ ℕ
storage n = build every_third Pallet.new

abbrev periodic : ℕ → ℕ → ℕ → Bool
periodic period off now = nat_beq ((now - off) % period) 0

third_ends : (n : ℕ) → nat_beq ((suc n - 0) % 3) 0 ≡ true → suc n / 3 ≡ suc (n / 3)
third_ends n h = ground arith

third_goes : (n : ℕ) → nat_beq ((suc n - 0) % 3) 0 ≡ false → suc n / 3 ≡ n / 3
third_goes n h = ground arith

index-session_id_example :
    session_id_from_block_num 17 (node_config (storage 0)).session_period ≡ some 5
unfolding build Pallet.run Pallet.on_genesis_session Pallet.initialize_authorities
    should_end_session session_period
index-session_id_example =
    index-session_id periodic every_third storage (λ n. n / 3) (omega arith)
      (λ p o n l. nat_beq_iff ((n - o) % p) 0)
      (record {
        plans = [];
        planned = [];
        built = storage 0;
        validators = [];
        builds = refl;
        genesis = refl;
        calls = λ n. [];
        answers = λ n. [];
        goes_on = λ n. refl;
      })
      (record { first = refl; rotates = λ n e. third_ends n e; remains = λ n e. third_goes n e }) 17
      (omega arith)
