-- ===== src/Bootstrap/Laws.antt =====
-- What the keystores that bin/node/src/commands.rs opens are relied on for.
use Prim.Native.String.{String}
use text.Mathlib.Text.{◌==◌}
use aleph_node.Common.{◌≡◌, false, some, [], ◌∷◌}
use aleph_node.Bootstrap.{Keystores}

module _ {F U K : Type 0} where
  -- What the crate's keystores do: to open one again changes nothing, nothing closes one, and a new key
  -- is only added to the keys of its type of the one keystore it is generated for.
  pub record IsKeystores (stores : Keystores F U K) : Type 0 where
    pub open_again :
        (p : String) (f g : F) → stores.open_at p f ≡ some g → stores.open_at p g ≡ some g
    pub open_open :
        (p q : String) (f g : F)
        → stores.open_at p f ≡ some f
        → stores.open_at q f ≡ some g
        → stores.open_at p g ≡ some g
    pub open_aura :
        (p q : String) (f g : F)
        → stores.open_at q f ≡ some g
        → stores.aura_public_keys p g ≡ stores.aura_public_keys p f
    pub open_aleph :
        (p q : String) (f g : F)
        → stores.open_at q f ≡ some g
        → stores.aleph_public_keys p g ≡ stores.aleph_public_keys p f
    pub aura_open :
        (p q : String) (u : U) (f g : F)
        → stores.open_at p f ≡ some f
        → stores.aura_generate_new q f ≡ some (u, g)
        → stores.open_at p g ≡ some g
    pub aura_new :
        (p : String) (u : U) (f g : F)
        → stores.aura_generate_new p f ≡ some (u, g)
        → stores.aura_public_keys p f ≡ []
        → stores.aura_public_keys p g ≡ u ∷ []
    pub aura_aura :
        (p q : String) (u : U) (f g : F)
        → (p == q) ≡ false
        → stores.aura_generate_new q f ≡ some (u, g)
        → stores.aura_public_keys p g ≡ stores.aura_public_keys p f
    pub aura_aleph :
        (p q : String) (u : U) (f g : F)
        → stores.aura_generate_new q f ≡ some (u, g)
        → stores.aleph_public_keys p g ≡ stores.aleph_public_keys p f
    pub aleph_open :
        (p q : String) (k : K) (f g : F)
        → stores.open_at p f ≡ some f
        → stores.aleph_generate_new q f ≡ some (k, g)
        → stores.open_at p g ≡ some g
    pub aleph_new :
        (p : String) (k : K) (f g : F)
        → stores.aleph_generate_new p f ≡ some (k, g)
        → stores.aleph_public_keys p f ≡ []
        → stores.aleph_public_keys p g ≡ k ∷ []
    pub aleph_aleph :
        (p q : String) (k : K) (f g : F)
        → (p == q) ≡ false
        → stores.aleph_generate_new q f ≡ some (k, g)
        → stores.aleph_public_keys p g ≡ stores.aleph_public_keys p f
    pub aleph_aura :
        (p q : String) (k : K) (f g : F)
        → stores.aleph_generate_new q f ≡ some (k, g)
        → stores.aura_public_keys p g ≡ stores.aura_public_keys p f
