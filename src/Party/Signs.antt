-- ===== src/Party/Signs.antt =====
-- A node that `get_node_index` of finality-aleph/src/party.rs finds among the authorities can sign for
-- the session.
use aleph_node.Common.{ℕ, ◌≡◌, refl, Bool, true, some, List, arith, nat_eq, contains}
use aleph_node.Client.{ok}
use aleph_node.Keys.{KeyBox, Signature}
use aleph_node.Keys
use aleph_node.Keys.Authority.{Keystore, key_type, sign_as}
use aleph_node.Keys.Authority
use aleph_node.Party.{get_node_index}
use aleph_node.Party.Node.{get_node_index-IsFirst}

module _ {Store Message Bytes Sgn : Type 0} (crypto : Keystore Store Message Bytes Sgn)
    (check : ℕ → Message → Sgn → Bool) where
  -- With a key that it has, the keystore makes a signature that the key's authority is checked for.
  abbrev pub Signs : Store → ℕ → Type 0
  Signs store a =
      (msg : Message)
      → (bytes : Bytes) × (sgn : Sgn) × (crypto.sign_with store key_type a msg ≡ ok (some bytes))
        × (crypto.try_into bytes ≡ some sgn)
        × (check a msg sgn ≡ true)

  -- Every key box of the session accepts the signature as that of the member `i`.
  abbrev pub IsAccepted : List ℕ → Message → Signature Sgn → ℕ → Type 0
  IsAccepted authorities msg signature i =
      (j : ℕ) (other : KeyBox)
      → Keys.new j authorities ≡ some other
      → Keys.verify check other msg signature i ≡ some true

  -- If the keystore can sign with the keys that it has: a node that finds itself at the place `i` of
  -- the session's authorities gets its key box, signs every message through its keystore without a
  -- panic, with the id `i`, and every member's key box accepts the signature as that of the member `i`.
  pub get_node_index-Signs :
      (authorities : List ℕ) (store : Store) (i : ℕ) (msg : Message)
      → ((a : ℕ) → contains (crypto.keys store key_type) a ≡ true → Signs store a)
      → get_node_index authorities (crypto.keys store key_type) ≡ some i
      → (keybox : KeyBox) × (signature : Signature Sgn) × (Keys.new i authorities ≡ some keybox)
        × (sign_as crypto keybox store msg ≡ some signature)
        × (signature.id ≡ i)
        × IsAccepted authorities msg signature i
  unfolding Keys.new Keys.verify sign_as Authority.sign Authority.new
  get_node_index-Signs authorities store i msg signs e =
      let (a, at, has, _) =
        (get_node_index-IsFirst authorities (crypto.keys store key_type) i).0 e in
      let (bytes, sgn, made, read, good) = signs a has msg in
      (
        record { id = i; own = a; authorities = authorities },
        record { id = i; sgn = sgn },
        ground (arith, at),
        rw (made, read) refl,
        refl,
        λ j other n. ground (arith, at, good, n),
      )
