-- ===== src/Keys.antt =====
-- Keys of the members of a session (finality-aleph/src/lib.rs). An authority id is a number; the
-- check of a signature against one is the argument `check` of the crate `sp_application_crypto`.
-- `none` is a panic: an index that no authority has.
pub mod Authority
use aleph_node.Common.{ℕ, Bool, Option, some, List, get_elem?, ◌>>=◌}

-- `Signature`: the member that claims it, and the bytes, of type `Sgn`.
pub record Signature (Sgn : Type 0) : Type 0 where
  pub id : ℕ
  pub sgn : Sgn

-- `KeyBox`; the authority of `auth_keystore` is the field `own`.
pub record KeyBox : Type 0 where
  pub id : ℕ
  pub own : ℕ
  pub authorities : List ℕ

unfoldable pub new : ℕ → List ℕ → Option KeyBox
new id authorities = do
  own ← get_elem? authorities id
  some (record { id = id; own = own; authorities = authorities })

module _ {Message Sgn : Type 0} (check : ℕ → Message → Sgn → Bool) where
  unfoldable pub verify : KeyBox → Message → Signature Sgn → ℕ → Option Bool
  verify keybox msg sgn index = do
    authority ← get_elem? keybox.authorities index
    some (check authority msg sgn.sgn)

module _ {Message Sgn : Type 0} (sign_with : ℕ → Message → Sgn) where
  -- `sign`, with the keystore's `sign_with` for the box's own authority.
  unfoldable pub sign : KeyBox → Message → Signature Sgn
  sign keybox msg = record { id = keybox.id; sgn = sign_with keybox.own msg }
