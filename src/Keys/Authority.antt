-- ===== src/Keys/Authority.antt =====
-- `AuthorityKeystore` of finality-aleph/src/lib.rs, and the signing of a `KeyBox` through it. The
-- keystore of the crate `sp_keystore` is an interface over its states. `none` is a panic.
use Prim.Native.String.{String}
use aleph_node.Common.{ℕ, Option, none, some, List, ◌>>=◌, length}
use aleph_node.Client.{BackendResult, ok, backend_error}
use aleph_node.Keys.{KeyBox, Signature}

-- `SyncCryptoStore::keys` and `sign_with`, and the conversion of what that returns to a signature.
pub record Keystore (Store Message Bytes Sgn : Type 0) : Type 0 where
  pub keys : Store → String → List ℕ
  pub sign_with : Store → String → ℕ → Message → BackendResult (Option Bytes)
  pub try_into : Bytes → Option Sgn

abbrev pub key_type : String
key_type = "alp0"

pub record AuthorityKeystore (Store : Type 0) : Type 0 where
  pub key_type_id : String
  pub authority_id : ℕ
  pub keystore : Store

unfoldable pub new : {Store : Type 0} → ℕ → Store → AuthorityKeystore Store
new authority_id keystore = record {
  key_type_id = key_type;
  authority_id = authority_id;
  keystore = keystore;
}

-- `Index` and `node_count` of `KeyBox`.
unfoldable pub index : KeyBox → ℕ
index keybox = keybox.id

unfoldable pub node_count : KeyBox → ℕ
node_count keybox = length keybox.authorities

-- The first two calls of `unwrap`.
abbrev pub unwrap_signed {ℓ} : {A : Type ℓ} → BackendResult (Option A) → Option A
unwrap_signed (ok signed) = signed
unwrap_signed backend_error = none

module _ {Store Message Bytes Sgn : Type 0} (crypto : Keystore Store Message Bytes Sgn) where
  unfoldable pub sign : AuthorityKeystore Store → Message → Option Sgn
  sign auth msg = do
    bytes ← unwrap_signed (crypto.sign_with auth.keystore auth.key_type_id auth.authority_id msg)
    crypto.try_into bytes

  -- `sign` of `KeyBox`, whose `auth_keystore` is that of its own authority.
  unfoldable pub sign_as : KeyBox → Store → Message → Option (Signature Sgn)
  unfolding sign new
  sign_as keybox keystore msg = do
    sgn ← sign (new keybox.own keystore) msg
    some (record { id = keybox.id; sgn = sgn })
