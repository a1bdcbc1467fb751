-- ===== src/Network/PeerId.antt =====
-- `PeerId` of finality-aleph/src/network.rs and its codec. The crates' peer ids are of type `P`, with
-- their bytes; the codec of a vector of bytes is a crate's as well.
use aleph_node.Common.{ℕ, ◌≡◌, refl, Option, some, List, ◌++◌, ◌>>=◌}

pub record PeerId (P : Type 0) : Type 0 where
  pub id : P

pub record Bytes (P : Type 0) : Type 0 where
  pub to_bytes : P → List ℕ
  pub from_bytes : List ℕ → Option P

-- The codec of `Vec<u8>`; the decoding answers with the bytes and the rest of the input.
pub record VecCodec : Type 0 where
  pub encode_vec : List ℕ → List ℕ
  pub decode_vec : List ℕ → Option (List ℕ × List ℕ)

module _ {P : Type 0} (bytes : Bytes P) (codec : VecCodec) where
  unfoldable pub encode : PeerId P → List ℕ
  encode peer = codec.encode_vec (bytes.to_bytes peer.id)

  -- `none` is an error of the codec.
  unfoldable pub decode : List ℕ → Option (PeerId P × List ℕ)
  decode value = do
    read ← codec.decode_vec value
    pid ← bytes.from_bytes read.0
    some (record { id = pid }, read.1)

  -- What is encoded is decoded, whatever follows it in the input: for peer ids and vectors of bytes of
  -- which the same holds.
  pub decode-encode :
      ((p : P) → bytes.from_bytes (bytes.to_bytes p) ≡ some p)
      → ((v rest : List ℕ) → codec.decode_vec (codec.encode_vec v ++ rest) ≡ some (v, rest))
      → (peer : PeerId P) (rest : List ℕ) → decode (encode peer ++ rest) ≡ some (peer, rest)
  unfolding encode decode
  decode-encode ids vectors peer rest = rw (vectors, ids) refl
