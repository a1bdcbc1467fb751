-- ===== src/Client.antt =====
-- What the node asks of the blockchain client (`ClientForAleph` in finality-aleph/src/lib.rs): a
-- Substrate backend, so its answers are arguments. Hashes and block numbers are numbers.
use aleph_node.Common.{ℕ, Option}

-- `Result<T, sp_blockchain::Error>`; the error's text is dropped.
pub data BackendResult {ℓ} (A : Type ℓ) : Type ℓ where
  ok : A → BackendResult A
  backend_error : BackendResult A

-- The parts of a block header that the node reads.
pub record Header : Type 0 where
  pub hash : ℕ
  pub number : ℕ
  pub parent_hash : ℕ

-- One snapshot of the client: `header`, by hash and by number, `number`, and the fields of `info`.
pub record Client : Type 0 where
  pub header : ℕ → BackendResult (Option Header)
  pub header_at : ℕ → BackendResult (Option Header)
  pub number : ℕ → BackendResult (Option ℕ)
  pub finalized_hash : ℕ
  pub finalized_number : ℕ
  pub best_number : ℕ
