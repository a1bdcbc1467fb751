-- ===== src/Finalization.antt =====
-- finality-aleph/src/finalization.rs. The loop of `chain_extension_step` takes fuel; `none` means
-- that the fuel ran out. The queue of headers is a list, front first.
pub mod Path
use aleph_node.Common.{
  ℕ, zero, suc, ◌+◌, Bool, Option, none, some, List, [], ◌∷◌, leb, nat_beq, nat_eq, ◌==◌,
  if◌then◌else◌,
}
use aleph_node.Client.{BackendResult, ok, backend_error, Header, Client}
use aleph_node.DataIo.{AlephData}

unfoldable pub ancestors : Client → ℕ → ℕ → ℕ → ℕ → List Header → Option (List Header)
ancestors client last_finalized last_number zero hash extension = none
ancestors client last_finalized last_number (suc fuel) hash extension = elim (client.header hash) [
  | ok (some header) ↦
      let rest =
        ancestors client last_finalized last_number fuel header.parent_hash (header ∷ extension) in
      if leb header.number last_number
      then (if hash == last_finalized then some extension else some [])
      else rest
  | ok none ↦ some []
  | backend_error ↦ some []
]

-- The test of the number that comes with the new block.
unfoldable pub is_correct : BackendResult (Option Header) → ℕ → Bool
is_correct (ok (some header)) number = header.number == number
is_correct (ok none) number = Bool.false
is_correct backend_error number = Bool.false

unfoldable pub chain_extension_step : ℕ → AlephData → Client → Option (List Header)
chain_extension_step last_finalized new_data client =
    if new_data.hash == last_finalized then some [] else elim (client.number last_finalized) [
      | ok (some last_number) ↦
          if is_correct (client.header new_data.hash) new_data.number
          then ancestors client last_finalized last_number (new_data.number + 1) new_data.hash []
          else some []
      | ok none ↦ some []
      | backend_error ↦ some []
    ]
