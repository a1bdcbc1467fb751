-- ===== src/Import.antt =====
-- finality-aleph/src/import.rs. The inner block import with its state `W`, the decoding of a
-- justification and `Justifications::into_justification` are outside the repository and parameters.
-- An engine id is a number, whose bytes are read in order. A panic is `none`.
pub mod Safe
pub mod Notified
use aleph_node.Common.{
  ℕ, Bool, true, false, Option, none, some, List, [], ◌∷◌, ◌++◌, nat_beq, if◌then◌else◌, ◌>>=◌,
}
use aleph_node.Justification.{JustificationNotification}
use aleph_node.Metrics.{Metrics, report_block, importing, imported, Checkpoint}

-- `*b"FRNK"`
abbrev pub aleph_engine_id : ℕ
aleph_engine_id = 0x46524E4B

pub data SendJustificationError : Type 0 where
  send : SendJustificationError
  consensus : SendJustificationError
  decode_error : SendJustificationError

pub data Sent : Type 0 where
  ok : Sent
  err : SendJustificationError → Sent

-- The texts of `ConsensusError::ClientImport`.
pub data ConsensusError : Type 0 where
  only_aleph_justifications : ConsensusError
  could_not_send : ConsensusError
  could_not_decode : ConsensusError

pub data JustificationResult : Type 0 where
  ok : JustificationResult
  err : ConsensusError → JustificationResult

-- `Result<ImportResult, Error>` of the inner import.
pub data InnerResult (Aux Other Error : Type 0) : Type 0 where
  imported_block : Aux → InnerResult Aux Other Error
  other_result : Other → InnerResult Aux Other Error
  err : Error → InnerResult Aux Other Error

-- `AlephBlockImport`: the channel is what was sent through it, and whether it is open.
pub record AlephBlockImport (W J : Type 0) : Type 0 where
  pub inner : W
  pub justification_tx : List (JustificationNotification J)
  pub justification_open : Bool
  pub metrics : Option Metrics

unfoldable pub new : {W J : Type 0} → W → Option Metrics → AlephBlockImport W J
new inner metrics = record {
  inner = inner;
  justification_tx = [];
  justification_open = true;
  metrics = metrics;
}

-- The parts of `BlockImportParams` that are read here; `body` is the rest.
pub record Block (Body Justs : Type 0) : Type 0 where
  pub number : ℕ
  pub post_hash : ℕ
  pub justifications : Option Justs
  pub body : Body

module _ {W Body Justs Raw J Aux Other Error : Type 0} (decode : Raw → Option J)
    (into_justification : Justs → ℕ → Option Raw)
    (inner_import : Block Body Justs → W → InnerResult Aux Other Error × W) where
  -- `unbounded_send`
  unfoldable pub unbounded_send :
      JustificationNotification J → AlephBlockImport W J → Sent × AlephBlockImport W J
  unbounded_send n st =
      if st.justification_open
      then (Sent.ok, record st { justification_tx = st.justification_tx ++ n ∷ [] })
      else (Sent.err send, st)

  unfoldable pub send_decoded :
      ℕ → ℕ → Option J → AlephBlockImport W J → Sent × AlephBlockImport W J
  unfolding unbounded_send
  send_decoded hash number none st = (Sent.err decode_error, st)
  send_decoded hash number (some justification) st =
      unbounded_send (record { justification = justification; hash = hash; number = number }) st

  unfoldable pub send_justification :
      ℕ → ℕ → ℕ × Raw → AlephBlockImport W J → Sent × AlephBlockImport W J
  unfolding send_decoded
  send_justification hash number justification st =
      if nat_beq justification.0 aleph_engine_id
      then send_decoded hash number (decode justification.1) st
      else (Sent.err consensus, st)

  -- `m.report_block(...)`, if there are metrics.
  unfoldable pub report : ℕ → ℕ → Checkpoint → AlephBlockImport W J → Option (AlephBlockImport W J)
  report hash now name st = elim st.metrics [
    | none ↦ some st
    | some m ↦ (report_block hash now name m >>= λ m'. some (record st { metrics = some m' }))
  ]

  -- The Aleph justification that came along with the block, if there is one.
  unfoldable pub aleph_justification : Option Justs → Option Raw
  aleph_justification justifications = do
    just ← justifications
    into_justification just aleph_engine_id

  unfoldable pub send_along : ℕ → ℕ → Option Raw → AlephBlockImport W J → AlephBlockImport W J
  unfolding send_justification
  send_along post_hash number none st = st
  send_along post_hash number (some justification) st =
      (send_justification post_hash number (aleph_engine_id, justification) st).1

  -- What follows the inner import.
  unfoldable pub after_import :
      ℕ
      → ℕ
      → ℕ
      → Option Raw
      → InnerResult Aux Other Error
      → AlephBlockImport W J
      → Option (InnerResult Aux Other Error × AlephBlockImport W J)
  unfolding send_along
  after_import post_hash number now justification (imported_block aux) st = do
    st' ← report post_hash now imported (send_along post_hash number justification st)
    some (imported_block aux, st')
  after_import post_hash number now justification (other_result r) st = some (other_result r, st)
  after_import post_hash number now justification (InnerResult.err e) st =
      some (InnerResult.err e, st)

  -- `import_block`, with the two instants at which it looks at the clock. The justifications are
  -- taken out of the block before the inner import gets it.
  unfoldable pub import_block :
      ℕ
      → ℕ
      → Block Body Justs
      → AlephBlockImport W J
      → Option (InnerResult Aux Other Error × AlephBlockImport W J)
  unfolding report after_import
  import_block before after block st = do
    st1 ← report block.post_hash before importing st
    let result : InnerResult Aux Other Error × W =
        inner_import (record block { justifications = none }) st1.inner
    after_import block.post_hash block.number after (aleph_justification block.justifications)
        result.0 (record st1 { inner = result.1 })

  abbrev pub consensus_error : SendJustificationError → ConsensusError
  consensus_error send = could_not_send
  consensus_error consensus = only_aleph_justifications
  consensus_error decode_error = could_not_decode

  abbrev pub map_err : Sent → JustificationResult
  map_err Sent.ok = JustificationResult.ok
  map_err (Sent.err e) = JustificationResult.err (consensus_error e)

  unfoldable pub import_justification :
      ℕ → ℕ → ℕ × Raw → AlephBlockImport W J → JustificationResult × AlephBlockImport W J
  unfolding send_justification
  import_justification hash number justification st =
      let (sent, st') = send_justification hash number justification st in (map_err sent, st')
