-- ===== src/Finality/Imported.antt =====
-- How a block that finality-aleph/src/import.rs imports with a justification becomes final through the
-- handler of finality-aleph/src/justification.rs.
use aleph_node.Common.{
  ℕ, ◌+◌, ◌≤◌, ◌<◌, ◌≡◌, refl, Bool, true, Option, none, some, List, [], ◌∷◌, ◌++◌, nat_eq, ◌>>=◌,
}
use aleph_node.Keys.{KeyBox}
use aleph_node.Keys
use aleph_node.Session.{last_block_of_session, session_id_from_block_num}
use aleph_node.Justification.{Chain, JustificationNotification, notified, Input, State, round}
use aleph_node.Import.{
  AlephBlockImport, Block, InnerResult, imported_block, aleph_justification, import_block,
}
use aleph_node.Import.Safe.{IsSafe}
use aleph_node.Import.Notified.{imported_note, import_block-note}
use aleph_node.Finality.{IsKnown}
use aleph_node.Finality.Rounds.{GoesOn, round-told}

module _ {W Sig Justification : Type 0} (chain : Chain W Justification)
    (is_complete : KeyBox → ℕ → Sig → Bool) (encode : Sig → Justification)
    {V Body Justs Raw Aux Other Error : Type 0} (decode : Raw → Option Sig)
    (into_justification : Justs → ℕ → Option Raw)
    (inner_import : Block Body Justs → V → InnerResult Aux Other Error × V) (session : ℕ)
    (authorities : List ℕ) (keybox : KeyBox) where
  -- A round that polls the notification, with the session's authorities known, goes on with the
  -- block finalized.
  abbrev pub IsFinalizedBy : State chain is_complete encode → JustificationNotification Sig → Type 0
  IsFinalizedBy s n =
      (i : Input chain is_complete encode)
      → IsKnown session authorities i.session_authorities
      → i.polled ≡ notified n
      → (s' : State chain is_complete encode) × (round chain is_complete encode i s ≡ some s')
        × GoesOn chain is_complete encode s
            (chain.apply_finality n.hash (some (encode n.justification)) s.world).1 s'

  -- A block that is imported with an Aleph justification which can be decoded is notified to the
  -- handler, over an open channel and with metrics that have all that the code expects of them and
  -- no start time later than the first of the two instants, which are in order; and the handler's
  -- round that polls this notification finalizes the block, if the justification is complete under
  -- the keys of the session that follows the last finalized block, whose authorities are known, and
  -- the block lies above the last finalized one and not above the last of that session.
  pub import_block-finalizes :
      (before after : ℕ) (block : Block Body Justs) (st : AlephBlockImport V Sig) (aux : Aux)
      (v : V) (sig : Sig) (s : State chain is_complete encode)
      → let period = s.handler.chain_cadence.session_period in
        before ≤ after
        → IsSafe before st.metrics
        → st.justification_open ≡ true
        → inner_import (record block { justifications = none }) st.inner ≡ (imported_block aux, v)
        → (aleph_justification decode into_justification inner_import block.justifications
            >>= decode)
          ≡ some sig
        → Keys.new 0 authorities ≡ some keybox
        → is_complete keybox block.post_hash sig ≡ true
        → session_id_from_block_num ((chain.client s.world).finalized_number + 1) period
          ≡ some session
        → (chain.client s.world).finalized_number < block.number
        → block.number ≤ last_block_of_session session period
        → (st' : AlephBlockImport V Sig) × (n : JustificationNotification Sig) × (import_block
              decode into_justification inner_import before after block st
            ≡ some (imported_block aux, st'))
          × (st'.justification_tx ≡ st.justification_tx ++ n ∷ [])
          × (n.hash ≡ block.post_hash)
          × IsFinalizedBy s n
  import_block-finalizes before after block st aux v sig s l safe is_open given j box c here above
        below =
      let (m, e, _) =
        import_block-note decode into_justification inner_import before after block st l safe in
      (
        record {
          inner = v;
          justification_tx = st.justification_tx ++ told ∷ [];
          justification_open = st.justification_open;
          metrics = m;
        },
        told,
        rw (given, noted) at e,
        refl,
        refl,
        λ i known p.
            round-told chain is_complete encode session authorities keybox box i told s known p c
              here above below,
      )
    where
      told : JustificationNotification Sig
      told = record { justification = sig; hash = block.post_hash; number = block.number }

      noted :
          imported_note decode into_justification inner_import block
            (imported_block aux)
            st.justification_open
          ≡ told ∷ []
      noted = rw (is_open, j) refl
