-- ===== src/Import/Notified.antt =====
-- Which notifications finality-aleph/src/import.rs sends, and that it leaves the import as it is.
use aleph_node.Common.{
  ◌≡◌, ◌≤◌, ◌↔◌, refl, inl, inr, ℕ, Bool, true, Option, none, some, List, [], ◌∷◌, ◌++◌, append-nil,
  arith, nat_beq, if◌then◌else◌, ◌>>=◌, Bool-cases, Option-cases,
}
use aleph_node.Justification.{JustificationNotification}
use aleph_node.Metrics.{Metrics, Checkpoint, checkpoint_eq, importing, imported}
use aleph_node.Import.{
  AlephBlockImport, Block, InnerResult, imported_block, other_result, JustificationResult,
  aleph_engine_id, unbounded_send, send_decoded, send_justification, report, aleph_justification,
  send_along, after_import, import_block, import_justification,
}
use aleph_node.Import.Safe.{IsSafe, later-IsSafe, report_block-IsSafe}

module _ {W Body Justs Raw J Aux Other Error : Type 0} (decode : Raw → Option J)
    (into_justification : Justs → ℕ → Option Raw)
    (inner_import : Block Body Justs → W → InnerResult Aux Other Error × W) where
  -- The notification for a decoded justification, over an open channel.
  abbrev pub note : ℕ → ℕ → Bool → Option J → List (JustificationNotification J)
  note hash number true (some j) = record { justification = j; hash = hash; number = number } ∷ []
  note hash number _ _ = []

  send_justification-note :
      (hash number engine : ℕ) (raw : Raw) (st : AlephBlockImport W J)
      → (send_justification decode into_justification inner_import hash number (engine, raw) st).1
        ≡ (record st {
          justification_tx =
              st.justification_tx
              ++ (if nat_beq engine aleph_engine_id
                  then note hash number st.justification_open (decode raw)
                  else []);
        })
  unfolding send_justification send_decoded unbounded_send
  send_justification-note hash number engine raw st =
      elim (Bool-cases (nat_beq engine aleph_engine_id)) [
        | inr f ↦ rw (f, append-nil st.justification_tx) refl
        | inl t ↦ elim (Option-cases (decode raw)) [
          | inl n ↦ elim (Bool-cases st.justification_open) [
            | inl o ↦ rw (t, n, o, append-nil st.justification_tx) refl
            | inr o ↦ rw (t, n, o, append-nil st.justification_tx) refl
          ]
          | inr (j, n) ↦ elim (Bool-cases st.justification_open) [
            | inl o ↦ rw (t, n, o) refl
            | inr o ↦ rw (t, n, o, append-nil st.justification_tx) refl
          ]
        ]
      ]

  -- What `import_justification` does. It answers `ok` exactly if the justification is one of Aleph,
  -- can be decoded, and the channel is open; then it sends one notification, of the given block and
  -- the decoded justification, and otherwise none. Nothing else of the state changes.
  pub import_justification-note :
      (hash number engine : ℕ) (raw : Raw) (st : AlephBlockImport W J)
      → ((import_justification decode into_justification inner_import hash number
            (engine, raw)
            st).1
          ≡ (record st {
            justification_tx =
                st.justification_tx
                ++ (if nat_beq engine aleph_engine_id
                    then note hash number st.justification_open (decode raw)
                    else []);
          }))
        × (((import_justification decode into_justification inner_import hash number
                (engine, raw)
                st).0
              ≡ JustificationResult.ok)
            ↔ ((engine ≡ aleph_engine_id)
                × ((j : J) × (decode raw ≡ some j))
                × (st.justification_open ≡ true)))
  unfolding import_justification send_justification send_decoded unbounded_send
  import_justification-note hash number engine raw st =
      (send_justification-note hash number engine raw st, (there, back))
    where
      there :
          (import_justification decode into_justification inner_import hash number
              (engine, raw)
              st).0
            ≡ JustificationResult.ok
          → (engine ≡ aleph_engine_id)
            × ((j : J) × (decode raw ≡ some j))
            × (st.justification_open ≡ true)
      there h = elim (Bool-cases (nat_beq engine aleph_engine_id)) [
        | inr f ↦ absurd (ground arith)
        | inl t ↦ elim (Option-cases (decode raw)) [
          | inl n ↦ absurd (ground arith)
          | inr (j, n) ↦ elim (Bool-cases st.justification_open) [
            | inl o ↦ (ground arith, (j, n), o)
            | inr o ↦ absurd (ground arith)
          ]
        ]
      ]

      back :
          (engine ≡ aleph_engine_id)
            × ((j : J) × (decode raw ≡ some j))
            × (st.justification_open ≡ true)
          → (import_justification decode into_justification inner_import hash number
              (engine, raw)
              st).0
            ≡ JustificationResult.ok
      back (e, (j, d), o) = ground arith

  report-IsSafe :
      (hash now : ℕ) (name : Checkpoint) (st : AlephBlockImport W J)
      → IsSafe now st.metrics
      → (m : Option Metrics) × (report decode into_justification inner_import hash now name st
          ≡ some (record st { metrics = m }))
        × IsSafe now m
  unfolding report
  report-IsSafe hash now name st h = go st.metrics refl h
    where
      go :
          (o : Option Metrics)
          → st.metrics ≡ o
          → IsSafe now o
          → (m : Option Metrics) × (report decode into_justification inner_import hash now name st
              ≡ some (record st { metrics = m }))
            × IsSafe now m
      go none e c = (none, rw e refl, tt)
      go (some m) e c =
          let (m', e', c') = report_block-IsSafe hash now name m c in (some m', rw (e, e') refl, c')

  send_along-note :
      (hash number : ℕ) (raw : Option Raw) (st : AlephBlockImport W J)
      → send_along decode into_justification inner_import hash number raw st ≡ (record st {
        justification_tx =
            st.justification_tx ++ note hash number st.justification_open (raw >>= decode);
      })
  unfolding send_along
  send_along-note hash number none st = elim (Bool-cases st.justification_open) [
    | inl o ↦ rw (o, append-nil st.justification_tx) refl
    | inr o ↦ rw (o, append-nil st.justification_tx) refl
  ]
  send_along-note hash number (some raw) st =
      send_justification-note hash number aleph_engine_id raw st

  -- The notifications of an imported block; another result of the inner import sends none.
  abbrev pub imported_note :
      Block Body Justs → InnerResult Aux Other Error → Bool → List (JustificationNotification J)
  imported_note block (imported_block aux) is_open =
      note block.post_hash block.number is_open
        (aleph_justification decode into_justification inner_import block.justifications >>= decode)
  imported_note block _ is_open = []

  -- With metrics that have all that the code expects of them, and no start time later than the
  -- first of the two instants, if the second is not before the first, importing a block does not
  -- panic and leaves no start time later than the second: it hands the block on without its
  -- justifications, and its result and the inner state are what the inner import gives. If that has
  -- imported the block, the Aleph justification which came along is notified, if there is one, it
  -- can be decoded and the channel is open; in every other case nothing is sent.
  pub import_block-note :
      (before after : ℕ) (block : Block Body Justs) (st : AlephBlockImport W J)
      → before ≤ after
      → IsSafe before st.metrics
      → let given = inner_import (record block { justifications = none }) st.inner in
        (m : Option Metrics) × (import_block decode into_justification inner_import before after
            block st
          ≡ some (
            given.0,
            record {
              inner = given.1;
              justification_tx =
                  st.justification_tx ++ imported_note block given.0 st.justification_open;
              justification_open = st.justification_open;
              metrics = m;
            },
          ))
        × IsSafe after m
  unfolding import_block after_import
  import_block-note before after block st l h =
      let (m, e, s) = report-IsSafe block.post_hash before importing st h in
      go m e s (inner_import (record block { justifications = none }) st.inner) refl
    where
      go :
          (m : Option Metrics)
          → report decode into_justification inner_import block.post_hash before importing st
            ≡ some (record st { metrics = m })
          → IsSafe before m
          → (g : InnerResult Aux Other Error × W)
          → inner_import (record block { justifications = none }) st.inner ≡ g
          → (m : Option Metrics) × (import_block decode into_justification inner_import before after
                block st
              ≡ some (
                g.0,
                record {
                  inner = g.1;
                  justification_tx =
                      st.justification_tx ++ imported_note block g.0 st.justification_open;
                  justification_open = st.justification_open;
                  metrics = m;
                },
              ))
            × IsSafe after m
      go m e s (other_result r, w) q =
          (m, rw (e, q, append-nil st.justification_tx) refl, later-IsSafe before after m l s)
      go m e s (InnerResult.err r, w) q =
          (m, rw (e, q, append-nil st.justification_tx) refl, later-IsSafe before after m l s)
      go m e s (imported_block aux, w) q =
          let along =
            send_along-note block.post_hash block.number
              (aleph_justification decode into_justification inner_import block.justifications)
              (record st { inner = w; metrics = m }) in
          let (m', e', s') =
            report-IsSafe block.post_hash after imported
              (send_along decode into_justification inner_import block.post_hash block.number
                (aleph_justification decode into_justification inner_import block.justifications)
                (record st { inner = w; metrics = m }))
              (rw along (later-IsSafe before after m l s)) in
          (m', rw (e, q, e', along) refl, s')
