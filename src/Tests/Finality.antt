-- ===== src/Tests/Finality.antt =====
-- Tests of the way of finality from the aggregator's task to the handler.
use aleph_node.Common.{
  ℕ, List, ◌++◌, ◌≡◌, refl, some, false, [], ◌∷◌, arith, nat_eq, All, contains, set_insert,
}
use aleph_node.Common.Map.{get, insert, remove}
use aleph_node.Keys
use aleph_node.Session.{last_block_of_session, session_id_from_block_num}
use aleph_node.Justification.{JustificationNotification, State}
use aleph_node.Aggregator.{start_aggregation, next_multisigned_hash, wait, ready}
use aleph_node.Aggregator
use aleph_node.Finalization.{chain_extension_step, is_correct, ancestors}
use aleph_node.Party.{
  looping, run_aggregator, start, step, extend, start_headers, start_header, answer, notify,
}
use aleph_node.Party.Started.{IsFaithful}
use aleph_node.Finality.{IsKnown, Delivers, done, idle, told, Finalized}
use aleph_node.Finality.Signed.{IsSigned, sent, run-finalizes}
use aleph_node.Import.{
  AlephBlockImport, Block, imported_block, aleph_engine_id, aleph_justification, import_block,
}
use aleph_node.Finality.Imported.{IsFinalizedBy, import_block-finalizes}
use aleph_node.Tests.Node.{decode, into_justification, inner_import, importer, new_block}
use aleph_node.Tests.Data.{client}
use aleph_node.Tests.Chain.{
  chain, is_complete, encode, notification, keybox, parent_of, number_of, client-Agrees, counts,
  met, reached, quiet, input, handler,
}

abbrev at_work : State chain is_complete encode
at_work = record {
  handler = record handler {
    chain_cadence = record { session_period = 6; justifications_cadence = 100 };
  };
  world = 3;
  requests = [];
  finished = false;
}

known : IsKnown 0 (10 ∷ []) ((0, 10 ∷ []) ∷ [])
unfolding get Keys.new
known = (refl, λ other others e. (record { id = 0; own = 10; authorities = others }, ground arith))

delivered : Delivers chain is_complete encode 0 (10 ∷ []) (sent reached) (quiet ∷ input ∷ [])
unfolding run_aggregator step extend chain_extension_step is_correct ancestors start start_headers
    start_header start_aggregation Aggregator.notify_last_hash next_multisigned_hash wait ready get
    insert remove contains set_insert answer notify Aggregator.new
delivered = idle quiet known tt (told input notification known refl done)

met-IsFaithful :
    All
      (IsFaithful parent_of number_of 3
        (last_block_of_session 0 6)
        (IsSigned chain is_complete encode parent_of number_of 0 6 (10 ∷ []) keybox))
      met
met-IsFaithful = (client-Agrees, ((client-Agrees, (refl, tt)), tt))

met-reached : run_aggregator (last_block_of_session 0 6) met (looping (start client)) ≡ some reached
unfolding run_aggregator step extend chain_extension_step is_correct ancestors start start_headers
    start_header start_aggregation Aggregator.notify_last_hash next_multisigned_hash wait ready get
    insert remove contains set_insert answer notify Aggregator.new last_block_of_session
met-reached = refl

run-finalizes_example :
    Finalized chain is_complete encode parent_of number_of 6 3
      (sent reached)
      (quiet ∷ input ∷ [])
      at_work
run-finalizes_example =
    run-finalizes chain is_complete encode parent_of number_of 0 6 (10 ∷ []) keybox client met
      reached 3 (quiet ∷ input ∷ []) at_work (unfold Keys.new in refl) (omega arith) (omega arith)
      (omega arith) refl counts met-IsFaithful met-reached (λ w hash j p c. (refl, refl)) delivered
      (record { hash = refl; number = refl; cadence = refl; goes = refl })

abbrev justified_block : Block ℕ (List (ℕ × ℕ))
justified_block = record new_block { justifications = some ((aleph_engine_id, 5) ∷ []) }

import_block-finalizes_example :
    (st' : AlephBlockImport ℕ ℕ) × (n : JustificationNotification ℕ) × (import_block decode
        into_justification inner_import 1 2 justified_block importer
      ≡ some (imported_block 0, st'))
    × (st'.justification_tx ≡ importer.justification_tx ++ n ∷ [])
    × (n.hash ≡ justified_block.post_hash)
    × IsFinalizedBy chain is_complete encode decode into_justification inner_import 0
        (10 ∷ [])
        keybox
        at_work
        n
import_block-finalizes_example =
    import_block-finalizes chain is_complete encode decode into_justification inner_import 0
      (10 ∷ []) keybox 1 2 justified_block importer 0 1 5 at_work (omega arith) tt refl refl
      (unfold aleph_justification in refl) (unfold Keys.new in refl) refl
      (unfold session_id_from_block_num in refl) (omega arith)
      (unfold last_block_of_session in omega arith)
