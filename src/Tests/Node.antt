-- ===== src/Tests/Node.antt =====
-- Tests of the pallet, the metrics, the import and the loop over the sessions.
use aleph_node.Common.{
  ℕ, ◌+◌, ◌≤◌, ◌<◌, ◌≡◌, ◌↔◌, refl, Bool, true, Option, none, some, List, [], ◌∷◌, ◌++◌, arith,
  nat_eq, nat_beq, contains, if◌then◌else◌, length,
}
use aleph_node.Common.Map.{get, insert, remove}
use aleph_node.Pallet.{
  Pallet, GenesisConfig, Call, change, session_planned, build, is_empty, on_genesis_session,
  ApiResult, next_session_authorities,
}
use aleph_node.Pallet
use aleph_node.Pallet.Refinement.{
  answers, Shows, pending_after, planned, nones, run-build, run-change,
}
use aleph_node.Metrics.{Metrics, Report, register, report_all, importing, imported}
use aleph_node.Metrics.Reports.{Reported, report_all-first, register-IsComplete, unstarted}
use aleph_node.Import.{
  AlephBlockImport, Block, InnerResult, imported_block, JustificationResult, aleph_engine_id,
  import_justification, import_block,
}
use aleph_node.Import.Safe.{IsSafe}
use aleph_node.Import.Notified.{note, imported_note, import_justification-note, import_block-note}
use aleph_node.Party.{
  session_authorities_of, position, prune, RuntimeApi, Observed, was_authority, run_session,
  run_from, get_node_index,
}
use aleph_node.Party.Sessions.{Reached, run_session-Reached, run_from-bounded}
use aleph_node.Party.Signs.{IsAccepted, get_node_index-Signs}
use aleph_node.Keys.{KeyBox, Signature}
use aleph_node.Keys
use aleph_node.Keys.Authority.{Keystore, sign_as}
use aleph_node.Client.{ok}
use aleph_node.Session.{last_block_of_session}

abbrev config : GenesisConfig ℕ ℕ
config = record {
  authorities = [];
  session_period = 900;
  millisecs_per_block = 1000;
  validators = 1 ∷ 2 ∷ [];
}

abbrev calls : List (Call ℕ ℕ)
calls = session_planned 0 ∷ change true (3 ∷ []) 5 ∷ session_planned 1 ∷ session_planned 5 ∷ []

run-build_example :
    (st' : Pallet ℕ ℕ) × ((Pallet.run calls (build config Pallet.new)
        ≡ some (answers calls (some (config.validators, 0)), st'))
      × Shows st' (pending_after calls (some (config.validators, 0))))
run-build_example = run-build config Pallet.new calls

run-change_example :
    (st' : Pallet ℕ ℕ) × (Pallet.run
        (change true (3 ∷ []) 5 ∷ (planned (1 ∷ 2 ∷ []) ++ session_planned 6 ∷ planned (7 ∷ [])))
        Pallet.new
      ≡ some (none ∷ (nones (1 ∷ 2 ∷ []) ++ some (3 ∷ []) ∷ nones (7 ∷ [])), st'))
run-change_example =
    run-change (3 ∷ []) 5 6 (1 ∷ 2 ∷ []) (7 ∷ []) Pallet.new (omega arith, (omega arith, tt))
      (omega arith)

abbrev reports : List Report
reports =
    record { hash = 5; checkpoint = 1000; name = importing }
    ∷ record { hash = 5; checkpoint = 4_000_000; name = imported }
    ∷ []

report_all-first_example : Reported [] reports (report_all reports register)
report_all-first_example = report_all-first reports

-- Justifications are a list of engine ids with numbers; a number above 9 cannot be decoded. The inner
-- import counts what it imports.
abbrev pub decode : ℕ → Option ℕ
decode raw = if nat_beq raw 10 then none else some raw

abbrev pub into_justification : List (ℕ × ℕ) → ℕ → Option ℕ
into_justification [] engine = none
into_justification ((e, raw) ∷ js) engine =
    if nat_beq e engine then some raw else into_justification js engine

abbrev pub inner_import : Block ℕ (List (ℕ × ℕ)) → ℕ → InnerResult ℕ ℕ ℕ × ℕ
inner_import b w = (imported_block w, w + 1)

abbrev pub importer : AlephBlockImport ℕ ℕ
importer = record { inner = 0; justification_tx = []; justification_open = true; metrics = none }

import_justification-note_example :
    ((import_justification decode into_justification inner_import 5 5
        (aleph_engine_id, 3)
        importer).1
      ≡ (record importer {
        justification_tx =
            importer.justification_tx
            ++ (if nat_beq aleph_engine_id aleph_engine_id
                then note decode into_justification inner_import 5 5 importer.justification_open
                    (decode 3)
                else []);
      }))
    × (((import_justification decode into_justification inner_import 5 5
            (aleph_engine_id, 3)
            importer).0
          ≡ JustificationResult.ok)
        ↔ ((aleph_engine_id ≡ aleph_engine_id)
            × ((j : ℕ) × (decode 3 ≡ some j))
            × (importer.justification_open ≡ true)))
import_justification-note_example =
    import_justification-note decode into_justification inner_import 5 5 aleph_engine_id 3 importer

abbrev pub new_block : Block ℕ (List (ℕ × ℕ))
new_block = record {
  number = 5;
  post_hash = 5;
  justifications = some ((aleph_engine_id, 3) ∷ []);
  body = 0;
}

-- The same with metrics.
abbrev measured : AlephBlockImport ℕ ℕ
measured = record importer { metrics = some register }

register-IsSafe : IsSafe 1 (some register)
register-IsSafe = (register-IsComplete, λ k h t e. absurd (ground (arith, unstarted k h)))

import_block-note_example :
    (m : Option Metrics) × (import_block decode into_justification inner_import 1 2 new_block
        measured
      ≡ some (
        imported_block 0,
        record {
          inner = 1;
          justification_tx =
              measured.justification_tx
              ++ imported_note decode into_justification inner_import new_block
                  (imported_block 0)
                  true;
          justification_open = true;
          metrics = m;
        },
      ))
    × IsSafe 2 m
import_block-note_example =
    import_block-note decode into_justification inner_import 1 2 new_block measured (omega arith)
      register-IsSafe

abbrev api : RuntimeApi
api = record {
  authorities = some (10 ∷ 11 ∷ []);
  next_session_authorities = λ b. some (some (11 ∷ 12 ∷ []));
}

-- The last block of session 1 is finalized at the third poll.
abbrev seen : Observed
seen = record { best_number = 3; attempts = []; polls = 3 ∷ 8 ∷ 9 ∷ [] }

ran : run_session api (12 ∷ []) 5 1 seen [] ≡ some (was_authority 1, (1, 11 ∷ 12 ∷ []) ∷ [])
unfolding run_session session_authorities_of last_block_of_session position insert remove contains
ran = refl

run_session-Reached_example : Reached (last_block_of_session 1 5) (seen.attempts ++ seen.polls)
run_session-Reached_example =
    run_session-Reached api (12 ∷ []) 5 1 seen [] ((1, 11 ∷ 12 ∷ []) ∷ []) (was_authority 1) ran
      (λ e. ground arith)

ran_one :
    run_from api (12 ∷ []) 5 1 (seen ∷ []) [] ≡ some (was_authority 1 ∷ [], (1, 11 ∷ 12 ∷ []) ∷ [])
unfolding run_from run_session session_authorities_of last_block_of_session position insert remove
    contains prune
ran_one = refl

run_from-bounded_example :
    (1 ≤ 1) × (1 < 1 + length (seen ∷ [])) × (1 + length (seen ∷ []) ≤ 1 + 20)
run_from-bounded_example =
    run_from-bounded api (12 ∷ []) 5 1 (seen ∷ []) ((1, 11 ∷ 12 ∷ []) ∷ []) (was_authority 1 ∷ []) 1
      (11 ∷ 12 ∷ []) ran_one (omega arith) (unfold get in refl)

-- A keystore is the list of its keys, and a signature the sum of the key and the message.
abbrev sums : Keystore (List ℕ) ℕ ℕ ℕ
sums = record {
  keys = λ store key_type. store;
  sign_with = λ store key_type a msg. ok (some (a + msg));
  try_into = some;
}

abbrev is_sum : ℕ → ℕ → ℕ → Bool
is_sum a msg sgn = nat_beq sgn (a + msg)

get_node_index-Signs_example :
    (keybox : KeyBox) × (signature : Signature ℕ) × (Keys.new 1 (10 ∷ 11 ∷ []) ≡ some keybox)
    × (sign_as sums keybox (11 ∷ []) 5 ≡ some signature)
    × (signature.id ≡ 1)
    × IsAccepted sums is_sum (10 ∷ 11 ∷ []) 5 signature 1
get_node_index-Signs_example =
    get_node_index-Signs sums is_sum (10 ∷ 11 ∷ []) (11 ∷ []) 1 5
      (λ a h msg. (a + msg, a + msg, refl, refl, ground arith))
      (unfold get_node_index position contains in refl)
