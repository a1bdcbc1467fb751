-- ===== src/Tests/Chain.antt =====
-- Tests of the justification handler, the aggregator and its task.
use aleph_node.Common.{
  ℕ, ◌*◌, ◌≤◌, ◌≡◌, ◌⊎◌, refl, Bool, true, false, Option, none, some, List, [], ◌∷◌, arith, nat_eq,
  nat_beq, contains, set_insert, All,
}
use aleph_node.Common.Map.{get, insert, remove}
use aleph_node.Keys.{KeyBox}
use aleph_node.Keys
use aleph_node.Session.{last_block_of_session, session_id_from_block_num}
use aleph_node.Justification.{
  Chain, JustificationNotification, Handler, ChainCadence, handle_justification_notification,
  notified, timed_out, Input, State, round, session_keybox, serve, request_justification,
  finalize_block, verify,
}
use aleph_node.Justification
use aleph_node.Justification.Safety.{Justified, round-Justified}
use aleph_node.Justification.Trace.{Trace, run-Trace}
use aleph_node.Justification.Cadence.{Spaced, run-Spaced}
use aleph_node.Finalization.{chain_extension_step, is_correct, ancestors}
use aleph_node.Aggregator.{
  Aggregator, Event, multisigned_hash, start_aggregation, next_multisigned_hash, wait, ready,
}
use aleph_node.Aggregator
use aleph_node.Aggregator.Order.{
  Inv, OutcomeInv, start_aggregation-Inv, new-Inv, next_multisigned_hash-Inv,
}
use aleph_node.Aggregator.Wait.{Returns, next_multisigned_hash-front, next_multisigned_hash-Ends}
use aleph_node.Party.{
  Status, looping, batch, signatures, run_aggregator, start, step, extend, start_headers,
  start_header, answer, notify,
}
use aleph_node.Party
use aleph_node.Party.Links.{Agrees, Counts}
use aleph_node.Party.Started.{StatusFormed, IsFaithful, run_aggregator-Formed}
use aleph_node.Party.Total.{IsSmooth, run_aggregator-total}
use aleph_node.Tests.Data.{block, client, client-IsCoherent, block_data}

-- The chain's state is the last finalized block.
abbrev pub chain : Chain ℕ ℕ
chain = record {
  client = λ w. record client { finalized_hash = w; finalized_number = w };
  apply_finality = λ h j w. (true, h);
}

abbrev pub is_complete : KeyBox → ℕ → ℕ → Bool
is_complete keybox h signature = nat_beq signature h

abbrev pub encode : ℕ → ℕ
encode j = j

abbrev cadence : ChainCadence
cadence = record { session_period = 5; justifications_cadence = 100 }

abbrev pub handler : Handler
handler = record { chain_cadence = cadence; last_request_time = 0; last_finalization_time = 0 }

abbrev pub notification : JustificationNotification ℕ
notification = record { justification = 4; hash = 4; number = 4 }

abbrev pub keybox : KeyBox
keybox = record { id = 0; own = 10; authorities = 10 ∷ [] }

abbrev pub input : Input chain is_complete encode
input = record {
  session_authorities = (0, 10 ∷ []) ∷ [];
  polled = notified notification;
  handled_at = 500;
  requested_at = 501;
}

abbrev before : State chain is_complete encode
before = record { handler = handler; world = 3; requests = []; finished = false }

abbrev after : State chain is_complete encode
after = record {
  handler = record handler { last_finalization_time = 500 };
  world = 4;
  requests = [];
  finished = false;
}

goes : round chain is_complete encode input before ≡ some after
unfolding round session_id_from_block_num last_block_of_session session_keybox Keys.new get serve
    handle_justification_notification finalize_block verify request_justification
goes = refl

ran : Justification.run chain is_complete encode (input ∷ []) before ≡ some after
unfolding Justification.run
ran = rw goes refl

run-Trace_example : Trace chain is_complete encode 5 (input ∷ []) before.world after.world
run-Trace_example = run-Trace chain is_complete encode (input ∷ []) before after ran

round-Justified_example :
    (after.world ≡ before.world) ⊎ Justified chain is_complete encode input before after 0
round-Justified_example =
    round-Justified chain is_complete encode input before after 0 goes
      (unfold session_id_from_block_num in refl) (omega arith) (omega arith)

abbrev pub quiet : Input chain is_complete encode
quiet = record {
  session_authorities = (0, 10 ∷ []) ∷ [];
  polled = timed_out;
  handled_at = 500;
  requested_at = 501;
}

abbrev asked : State chain is_complete encode
asked = record {
  handler = record handler { last_request_time = 501 };
  world = 3;
  requests = (501, record { hash = 4; number = 4 }) ∷ [];
  finished = false;
}

runs :
    Justification.run chain is_complete encode
      (quiet ∷ [])
      (record { handler = Justification.new 0 cadence; world = 3; requests = []; finished = false })
    ≡ some asked
unfolding Justification.run Justification.new round session_id_from_block_num last_block_of_session
    session_keybox Keys.new get serve request_justification
runs = refl

run-Spaced_example : Spaced (2 * cadence.justifications_cadence) asked.requests
run-Spaced_example = run-Spaced chain is_complete encode 0 cadence 3 (quiet ∷ []) asked runs

-- A signature is the hash that it is for, of a block that the client knows.
abbrev IsSigned : ℕ → ℕ → Type 0
IsSigned h s = (s ≡ h) × (h ≤ 9)

abbrev Agg : Type 0
Agg = Aggregator ℕ ℕ

abbrev two_started : Agg
two_started = start_aggregation 5 (start_aggregation 4 Aggregator.new)

two_started-Inv : Inv IsSigned [] two_started
two_started-Inv =
    start_aggregation-Inv IsSigned [] 5 (start_aggregation 4 Aggregator.new)
      (start_aggregation-Inv IsSigned [] 4 Aggregator.new (new-Inv IsSigned))

abbrev events : List (Event ℕ ℕ)
events = multisigned_hash 5 5 ∷ multisigned_hash 4 4 ∷ []

next_multisigned_hash-Inv_example :
    OutcomeInv IsSigned [] (next_multisigned_hash events two_started)
next_multisigned_hash-Inv_example =
    next_multisigned_hash-Inv IsSigned [] events two_started
      ((refl, omega arith), ((refl, omega arith), tt)) two_started-Inv

next_multisigned_hash-front_example :
    Returns 4 (next_multisigned_hash (multisigned_hash 5 5 ∷ multisigned_hash 4 4 ∷ []) two_started)
next_multisigned_hash-front_example =
    next_multisigned_hash-front 4 (5 ∷ []) 4 (multisigned_hash 5 5 ∷ []) [] two_started
      (unfold start_aggregation Aggregator.new contains set_insert in refl) (tt, tt)

-- Nothing is left to sign.
abbrev done : Agg
done = record {
  messages_for_rmc = [];
  signatures = [];
  hash_queue = [];
  sent = [];
  rmc_started = 4 ∷ [];
  last_hash_placed = true;
  started_hashes = 4 ∷ [];
}

next_multisigned_hash-Ends_example : (done.hash_queue ≡ []) × (done.last_hash_placed ≡ true)
next_multisigned_hash-Ends_example =
    next_multisigned_hash-Ends events done
      (done, events, unfold next_multisigned_hash ready in refl) refl

abbrev pub parent_of : ℕ → ℕ
parent_of h = (block h).parent_hash

abbrev pub number_of : ℕ → ℕ
number_of h = h

pub client-Agrees : Agrees parent_of number_of client
client-Agrees = record {
  header = λ h x e. (ground arith, ground arith, ground arith);
  number = λ h n e. ground arith;
}

pub counts : Counts parent_of number_of
counts h l = ground arith

abbrev pub met : List (Party.Event ℕ ℕ)
met = batch client (some (block_data 5 ∷ [])) ∷ signatures client (multisigned_hash 4 4 ∷ []) ∷ []

met-IsFaithful : All (IsFaithful parent_of number_of 3 5 IsSigned) met
met-IsFaithful = (client-Agrees, ((client-Agrees, ((refl, omega arith), tt)), tt))

met-IsSmooth : All (IsSmooth parent_of number_of 3 5 IsSigned) met
met-IsSmooth = (client-IsCoherent, (((tt, tt), λ h s k. (h, ground (arith, k.1))), tt))

run_aggregator-total_example :
    (status : Status ℕ ℕ) × (run_aggregator 5 met (looping (start client)) ≡ some status)
run_aggregator-total_example =
    run_aggregator-total parent_of number_of 3 5 IsSigned client met refl counts met-IsFaithful
      met-IsSmooth

abbrev or_start : Option (Status ℕ ℕ) → Status ℕ ℕ
or_start none = looping (start client)
or_start (some status) = status

abbrev pub reached : Status ℕ ℕ
reached = or_start (run_aggregator 5 met (looping (start client)))

met-reached : run_aggregator 5 met (looping (start client)) ≡ some reached
unfolding run_aggregator step extend chain_extension_step is_correct ancestors start start_headers
    start_header start_aggregation Aggregator.notify_last_hash next_multisigned_hash wait ready get
    insert remove contains set_insert answer notify Aggregator.new
met-reached = refl

run_aggregator-Formed_example : StatusFormed parent_of number_of 3 5 IsSigned reached
run_aggregator-Formed_example =
    run_aggregator-Formed parent_of number_of 3 5 IsSigned client met reached refl counts
      met-IsFaithful met-reached
