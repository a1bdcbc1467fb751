-- ===== src/Party.antt =====
-- finality-aleph/src/party.rs: the aggregator's task, and the parts of the session loop that
-- compute. A panic is `none`.
pub mod Links
pub mod Formed
pub mod Started
pub mod Node
pub mod Signs
pub mod Total
pub mod Sessions
pub mod Shutdown
pub mod Delays
pub mod Launch
pub mod Authority
use aleph_node.Common.{
  ℕ, zero, suc, ◌+◌, ◌-◌, ◌*◌, ◌/◌, ◌%◌, ◌^◌, min, Bool, true, false, ◌&&◌, not, Option, none, some,
  List, [], ◌∷◌, ◌++◌, ltb, leb, nat_beq, nat_eq, if◌then◌else◌, ◌>>=◌, contains,
}
use aleph_node.Common.Map.{Map, insert, retain}
use aleph_node.Client.{BackendResult, ok, backend_error, Header, Client}
use aleph_node.DataIo.{AlephData}
use aleph_node.Finalization.{chain_extension_step}
use aleph_node.Aggregator
use aleph_node.Aggregator.{
  Aggregator, Outcome, pending, panicked, returned, start_aggregation, notify_last_hash,
  next_multisigned_hash,
}
use aleph_node.Justification.{JustificationNotification, SessionMap}
use aleph_node.Session.{last_block_of_session, session_id_from_block_num}

-- The variables of `run_aggregator`, and what it sent to the justification handler.
pub record Running (Sig M : Type 0) : Type 0 where
  pub aggregator : Aggregator Sig M
  pub last_finalized : ℕ
  pub last_block_seen : Bool
  pub justification_tx : List (JustificationNotification Sig)

-- Where the task stands: in its loop, waiting for the exit signal after it, or done.
pub data Status (Sig M : Type 0) : Type 0 where
  looping : Running Sig M → Status Sig M
  awaiting_exit : Running Sig M → Status Sig M
  exited : Running Sig M → Status Sig M

-- A branch of `select!`, with the client at that time. `signatures` is what the future
-- `next_multisigned_hash` meets before it returns or is dropped.
pub data Event (Sig M : Type 0) : Type 0 where
  batch : Client → Option (List AlephData) → Event Sig M
  signatures : Client → List (Aggregator.Event Sig M) → Event Sig M
  exit : Event Sig M

-- `client.number(hash).unwrap().unwrap()`
abbrev pub unwrap_number : BackendResult (Option ℕ) → Option ℕ
unwrap_number (ok number) = number
unwrap_number backend_error = none

module _ {Sig M : Type 0} where
  -- The variables before the loop.
  unfoldable pub start : Client → Running Sig M
  start client = record {
    aggregator = Aggregator.new;
    last_finalized = client.finalized_hash;
    last_block_seen = false;
    justification_tx = [];
  }

  -- The first `if` of the loop over the headers.
  unfoldable pub start_header : ℕ → Header → Running Sig M → Running Sig M
  start_header last_block_in_session header st =
      if leb header.number last_block_in_session
      then record st {
        aggregator = start_aggregation header.hash st.aggregator;
        last_finalized = header.hash;
      }
      else st

  -- The loop over the headers, which the second `if` breaks.
  unfoldable pub start_headers : ℕ → List Header → Running Sig M → Running Sig M
  unfolding start_header
  start_headers last_block_in_session [] st = st
  start_headers last_block_in_session (header ∷ headers) st =
      let st' = start_header last_block_in_session header st in
      let rest = start_headers last_block_in_session headers st' in
      if leb last_block_in_session header.number
      then record st' { aggregator = notify_last_hash st'.aggregator; last_block_seen = true }
      else rest

  unfoldable pub extend : Client → ℕ → List AlephData → Running Sig M → Option (Running Sig M)
  extend client last_block_in_session [] st = some st
  extend client last_block_in_session (new_block_data ∷ rest) st = do
    to_finalize_headers ← chain_extension_step st.last_finalized new_block_data client
    extend client last_block_in_session rest
        (start_headers last_block_in_session to_finalize_headers st)

  unfoldable pub notify : Client → ℕ → Sig → Running Sig M → Option (Running Sig M)
  notify client hash multisignature st = do
    number ← unwrap_number (client.number hash)
    some (record st {
      justification_tx =
          st.justification_tx
          ++ record { justification = multisignature; hash = hash; number = number } ∷ [];
    })

  unfoldable pub answer : Client → Outcome Sig M → Running Sig M → Option (Status Sig M)
  unfolding notify
  answer client (pending aggregator) st = some (looping (record st { aggregator = aggregator }))
  answer client panicked st = none
  answer client (returned (some (hash, multisignature)) aggregator rest) st = do
    st' ← notify client hash multisignature (record st { aggregator = aggregator })
    some (looping st')
  answer client (returned none aggregator rest) st =
      some (awaiting_exit (record st { aggregator = aggregator }))

  unfoldable pub step : ℕ → Event Sig M → Running Sig M → Option (Status Sig M)
  step last_block_in_session (batch client (some new_blocks)) st =
      if st.last_block_seen
      then some (looping st)
      else (extend client last_block_in_session new_blocks st >>= λ st'. some (looping st'))
  step last_block_in_session (batch client none) st = some (awaiting_exit st)
  step last_block_in_session (signatures client events) st =
      answer client (next_multisigned_hash events st.aggregator) st
  step last_block_in_session exit st = some (exited st)

  abbrev pub after_loop : Event Sig M → Running Sig M → Status Sig M
  after_loop exit st = exited st
  after_loop _ st = awaiting_exit st

  unfoldable pub run_aggregator : ℕ → List (Event Sig M) → Status Sig M → Option (Status Sig M)
  unfolding step
  run_aggregator last_block_in_session [] status = some status
  run_aggregator last_block_in_session (e ∷ es) (looping st) = do
    status ← step last_block_in_session e st
    run_aggregator last_block_in_session es status
  run_aggregator last_block_in_session (e ∷ es) (awaiting_exit st) =
      run_aggregator last_block_in_session es (after_loop e st)
  run_aggregator last_block_in_session (e ∷ es) (exited st) = some (exited st)

-- The cadence of justification requests of `run_consensus_party`, on `u64`.
unfoldable pub cadence : ℕ → ℕ → ℕ
cadence millisecs_per_block session_period =
    min (millisecs_per_block * 2 % 2 ^ 64) (millisecs_per_block * session_period % 2 ^ 64 / 10)

-- `Iterator::position`
unfoldable pub position : (ℕ → Bool) → List ℕ → Option ℕ
position p [] = none
position p (a ∷ rest) = if p a then some 0 else (position p rest >>= λ i. some (suc i))

-- `get_node_index`, with the keys of the keystore.
unfoldable pub get_node_index : List ℕ → List ℕ → Option ℕ
unfolding position
get_node_index authorities our_consensus_keys =
    position (λ pkey. contains our_consensus_keys pkey) authorities

unfoldable pub prune_session_data : ℕ → SessionMap → SessionMap
prune_session_data prune_below session_authorities =
    retain (λ s _. leb prune_below s) session_authorities

-- What `run_session` reads of the runtime: the authorities at block 0, and the next session's at a
-- block. The outer `Option` is an error of the client, the inner one of the runtime.
pub record RuntimeApi : Type 0 where
  pub authorities : Option (List ℕ)
  pub next_session_authorities : ℕ → Option (Option (List ℕ))

-- The first statement of `run_session`: the authorities, or an early return, or a panic.
pub data Fetched : Type 0 where
  fetched : List ℕ → Fetched
  gave_up : Fetched
  fetch_panicked : Fetched

abbrev pub unwrapped : Option (List ℕ) → Fetched
unwrapped (some authorities) = fetched authorities
unwrapped none = fetch_panicked

unfoldable pub session_authorities_of : RuntimeApi → ℕ → ℕ → Fetched
session_authorities_of api session_period session_id =
    if nat_beq session_id 0
    then unwrapped api.authorities
    else elim (api.next_session_authorities
        (last_block_of_session (session_id - 1) session_period)) [
          | some answer ↦ unwrapped answer
          | none ↦ gave_up
        ]

-- How `run_session` ends: early, skipped because the session is over, or after it was run, as an
-- authority or not.
pub data Ran : Type 0 where
  errored : Ran
  skipped : Ran
  was_authority : ℕ → Ran
  was_observer : Ran

-- The numbers of the last finalized block that the attempts of the early skip see, ten at most.
unfoldable pub skips : ℕ → ℕ → List ℕ → Bool
skips zero last_block seen = false
skips (suc attempts) last_block [] = false
skips (suc attempts) last_block (last_finalized ∷ seen) =
    let rest = skips attempts last_block seen in
    if leb last_block last_finalized then true else rest

abbrev pub ran_as : Option ℕ → Ran
ran_as (some node_id) = was_authority node_id
ran_as none = was_observer

-- The last loop: it polls until the last block of the session is finalized; `none` when the polls
-- that are given do not get there.
unfoldable pub await_finalized : ℕ → List ℕ → Option ℕ
await_finalized last_block [] = none
await_finalized last_block (last_finalized ∷ polls) =
    let rest = await_finalized last_block polls in
    if leb last_block last_finalized then some last_finalized else rest

-- The client's best block as the session starts, and the finalized blocks that it shows later.
pub record Observed : Type 0 where
  pub best_number : ℕ
  pub attempts : List ℕ
  pub polls : List ℕ

-- `run_session`: what becomes of the session, and the map of session authorities. `none` is a panic,
-- or that the polls are over first.
unfoldable pub run_session :
    RuntimeApi → List ℕ → ℕ → ℕ → Observed → SessionMap → Option (Ran × SessionMap)
unfolding skips await_finalized get_node_index
run_session api keys session_period session_id observed sessions =
    elim (session_authorities_of api session_period session_id) [
      | fetch_panicked ↦ none
      | gave_up ↦ some (errored, sessions)
      | fetched authorities ↦
          let sessions' = insert session_id authorities sessions in
          let last_block = last_block_of_session session_id session_period in
          if leb last_block observed.best_number && skips 10 last_block observed.attempts
          then some (skipped, sessions')
          else (await_finalized last_block observed.polls >>= λ _.
              some (ran_as (get_node_index authorities keys), sessions'))
    ]

-- The end of a round of `run`.
unfoldable pub prune : ℕ → SessionMap → SessionMap
unfolding prune_session_data
prune curr_id sessions =
    if leb 10 curr_id && nat_beq (curr_id % 10) 0
    then prune_session_data (curr_id - 10) sessions
    else sessions

-- `run`, for as many sessions as there are observations, from `curr_id` on. The ids are those of a
-- range of `u32`, which wraps around in a release build.
unfoldable pub run_from :
    RuntimeApi → List ℕ → ℕ → ℕ → List Observed → SessionMap → Option (List Ran × SessionMap)
unfolding prune
run_from api keys session_period curr_id [] sessions = some ([], sessions)
run_from api keys session_period curr_id (observed ∷ rest) sessions = do
  ran ← run_session api keys session_period curr_id observed sessions
  later ← run_from api keys session_period ((curr_id + 1) % 2 ^ 32) rest (prune curr_id ran.1)
  some (ran.0 ∷ later.0, later.1)

unfoldable pub run :
    RuntimeApi → List ℕ → ℕ → ℕ → List Observed → SessionMap → Option (List Ran × SessionMap)
run api keys session_period last_finalized_number observed sessions = do
  starting_session ← session_id_from_block_num last_finalized_number session_period
  run_from api keys session_period starting_session observed sessions
