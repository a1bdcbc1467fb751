-- ===== src/Aggregator.antt =====
-- `BlockSignatureAggregator` of finality-aleph/src/aggregator.rs. The reliable multicast is outside
-- the repository: what it is told to start, what it is fed and what is sent for it are logs of the
-- state, and what it and the network give is a list of events, in the order in which `select!`
-- takes them. Multisignatures are of type `Sig` and messages of type `M`.
pub mod Order
pub mod Wait
use aleph_node.Common.{
  ℕ, Bool, true, false, Option, none, some, List, [], ◌∷◌, ◌++◌, nat_eq, if◌then◌else◌, contains,
  set_insert,
}
use aleph_node.Common.Map.{Map, get, insert, remove}

pub record Aggregator (Sig M : Type 0) : Type 0 where
  pub messages_for_rmc : List M
  pub signatures : Map ℕ Sig
  pub hash_queue : List ℕ
  pub sent : List M
  pub rmc_started : List ℕ
  pub last_hash_placed : Bool
  pub started_hashes : List ℕ

-- A branch of the inner `select!`; the flag of `message_from_rmc` tells whether the network takes
-- the message, and `none` is a closed channel.
pub data Event (Sig M : Type 0) : Type 0 where
  multisigned_hash : ℕ → Sig → Event Sig M
  message_from_rmc : Option M → Bool → Event Sig M
  message_from_network : Option M → Event Sig M

-- `pending`: the events are over and the future still waits, where it may be dropped.
pub data Outcome (Sig M : Type 0) : Type 0 where
  pending : Aggregator Sig M → Outcome Sig M
  panicked : Outcome Sig M
  returned : Option (ℕ × Sig) → Aggregator Sig M → List (Event Sig M) → Outcome Sig M

module _ {Sig M : Type 0} where
  unfoldable pub new : Aggregator Sig M
  new = record {
    messages_for_rmc = [];
    signatures = [];
    hash_queue = [];
    sent = [];
    rmc_started = [];
    last_hash_placed = false;
    started_hashes = [];
  }

  unfoldable pub start_aggregation : ℕ → Aggregator Sig M → Aggregator Sig M
  start_aggregation hash st = if contains st.started_hashes hash then st else record st {
    started_hashes = set_insert hash st.started_hashes;
    hash_queue = st.hash_queue ++ hash ∷ [];
    rmc_started = st.rmc_started ++ hash ∷ [];
  }

  unfoldable pub notify_last_hash : Aggregator Sig M → Aggregator Sig M
  notify_last_hash st = record st { last_hash_placed = true }

  -- The `match` at the top of the outer loop: what it returns, if it does.
  unfoldable pub ready : List ℕ → Aggregator Sig M → Option (Option (ℕ × Sig) × Aggregator Sig M)
  ready (hash ∷ queue) st = elim (get st.signatures hash) [
    | some multisignature ↦ some (
      some (hash, multisignature),
      record st { signatures = remove hash st.signatures; hash_queue = queue },
    )
    | none ↦ none
  ]
  ready [] st = if st.last_hash_placed then some (none, st) else none

  -- The inner loop, with the top of the outer loop after each `break`. The receiver of
  -- `messages_for_rmc` belongs to the multicast in the same struct, so sending there cannot fail.
  unfoldable pub wait : List (Event Sig M) → Aggregator Sig M → Outcome Sig M
  unfolding ready
  wait [] st = pending st
  wait (multisigned_hash hash unchecked ∷ es) st =
      let st' : Aggregator Sig M = record st { signatures = insert hash unchecked st.signatures } in
      elim (ready st'.hash_queue st') [
        | some (answer, st'') ↦ returned answer st'' es
        | none ↦ wait es st'
      ]
  wait (message_from_rmc (some message) true ∷ es) st =
      wait es (record st { sent = st.sent ++ message ∷ [] })
  wait (message_from_rmc (some message) false ∷ es) st = panicked
  wait (message_from_rmc none accepted ∷ es) st = wait es st
  wait (message_from_network (some message) ∷ es) st =
      wait es (record st { messages_for_rmc = st.messages_for_rmc ++ message ∷ [] })
  wait (message_from_network none ∷ es) st = returned none st es

  unfoldable pub next_multisigned_hash : List (Event Sig M) → Aggregator Sig M → Outcome Sig M
  unfolding wait
  next_multisigned_hash es st = elim (ready st.hash_queue st) [
    | some (answer, st') ↦ returned answer st' es
    | none ↦ wait es st
  ]
