-- ===== src/Finality/Signed.antt =====
-- The blocks that `run_aggregator` of finality-aleph/src/party.rs has signed are those that the handler
-- of finality-aleph/src/justification.rs finalizes.
use aleph_node.Common.{
  ℕ, ◌+◌, ◌*◌, ◌^◌, ◌≤◌, ◌<◌, ◌≡◌, refl, Bool, true, some, List, [], ◌∷◌, ◌++◌, map, nat_eq, All,
  All-left,
}
use aleph_node.Client.{Client}
use aleph_node.Keys.{KeyBox}
use aleph_node.Keys
use aleph_node.Session.{last_block_of_session}
use aleph_node.Justification.{Chain, JustificationNotification, Input, State}
use aleph_node.Party.{Running, Status, looping, awaiting_exit, exited, Event, start, run_aggregator}
use aleph_node.Party.Links.{Counts}
use aleph_node.Party.Links
use aleph_node.Party.Formed.{Formed}
use aleph_node.Party.Started.{IsFaithful, StatusFormed, run_aggregator-Formed}
use aleph_node.Finality.{IsExtensible, Delivers, IsAt, Finalized}
use aleph_node.Finality.Delivery.{IsReady, delivers-Finalized}

-- A beginning of a chain is a chain.
Chain-left :
    (parent_of : ℕ → ℕ) (base : ℕ) (xs ys : List ℕ) (last : ℕ)
    → Links.Chain parent_of base (xs ++ ys) last
    → (end : ℕ) × Links.Chain parent_of base xs end
Chain-left parent_of base [] ys last c = (base, refl)
Chain-left parent_of base (x ∷ xs) ys last c =
    let (end, d) = Chain-left parent_of x xs ys last c.1 in (end, (c.0, d))

-- The notifications that the task has sent.
abbrev pub sent : {Sig M : Type 0} → Status Sig M → List (JustificationNotification Sig)
sent (looping st) = st.justification_tx
sent (awaiting_exit st) = st.justification_tx
sent (exited st) = st.justification_tx

module _ {W Sig Justification : Type 0} (chain : Chain W Justification)
    (is_complete : KeyBox → ℕ → Sig → Bool) (encode : Sig → Justification)
    (parent_of number_of : ℕ → ℕ) (session period : ℕ) (authorities : List ℕ)
    (keybox : KeyBox) where
  abbrev pub IsSigned : ℕ → Sig → Type 0
  IsSigned h s = is_complete keybox h s ≡ true

  Formed-IsReady :
      {M : Type 0} (base : ℕ) (st : Running Sig M)
      → Formed parent_of number_of base (last_block_of_session session period) IsSigned st
      → IsReady chain is_complete encode parent_of number_of session period authorities keybox base
          st.justification_tx
  Formed-IsReady base st v = record {
    linked =
        Chain-left parent_of base hashes st.aggregator.hash_queue st.last_finalized
          (rw v.queued.order v.chain);
    low = All-left _ hashes st.aggregator.hash_queue (rw v.queued.order v.low);
    counted = All-left _ hashes st.aggregator.hash_queue (rw v.queued.order v.counted);
    signed = v.notified;
  }
    where
      hashes : List ℕ
      hashes = map (λ n. n.hash) st.justification_tx

  StatusFormed-IsReady :
      {M : Type 0} (base : ℕ) (status : Status Sig M)
      → StatusFormed parent_of number_of base (last_block_of_session session period) IsSigned status
      → IsReady chain is_complete encode parent_of number_of session period authorities keybox base
          (sent status)
  StatusFormed-IsReady base (looping st) v = Formed-IsReady base st v
  StatusFormed-IsReady base (awaiting_exit st) v = Formed-IsReady base st v
  StatusFormed-IsReady base (exited st) v = Formed-IsReady base st v

  -- What the aggregator's task of a session sends, the justification handler finalizes. Whatever
  -- batches and signatures complete for the session's key box the task gets, if it has not panicked,
  -- and whatever idle polls and instants the handler's rounds have, if it polls the notifications in
  -- order and is at the block at which the task started: it does not panic, and in the end exactly
  -- the notified blocks have been finalized in order; they are a chain from a child of the block at
  -- the start to the client's last finalized block. The handler must know the session's
  -- authorities in each of its rounds, the client take the finality of a child of its last finalized
  -- block, the period be positive, the session's blocks fit into 32 bits, and the start not lie
  -- before the block that the session follows.
  pub run-finalizes :
      {M : Type 0} (client : Client) (es : List (Event Sig M)) (status : Status Sig M) (base : ℕ)
      (is : List (Input chain is_complete encode)) (s : State chain is_complete encode)
      → Keys.new 0 authorities ≡ some keybox
      → 0 < period
      → (session + 1) * period < 2 ^ 32
      → session * period ≤ number_of base + 1
      → client.finalized_hash ≡ base
      → Counts parent_of number_of
      → All (IsFaithful parent_of number_of base (last_block_of_session session period) IsSigned) es
      → run_aggregator (last_block_of_session session period) es (looping (start client))
        ≡ some status
      → IsExtensible chain is_complete encode parent_of number_of
      → Delivers chain is_complete encode session authorities (sent status) is
      → IsAt chain is_complete encode number_of period base s
      → Finalized chain is_complete encode parent_of number_of period base (sent status) is s
  run-finalizes client es status base is s box positive small low b c f e x d a =
      delivers-Finalized chain is_complete encode parent_of number_of session period authorities
        keybox box positive small base s x d
        (StatusFormed-IsReady base status (
          run_aggregator-Formed parent_of number_of base (last_block_of_session session period)
            IsSigned client es status b c f e))
        low a
