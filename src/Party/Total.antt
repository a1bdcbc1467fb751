-- ===== src/Party/Total.antt =====
-- When `run_aggregator` of finality-aleph/src/party.rs does not panic.
use aleph_node.Common.{
  ◌≡◌, refl, inl, inr, ℕ, none, some, List, [], ◌∷◌, ◌++◌, map, arith, All, Bool-cases,
}
use aleph_node.Client.{ok, Client}
use aleph_node.DataIo.{AlephData}
use aleph_node.Finalization.Path.{IsCoherent, chain_extension_step-total}
use aleph_node.Aggregator.{Outcome, pending, panicked, returned, next_multisigned_hash}
use aleph_node.Aggregator.Order.{next_multisigned_hash-Inv, OutcomeInv}
use aleph_node.Aggregator.Wait.{IsTaken, next_multisigned_hash-panics}
use aleph_node.Party.{
  Running, Status, looping, awaiting_exit, exited, Event, batch, signatures, exit, start,
  start_headers, extend, notify, answer, step, run_aggregator,
}
use aleph_node.Party.Links.{Counts}
use aleph_node.Party.Formed.{Formed, start-Formed}
use aleph_node.Party.Started.{StatusFormed, IsFaithful, step-Formed}

module _ {Sig M : Type 0} (parent_of number_of : ℕ → ℕ) (base last_block : ℕ)
    (IsSigned : ℕ → Sig → Type 0) where
  -- What is asked of an event on top of being faithful: the client's headers are coherent; the network
  -- takes what the multicast sends, and the client knows the number of every signed block.
  abbrev pub IsSmooth : Event Sig M → Type 0
  IsSmooth (batch client blocks) = IsCoherent client
  IsSmooth (signatures client events) =
      All IsTaken events
      × ((h : ℕ) (s : Sig) → IsSigned h s → (n : ℕ) × (client.number h ≡ ok (some n)))
  IsSmooth exit = Unit {0}

  extend-total :
      (client : Client) (ds : List AlephData) (st : Running Sig M)
      → IsCoherent client
      → (st' : Running Sig M) × (extend client last_block ds st ≡ some st')
  unfolding extend
  extend-total client [] st c = (st, refl)
  extend-total client (d ∷ ds) st c =
      let (hs, e) = chain_extension_step-total client st.last_finalized d c in
      let (st', e') = extend-total client ds (start_headers last_block hs st) c in
      (st', ground arith)

  answer-total :
      (client : Client) (out : List ℕ) (o : Outcome Sig M) (st : Running Sig M)
      → ((h : ℕ) (s : Sig) → IsSigned h s → (n : ℕ) × (client.number h ≡ ok (some n)))
      → OutcomeInv IsSigned out o
      → ((o ≡ panicked) → ⊥)
      → (status : Status Sig M) × (answer client o st ≡ some status)
  unfolding answer notify
  answer-total client out (pending agg) st k i p = (_, refl)
  answer-total client out panicked st k i p = absurd (p refl)
  answer-total client out (returned none agg rest) st k i p = (_, refl)
  answer-total client out (returned (some (h, s)) agg rest) st k i p =
      let (n, e) = k h s i.1 in
      (
        looping (record st {
          aggregator = agg;
          justification_tx =
              st.justification_tx ++ record { justification = s; hash = h; number = n } ∷ [];
        }),
        rw e refl,
      )

  step-total :
      (e : Event Sig M) (st : Running Sig M)
      → IsFaithful parent_of number_of base last_block IsSigned e
      → IsSmooth e
      → Formed parent_of number_of base last_block IsSigned st
      → (status : Status Sig M) × (step last_block e st ≡ some status)
  unfolding step
  step-total (batch client none) st f s v = (_, refl)
  step-total exit st f s v = (_, refl)
  step-total (batch client (some blocks)) st f s v = elim (Bool-cases st.last_block_seen) [
    | inl t ↦ (looping st, ground arith)
    | inr b ↦ let (st', e) = extend-total client blocks st s in (looping st', ground arith)
  ]
  step-total (signatures client events) st f s v =
      answer-total client (map (λ n. n.hash) st.justification_tx)
        (next_multisigned_hash events st.aggregator) st s.1
        (next_multisigned_hash-Inv IsSigned (map (λ n. n.hash) st.justification_tx) events
          st.aggregator f.1 v.queued)
        (next_multisigned_hash-panics events st.aggregator s.0)

  go-total :
      (es : List (Event Sig M)) (status : Status Sig M)
      → Counts parent_of number_of
      → All (IsFaithful parent_of number_of base last_block IsSigned) es
      → All IsSmooth es
      → StatusFormed parent_of number_of base last_block IsSigned status
      → (status' : Status Sig M) × (run_aggregator last_block es status ≡ some status')
  unfolding run_aggregator
  go-total [] status c f s v = (status, refl)
  go-total (x ∷ es) (exited st) c f s v = (_, refl)
  go-total (batch client b ∷ es) (awaiting_exit st) c f s v =
      go-total es (awaiting_exit st) c f.1 s.1 v
  go-total (signatures client b ∷ es) (awaiting_exit st) c f s v =
      go-total es (awaiting_exit st) c f.1 s.1 v
  go-total (exit ∷ es) (awaiting_exit st) c f s v = go-total es (exited st) c f.1 s.1 v
  go-total (x ∷ es) (looping st) c f s v =
      let (next, e) = step-total x st f.0 s.0 v in
      let (status', e') =
        go-total es next c f.1 s.1
          (step-Formed parent_of number_of base last_block IsSigned x st next c f.0 e v) in
      (status', rw (e, e') refl)

  -- The aggregator's task does not panic on any events, in any order, for which: the client's
  -- snapshots agree on blocks, whose numbers count up, and its headers are coherent; the network
  -- takes what the multicast sends; and the client knows the number of every block that the multicast
  -- has signed, that is, the data is available.
  pub run_aggregator-total :
      (client : Client) (es : List (Event Sig M))
      → client.finalized_hash ≡ base
      → Counts parent_of number_of
      → All (IsFaithful parent_of number_of base last_block IsSigned) es
      → All IsSmooth es
      → (status : Status Sig M) × (run_aggregator last_block es (looping (start client))
          ≡ some status)
  run_aggregator-total client es b c f s =
      go-total es (looping (start client)) c f s
        (start-Formed parent_of number_of base last_block IsSigned client b)
