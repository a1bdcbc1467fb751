-- ===== src/Party/Started.antt =====
-- What `run_aggregator` of finality-aleph/src/party.rs has signed, and what it sends to the
-- justification handler.
use aleph_node.Common.{
  ◌≡◌, sym, subst, inl, inr, ℕ, none, some, List, [], ◌∷◌, ◌++◌, map, arith, append-nil, nat_eq,
  All, All-append, Bool-cases, Option-cases, some_inj,
}
use aleph_node.Client.{Client}
use aleph_node.Aggregator.{Aggregator, Outcome, pending, panicked, returned, next_multisigned_hash}
use aleph_node.Aggregator.Order.{Inv, IsHonest, next_multisigned_hash-Inv, OutcomeInv}
use aleph_node.Aggregator.Wait.{HasStarted, next_multisigned_hash-HasStarted}
use aleph_node.Justification.{JustificationNotification}
use aleph_node.Party.{
  Running, Status, looping, awaiting_exit, exited, Event, batch, signatures, exit, start, extend,
  notify, answer, step, run_aggregator, unwrap_number,
}
use aleph_node.Party.Formed.{Formed, start-Formed, extend-Formed}
use aleph_node.Party.Links.{map-snoc, unwrap_number-some, Agrees, Counts}

module _ {Sig M : Type 0} (parent_of number_of : ℕ → ℕ) (base last_block : ℕ)
    (IsSigned : ℕ → Sig → Type 0) where
  -- Taking the aggregator's new state, when its invariant holds of the notifications so far.
  polled-Formed :
      (st : Running Sig M) (agg : Aggregator Sig M)
      → agg.rmc_started ≡ st.aggregator.rmc_started
      → Inv IsSigned (map (λ n. n.hash) st.justification_tx) agg
      → Formed parent_of number_of base last_block IsSigned st
      → Formed parent_of number_of base last_block IsSigned (record st { aggregator = agg })
  polled-Formed st agg e i v = record {
    chain = rw e v.chain;
    low = rw e v.low;
    rising = rw e v.rising;
    counted = rw e v.counted;
    queued = i;
    notified = v.notified;
  }

  abbrev pub StatusFormed : Status Sig M → Type 0
  StatusFormed (looping st) = Formed parent_of number_of base last_block IsSigned st
  StatusFormed (awaiting_exit st) = Formed parent_of number_of base last_block IsSigned st
  StatusFormed (exited st) = Formed parent_of number_of base last_block IsSigned st

  answer-Formed :
      (client : Client) (o : Outcome Sig M) (st : Running Sig M) (status : Status Sig M)
      → Agrees parent_of number_of client
      → OutcomeInv IsSigned (map (λ n. n.hash) st.justification_tx) o
      → HasStarted st.aggregator.rmc_started o
      → answer client o st ≡ some status
      → Formed parent_of number_of base last_block IsSigned st
      → StatusFormed status
  unfolding answer notify
  answer-Formed client (pending agg) st status a i h e v =
      subst StatusFormed {x = looping (record st { aggregator = agg })} (some_inj e)
        (polled-Formed st agg h i v)
  answer-Formed client panicked st status a i h e v = absurd (ground arith)
  answer-Formed client (returned none agg rest) st status a i h e v =
      subst StatusFormed {x = awaiting_exit (record st { aggregator = agg })} (some_inj e) (
        polled-Formed st agg h (rw (sym (append-nil (map (λ n. n.hash) st.justification_tx))) i.0)
          v)
  answer-Formed client (returned (some (hash, sig)) agg rest) st status a i h e v =
      elim (Option-cases (unwrap_number (client.number hash))) [
        | inl n ↦ absurd (ground arith)
        | inr (number, n) ↦
            let told : JustificationNotification Sig = record {
              justification = sig;
              hash = hash;
              number = number;
            } in
            let right = a.number hash number (unwrap_number-some (client.number hash) number n) in
            let st' : Running Sig M = record st {
              aggregator = agg;
              justification_tx = st.justification_tx ++ told ∷ [];
            } in
            subst StatusFormed {x = looping st'} (some_inj (ground arith)) (record {
              chain = rw h v.chain;
              low = rw h v.low;
              rising = rw h v.rising;
              counted = rw h v.counted;
              queued = rw (map-snoc st.justification_tx told) i.0;
              notified =
                  All-append (λ n. IsSigned n.hash n.justification × (n.number ≡ number_of n.hash))
                    st.justification_tx (told ∷ []) v.notified ((i.1, sym right), tt);
            })
      ]

  -- What is asked of an event: the client's snapshot agrees with the tree, and the multicast's
  -- signatures are for their hashes.
  abbrev pub IsFaithful : Event Sig M → Type 0
  IsFaithful (batch client blocks) = Agrees parent_of number_of client
  IsFaithful (signatures client events) =
      Agrees parent_of number_of client × All (IsHonest IsSigned) events
  IsFaithful exit = Unit {0}

  pub step-Formed :
      (e : Event Sig M) (st : Running Sig M) (status : Status Sig M)
      → Counts parent_of number_of
      → IsFaithful e
      → step last_block e st ≡ some status
      → Formed parent_of number_of base last_block IsSigned st
      → StatusFormed status
  unfolding step
  step-Formed (batch client none) st status c f e v = subst StatusFormed (some_inj e) v
  step-Formed exit st status c f e v = subst StatusFormed (some_inj e) v
  step-Formed (signatures client events) st status c f e v =
      answer-Formed client (next_multisigned_hash events st.aggregator) st status f.0
        (next_multisigned_hash-Inv IsSigned (map (λ n. n.hash) st.justification_tx) events
          st.aggregator f.1 v.queued)
        (next_multisigned_hash-HasStarted events st.aggregator) e v
  step-Formed (batch client (some blocks)) st status c f e v =
      elim (Bool-cases st.last_block_seen) [
        | inl t ↦ subst StatusFormed {x = looping st} (some_inj (ground arith)) v
        | inr b ↦ elim (Option-cases (extend client last_block blocks st)) [
          | inl n ↦ absurd (ground arith)
          | inr (st', n) ↦ subst StatusFormed {x = looping st'} (some_inj (ground arith)) (
              extend-Formed parent_of number_of base last_block IsSigned client blocks st st' f c n
                v)
        ]
      ]

  run_aggregator-StatusFormed :
      (es : List (Event Sig M)) (status status' : Status Sig M)
      → Counts parent_of number_of
      → All IsFaithful es
      → run_aggregator last_block es status ≡ some status'
      → StatusFormed status
      → StatusFormed status'
  unfolding run_aggregator
  run_aggregator-StatusFormed [] status status' c f e v = subst StatusFormed (some_inj e) v
  run_aggregator-StatusFormed (x ∷ es) (looping st) status' c f e v =
      elim (Option-cases (step last_block x st)) [
        | inl n ↦ absurd (ground arith)
        | inr (next, n) ↦
            run_aggregator-StatusFormed es next status' c f.1 (ground arith)
              (step-Formed x st next c f.0 n v)
      ]
  run_aggregator-StatusFormed (batch client b ∷ es) (awaiting_exit st) status' c f e v =
      run_aggregator-StatusFormed es (awaiting_exit st) status' c f.1 e v
  run_aggregator-StatusFormed (signatures client b ∷ es) (awaiting_exit st) status' c f e v =
      run_aggregator-StatusFormed es (awaiting_exit st) status' c f.1 e v
  run_aggregator-StatusFormed (exit ∷ es) (awaiting_exit st) status' c f e v =
      run_aggregator-StatusFormed es (exited st) status' c f.1 e v
  run_aggregator-StatusFormed (x ∷ es) (exited st) status' c f e v =
      subst StatusFormed (some_inj e) v

  -- Whatever batches and signatures the aggregator's task gets, in whatever order, if it has not
  -- panicked: the blocks that it has had signed are a chain from a child of the block that was
  -- finalized at its start, none above the session's last block, with numbers that count up; and the notifications that it sent
  -- are a beginning of this chain in order, with signatures for their hashes and the right numbers.
  -- The client's snapshots must agree on blocks, whose numbers count up.
  pub run_aggregator-Formed :
      (client : Client) (es : List (Event Sig M)) (status : Status Sig M)
      → client.finalized_hash ≡ base
      → Counts parent_of number_of
      → All IsFaithful es
      → run_aggregator last_block es (looping (start client)) ≡ some status
      → StatusFormed status
  run_aggregator-Formed client es status b c f e =
      run_aggregator-StatusFormed es (looping (start client)) status c f e
        (start-Formed parent_of number_of base last_block IsSigned client b)
