-- ===== src/Party/Formed.antt =====
-- The blocks that `run_aggregator` of finality-aleph/src/party.rs has signed, as it extends the chain.
use aleph_node.Common.{
  ◌≡◌, sym, ◌∙◌, subst, inl, inr, ℕ, suc, ◌≤◌, false, some, List, [], ◌∷◌, ◌++◌, map, arith, nat_eq,
  leb, contains, All, All-append, All-mono, Bool-cases, Option-cases, some_inj,
}
use aleph_node.Client.{Header, Client}
use aleph_node.DataIo.{AlephData}
use aleph_node.Finalization.{chain_extension_step}
use aleph_node.Aggregator
use aleph_node.Aggregator.{
  Aggregator, Outcome, pending, panicked, returned, start_aggregation, notify_last_hash,
  next_multisigned_hash,
}
use aleph_node.Aggregator.Order.{Inv, start_aggregation-Inv, new-Inv}
use aleph_node.Party.{Running, start, start_header, start_headers, extend}
use aleph_node.Party.Links.{Chain-snoc, All-contains, step-Links, Links, Chain, Agrees, Counts}

module _ {Sig M : Type 0} (parent_of number_of : ℕ → ℕ) (base last_block : ℕ)
    (IsSigned : ℕ → Sig → Type 0) where
  -- The blocks that were started are a chain from a child of `base` to `last_finalized`, none above
  -- `last_block`, with numbers that count up. The notifications that were sent, followed by the queue of the aggregator, are this
  -- chain in order; each has a signature for its hash, and the number of its block.
  pub record Formed (st : Running Sig M) : Type 0 where
    pub chain : Chain parent_of base st.aggregator.rmc_started st.last_finalized
    pub low : All (λ h. number_of h ≤ last_block) st.aggregator.rmc_started
    pub rising : All (λ h. number_of h ≤ number_of st.last_finalized) st.aggregator.rmc_started
    pub counted : All (λ h. number_of h ≡ suc (number_of (parent_of h))) st.aggregator.rmc_started
    pub queued : Inv IsSigned (map (λ n. n.hash) st.justification_tx) st.aggregator
    pub notified :
        All
          (λ n. IsSigned n.hash n.justification × (n.number ≡ number_of n.hash))
          st.justification_tx

  pub start-Formed : (client : Client) → client.finalized_hash ≡ base → Formed (start client)
  unfolding start Aggregator.new
  start-Formed client f = record {
    chain = f;
    low = tt;
    rising = tt;
    counted = tt;
    queued = new-Inv IsSigned;
    notified = tt;
  }

  start_header-Formed :
      (x : Header) (st : Running Sig M)
      → parent_of x.hash ≡ st.last_finalized
      → number_of x.hash ≡ x.number
      → number_of x.hash ≡ suc (number_of st.last_finalized)
      → Formed st
      → Formed (start_header last_block x st)
  unfolding start_header
  start_header-Formed x st p n s v = elim (Bool-cases (leb x.number last_block)) [
    | inr f ↦ rw f v
    | inl t ↦
        let low : number_of x.hash ≤ last_block = ground arith in
        let fresh : contains st.aggregator.started_hashes x.hash ≡ false =
          elim (Bool-cases (contains st.aggregator.started_hashes x.hash)) [
            | inr f ↦ f
            | inl c ↦
                let q =
                  All-contains (λ h. number_of h ≤ number_of st.last_finalized)
                    st.aggregator.rmc_started x.hash v.rising (sym (v.queued.members x.hash) ∙ c) in
                absurd (ground arith)
          ] in
        let log : (start_aggregation x.hash st.aggregator).rmc_started
            ≡ st.aggregator.rmc_started ++ x.hash ∷ [] =
          unfold start_aggregation in ground arith in
        let rising =
          All-mono {Q = λ h. number_of h ≤ number_of x.hash} (λ h l. ground arith)
            st.aggregator.rmc_started v.rising in
        rw t (record {
          chain = rw log (
              Chain-snoc parent_of base st.aggregator.rmc_started st.last_finalized x.hash v.chain
                p);
          low = rw log (
              All-append (λ h. number_of h ≤ last_block) st.aggregator.rmc_started (x.hash ∷ [])
                v.low (low, tt));
          rising = rw log (
              All-append (λ h. number_of h ≤ number_of x.hash) st.aggregator.rmc_started
                (x.hash ∷ []) rising (omega arith, tt));
          counted = rw log (
              All-append (λ h. number_of h ≡ suc (number_of (parent_of h)))
                st.aggregator.rmc_started (x.hash ∷ []) v.counted (rw p s, tt));
          queued = start_aggregation-Inv IsSigned _ x.hash st.aggregator v.queued;
          notified = v.notified;
        })
  ]

  start_headers-Formed :
      (hs : List Header) (e : ℕ) (st : Running Sig M)
      → Links parent_of number_of hs st.last_finalized e
      → Formed st
      → Formed (start_headers last_block hs st)
  unfolding start_headers
  start_headers-Formed [] e st l v = v
  start_headers-Formed (x ∷ hs) e st l v =
      let v' = start_header-Formed x st l.0 l.1 l.2 v in
      elim (Bool-cases (leb last_block x.number)) [
        | inl t ↦ rw t (
            unfold notify_last_hash in
            record {
              chain = v'.chain;
              low = v'.low;
              rising = v'.rising;
              counted = v'.counted;
              queued = record {
                order = v'.queued.order;
                distinct = v'.queued.distinct;
                members = v'.queued.members;
                signed = v'.queued.signed;
              };
              notified = v'.notified;
            })
        | inr f ↦
            let on : (start_header last_block x st).last_finalized ≡ x.hash =
              unfold start_header in ground arith in
            rw f (
              start_headers-Formed hs e (start_header last_block x st)
                (subst (λ b. Links parent_of number_of hs b e) (sym on) l.3) v')
      ]

  pub extend-Formed :
      (client : Client) (ds : List AlephData) (st st' : Running Sig M)
      → Agrees parent_of number_of client
      → Counts parent_of number_of
      → extend client last_block ds st ≡ some st'
      → Formed st
      → Formed st'
  unfolding extend
  extend-Formed client [] st st' a c e v = subst Formed (some_inj e) v
  extend-Formed client (d ∷ ds) st st' a c e v =
      elim (Option-cases (chain_extension_step st.last_finalized d client)) [
        | inl n ↦ absurd (ground arith)
        | inr (hs, n) ↦
            let (end, l) = step-Links parent_of number_of client st.last_finalized d hs a c n in
            extend-Formed client ds (start_headers last_block hs st) st' a c (ground arith)
              (start_headers-Formed hs end st l v)
      ]
