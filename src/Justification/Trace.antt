-- ===== src/Justification/Trace.antt =====
-- What a whole run of the handler of finality-aleph/src/justification.rs finalizes.
use aleph_node.Common.{
  ℕ, ◌+◌, ◌≤◌, ◌<◌, ◌≡◌, refl, sym, ◌∙◌, ap, ◌⊎◌, subst, inl, inr, Bool, true, none, some, some_inj,
  List, [], ◌∷◌, arith, nat_eq, Option-cases, Bool-cases,
}
use aleph_node.Common.Map.{get}
use aleph_node.Keys.{KeyBox}
use aleph_node.Keys
use aleph_node.Client.{Client}
use aleph_node.Session.{last_block_of_session, session_id_from_block_num}
use aleph_node.Justification.{
  Chain, ChainCadence, JustificationNotification, SessionMap, session_keybox, notified, ended,
  timed_out, Polled, Input, Handler, request_justification, found,
  handle_justification_notification, State, serve, round, run,
}
use aleph_node.Justification.Safety.{keybox-found, serve-Finalizes}

module _ {W Multisignature Justification : Type 0} (chain : Chain W Justification)
    (is_complete : KeyBox → ℕ → Multisignature → Bool)
    (encode : Multisignature → Justification) where
  -- A notified block lies above the last finalized one and not above the last of the session that
  -- follows it, and its multisignature is complete under the known authorities of this session.
  pub record IsJustified (period : ℕ) (known : SessionMap) (w : W)
      (n : JustificationNotification Multisignature) : Type 0 where
    pub session : ℕ
    pub authorities : List ℕ
    pub keybox : KeyBox
    pub current :
        session_id_from_block_num ((chain.client w).finalized_number + 1) period ≡ some session
    pub listed : get known session ≡ some authorities
    pub box : Keys.new 0 authorities ≡ some keybox
    pub complete : is_complete keybox n.hash n.justification ≡ true
    pub above : (chain.client w).finalized_number < n.number
    pub within : n.number ≤ last_block_of_session session period

  -- Each change of the chain in a list of rounds is the finality of the block that the round was
  -- notified of, which was justified at that time.
  pub data Trace (period : ℕ) : List (Input chain is_complete encode) → W → W → Type 0 where
    over : {w : W} → Trace period [] w w
    same :
        (i : Input chain is_complete encode) {is : List (Input chain is_complete encode)} {w w' : W}
        → Trace period is w w'
        → Trace period (i ∷ is) w w'
    finalizes :
        (i : Input chain is_complete encode) (n : JustificationNotification Multisignature)
        {is : List (Input chain is_complete encode)} {w w' : W}
        → i.polled ≡ notified n
        → IsJustified period i.session_authorities w n
        → Trace period is (chain.apply_finality n.hash (some (encode n.justification)) w).1 w'
        → Trace period (i ∷ is) w w'

  pub request-cadence :
      (now stop : ℕ) (client : Client) (h : Handler)
      → (request_justification now client stop h).0.chain_cadence ≡ h.chain_cadence
  unfolding request_justification
  request-cadence now stop client h = elim (Option-cases (found (client.header_at stop))) [
    | inl n ↦ ground arith
    | inr (header, n) ↦ ground arith
  ]

  pub handle-cadence :
      (now : ℕ) (n : JustificationNotification Multisignature) (keybox : KeyBox) (last stop : ℕ)
      (h : Handler) (w : W)
      → (handle_justification_notification chain is_complete encode now n keybox last stop
          (h, w)).0.chain_cadence
        ≡ h.chain_cadence
  unfolding handle_justification_notification
  handle-cadence now n keybox last stop h w = ground arith

  abbrev S : Type 0
  S = State chain is_complete encode

  serve-cadence :
      (i : Input chain is_complete encode) (keybox : KeyBox) (last stop : ℕ)
      (polled : Polled chain is_complete encode) (s : S)
      → (serve chain is_complete encode i keybox last stop polled s).handler.chain_cadence
        ≡ s.handler.chain_cadence
  unfolding serve
  serve-cadence i keybox last stop (notified n) s =
      let (h, w) =
        handle_justification_notification chain is_complete encode i.handled_at n keybox last stop
          (s.handler, s.world) in
      request-cadence i.requested_at stop (chain.client w) h
      ∙ handle-cadence i.handled_at n keybox last stop s.handler s.world
  serve-cadence i keybox last stop ended s = refl
  serve-cadence i keybox last stop timed_out s =
      request-cadence i.requested_at stop (chain.client s.world) s.handler

  -- What a round does to the chain.
  Moves : Input chain is_complete encode → S → S → Type 0
  Moves i s s' =
      (s'.world ≡ s.world)
      ⊎ ((n : JustificationNotification Multisignature) × (i.polled ≡ notified n)
          × IsJustified s.handler.chain_cadence.session_period i.session_authorities s.world n
          × (s'.world ≡ (chain.apply_finality n.hash (some (encode n.justification)) s.world).1))

  round-Moves :
      (i : Input chain is_complete encode) (s s' : S)
      → round chain is_complete encode i s ≡ some s'
      → Moves i s s' × (s'.handler.chain_cadence ≡ s.handler.chain_cadence)
  unfolding round Moves
  round-Moves i s s' e = elim (Option-cases (session_id_from_block_num (last + 1) period)) [
    | inl q ↦ absurd (ground arith)
    | inr (session, q) ↦ elim (Option-cases (session_keybox i.session_authorities session)) [
      | inl k ↦ absurd (ground arith)
      | inr (none, k) ↦
          let same : s ≡ s' = some_inj (rw (q, k) at e) in
          (
            inl (ap (λ (t : S). t.world) (sym same)),
            ap (λ (t : S). t.handler.chain_cadence) (sym same),
          )
      | inr (some keybox, k) ↦
          let served : serve chain is_complete encode i keybox last
                (last_block_of_session session period) i.polled s
              ≡ s' =
            some_inj (rw (q, k) at e) in
          (
            moved session keybox q k (ap (λ (t : S). t.world) (sym served)),
            sym (ap (λ (t : S). t.handler.chain_cadence) served)
                ∙ serve-cadence i keybox last (last_block_of_session session period) i.polled s,
          )
    ]
  ]
    where
      last : ℕ
      last = (chain.client s.world).finalized_number

      period : ℕ
      period = s.handler.chain_cadence.session_period

      moved :
          (session : ℕ) (keybox : KeyBox)
          → session_id_from_block_num (last + 1) period ≡ some session
          → session_keybox i.session_authorities session ≡ some (some keybox)
          → s'.world
            ≡ (serve chain is_complete encode i keybox last
                (last_block_of_session session period)
                i.polled
                s).world
          → Moves i s s'
      moved session keybox q k e =
          elim (serve-Finalizes chain is_complete encode i keybox last
            (last_block_of_session session period) i.polled s) [
              | inl kept ↦ inl (e ∙ kept)
              | inr (n, got, f) ↦
                  let (authorities, listed, box) =
                    keybox-found chain is_complete encode i session keybox k in
                  inr (
                    n,
                    got,
                    record {
                      session = session;
                      authorities = authorities;
                      keybox = keybox;
                      current = q;
                      listed = listed;
                      box = box;
                      complete = f.0;
                      above = f.1;
                      within = f.2;
                    },
                    e ∙ f.3,
                  )
            ]

  follow :
      (i : Input chain is_complete encode) (is : List (Input chain is_complete encode)) (s t s' : S)
      → Moves i s t
      → Trace s.handler.chain_cadence.session_period is t.world s'.world
      → Trace s.handler.chain_cadence.session_period (i ∷ is) s.world s'.world
  unfolding Moves
  follow i is s t s' (inl e) later =
      same i (subst (λ w. Trace s.handler.chain_cadence.session_period is w s'.world) e later)
  follow i is s t s' (inr (n, got, j, e)) later =
      finalizes i n got j
        (subst (λ w. Trace s.handler.chain_cadence.session_period is w s'.world) e later)

  -- Whatever the handler is told, by its own party or by other nodes, and at whatever instants its
  -- rounds take place: each change that a run of it makes to the chain is the finality of a block
  -- of which the round was notified, above the last finalized block, not above the last block of the
  -- session which follows that, and with a multisignature that is complete under the authorities
  -- known for this session.
  pub run-Trace :
      (is : List (Input chain is_complete encode)) (s s' : S)
      → run chain is_complete encode is s ≡ some s'
      → Trace s.handler.chain_cadence.session_period is s.world s'.world
  unfolding run
  run-Trace [] s s' e =
      subst (λ (t : S). Trace s.handler.chain_cadence.session_period [] s.world t.world)
        (some_inj e) over
  run-Trace (i ∷ is) s s' e = elim (Bool-cases s.finished) [
    | inl t ↦ same i (run-Trace is s s' (ground arith))
    | inr f ↦ elim (Option-cases (round chain is_complete encode i s)) [
      | inl q ↦ absurd (ground arith)
      | inr (t, q) ↦
          let (moves, cadence) = round-Moves i s t q in
          follow i is s t s' moves (
            subst (λ (c : ChainCadence). Trace c.session_period is t.world s'.world) cadence
              (run-Trace is t s' (ground arith)))
    ]
  ]
