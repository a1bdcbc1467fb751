-- ===== src/Finality/Rounds.antt =====
-- What one round of the handler of finality-aleph/src/justification.rs does in the session whose
-- blocks are signed.
use aleph_node.Common.{
  ℕ, ◌+◌, ◌/◌, min, ◌≤◌, ◌<◌, ◌≡◌, refl, ◌∙◌, Bool, true, false, Option, none, some, List, arith,
  nat_eq, inl, inr, Option-cases, subst,
}
use aleph_node.Common.Map.{get}
use aleph_node.Keys.{KeyBox}
use aleph_node.Keys
use aleph_node.Session.{last_block_of_session, u32_max, session_id_from_block_num}
use aleph_node.Justification.{
  Chain, JustificationNotification, Handler, Request, SessionMap, session_keybox,
  handle_justification_notification, notified, ended, timed_out, Polled, Input, State, serve,
  serve_if, ask, round,
}
use aleph_node.Justification.Trace.{request-cadence, handle-cadence}
use aleph_node.Finality.{IsKnown, IsIdle}

session_id-some : (n p : ℕ) → 0 < p → (session : ℕ) × (session_id_from_block_num n p ≡ some session)
unfolding session_id_from_block_num
session_id-some n p positive = (min n u32_max / p, ground arith)

module _ {W Multisignature Justification : Type 0} (chain : Chain W Justification)
    (is_complete : KeyBox → ℕ → Multisignature → Bool)
    (encode : Multisignature → Justification) where
  abbrev S : Type 0
  S = State chain is_complete encode

  -- The handler goes on after a round that leaves the world at `w`.
  pub record GoesOn (s : S) (w : W) (s' : S) : Type 0 where
    pub world : s'.world ≡ w
    pub goes : s'.finished ≡ false
    pub cadence : s'.handler.chain_cadence ≡ s.handler.chain_cadence

  handle_complete :
      (now : ℕ) (n : JustificationNotification Multisignature) (keybox : KeyBox) (last stop : ℕ)
      (h : Handler) (w : W)
      → is_complete keybox n.hash n.justification ≡ true
      → last < n.number
      → n.number ≤ stop
      → (handle_justification_notification chain is_complete encode now n keybox last stop (h, w)).1
        ≡ (chain.apply_finality n.hash (some (encode n.justification)) w).1
  unfolding handle_justification_notification
  handle_complete now n keybox last stop h w c above below = ground arith

  handle_incomplete :
      (now : ℕ) (n : JustificationNotification Multisignature) (keybox : KeyBox) (last stop : ℕ)
      (h : Handler) (w : W)
      → is_complete keybox n.hash n.justification ≡ false
      → handle_justification_notification chain is_complete encode now n keybox last stop (h, w)
        ≡ (h, w)
  unfolding handle_justification_notification
  handle_incomplete now n keybox last stop h w c = ground arith

  ask-GoesOn :
      (now stop : ℕ) (requests : List (ℕ × Request)) (s : S) (h : Handler) (w : W)
      → h.chain_cadence ≡ s.handler.chain_cadence
      → GoesOn s w (ask chain is_complete encode now stop requests (h, w))
  ask-GoesOn now stop requests s h w e = record {
    world = refl;
    goes = refl;
    cadence = request-cadence chain is_complete encode now stop (chain.client w) h ∙ e;
  }

  serve-told :
      (i : Input chain is_complete encode) (n : JustificationNotification Multisignature)
      (keybox : KeyBox) (last stop : ℕ) (s : S)
      → is_complete keybox n.hash n.justification ≡ true
      → last < n.number
      → n.number ≤ stop
      → GoesOn s
          (chain.apply_finality n.hash (some (encode n.justification)) s.world).1
          (serve chain is_complete encode i keybox last stop (notified n) s)
  unfolding serve
  serve-told i n keybox last stop s c above below =
      subst (λ w. GoesOn s w (serve chain is_complete encode i keybox last stop (notified n) s))
        (handle_complete i.handled_at n keybox last stop s.handler s.world c above below)
        (ask-GoesOn i.requested_at stop s.requests s _ _ (
          handle-cadence chain is_complete encode i.handled_at n keybox last stop s.handler
            s.world))

  serve-idle :
      (i : Input chain is_complete encode) (keybox : KeyBox) (last stop : ℕ)
      (polled : Polled chain is_complete encode) (s : S)
      → IsIdle chain is_complete encode polled
      → GoesOn s s.world (serve chain is_complete encode i keybox last stop polled s)
  unfolding serve
  serve-idle i keybox last stop (notified n) s idle =
      rw (handle_incomplete i.handled_at n keybox last stop s.handler s.world (idle keybox))
        (ask-GoesOn i.requested_at stop s.requests s s.handler s.world refl)
  serve-idle i keybox last stop ended s idle = absurd idle
  serve-idle i keybox last stop timed_out s idle =
      ask-GoesOn i.requested_at stop s.requests s s.handler s.world refl

  serve_if-idle :
      (i : Input chain is_complete encode) (keybox : Option KeyBox) (last stop : ℕ) (s : S)
      → IsIdle chain is_complete encode i.polled
      → s.finished ≡ false
      → GoesOn s s.world (serve_if chain is_complete encode i keybox last stop s)
  serve_if-idle i none last stop s idle f = record { world = refl; goes = f; cadence = refl }
  serve_if-idle i (some keybox) last stop s idle f = serve-idle i keybox last stop i.polled s idle

  -- The authorities of the session have the key box.
  module _ (session : ℕ) (authorities : List ℕ) (keybox : KeyBox)
      (box : Keys.new 0 authorities ≡ some keybox) where
    known-keybox :
        (known : SessionMap)
        → IsKnown session authorities known
        → session_keybox known session ≡ some (some keybox)
    unfolding session_keybox
    known-keybox known k = ground (arith, k.0)

    safe-keybox :
        (known : SessionMap) (other : ℕ)
        → IsKnown session authorities known
        → (k : Option KeyBox) × (session_keybox known other ≡ some k)
    unfolding session_keybox
    safe-keybox known other k = elim (Option-cases (get known other)) [
      | inl n ↦ (none, ground arith)
      | inr (others, n) ↦ let (b, e) = k.1 other others n in (some b, ground arith)
    ]

    pub round-told :
        (i : Input chain is_complete encode) (n : JustificationNotification Multisignature) (s : S)
        → let period = s.handler.chain_cadence.session_period in
          IsKnown session authorities i.session_authorities
          → i.polled ≡ notified n
          → is_complete keybox n.hash n.justification ≡ true
          → session_id_from_block_num ((chain.client s.world).finalized_number + 1) period
            ≡ some session
          → (chain.client s.world).finalized_number < n.number
          → n.number ≤ last_block_of_session session period
          → (s' : S) × (round chain is_complete encode i s ≡ some s')
            × GoesOn s (chain.apply_finality n.hash (some (encode n.justification)) s.world).1 s'
    unfolding round
    round-told i n s known p c here above below = (
      serve chain is_complete encode i keybox last (last_block_of_session session period)
          (notified n) s,
      rw (here, known-keybox i.session_authorities known, p) refl,
      serve-told i n keybox last (last_block_of_session session period) s c above below,
    )
      where
        last : ℕ
        last = (chain.client s.world).finalized_number

        period : ℕ
        period = s.handler.chain_cadence.session_period

    pub round-idle :
        (i : Input chain is_complete encode) (s : S)
        → IsKnown session authorities i.session_authorities
        → IsIdle chain is_complete encode i.polled
        → 0 < s.handler.chain_cadence.session_period
        → s.finished ≡ false
        → (s' : S) × (round chain is_complete encode i s ≡ some s') × GoesOn s s.world s'
    unfolding round
    round-idle i s known idle positive f =
        let (current, p) = session_id-some (last + 1) period positive in
        let (k, e) = safe-keybox i.session_authorities current known in
        (
          serve_if chain is_complete encode i k last (last_block_of_session current period) s,
          rw (p, e) refl,
          serve_if-idle i k last (last_block_of_session current period) s idle f,
        )
      where
        last : ℕ
        last = (chain.client s.world).finalized_number

        period : ℕ
        period = s.handler.chain_cadence.session_period
