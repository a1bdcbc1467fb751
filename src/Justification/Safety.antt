-- ===== src/Justification/Safety.antt =====
-- What the handler of finality-aleph/src/justification.rs finalizes.
use aleph_node.Common.{
  ℕ, ◌+◌, ◌*◌, ◌^◌, ◌≤◌, ◌<◌, ◌≡◌, refl, sym, ◌∙◌, ap, ◌⊎◌, inl, inr, Bool, true, ◌&&◌, none, some,
  some_inj, List, arith, ltb, leb, nat_eq, if◌then◌else◌, Option-cases,
}
use aleph_node.Common.Map.{get}
use aleph_node.Keys.{KeyBox}
use aleph_node.Keys
use aleph_node.Session.{last_block_of_session, session_id_from_block_num}
use aleph_node.Session.Blocks.{session_id-eq_iff, last_block-value, period_positive}
use aleph_node.Justification.{
  Chain, JustificationNotification, Handler, session_keybox, handle_justification_notification,
  notified, ended, timed_out, Polled, Input, State, serve, round,
}

module _ {W Multisignature Justification : Type 0} (chain : Chain W Justification)
    (is_complete : KeyBox → ℕ → Multisignature → Bool)
    (encode : Multisignature → Justification) where
  -- The world after the notification: as before, or with the block finalized.
  abbrev pub Finalizes : KeyBox → ℕ → ℕ → JustificationNotification Multisignature → W → W → Type 0
  Finalizes keybox last_finalized stop_h n w w' =
      (is_complete keybox n.hash n.justification ≡ true)
      × (last_finalized < n.number)
      × (n.number ≤ stop_h)
      × (w' ≡ (chain.apply_finality n.hash (some (encode n.justification)) w).1)

  handle-Finalizes :
      (now : ℕ) (n : JustificationNotification Multisignature) (keybox : KeyBox)
      (last_finalized stop_h : ℕ) (h : Handler) (w : W)
      → let w' =
          (handle_justification_notification chain is_complete encode now n keybox last_finalized
            stop_h
            (h, w)).1 in
        (w' ≡ w) ⊎ Finalizes keybox last_finalized stop_h n w w'
  unfolding handle_justification_notification
  handle-Finalizes now n keybox last stop h w = ground arith

  -- A notification finalizes its block exactly if its multisignature is complete and the number lies
  -- above the last finalized block and within the session; otherwise nothing changes, and the time
  -- of the last finalization is set only if the client accepted the block.
  pub handle_lem :
      (now : ℕ) (n : JustificationNotification Multisignature) (keybox : KeyBox)
      (last_finalized stop_h : ℕ) (h : Handler) (w : W)
      → let done = chain.apply_finality n.hash (some (encode n.justification)) w in
        handle_justification_notification chain is_complete encode now n keybox last_finalized
          stop_h
          (h, w)
        ≡ (if is_complete keybox n.hash n.justification
              && ltb last_finalized n.number
              && leb n.number stop_h
            then ((if done.0 then record h { last_finalization_time = now } else h), done.1)
            else (h, w))
  unfolding handle_justification_notification
  handle_lem now n keybox last stop h w = ground arith

  pub serve-Finalizes :
      (i : Input chain is_complete encode) (keybox : KeyBox) (last stop : ℕ)
      (polled : Polled chain is_complete encode) (s : State chain is_complete encode)
      → let w' = (serve chain is_complete encode i keybox last stop polled s).world in
        (w' ≡ s.world)
        ⊎ ((n : JustificationNotification Multisignature) × (polled ≡ notified n)
            × Finalizes keybox last stop n s.world w')
  unfolding serve
  serve-Finalizes i keybox last stop (notified n) s =
      elim (handle-Finalizes i.handled_at n keybox last stop s.handler s.world) [
        | inl e ↦ inl e
        | inr f ↦ inr (n, refl, f)
      ]
  serve-Finalizes i keybox last stop ended s = inl refl
  serve-Finalizes i keybox last stop timed_out s = inl refl

  -- A notified block that the handler finalizes in a round: it lies in the session of the block that
  -- follows the last finalized one, that session's authorities are known, and its multisignature is
  -- complete under them.
  pub record Justified (i : Input chain is_complete encode) (s s' : State chain is_complete encode)
      (session : ℕ) : Type 0 where
    pub notification : JustificationNotification Multisignature
    pub authorities : List ℕ
    pub keybox : KeyBox
    pub received : i.polled ≡ notified notification
    pub known : get i.session_authorities session ≡ some authorities
    pub box : Keys.new 0 authorities ≡ some keybox
    pub complete : is_complete keybox notification.hash notification.justification ≡ true
    pub above : (chain.client s.world).finalized_number < notification.number
    pub in_session :
        session_id_from_block_num notification.number s.handler.chain_cadence.session_period
        ≡ some session
    pub applied :
        s'.world
        ≡ (chain.apply_finality notification.hash
            (some (encode notification.justification))
            s.world).1

  pub keybox-found :
      (i : Input chain is_complete encode) (session : ℕ) (keybox : KeyBox)
      → session_keybox i.session_authorities session ≡ some (some keybox)
      → (authorities : List ℕ) × (get i.session_authorities session ≡ some authorities)
        × (Keys.new 0 authorities ≡ some keybox)
  unfolding session_keybox
  keybox-found i session keybox e = elim (Option-cases (get i.session_authorities session)) [
    | inl q ↦ absurd (ground arith)
    | inr (authorities, q) ↦ elim (Option-cases (Keys.new 0 authorities)) [
      | inl r ↦ absurd (ground arith)
      | inr (k, r) ↦ (authorities, q, ground arith)
    ]
  ]

  -- A round leaves the chain as it was, or finalizes one justified block of the current session. The
  -- session's blocks must fit into 32 bits.
  pub round-Justified :
      (i : Input chain is_complete encode) (s s' : State chain is_complete encode) (session : ℕ)
      → round chain is_complete encode i s ≡ some s'
      → session_id_from_block_num
          ((chain.client s.world).finalized_number + 1)
          s.handler.chain_cadence.session_period
        ≡ some session
      → (chain.client s.world).finalized_number + 1 < 2 ^ 32
      → (session + 1) * s.handler.chain_cadence.session_period < 2 ^ 32
      → (s'.world ≡ s.world) ⊎ Justified i s s' session
  unfolding round
  round-Justified i s s' session e q low small =
      elim (Option-cases (session_keybox i.session_authorities session)) [
        | inl k ↦ absurd (ground arith)
        | inr (none, k) ↦ inl (ground arith)
        | inr (some keybox, k) ↦
            elim (serve-Finalizes i keybox last (last_block_of_session session p) i.polled s) [
              | inl same ↦ inl (served keybox k ∙ same)
              | inr (n, got, f) ↦
                  let (authorities, known, box) = keybox-found i session keybox k in
                  inr (record {
                    notification = n;
                    authorities = authorities;
                    keybox = keybox;
                    received = got;
                    known = known;
                    box = box;
                    complete = f.0;
                    above = f.1;
                    in_session = within n.number f.1 f.2;
                    applied = served keybox k ∙ f.3;
                  })
            ]
      ]
    where
      p : ℕ
      p = s.handler.chain_cadence.session_period

      last : ℕ
      last = (chain.client s.world).finalized_number

      served :
          (keybox : KeyBox)
          → session_keybox i.session_authorities session ≡ some (some keybox)
          → s'.world
            ≡ (serve chain is_complete encode i keybox last
                (last_block_of_session session p)
                i.polled
                s).world
      served keybox k =
          ap (λ (t : State chain is_complete encode). t.world) (sym (some_inj (rw (q, k) at e)))

      positive : 0 < p
      positive = period_positive (last + 1) p q

      within :
          (n : ℕ)
          → last < n
          → n ≤ last_block_of_session session p
          → session_id_from_block_num n p ≡ some session
      within n above below =
          (session_id-eq_iff session p n positive small
              (omega (arith, last_block-value session p positive small))).1
            (omega (arith, (session_id-eq_iff session p (last + 1) positive small low).0 q), below)
