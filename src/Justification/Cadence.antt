-- ===== src/Justification/Cadence.antt =====
-- How often the handler of finality-aleph/src/justification.rs asks for a justification.
use aleph_node.Common.{
  ℕ, ◌+◌, ◌-◌, ◌*◌, ◌≤◌, ◌<◌, ◌≡◌, refl, subst, ◌∙◌, ◌⊎◌, inl, inr, Bool, false, ◌&&◌, Option, none,
  some, some_inj, List, [], ◌∷◌, ◌++◌, append-nil, arith, ltb, nat_eq, Bool-cases, Option-cases,
  All, All-append, All-mono,
}
use aleph_node.Client.{Client}
use aleph_node.Keys.{KeyBox}
use aleph_node.Session.{last_block_of_session, session_id_from_block_num}
use aleph_node.Justification.{
  Chain, ChainCadence, JustificationNotification, Handler, Request, session_keybox,
  request_justification, found, new, handle_justification_notification, notified, ended, timed_out,
  Polled, Input, State, serve, serve_if, ask, round, run,
}

-- Each request comes more than `gap` after every earlier one.
abbrev pub Spaced : ℕ → List (ℕ × Request) → Type 0
Spaced gap [] = Unit {0}
Spaced gap (r ∷ rs) = All (λ q. r.0 + gap < q.0) rs × Spaced gap rs

Spaced-append :
    (gap last now : ℕ) (r : Request) (rs : List (ℕ × Request))
    → Spaced gap rs
    → All (λ q. q.0 ≤ last) rs
    → last + gap < now
    → Spaced gap (rs ++ (now, r) ∷ [])
Spaced-append gap last now r [] s a h = (tt, tt)
Spaced-append gap last now r (q ∷ rs) s a h = (
  All-append (λ p. q.0 + gap < p.0) rs ((now, r) ∷ []) s.0 (omega (arith, a.0), tt),
  Spaced-append gap last now r rs s.1 a.1 h,
)

module _ {W Multisignature Justification : Type 0} (chain : Chain W Justification)
    (is_complete : KeyBox → ℕ → Multisignature → Bool)
    (encode : Multisignature → Justification) where
  abbrev S : Type 0
  S = State chain is_complete encode

  -- The requests so far keep their distance, and the last one is noted.
  record Paced (cadence : ChainCadence) (s : S) : Type 0 where
    same : s.handler.chain_cadence ≡ cadence
    spaced : Spaced (2 * cadence.justifications_cadence) s.requests
    noted : All (λ q. q.0 ≤ s.handler.last_request_time) s.requests

  handle-keeps :
      (now : ℕ) (n : JustificationNotification Multisignature) (keybox : KeyBox) (last stop : ℕ)
      (h : Handler) (w : W)
      → let h' =
          (handle_justification_notification chain is_complete encode now n keybox last stop
            (h, w)).0 in
        (h'.chain_cadence ≡ h.chain_cadence) × (h'.last_request_time ≡ h.last_request_time)
  unfolding handle_justification_notification
  handle-keeps now n keybox last stop h w = ground arith

  -- What one call answers: nothing and the same handler, or a request that is due.
  request-cases :
      (now stop : ℕ) (client : Client) (h : Handler)
      → (request_justification now client stop h ≡ (h, none))
        ⊎ ((r : Request) × (request_justification now client stop h
              ≡ (record h { last_request_time = now }, some r))
            × (h.last_request_time + 2 * h.chain_cadence.justifications_cadence < now)
            × (h.last_finalization_time + h.chain_cadence.justifications_cadence < now))
  unfolding request_justification
  request-cases now stop client h = elim (Option-cases (found (client.header_at stop))) [
    | inl q ↦ inl (ground arith)
    | inr (x, q) ↦
        elim (Bool-cases (
          ltb h.chain_cadence.justifications_cadence (now - h.last_finalization_time)
          && ltb (2 * h.chain_cadence.justifications_cadence) (now - h.last_request_time))) [
            | inl t ↦ inr (
              record { hash = x.hash; number = x.number },
              ground arith,
              ground arith,
              ground arith,
            )
            | inr f ↦ inl (ground arith)
          ]
  ]

  ask-Paced :
      (cadence : ChainCadence) (now stop : ℕ) (rs : List (ℕ × Request)) (h : Handler) (w : W)
      → h.chain_cadence ≡ cadence
      → Spaced (2 * cadence.justifications_cadence) rs
      → All (λ q. q.0 ≤ h.last_request_time) rs
      → Paced cadence (ask chain is_complete encode now stop rs (h, w))
  ask-Paced cadence now stop rs h w same s a = elim (request-cases now stop (chain.client w) h) [
    | inl e ↦ rw (e, append-nil rs) (record { same = same; spaced = s; noted = a })
    | inr (r, e, due, _) ↦ rw e (record {
      same = same;
      spaced = Spaced-append (2 * cadence.justifications_cadence) h.last_request_time now r rs s a (
          subst (λ (c : ChainCadence). h.last_request_time + 2 * c.justifications_cadence < now)
            same due);
      noted =
          All-append (λ q. q.0 ≤ now) rs ((now, r) ∷ []) (All-mono (λ q le. omega arith) rs a)
            (omega arith, tt);
    })
  ]

  serve-Paced :
      (cadence : ChainCadence) (i : Input chain is_complete encode) (keybox : KeyBox)
      (last stop : ℕ) (polled : Polled chain is_complete encode) (s : S)
      → Paced cadence s
      → Paced cadence (serve chain is_complete encode i keybox last stop polled s)
  unfolding serve
  serve-Paced cadence i keybox last stop (notified n) s p =
      let (same, time) = handle-keeps i.handled_at n keybox last stop s.handler s.world in
      let after =
        handle_justification_notification chain is_complete encode i.handled_at n keybox last stop
          (s.handler, s.world) in
      ask-Paced cadence i.requested_at stop s.requests after.0 after.1 (same ∙ p.same) p.spaced
        (rw time p.noted)
  serve-Paced cadence i keybox last stop ended s p = record {
    same = p.same;
    spaced = p.spaced;
    noted = p.noted;
  }
  serve-Paced cadence i keybox last stop timed_out s p =
      ask-Paced cadence i.requested_at stop s.requests s.handler s.world p.same p.spaced p.noted

  serve_if-Paced :
      (cadence : ChainCadence) (i : Input chain is_complete encode) (keybox : Option KeyBox)
      (last stop : ℕ) (s : S)
      → Paced cadence s
      → Paced cadence (serve_if chain is_complete encode i keybox last stop s)
  serve_if-Paced cadence i none last stop s p = p
  serve_if-Paced cadence i (some keybox) last stop s p =
      serve-Paced cadence i keybox last stop i.polled s p

  round-Paced :
      (cadence : ChainCadence) (i : Input chain is_complete encode) (s s' : S)
      → round chain is_complete encode i s ≡ some s'
      → Paced cadence s
      → Paced cadence s'
  unfolding round
  round-Paced cadence i s s' e p =
      elim (Option-cases (session_id_from_block_num (last + 1) period)) [
        | inl q ↦ absurd (ground arith)
        | inr (session, q) ↦ elim (Option-cases (session_keybox i.session_authorities session)) [
          | inl k ↦ absurd (ground arith)
          | inr (keybox, k) ↦
              subst (Paced cadence) (some_inj (rw (q, k) at e))
                (serve_if-Paced cadence i keybox last (last_block_of_session session period) s p)
        ]
      ]
    where
      last : ℕ
      last = (chain.client s.world).finalized_number

      period : ℕ
      period = s.handler.chain_cadence.session_period

  run-Paced :
      (cadence : ChainCadence) (is : List (Input chain is_complete encode)) (s s' : S)
      → run chain is_complete encode is s ≡ some s'
      → Paced cadence s
      → Paced cadence s'
  unfolding run
  run-Paced cadence [] s s' e p = subst (Paced cadence) (some_inj e) p
  run-Paced cadence (i ∷ is) s s' e p = elim (Bool-cases s.finished) [
    | inl t ↦ run-Paced cadence is s s' (ground arith) p
    | inr f ↦ elim (Option-cases (round chain is_complete encode i s)) [
      | inl q ↦ absurd (ground arith)
      | inr (t, q) ↦ run-Paced cadence is t s' (ground arith) (round-Paced cadence i s t q p)
    ]
  ]

  -- From a new handler on, whatever it is told and at whatever instants its rounds take place, each
  -- request for a justification comes more than twice the cadence after every earlier one.
  pub run-Spaced :
      (started : ℕ) (cadence : ChainCadence) (w : W) (is : List (Input chain is_complete encode))
      (s : S)
      → run chain is_complete encode is
          (record { handler = new started cadence; world = w; requests = []; finished = false })
        ≡ some s
      → Spaced (2 * cadence.justifications_cadence) s.requests
  unfolding new
  run-Spaced started cadence w is s e =
      let p =
        run-Paced cadence is
          (record { handler = new started cadence; world = w; requests = []; finished = false }) s e
          (record { same = refl; spaced = tt; noted = tt }) in
      p.spaced
