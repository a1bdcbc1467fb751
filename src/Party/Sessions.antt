-- ===== src/Party/Sessions.antt =====
-- The loop over the sessions of finality-aleph/src/party.rs.
use aleph_node.Common.{
  ◌≡◌, ◌≢◌, ◌⊎◌, refl, subst, inl, inr, ℕ, zero, suc, ◌≤◌, ◌<◌, ◌+◌, ◌-◌, ◌*◌, ◌/◌, ◌%◌, ◌^◌, true,
  false, ◌&&◌, some, List, [], ◌∷◌, ◌++◌, arith, nat_eq, nat_beq, leb, contains, contains-append,
  ◌==◌, Bool-cases, Option-cases, length,
}
use aleph_node.Common.Map.{get, insert, get-insert, get-retain, get-empty}
use aleph_node.Justification.{SessionMap}
use aleph_node.Session.{last_block_of_session}
use aleph_node.Party.{
  RuntimeApi, Observed, Ran, errored, Fetched, fetched, gave_up, fetch_panicked,
  session_authorities_of, skips, await_finalized, run_session, prune, prune_session_data, run_from,
}

-- Some number of the list has reached the bound.
abbrev pub Reached : ℕ → List ℕ → Type 0
Reached bound seen = (n : ℕ) × (contains seen n ≡ true) × (bound ≤ n)

skips-Reached :
    (attempts last_block : ℕ) (seen : List ℕ)
    → skips attempts last_block seen ≡ true
    → Reached last_block seen
unfolding skips contains
skips-Reached zero last_block seen h = absurd (ground arith)
skips-Reached (suc attempts) last_block [] h = absurd (ground arith)
skips-Reached (suc attempts) last_block (n ∷ seen) h = elim (Bool-cases (leb last_block n)) [
  | inl t ↦ (n, ground arith, ground arith)
  | inr f ↦
      let (m, c, l) = skips-Reached attempts last_block seen (ground arith) in (m, ground arith, l)
]

await-Reached :
    (last_block m : ℕ) (polls : List ℕ)
    → await_finalized last_block polls ≡ some m
    → Reached last_block polls
unfolding await_finalized contains
await-Reached last_block m [] h = absurd (ground arith)
await-Reached last_block m (n ∷ polls) h = elim (Bool-cases (leb last_block n)) [
  | inl t ↦ (n, ground arith, ground arith)
  | inr f ↦ let (k, c, l) = await-Reached last_block m polls (ground arith) in (k, ground arith, l)
]

-- A session that does not end by an error of the client ends only after a block was seen finalized
-- that is at or after the session's last block, in the attempts of the early skip or in the polls
-- after them.
pub run_session-Reached :
    (api : RuntimeApi) (keys : List ℕ) (period session_id : ℕ) (seen : Observed)
    (sessions sessions' : SessionMap) (ran : Ran)
    → run_session api keys period session_id seen sessions ≡ some (ran, sessions')
    → ran ≢ errored
    → Reached (last_block_of_session session_id period) (seen.attempts ++ seen.polls)
unfolding run_session
run_session-Reached api keys period session_id seen sessions sessions' ran e ne =
    go (session_authorities_of api period session_id) refl
  where
    last_block : ℕ
    last_block = last_block_of_session session_id period

    go :
        (f : Fetched)
        → session_authorities_of api period session_id ≡ f
        → Reached last_block (seen.attempts ++ seen.polls)
    go fetch_panicked h = absurd (ground arith)
    go gave_up h = absurd (ne (ground arith))
    go (fetched authorities) h =
        elim (Bool-cases (leb last_block seen.best_number && skips 10 last_block seen.attempts)) [
          | inl t ↦
              let (n, c, l) = skips-Reached 10 last_block seen.attempts (ground arith) in
              (n, ground (arith, contains-append seen.attempts seen.polls n), l)
          | inr f ↦ elim (Option-cases (await_finalized last_block seen.polls)) [
            | inl q ↦ absurd (ground arith)
            | inr (m, q) ↦
                let (n, c, l) = await-Reached last_block m seen.polls q in
                (n, ground (arith, contains-append seen.attempts seen.polls n), l)
          ]
        ]

-- The sessions that are stored before the session `c` are among those before it, not before the first
-- one, `c0`, and not older than ten sessions before the last multiple of ten.
abbrev pub Window : ℕ → ℕ → SessionMap → Type 0
Window c0 c sessions =
    (s : ℕ) (authorities : List ℕ)
    → get sessions s ≡ some authorities
    → (c0 ≤ s) × (s < c) × ((c - 1) / 10 * 10 ≤ s + 10)

-- The same with the session `c` itself stored.
abbrev Stored : ℕ → ℕ → SessionMap → Type 0
Stored c0 c sessions =
    (s : ℕ) (a : List ℕ)
    → get sessions s ≡ some a
    → (s ≡ c) ⊎ ((c0 ≤ s) × (s < c) × ((c - 1) / 10 * 10 ≤ s + 10))

tens : (c : ℕ) → nat_beq (c % 10) 0 ≡ false → c / 10 * 10 ≡ (c - 1) / 10 * 10
tens c h = ground arith

tens-le : (c s : ℕ) → c ≤ s + 10 → c / 10 * 10 ≤ s + 10
tens-le c s h = ground arith

tens-small : (c : ℕ) → c < 10 → c / 10 * 10 ≡ 0
tens-small c h = ground arith

insert-Window :
    (c0 c s : ℕ) (authorities a : List ℕ) (sessions : SessionMap)
    → Window c0 c sessions
    → get (insert c authorities sessions) s ≡ some a
    → (s ≡ c) ⊎ ((c0 ≤ s) × (s < c) × ((c - 1) / 10 * 10 ≤ s + 10))
insert-Window c0 c s authorities a sessions w e = elim (Bool-cases (c == s)) [
  | inl t ↦ inl (ground arith)
  | inr f ↦ inr (w s a (ground (arith, get-insert sessions c s authorities)))
]

prune-Window :
    (c0 c : ℕ) (sessions : SessionMap)
    → c0 ≤ c
    → Stored c0 c sessions
    → Window c0 (c + 1) (prune c sessions)
unfolding prune prune_session_data
prune-Window c0 c sessions l w s a e = elim (Bool-cases (leb 10 c && nat_beq (c % 10) 0)) [
  | inr f ↦
      let there : get sessions s ≡ some a = ground arith in
      elim (w s a there) [
        | inl q ↦ (omega (arith, q, l), omega (arith, q), ground (arith, tens-le c s))
        | inr (k, b, q) ↦ (k, omega (arith, b), ground (arith, tens c, tens-small c, q))
      ]
  | inl t ↦
      let kept = get-retain (λ k _. leb (c - 10) k) sessions s in
      elim (Option-cases (get sessions s)) [
        | inl n ↦ absurd (ground arith)
        | inr (b, n) ↦
            let recent : leb (c - 10) s ≡ true = ground arith in
            elim (w s b n) [
              | inl q ↦ (omega (arith, q, l), omega (arith, q), ground (arith, tens-le c s))
              | inr (k, d, q) ↦ (k, omega (arith, d), ground (arith, tens-le c s))
            ]
      ]
]

run_session-sessions :
    (api : RuntimeApi) (keys : List ℕ) (period session_id : ℕ) (seen : Observed)
    (sessions sessions' : SessionMap) (ran : Ran)
    → run_session api keys period session_id seen sessions ≡ some (ran, sessions')
    → (sessions' ≡ sessions) ⊎ ((a : List ℕ) × (sessions' ≡ insert session_id a sessions))
unfolding run_session
run_session-sessions api keys period session_id seen sessions sessions' ran e =
    go (session_authorities_of api period session_id) refl
  where
    last_block : ℕ
    last_block = last_block_of_session session_id period

    go :
        (f : Fetched)
        → session_authorities_of api period session_id ≡ f
        → (sessions' ≡ sessions) ⊎ ((a : List ℕ) × (sessions' ≡ insert session_id a sessions))
    go fetch_panicked h = absurd (ground arith)
    go gave_up h = inl (ground arith)
    go (fetched authorities) h = inr (authorities, ground arith)

next_id : (c n : ℕ) → c + suc n < 2 ^ 32 → (c + 1) % 2 ^ 32 ≡ c + 1
next_id c n h = omega (arith, h)

run_from-Window :
    (api : RuntimeApi) (keys : List ℕ) (period c0 c : ℕ) (seen : List Observed)
    (sessions sessions' : SessionMap) (rans : List Ran)
    → run_from api keys period c seen sessions ≡ some (rans, sessions')
    → c0 ≤ c
    → c + length seen < 2 ^ 32
    → Window c0 c sessions
    → Window c0 (c + length seen) sessions'
unfolding run_from
run_from-Window api keys period c0 c [] sessions sessions' rans e l b w =
    subst (λ n. Window c0 n sessions') (omega arith) (subst (Window c0 c) (ground arith) w)
run_from-Window api keys period c0 c (o ∷ seen) sessions sessions' rans e l b w =
    elim (Option-cases (run_session api keys period c o sessions)) [
      | inl n ↦ absurd (ground arith)
      | inr ((ran, m), n) ↦
          elim (Option-cases (run_from api keys period ((c + 1) % 2 ^ 32) seen (prune c m))) [
            | inl n' ↦ absurd (ground arith)
            | inr ((later, m'), n') ↦
                let stored : Stored c0 c m =
                  elim (run_session-sessions api keys period c o sessions m ran n) [
                    | inl q ↦ λ s a h. inr (w s a (ground (arith, q)))
                    | inr (b, q) ↦ λ s a h. insert-Window c0 c s b a sessions w (ground (arith, q))
                  ] in
                let same : m' ≡ sessions' = ground arith in
                let there : run_from api keys period (c + 1) seen (prune c m)
                    ≡ some (later, sessions') =
                  subst (λ x. run_from api keys period (c + 1) seen (prune c m) ≡ some (later, x))
                    same
                    (subst (λ k. run_from api keys period k seen (prune c m) ≡ some (later, m'))
                      (next_id c (length seen) b) n') in
                subst (λ k. Window c0 k sessions') (omega arith)
                  (run_from-Window api keys period c0 (c + 1) seen (prune c m) sessions' later there
                    (omega (arith, l)) (omega (arith, b)) (prune-Window c0 c m l stored))
          ]
    ]

-- The authorities that the party keeps in memory do not grow with the chain: when it has run any
-- number of sessions from session `c` on, and begun with none stored, every session stored is one of
-- the last twenty that it ran. This is for ids of sessions that stay below 2^32, as `u32` has them.
pub run_from-bounded :
    (api : RuntimeApi) (keys : List ℕ) (period c : ℕ) (seen : List Observed) (sessions : SessionMap)
    (rans : List Ran) (s : ℕ) (authorities : List ℕ)
    → run_from api keys period c seen [] ≡ some (rans, sessions)
    → c + length seen < 2 ^ 32
    → get sessions s ≡ some authorities
    → (c ≤ s) × (s < c + length seen) × (c + length seen ≤ s + 20)
run_from-bounded api keys period c seen sessions rans s authorities e b h =
    let (l, u, w) =
      run_from-Window api keys period c c seen [] sessions rans e (omega arith) b
        (λ s a q. absurd (ground (arith, get-empty {V = List ℕ} s))) s authorities h in
    (l, u, close (c + length seen) s u w)
  where
    close : (n s : ℕ) → s < n → (n - 1) / 10 * 10 ≤ s + 10 → n ≤ s + 20
    close n s l h = ground arith
