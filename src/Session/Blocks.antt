-- ===== src/Session/Blocks.antt =====
-- The sessions of finality-aleph/src/lib.rs cut the block numbers into intervals.
use native.Mathlib.Nat.{div-eq_of_lt-le, div-mul-le_self, lt-div-mul-add}
use aleph_node.Common.{ℕ, ◌+◌, ◌*◌, ◌/◌, ◌%◌, ◌^◌, ◌≤◌, ◌<◌, ◌≡◌, ap, ◌↔◌, some, arith}
use aleph_node.Session.{last_block_of_session, session_id_from_block_num}

-- Without overflow the last block of a session is what the formula says.
pub last_block-value :
    (s p : ℕ) → 0 < p → (s + 1) * p < 2 ^ 32 → last_block_of_session s p + 1 ≡ (s + 1) * p
unfolding last_block_of_session
last_block-value s p pos small =
    let within : s + 1 ≤ (s + 1) * p = grind arith in
    let below : s + 1 < 2 ^ 32 = omega arith in
    let same : (s + 1) % 2 ^ 32 ≡ s + 1 = omega arith in rw same (omega arith)

-- A block lies in the session `s` exactly if its number is at least `s` times the period and at most
-- that of the last block of `s`. The period must be positive, and the block's number and that of the
-- last block plus one must fit into 32 bits.
pub session_id-eq_iff :
    (s p n : ℕ)
    → 0 < p
    → (s + 1) * p < 2 ^ 32
    → n < 2 ^ 32
    → (session_id_from_block_num n p ≡ some s) ↔ ((s * p ≤ n) × (n ≤ last_block_of_session s p))
unfolding session_id_from_block_num
session_id-eq_iff s p n pos small num = (
  λ h.
      let q : n / p ≡ s = ground arith in
      let low = ap (λ (k : ℕ). k * p) q in
      (
        omega (arith, div-mul-le_self n p),
        omega (arith, lt-div-mul-add {a = n} pos, last_block-value s p pos small),
      ),
  λ h.
      let q : n / p ≡ s =
        div-eq_of_lt-le p (omega arith) (omega (arith, h.1, last_block-value s p pos small)) in
      ground arith,
)

pub period_positive : (n p : ℕ) {s : ℕ} → session_id_from_block_num n p ≡ some s → 0 < p
unfolding session_id_from_block_num
period_positive n p e = ground arith
