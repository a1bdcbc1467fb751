-- ===== src/Party/Delays.antt =====
-- `create_aleph_config` and `exponential_slowdown` of finality-aleph/src/party.rs. The floating-point
-- numbers are an interface, since their arithmetic is the processor's; a duration is in milliseconds.
use aleph_node.Common.{
  ℕ, ◌-◌, ◌≡◌, ltb, leb, nat_beq, if◌then◌else◌, Bool-cases, inl, inr, arith, ap, ◌∙◌,
}

-- `f64`: a number from an integer, a number from its decimal digits and the count of those after
-- the point, multiplication, `powf`, `round`, and the saturating conversion to `u64`.
pub record Floats : Type 1 where
  pub F64 : Type 0
  pub of_nat : ℕ → F64
  pub decimal : ℕ → ℕ → F64
  pub mul : F64 → F64 → F64
  pub powf : F64 → F64 → F64
  pub round : F64 → F64
  pub to_u64 : F64 → ℕ

-- The crate's `DelayConfig` and `Config`, with the fields that are set here.
pub record DelayConfig : Type 0 where
  pub tick_interval : ℕ
  pub requests_interval : ℕ
  pub unit_broadcast_delay : ℕ → ℕ
  pub unit_creation_delay : ℕ → ℕ

pub record Config : Type 0 where
  pub n_members : ℕ
  pub node_ix : ℕ
  pub session_id : ℕ
  pub max_round : ℕ
  pub delay_config : DelayConfig

module _ (floats : Floats) where
  open floats use {F64, of_nat, decimal, mul, powf, round, to_u64}

  unfoldable pub exponential_slowdown : ℕ → F64 → ℕ → F64 → ℕ
  exponential_slowdown t base_delay start_exp_delay exp_base =
      let delay =
        (if ltb t start_exp_delay
          then base_delay
          else mul base_delay (powf exp_base (of_nat (t - start_exp_delay)))) in
      to_u64 (round delay)

  unfoldable pub unit_creation_delay : ℕ → ℕ
  unfolding exponential_slowdown
  unit_creation_delay t =
      if nat_beq t 0 then 2000 else exponential_slowdown t (decimal 3000 1) 5000 (decimal 1005 3)

  unfoldable pub unit_broadcast_delay : ℕ → ℕ
  unfolding exponential_slowdown
  unit_broadcast_delay t = exponential_slowdown t (decimal 4000 0) 0 (decimal 2 0)

  -- `create_aleph_config`, with the crate's `default_aleph_config`.
  unfoldable pub create_aleph_config : (ℕ → ℕ → ℕ → Config) → ℕ → ℕ → ℕ → Config
  unfolding unit_creation_delay unit_broadcast_delay
  create_aleph_config default_aleph_config n_members node_id session_id =
      record (default_aleph_config n_members node_id session_id) {
        max_round = 7000;
        delay_config = record {
          tick_interval = 100;
          requests_interval = 3000;
          unit_broadcast_delay = unit_broadcast_delay;
          unit_creation_delay = unit_creation_delay;
        };
      }

  -- The formula of the comment: the power starts above `start_exp_delay`.
  abbrev pub slowdown : ℕ → F64 → ℕ → F64 → ℕ
  slowdown t base_delay start_exp_delay exp_base = to_u64 (
      round (
        if leb t start_exp_delay
        then base_delay
        else mul base_delay (powf exp_base (of_nat (t - start_exp_delay)))))

  -- The code, whose test is strict, gives the delay of the formula, whose test is not: for numbers
  -- whose power with exponent zero is a one, multiplication by which changes nothing.
  pub exponential_slowdown-slowdown :
      ((x y : F64) → mul x (powf y (of_nat 0)) ≡ x)
      → (t : ℕ) (base_delay : F64) (start_exp_delay : ℕ) (exp_base : F64)
      → exponential_slowdown t base_delay start_exp_delay exp_base
        ≡ slowdown t base_delay start_exp_delay exp_base
  unfolding exponential_slowdown
  exponential_slowdown-slowdown zeroth t base start exp = elim (Bool-cases (nat_beq t start)) [
    | inl e ↦
        let same : t ≡ start = ground arith in
        let none_left : t - start ≡ 0 = omega arith in
        let power : mul base (powf exp (of_nat (t - start))) ≡ base =
          ap (λ n. mul base (powf exp (of_nat n))) none_left ∙ zeroth base exp in
        ground (arith, power)
    | inr n ↦ ground arith
  ]
