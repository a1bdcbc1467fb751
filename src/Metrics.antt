-- ===== src/Metrics.antt =====
-- finality-aleph/src/metrics.rs. An instant is a number of nanoseconds. A gauge is the value that it
-- shows; the registry that can refuse one is outside. The checkpoints are the five names of `keys`,
-- the only ones that the node reports. `none` is a panic, such as a difference of instants below 0.
pub mod Block
pub mod Reports
use aleph_node.Common.{
  ℕ, ◌-◌, ◌/◌, ◌%◌, ◌^◌, Bool, true, false, Option, none, some, List, [], ◌∷◌, ◌≡◌, ◌↔◌, refl, ap,
  sym, ◌∙◌, arith, nat_beq, nat_beq_iff, ltb, Eq, nat_eq, map, ◌>>=◌, if◌then◌else◌,
}
use aleph_node.Common.Map.{Map, get, insert}

pub data Checkpoint : Type 0 where
  importing : Checkpoint
  imported : Checkpoint
  get_data : Checkpoint
  finalize : Checkpoint
  aggregation_start : Checkpoint

abbrev pub position : Checkpoint → ℕ
position importing = 0
position imported = 1
position get_data = 2
position finalize = 3
position aggregation_start = 4

abbrev checkpoint_at : ℕ → Checkpoint
checkpoint_at n =
    if nat_beq n 0
    then importing
    else if nat_beq n 1
    then imported
    else if nat_beq n 2
    then get_data
    else if nat_beq n 3
    then finalize
    else aggregation_start

checkpoint_at-position : (c : Checkpoint) → checkpoint_at (position c) ≡ c
checkpoint_at-position importing = refl
checkpoint_at-position imported = refl
checkpoint_at-position get_data = refl
checkpoint_at-position finalize = refl
checkpoint_at-position aggregation_start = refl

pub checkpoint_iff : (a b : Checkpoint) → (nat_beq (position a) (position b) ≡ true) ↔ (a ≡ b)
checkpoint_iff a b = (
  λ h.
      sym (checkpoint_at-position a)
      ∙ ap checkpoint_at ((nat_beq_iff (position a) (position b)).0 h)
      ∙ checkpoint_at-position b,
  λ h. (nat_beq_iff (position a) (position b)).1 (ap position h),
)

instance abbrev pub checkpoint_eq : Eq Checkpoint
checkpoint_eq = record { beq = λ a b. nat_beq (position a) (position b); beq_iff = checkpoint_iff }

-- `Inner`, whose `keys` are read at the registration only.
pub record Metrics : Type 0 where
  pub prev : Map Checkpoint Checkpoint
  pub gauges : Map Checkpoint ℕ
  pub starts : Map Checkpoint (Map ℕ ℕ)

abbrev pub keys : List Checkpoint
keys = importing ∷ imported ∷ get_data ∷ finalize ∷ aggregation_start ∷ []

-- `register`, when the registry takes every gauge.
unfoldable pub register : Metrics
register = record {
  prev =
      (imported, importing)
      ∷ (get_data, imported)
      ∷ (aggregation_start, get_data)
      ∷ (finalize, aggregation_start)
      ∷ [];
  gauges = map (λ k. (k, 0)) keys;
  starts = map (λ k. (k, [])) keys;
}

-- `starts.entry(hash).or_insert(checkpoint)`
unfoldable pub or_insert : ℕ → ℕ → Map ℕ ℕ → Map ℕ ℕ
or_insert hash checkpoint starts = elim (get starts hash) [
  | none ↦ insert hash checkpoint starts
  | some _ ↦ starts
]

-- The first statement of `report_block`.
unfoldable pub note_start : ℕ → ℕ → Checkpoint → Metrics → Metrics
unfolding or_insert
note_start hash checkpoint name m = elim (get m.starts name) [
  | none ↦ m
  | some starts ↦ record m { starts = insert name (or_insert hash checkpoint starts) m.starts }
]

-- The gauge that shows the time since the start of the checkpoint before. `duration_since` panics if
-- the instant is earlier than that start.
unfoldable pub set_gauge : ℕ → ℕ → Checkpoint → Metrics → Option Metrics
set_gauge start checkpoint name m = do
  gauge ← get m.gauges name
  if ltb checkpoint start
      then none
      else some
          (record m { gauges = insert name ((checkpoint - start) / 10 ^ 6 % 2 ^ 64) m.gauges })

unfoldable pub show_time : ℕ → ℕ → Checkpoint → Checkpoint → Metrics → Option Metrics
unfolding set_gauge
show_time hash checkpoint name prev_checkpoint_name m = do
  starts ← get m.starts prev_checkpoint_name
  elim (get starts hash) [ none ↦ some m | some start ↦ set_gauge start checkpoint name m ]

unfoldable pub report_block : ℕ → ℕ → Checkpoint → Metrics → Option Metrics
unfolding note_start show_time
report_block hash checkpoint name m =
    let m' = note_start hash checkpoint name m in
    elim (get m'.prev name) [
      | none ↦ some m'
      | some prev_checkpoint_name ↦ show_time hash checkpoint name prev_checkpoint_name m'
    ]

-- A call of `report_block`.
pub record Report : Type 0 where
  pub hash : ℕ
  pub checkpoint : ℕ
  pub name : Checkpoint

unfoldable pub report_all : List Report → Metrics → Option Metrics
unfolding report_block
report_all [] m = some m
report_all (r ∷ rs) m = do m' ← report_block r.hash r.checkpoint r.name m; report_all rs m'
