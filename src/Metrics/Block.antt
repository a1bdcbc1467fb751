-- ===== src/Metrics/Block.antt =====
-- One report to the metrics of finality-aleph/src/metrics.rs.
use aleph_node.Common.{
  ◌≡◌, refl, ◌∙◌, ap, inl, inr, ℕ, ◌-◌, ◌/◌, ◌%◌, ◌^◌, ◌&&◌, Option, none, some, arith, nat_eq,
  ◌==◌, if◌then◌else◌, ◌>>=◌, Bool, true, false, leb, Bool-cases, Option-cases,
}
use aleph_node.Common.Map.{Map, get, insert, get-insert}
use aleph_node.Metrics.{
  Checkpoint, checkpoint_eq, checkpoint_iff, Metrics, or_insert, note_start, set_gauge, show_time,
  report_block, Report,
}

-- Every checkpoint has its start times and its gauge.
pub record IsComplete (m : Metrics) : Type 0 where
  pub started : (k : Checkpoint) → (s : Map ℕ ℕ) × (get m.starts k ≡ some s)
  pub gauged : (k : Checkpoint) → (g : ℕ) × (get m.gauges k ≡ some g)

-- The instant at which a block was first seen at a checkpoint, as the metrics have it.
abbrev pub start_of : Metrics → Checkpoint → ℕ → Option ℕ
start_of m name hash = get m.starts name >>= λ s. get s hash

abbrev pub or_else : Option ℕ → Option ℕ → Option ℕ
or_else (some s) o = some s
or_else none o = o

get-or_insert :
    (hash t : ℕ) (s : Map ℕ ℕ) (h : ℕ)
    → get (or_insert hash t s) h ≡ or_else (get s h) (if hash == h then some t else none)
unfolding or_insert
get-or_insert hash t s h = elim (Option-cases (get s hash)) [
  | inl n ↦ ground (arith, get-insert s hash h t)
  | inr (t', n) ↦ ground arith
]

pub note_start_lem :
    (hash t : ℕ) (name : Checkpoint) (m : Metrics)
    → IsComplete m
    → IsComplete (note_start hash t name m)
      × ((k : Checkpoint) (h : ℕ)
          → start_of (note_start hash t name m) k h
            ≡ or_else (start_of m k h) (if name == k && hash == h then some t else none))
unfolding note_start
note_start_lem hash t name m c =
    let (s, e) = c.started name in
    let eq : note_start hash t name m
        ≡ (record m { starts = insert name (or_insert hash t s) m.starts }) =
      ground arith in
    rw eq (
      record {
        started = λ k. elim (Bool-cases (name == k)) [
          | inl q ↦
              (or_insert hash t s, ground (arith, get-insert m.starts name k (or_insert hash t s)))
          | inr f ↦
              let (s', e') = c.started k in
              (s', ground (arith, get-insert m.starts name k (or_insert hash t s)))
        ];
        gauged = c.gauged;
      },
      λ k h. elim (Bool-cases (name == k)) [
        | inl q ↦ ground (
          arith,
          get-insert m.starts name k (or_insert hash t s),
          get-or_insert hash t s h,
          (checkpoint_iff name k).0 q,
        )
        | inr f ↦ ground (arith, get-insert m.starts name k (or_insert hash t s))
      ],
    )

-- An instant is not before another one, if there is that.
abbrev pub not_before : ℕ → Option ℕ → Bool
not_before t none = true
not_before t (some s) = leb s t

show_time_lem :
    (hash t : ℕ) (name p : Checkpoint) (m : Metrics)
    → IsComplete m
    → not_before t (start_of m p hash) ≡ true
    → (m' : Metrics) × (show_time hash t name p m ≡ some m')
      × IsComplete m'
      × (m'.starts ≡ m.starts)
      × (m'.prev ≡ m.prev)
unfolding show_time set_gauge
show_time_lem hash t name p m c ok =
    let (s, e) = c.started p in
    let (g, e') = c.gauged name in
    elim (Option-cases (get s hash)) [
      | inl n ↦ (m, ground arith, c, refl, refl)
      | inr (start, n) ↦ (
        record m { gauges = insert name ((t - start) / 10 ^ 6 % 2 ^ 64) m.gauges },
        ground arith,
        record {
          started = c.started;
          gauged = λ k. elim (Bool-cases (name == k)) [
            | inl q ↦ (
              (t - start) / 10 ^ 6 % 2 ^ 64,
              ground (arith, get-insert m.gauges name k ((t - start) / 10 ^ 6 % 2 ^ 64)),
            )
            | inr f ↦
                let (g', q) = c.gauged k in
                (g', ground (arith, get-insert m.gauges name k ((t - start) / 10 ^ 6 % 2 ^ 64)))
          ];
        },
        refl,
        refl,
      )
    ]

show_time_early :
    (hash t : ℕ) (name p : Checkpoint) (m : Metrics)
    → IsComplete m
    → not_before t (start_of m p hash) ≡ false
    → show_time hash t name p m ≡ none
unfolding show_time set_gauge
show_time_early hash t name p m c early =
    let (s, e) = c.started p in
    let (g, e') = c.gauged name in
    elim (Option-cases (get s hash)) [
      | inl n ↦ absurd (ground arith)
      | inr (start, n) ↦ ground arith
    ]

-- A report is in time, if it does not come before the start of the block at the previous checkpoint.
abbrev pub in_time : Map Checkpoint Checkpoint → (Checkpoint → ℕ → Option ℕ) → Report → Bool
in_time prev starts r = elim (get prev r.name) [
  | none ↦ true
  | some p ↦ not_before r.checkpoint (starts p r.hash)
]

note_start-prev :
    (hash t : ℕ) (name : Checkpoint) (m : Metrics) → (note_start hash t name m).prev ≡ m.prev
unfolding note_start
note_start-prev hash t name m = ground arith

-- The start times after a report, from those before it.
abbrev Noted : Report → Metrics → Metrics → Type 0
Noted r m m' =
    (k : Checkpoint) (h : ℕ)
    → start_of m' k h
      ≡ or_else (start_of m k h) (if r.name == k && r.hash == h then some r.checkpoint else none)

-- The start times of the metrics with the report's own noted.
abbrev pub starts_with : Report → Metrics → Checkpoint → ℕ → Option ℕ
starts_with r m = start_of (note_start r.hash r.checkpoint r.name m)

pub report_block_lem :
    (r : Report) (m : Metrics)
    → IsComplete m
    → in_time m.prev (starts_with r m) r ≡ true
    → (m' : Metrics) × (report_block r.hash r.checkpoint r.name m ≡ some m')
      × IsComplete m'
      × Noted r m m'
      × (m'.prev ≡ m.prev)
unfolding report_block
report_block_lem r m c ok =
    let (c', s) = note_start_lem r.hash r.checkpoint r.name m c in
    let m1 = note_start r.hash r.checkpoint r.name m in
    let same = note_start-prev r.hash r.checkpoint r.name m in
    elim (Option-cases (get m1.prev r.name)) [
      | inl n ↦ (m1, ground arith, c', s, same)
      | inr (p, n) ↦
          let (m2, e, c2, q, q') =
            show_time_lem r.hash r.checkpoint r.name p m1 c' (ground arith) in
          (m2, ground arith, c2, λ k h. ap (λ x. get x k >>= λ y. get y h) q ∙ s k h, q' ∙ same)
    ]

pub report_block_early :
    (r : Report) (m : Metrics)
    → IsComplete m
    → in_time m.prev (starts_with r m) r ≡ false
    → report_block r.hash r.checkpoint r.name m ≡ none
unfolding report_block
report_block_early r m c early =
    let (c', s) = note_start_lem r.hash r.checkpoint r.name m c in
    let m1 = note_start r.hash r.checkpoint r.name m in
    let same = note_start-prev r.hash r.checkpoint r.name m in
    elim (Option-cases (get m1.prev r.name)) [
      | inl n ↦ absurd (ground arith)
      | inr (p, n) ↦
          let e = show_time_early r.hash r.checkpoint r.name p m1 c' (ground arith) in ground arith
    ]
