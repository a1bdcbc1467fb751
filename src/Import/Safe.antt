-- ===== src/Import/Safe.antt =====
-- The metrics that no report of finality-aleph/src/import.rs makes panic.
use aleph_node.Common.{
  ◌≡◌, ◌≤◌, ◌∙◌, sym, false, refl, inl, inr, ℕ, Bool, true, Option, none, some, arith,
  if◌then◌else◌, Option-cases,
}
use aleph_node.Common.Map.{get}
use aleph_node.Metrics.{Metrics, Checkpoint, checkpoint_eq, report_block, Report}
use aleph_node.Metrics.Block.{
  IsComplete, start_of, report_block_lem, note_start_lem, starts_with, in_time, not_before, or_else,
}

-- Metrics that no report from the instant `now` on makes panic: they have all that the code expects,
-- and no start time is later than this instant.
abbrev pub IsSafe : ℕ → Option Metrics → Type 0
IsSafe now none = Unit {0}
IsSafe now (some m) =
    IsComplete m × ((k : Checkpoint) (h t : ℕ) → start_of m k h ≡ some t → t ≤ now)

pub later-IsSafe :
    (now after : ℕ) (m : Option Metrics) → now ≤ after → IsSafe now m → IsSafe after m
later-IsSafe now after none l s = tt
later-IsSafe now after (some m) l (c, early) =
    (c, λ k h t e. let b = early k h t e in omega (arith, b, l))

-- After a report at `now`, the start times are not later than that either.
noted_by :
    (now : ℕ) (old : Option ℕ) (b : Bool) (t : ℕ)
    → ((s : ℕ) → old ≡ some s → s ≤ now)
    → or_else old (if b then some now else none) ≡ some t
    → t ≤ now
noted_by now none true t early e = ground arith
noted_by now none false t early e = absurd (ground arith)
noted_by now (some s) b t early e = early t e

not_before_by :
    (now : ℕ) (o : Option ℕ) → ((t : ℕ) → o ≡ some t → t ≤ now) → not_before now o ≡ true
not_before_by now none h = refl
not_before_by now (some t) h = let l = h t refl in ground arith

pub report_block-IsSafe :
    (hash now : ℕ) (name : Checkpoint) (m : Metrics)
    → IsSafe now (some m)
    → (m' : Metrics) × (report_block hash now name m ≡ some m') × IsSafe now (some m')
report_block-IsSafe hash now name m (c, early) =
    let (m', e, c', noted, _) = report_block_lem r m c in_order in
    (m', e, (c', λ k h t q. noted_by now (start_of m k h) _ t (early k h) (sym (noted k h) ∙ q)))
  where
    r : Report
    r = record { hash = hash; checkpoint = now; name = name }

    in_order : in_time m.prev (starts_with r m) r ≡ true
    in_order = elim (Option-cases (get m.prev name)) [
      | inl n ↦ ground arith
      | inr (p, n) ↦
          let l = not_before_by now (starts_with r m p hash) (λ t q.
            noted_by now (start_of m p hash) _ t (early p hash)
              (sym ((note_start_lem hash now name m c).1 p hash) ∙ q)) in
          ground arith
    ]
