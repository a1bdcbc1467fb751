-- ===== src/Metrics/Reports.antt =====
-- Any reports to the metrics of finality-aleph/src/metrics.rs.
use aleph_node.Common.{
  ◌≡◌, refl, ◌∙◌, ap, inl, inr, ℕ, ◌++◌, ◌&&◌, Option, none, some, List, [], ◌∷◌, append-nil,
  append_assoc, subst, arith, nat_eq, ◌==◌, if◌then◌else◌, Bool, true, false, Bool-cases,
  Option-cases,
}
use aleph_node.Common.Map.{Map, get, get-empty}
use aleph_node.Metrics.{
  Checkpoint, importing, imported, get_data, finalize, aggregation_start, checkpoint_eq, Metrics,
  register, Report, report_all,
}
use aleph_node.Metrics.Block.{
  IsComplete, start_of, or_else, in_time, starts_with, note_start_lem, report_block_lem,
  report_block_early,
}

-- The instant at which a block was first seen at a checkpoint, by the reports.
abbrev pub first_report : List Report → Checkpoint → ℕ → Option ℕ
first_report [] name hash = none
first_report (r ∷ rs) name hash =
    if r.name == name && r.hash == hash then some r.checkpoint else first_report rs name hash

starts-empty : (k : Checkpoint) → get register.starts k ≡ some []
unfolding register get
starts-empty importing = refl
starts-empty imported = refl
starts-empty get_data = refl
starts-empty finalize = refl
starts-empty aggregation_start = refl

gauges-zero : (k : Checkpoint) → get register.gauges k ≡ some 0
unfolding register get
gauges-zero importing = refl
gauges-zero imported = refl
gauges-zero get_data = refl
gauges-zero finalize = refl
gauges-zero aggregation_start = refl

first_report-snoc :
    (rs : List Report) (r : Report) (k : Checkpoint) (h : ℕ)
    → first_report (rs ++ r ∷ []) k h
      ≡ or_else
          (first_report rs k h)
          (if r.name == k && r.hash == h then some r.checkpoint else none)
first_report-snoc [] r k h = ground arith
first_report-snoc (q ∷ rs) r k h = ground (arith, first_report-snoc rs r k h)

in_time_ext :
    (prev : Map Checkpoint Checkpoint) (f g : Checkpoint → ℕ → Option ℕ) (r : Report)
    → ((k : Checkpoint) (h : ℕ) → f k h ≡ g k h)
    → in_time prev f r ≡ in_time prev g r
in_time_ext prev f g r e = elim (Option-cases (get prev r.name)) [
  | inl n ↦ ground arith
  | inr (p, n) ↦ ground (arith, e p r.hash)
]

-- Each of the reports after `before` is in time: it does not come before the first report so far of
-- its block at the previous checkpoint.
abbrev pub all_in_time : List Report → List Report → Bool
all_in_time before [] = true
all_in_time before (r ∷ rs) =
    in_time register.prev (first_report (before ++ r ∷ [])) r && all_in_time (before ++ r ∷ []) rs

-- What the reports `rs` after `before` lead to: a panic if one of them is too early, and if not,
-- metrics with everything that the code expects to be there, which have the first reports.
abbrev pub Reported : List Report → List Report → Option Metrics → Type 0
Reported before rs none = all_in_time before rs ≡ false
Reported before rs (some m) =
    (all_in_time before rs ≡ true)
    × IsComplete m
    × ((k : Checkpoint) (h : ℕ) → start_of m k h ≡ first_report (before ++ rs) k h)

-- The metrics after the reports `before`.
record Holds (before : List Report) (m : Metrics) : Type 0 where
  complete : IsComplete m
  links : m.prev ≡ register.prev
  first : (k : Checkpoint) (h : ℕ) → start_of m k h ≡ first_report before k h

Reported-cons :
    (before rs : List Report) (r : Report) (o : Option Metrics)
    → in_time register.prev (first_report (before ++ r ∷ [])) r ≡ true
    → Reported (before ++ r ∷ []) rs o
    → Reported before (r ∷ rs) o
Reported-cons before rs r none t f = ground arith
Reported-cons before rs r (some m) t (a, c, s) =
    (ground arith, c, λ k h. s k h ∙ ap (λ x. first_report x k h) (append_assoc before (r ∷ []) rs))

report_all-Reported :
    (before rs : List Report) (m : Metrics) → Holds before m → Reported before rs (report_all rs m)
unfolding report_all
report_all-Reported before [] m v = (refl, v.complete, rw (append-nil before) v.first)
report_all-Reported before (r ∷ rs) m v =
    elim (Bool-cases (in_time register.prev (first_report (before ++ r ∷ [])) r)) [
      | inr f ↦
          let e = report_block_early r m v.complete (judged ∙ f) in
          subst (Reported before (r ∷ rs)) {x = none} (ground arith) (ground arith)
      | inl t ↦
          let (m1, e, c1, s1, q1) = report_block_lem r m v.complete (judged ∙ t) in
          let later = report_all-Reported (before ++ r ∷ []) rs m1 (record {
            complete = c1;
            links = q1 ∙ v.links;
            first = λ k h. ground (arith, s1 k h, v.first k h, first_report-snoc before r k h);
          }) in
          subst (Reported before (r ∷ rs)) {x = report_all rs m1} (ground arith)
            (Reported-cons before rs r (report_all rs m1) t later)
    ]
  where
    judged :
        in_time m.prev (starts_with r m) r
        ≡ in_time register.prev (first_report (before ++ r ∷ [])) r
    judged =
        ap (λ x. in_time x (starts_with r m) r) v.links
        ∙ in_time_ext register.prev (starts_with r m) (first_report (before ++ r ∷ [])) r (λ k h.
          ground (
            arith,
            (note_start_lem r.hash r.checkpoint r.name m v.complete).1 k h,
            v.first k h,
            first_report-snoc before r k h,
          ))

pub register-IsComplete : IsComplete register
register-IsComplete = record {
  started = λ k. ([], starts-empty k);
  gauged = λ k. (0, gauges-zero k);
}

pub unstarted : (k : Checkpoint) (h : ℕ) → start_of register k h ≡ none
unstarted k h = rw (starts-empty k, get-empty {V = ℕ} h) refl

-- Any reports to the registered metrics panic exactly if one of them is before the first report so
-- far of its block at the previous checkpoint. If they do not, every checkpoint still has its start
-- times and its gauge, and the start time of a block at a checkpoint is the instant of the first
-- report of that block at that checkpoint; there is none if there was no such report.
pub report_all-first : (rs : List Report) → Reported [] rs (report_all rs register)
report_all-first rs =
    report_all-Reported [] rs register
      (record { complete = register-IsComplete; links = refl; first = unstarted })
