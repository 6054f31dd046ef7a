-- ===== src/Ranges/Budget.antt =====
-- `limit_ranges_to_chunk_budget` keeps the first indexes of its ranges, as many as the budget.
use ssync.Prelude.{
  lt→leb, ℕ, zero, suc, ◌+◌, ◌-◌, ◌≤◌, ◌<◌, ◌≡◌, refl, sym, ap, ◌∙◌, List, [], ◌∷◌, ◌++◌, arith,
  length, take, All, min, take-append_le, take-append_add, length-append, length-take,
}
use mathlib.Core.List.{append-nil}
use ssync.Ranges.{Range, index_run, expand_ranges, budget_loop, limit_ranges_to_chunk_budget}
use ssync.Ranges.Cover.{span, IsCanonicalFrom, IsCanonical}
use ssync.Ranges.Merge.{IsProper}

length-index_run : (start n : ℕ) → length (index_run start n) ≡ n
unfolding index_run
length-index_run start zero = refl
length-index_run start (suc n) = ap suc (length-index_run (start + 1) n)

take-index_run : (m n start : ℕ) → m ≤ n → take m (index_run start n) ≡ index_run start m
unfolding index_run
take-index_run zero n start h = refl
take-index_run (suc m) zero start h = absurd (omega arith)
take-index_run (suc m) (suc n) start h =
    ap (◌∷◌ start) (take-index_run m n (start + 1) (omega arith))

-- The number of listed indexes is the span.
pub length-expand_ranges : (rs : List Range) → length (expand_ranges rs) ≡ span rs
unfolding expand_ranges
length-expand_ranges [] = refl
length-expand_ranges (r ∷ rs) = omega (
  arith,
  length-append (index_run r.0 (r.1 - r.0)) (expand_ranges rs),
  length-index_run r.0 (r.1 - r.0),
  length-expand_ranges rs,
)

expand-cons :
    (r : Range) (rs : List Range)
    → expand_ranges (r ∷ rs) ≡ index_run r.0 (r.1 - r.0) ++ expand_ranges rs
unfolding expand_ranges
expand-cons r rs = refl

module _ (remaining : ℕ) (r : Range) (rs : List Range) (proper : IsProper r) where
  whole_range :
      r.1 ≤ r.0 + remaining
      → take remaining (expand_ranges (r ∷ rs))
        ≡ index_run r.0 (r.1 - r.0) ++ take (remaining + r.0 - r.1) (expand_ranges rs)
  unfolding expand_ranges
  whole_range h =
      take-append_add remaining (remaining + r.0 - r.1) (index_run r.0 (r.1 - r.0))
        (expand_ranges rs) (omega (arith, length-index_run r.0 (r.1 - r.0)))

  cut_range :
      r.0 + remaining < r.1
      → take remaining (expand_ranges (r ∷ rs)) ≡ expand_ranges ((r.0, r.0 + remaining) ∷ [])
  unfolding expand_ranges
  cut_range h =
      take-append_le remaining (index_run r.0 (r.1 - r.0)) (expand_ranges rs)
        (omega (arith, length-index_run r.0 (r.1 - r.0)))
      ∙ take-index_run remaining (r.1 - r.0) r.0 (omega arith)
      ∙ sym (append-nil _ ∙ ap (index_run r.0) (omega arith))

expand-budget_loop :
    (remaining : ℕ) (rs : List Range)
    → All IsProper rs
    → expand_ranges (budget_loop remaining rs) ≡ take remaining (expand_ranges rs)
unfolding budget_loop
expand-budget_loop zero [] p = unfold expand_ranges in refl
expand-budget_loop (suc n) [] p = unfold expand_ranges in refl
expand-budget_loop zero (r ∷ rs) p = unfold expand_ranges in refl
expand-budget_loop (suc n) (r ∷ rs) p = ground (
  arith,
  expand-cons r (budget_loop (suc n + r.0 - r.1) rs),
  λ (h : r.1 ≤ r.0 + suc n). whole_range (suc n) r rs p.0 h,
  λ (h : r.0 + suc n < r.1). cut_range (suc n) r rs p.0 h,
  expand-budget_loop (suc n + r.0 - r.1) rs p.1,
)

-- The limited ranges list the first `chunk_budget` indexes of the given proper ranges, in order, and
-- no other.
pub expand-limit_ranges_to_chunk_budget :
    (rs : List Range) (chunk_budget : ℕ)
    → All IsProper rs
    → expand_ranges (limit_ranges_to_chunk_budget rs chunk_budget)
      ≡ take chunk_budget (expand_ranges rs)
unfolding limit_ranges_to_chunk_budget
expand-limit_ranges_to_chunk_budget rs zero p = unfold expand_ranges in refl
expand-limit_ranges_to_chunk_budget rs (suc n) p =
    rw (lt→leb (suc n) 0 (omega arith)) (expand-budget_loop (suc n) rs p)

-- So their span is the budget, or the whole span where that is smaller.
pub span-limit_ranges_to_chunk_budget :
    (rs : List Range) (chunk_budget : ℕ)
    → All IsProper rs
    → span (limit_ranges_to_chunk_budget rs chunk_budget) ≡ min chunk_budget (span rs)
span-limit_ranges_to_chunk_budget rs n p =
    sym (length-expand_ranges (limit_ranges_to_chunk_budget rs n))
    ∙ ap length (expand-limit_ranges_to_chunk_budget rs n p)
    ∙ length-take n (expand_ranges rs)
    ∙ ap (min n) (length-expand_ranges rs)

budget_loop-IsCanonicalFrom :
    (lo remaining : ℕ) (rs : List Range)
    → IsCanonicalFrom lo rs
    → IsCanonicalFrom lo (budget_loop remaining rs)
unfolding budget_loop
budget_loop-IsCanonicalFrom lo remaining [] c = tt
budget_loop-IsCanonicalFrom lo remaining (r ∷ rs) (a, b, c) =
    ground (arith, budget_loop-IsCanonicalFrom (suc r.1) (remaining + r.0 - r.1) rs c)

pub limit_ranges-IsCanonical :
    (rs : List Range) (n : ℕ) → IsCanonical rs → IsCanonical (limit_ranges_to_chunk_budget rs n)
unfolding limit_ranges_to_chunk_budget
limit_ranges-IsCanonical rs zero c = tt
limit_ranges-IsCanonical rs (suc n) c =
    rw (lt→leb (suc n) 0 (omega arith)) (budget_loop-IsCanonicalFrom 0 (suc n) rs c)
