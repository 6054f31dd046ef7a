-- ===== src/Receiver/Repair/Limits.antt =====
-- What `_limit_missing_ranges_for_transfer` keeps of the missing ranges.
use ssync.Prelude.{
  ℕ, zero, suc, ◌+◌, ◌<◌, min, ◌≡◌, refl, ap, Bool, true, false, not, ◌&&◌, List, [], ◌∷◌, arith,
  ltb, leb, ◌==◌, if◌then◌else◌, leb→gt, take,
}
use ssync.Ranges.{Range, limit_ranges_to_chunk_budget, expand_ranges}
use ssync.Ranges.Cover.{covers, span, IsCanonical}
use ssync.Ranges.Merge.{canonical-All}
use ssync.Ranges.Indexes.{elem, elem-expand_ranges}
use ssync.Ranges.Budget.{
  expand-limit_ranges_to_chunk_budget, span-limit_ranges_to_chunk_budget, limit_ranges-IsCanonical,
}
use ssync.Receiver.{Transfer}
use ssync.Receiver.Repair.{
  RepairConfig, is_leading_hole_heavy, effective_repair_chunk_budget,
  limit_missing_ranges_for_transfer,
}

-- A request for some of the missing ranges: canonical, not empty, and of missing chunks only.
pub record Asks (missing asked : List Range) : Type 0 where
  pub canonical : IsCanonical asked
  pub some_chunk : 0 < span asked
  pub of_missing : (i : ℕ) → (covers asked i && not (covers missing i)) ≡ false

elem-take : (i n : ℕ) (xs : List ℕ) → (elem i (take n xs) && not (elem i xs)) ≡ false
elem-take i zero xs = refl
elem-take i (suc n) [] = refl
elem-take i (suc n) (x ∷ xs) = ground (arith, elem-take i n xs)

covers-limited :
    (missing : List Range) (n i : ℕ)
    → IsCanonical missing
    → (covers (limit_ranges_to_chunk_budget missing n) i && not (covers missing i)) ≡ false
covers-limited missing n i c =
    let limited = limit_ranges_to_chunk_budget missing n in
    let taken : elem i (expand_ranges limited) ≡ elem i (take n (expand_ranges missing)) =
      ap (elem i) (expand-limit_ranges_to_chunk_budget missing n (canonical-All 0 missing c)) in
    ground (
      arith,
      taken,
      elem-expand_ranges limited i,
      elem-expand_ranges missing i,
      elem-take i n (expand_ranges missing),
    )

Asks-self : (r : Range) (rest : List Range) → IsCanonical (r ∷ rest) → Asks (r ∷ rest) (r ∷ rest)
Asks-self r rest c = record {
  canonical = c;
  some_chunk = omega (arith, c.1);
  of_missing = λ i. ground arith;
}

Asks-first :
    (r : Range) (rest : List Range) (n : ℕ)
    → 0 < n
    → IsCanonical (r ∷ rest)
    → Asks (r ∷ rest) ((r.0, min r.1 (r.0 + n)) ∷ [])
Asks-first r rest n h c = record {
  canonical = (omega arith, omega (arith, c.1), tt);
  some_chunk = omega (arith, c.1);
  of_missing = λ i. ground arith;
}

Asks-limited :
    (r : Range) (rest : List Range) (n : ℕ)
    → 0 < n
    → IsCanonical (r ∷ rest)
    → Asks (r ∷ rest) (limit_ranges_to_chunk_budget (r ∷ rest) n)
Asks-limited r rest n h c = record {
  canonical = limit_ranges-IsCanonical (r ∷ rest) n c;
  some_chunk =
      omega
        (arith, span-limit_ranges_to_chunk_budget (r ∷ rest) n (canonical-All 0 (r ∷ rest) c), c.1);
  of_missing = λ i. covers-limited (r ∷ rest) n i c;
}

Asks-if :
    (b : Bool) (missing xs ys : List Range)
    → (b ≡ true → Asks missing xs)
    → (b ≡ false → Asks missing ys)
    → Asks missing (if b then xs else ys)
Asks-if true missing xs ys h k = h refl
Asks-if false missing xs ys h k = k refl

-- Of canonical missing ranges, at least one, the limit keeps canonical ranges, at least one chunk,
-- and missing chunks only.
pub limit_missing_ranges-Asks :
    (config : RepairConfig) (t : Transfer) (r : Range) (rest : List Range)
    → IsCanonical (r ∷ rest)
    → Asks (r ∷ rest) (limit_missing_ranges_for_transfer config t (r ∷ rest))
unfolding limit_missing_ranges_for_transfer
limit_missing_ranges-Asks config t r rest c =
    let budget = effective_repair_chunk_budget config t (r ∷ rest) in
    Asks-if (leb budget 0) (r ∷ rest) _ _ (λ _. Asks-self r rest c)
      λ positive.
        Asks-if (is_leading_hole_heavy config t (r ∷ rest)) (r ∷ rest) _ _
          (λ _. Asks-first r rest budget (leb→gt budget 0 positive) c)
          (λ _. Asks-limited r rest budget (leb→gt budget 0 positive) c)

-- Under a budget, the limit keeps at most as many chunks of canonical missing ranges as the budget;
-- without one, that is for the budget 0, it keeps all of them.
pub span-limit_missing_ranges :
    (config : RepairConfig) (t : Transfer) (missing : List Range)
    → IsCanonical missing
    → (if ltb 0 (effective_repair_chunk_budget config t missing)
        then leb
            (span (limit_missing_ranges_for_transfer config t missing))
            (effective_repair_chunk_budget config t missing)
        else span (limit_missing_ranges_for_transfer config t missing) == span missing)
      ≡ true
unfolding limit_missing_ranges_for_transfer
span-limit_missing_ranges config t [] c = ground arith
span-limit_missing_ranges config t (r ∷ rest) c =
    let budget = effective_repair_chunk_budget config t (r ∷ rest) in
    ground
      (arith, span-limit_ranges_to_chunk_budget (r ∷ rest) budget (canonical-All 0 (r ∷ rest) c))
