-- ===== src/Receiver/Repair/Encoded.antt =====
-- A repair request fits its frame: its ranges are few enough, and their indexes fit 32 bits.
use ssync.Prelude.{
  ℕ, ◌≤◌, ◌<◌, ◌-◌, ◌^◌, ◌≡◌, refl, Bool, true, false, ◌&&◌, List, [], ◌∷◌, arith, leb,
  if◌then◌else◌, length, All,
}
use ssync.Ranges.{Range, limit_ranges_to_chunk_budget}
use ssync.Ranges.Cover.{covers, span, IsCanonicalFrom, IsCanonical}
use ssync.Ranges.Merge.{canonical-All}
use ssync.Ranges.Budget.{span-limit_ranges_to_chunk_budget, limit_ranges-IsCanonical}
use ssync.Ranges.Wire.Laws.{FitsWord}
use ssync.Receiver.{Transfer}
use ssync.Receiver.Repair.{
  RepairConfig, is_leading_hole_heavy, effective_repair_chunk_budget,
  limit_missing_ranges_for_transfer,
}

length-le-span : (lo : ℕ) (rs : List Range) → IsCanonicalFrom lo rs → length rs ≤ span rs
length-le-span lo [] c = omega arith
length-le-span lo (r ∷ rs) (a, b, c) = omega (arith, b, length-le-span _ rs c)

-- The indexes below a bound of 32 bits fit the fields of a range.
pub canonical-FitsWord :
    (lo n : ℕ) (rs : List Range)
    → IsCanonicalFrom lo rs
    → n < 2 ^ 32
    → ((i : ℕ) → (covers rs i && leb n i) ≡ false)
    → All FitsWord rs
canonical-FitsWord lo n [] c k h = tt
canonical-FitsWord lo n (r ∷ rs) (a, b, c) k h =
    let below : r.1 ≤ n = ground (arith, h (r.1 - 1), b) in
    (
      (omega (arith, below, b, k), omega (arith, below, k)),
      canonical-FitsWord _ n rs c k (λ i. ground (arith, h i)),
    )

length-if :
    (n : ℕ) (b : Bool) (xs ys : List Range)
    → (b ≡ true → length xs ≤ n)
    → (b ≡ false → length ys ≤ n)
    → length (if b then xs else ys) ≤ n
length-if n true xs ys h k = h refl
length-if n false xs ys h k = k refl

module _ (config : RepairConfig) (t : Transfer) where
  budget_positive :
      (missing : List Range)
      → 0 < config.max_repair_chunks_per_request
      → 0 < effective_repair_chunk_budget config t missing
  unfolding effective_repair_chunk_budget
  budget_positive missing h = ground arith

  budget_unboosted :
      (missing : List Range)
      → is_leading_hole_heavy config t missing ≡ false
      → effective_repair_chunk_budget config t missing ≤ config.max_repair_chunks_per_request
  unfolding effective_repair_chunk_budget
  budget_unboosted missing e = ground arith

  -- With a limit of chunks per request, the ranges asked for are no more than the limit.
  pub few_ranges :
      (r : Range) (rest : List Range)
      → IsCanonical (r ∷ rest)
      → 0 < config.max_repair_chunks_per_request
      → length (limit_missing_ranges_for_transfer config t (r ∷ rest))
        ≤ config.max_repair_chunks_per_request
  unfolding limit_missing_ranges_for_transfer
  few_ranges r rest c h =
      let budget = effective_repair_chunk_budget config t (r ∷ rest) in
      length-if _ (leb budget 0) _ _ (λ e. absurd (ground (arith, e, budget_positive (r ∷ rest) h)))
        λ _.
          length-if _ (is_leading_hole_heavy config t (r ∷ rest)) _ _ (λ _. omega (arith, h))
            λ e. omega (
              arith,
              length-le-span 0 (limit_ranges_to_chunk_budget (r ∷ rest) budget)
                  (limit_ranges-IsCanonical (r ∷ rest) budget c),
              span-limit_ranges_to_chunk_budget (r ∷ rest) budget (canonical-All 0 (r ∷ rest) c),
              budget_unboosted (r ∷ rest) e,
            )
