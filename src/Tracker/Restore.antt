-- ===== src/Tracker/Restore.antt =====
-- A tracker rebuilt by `from_received_ranges` from recorded ranges, whatever they are.
use ssync.Prelude.{
  ℕ, suc, ◌+◌, ◌-◌, ◌≡◌, refl, sym, All, ap, ◌∙◌, ◌&&◌, List, [], ◌∷◌, ltb, arith, min, max,
}
use ssync.Ranges.{Range, merge_ranges}
use ssync.Ranges.Cover.{covers, span, IsCanonicalFrom, IsCanonicalFrom-mono}
use ssync.Ranges.Merge.{
  IsProper, canonical-All, merge_ranges_of_canonical, IsSeparatedFrom, merge_ranges-IsSeparated,
  covers-merge_ranges,
}
use ssync.Tracker.{ChunkTracker, bound_ranges, sum_lengths, from_received_ranges}
use ssync.Tracker.Walk.{IsWithin}
use ssync.Tracker.Invariant.{IsTracker}

bound-IsCanonicalFrom :
    (n lo : ℕ) (rs : List Range) → IsSeparatedFrom lo rs → IsCanonicalFrom lo (bound_ranges n rs)
unfolding bound_ranges
bound-IsCanonicalFrom n lo [] s = tt
bound-IsCanonicalFrom n lo (r ∷ rs) (a, s) = ground (
  arith,
  IsCanonicalFrom-mono (max r.0 (suc r.1)) lo (bound_ranges n rs) (omega arith)
      (bound-IsCanonicalFrom n (max r.0 (suc r.1)) rs s),
  IsCanonicalFrom-mono (max r.0 (suc r.1)) (suc (min r.1 n)) (bound_ranges n rs) (omega arith)
      (bound-IsCanonicalFrom n (max r.0 (suc r.1)) rs s),
)

bound-IsWithin : (n : ℕ) (rs : List Range) → IsWithin n (bound_ranges n rs)
unfolding bound_ranges
bound-IsWithin n [] = tt
bound-IsWithin n (r ∷ rs) = ground (arith, bound-IsWithin n rs)

covers-bound : (n i : ℕ) (rs : List Range) → covers (bound_ranges n rs) i ≡ (ltb i n && covers rs i)
unfolding bound_ranges
covers-bound n i [] = ground arith
covers-bound n i (r ∷ rs) = ground (arith, covers-bound n i rs)

pub sum_lengths-eq-span : (rs : List Range) → sum_lengths rs ≡ span rs
unfolding sum_lengths
sum_lengths-eq-span [] = refl
sum_lengths-eq-span (r ∷ rs) = ap (λ n. (r.1 - r.0) + n) (sum_lengths-eq-span rs)

-- A tracker rebuilt from any recorded ranges satisfies the invariant, and covers exactly the recorded
-- chunks that lie in the transfer.
pub from_received_ranges_correct :
    (n : ℕ) (rs : List Range)
    → IsTracker (from_received_ranges n rs)
      × ((i : ℕ) → covers (from_received_ranges n rs).received_ranges i ≡ (ltb i n && covers rs i))
unfolding from_received_ranges
from_received_ranges_correct n rs = (
  record {
    canonical = bound-IsCanonicalFrom n 0 (merge_ranges rs) (merge_ranges-IsSeparated rs);
    within = bound-IsWithin n (merge_ranges rs);
    counted = sum_lengths-eq-span (bound_ranges n (merge_ranges rs));
  },
  λ i. covers-bound n i (merge_ranges rs) ∙ ap (λ b. ltb i n && b) (covers-merge_ranges rs i),
)

bound_ranges_same :
    (n : ℕ) (rs : List Range) → IsWithin n rs → All IsProper rs → bound_ranges n rs ≡ rs
unfolding bound_ranges
bound_ranges_same n [] w p = refl
bound_ranges_same n (r ∷ rs) w p = ground (arith, bound_ranges_same n rs)

-- A tracker that satisfies the invariant is rebuilt from its ranges.
pub from_received_ranges_same :
    (t : ChunkTracker) → IsTracker t → from_received_ranges t.total_chunks t.received_ranges ≡ t
unfolding from_received_ranges
from_received_ranges_same t v =
    let same : bound_ranges t.total_chunks (merge_ranges t.received_ranges) ≡ t.received_ranges =
      ap (bound_ranges t.total_chunks) (merge_ranges_of_canonical t.received_ranges v.canonical)
      ∙ bound_ranges_same t.total_chunks t.received_ranges v.within
          (canonical-All 0 t.received_ranges v.canonical) in
    rw same (rw (sum_lengths-eq-span t.received_ranges ∙ sym v.counted) refl)
