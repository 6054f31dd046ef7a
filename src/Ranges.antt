-- ===== src/Ranges.antt =====
-- src/ssync/space_sync/ranges.py, the functions on lists of ranges: a range is a pair of a first
-- index and an end that is not in it. Indexes are natural numbers, as on the wire.
pub mod Cover
pub mod Merge
pub mod Indexes
pub mod Budget
pub mod Wire
pub mod Quotient
use ssync.Prelude.{
  ℕ, zero, suc, ◌+◌, ◌-◌, max, true, false, List, [], ◌∷◌, ◌++◌, ltb, leb, ◌==◌, if◌then◌else◌,
}

abbrev pub Range : Type 0
Range = ℕ × ℕ

-- `sorted(ranges, key=start)`: a stable sort.
insert_by_start : Range → List Range → List Range
insert_by_start r [] = r ∷ []
insert_by_start r (s ∷ rest) = if leb r.0 s.0 then r ∷ s ∷ rest else s ∷ insert_by_start r rest

sort_by_start : List Range → List Range
unfolding insert_by_start
sort_by_start [] = []
sort_by_start (r ∷ rest) = insert_by_start r (sort_by_start rest)

-- The loop of `merge_ranges`; `current` is `merged[-1]`, and what stands before it is written out.
merge_loop : Range → List Range → List Range
merge_loop current [] = current ∷ []
merge_loop current (r ∷ rest) = elim (leb r.0 current.1) [
  | true ↦ merge_loop (current.0, max current.1 r.1) rest
  | false ↦ current ∷ merge_loop r rest
]

merge_ordered : List Range → List Range
unfolding merge_loop
merge_ordered [] = []
merge_ordered (first ∷ rest) = merge_loop first rest

unfoldable pub merge_ranges : List Range → List Range
unfolding merge_ordered sort_by_start
merge_ranges ranges = merge_ordered (sort_by_start ranges)

-- `sorted(set(indexes))`
insert_index : ℕ → List ℕ → List ℕ
insert_index i [] = i ∷ []
insert_index i (j ∷ rest) =
    let later = j ∷ insert_index i rest in
    if ltb i j then i ∷ j ∷ rest else if i == j then j ∷ rest else later

sort_indexes : List ℕ → List ℕ
unfolding insert_index
sort_indexes [] = []
sort_indexes (i ∷ rest) = insert_index i (sort_indexes rest)

-- The loop of `ranges_from_indexes`.
runs_loop : ℕ → ℕ → List ℕ → List Range
runs_loop start prev [] = (start, prev + 1) ∷ []
runs_loop start prev (value ∷ rest) = elim (value == prev + 1) [
  | true ↦ runs_loop start value rest
  | false ↦ (start, prev + 1) ∷ runs_loop value value rest
]

runs : List ℕ → List Range
unfolding runs_loop
runs [] = []
runs (first ∷ rest) = runs_loop first first rest

unfoldable pub ranges_from_indexes : List ℕ → List Range
unfolding runs sort_indexes
ranges_from_indexes indexes = runs (sort_indexes indexes)

-- `range(start, start + n)`
unfoldable pub index_run : ℕ → ℕ → List ℕ
index_run start zero = []
index_run start (suc n) = start ∷ index_run (start + 1) n

unfoldable pub expand_ranges : List Range → List ℕ
unfolding index_run
expand_ranges [] = []
expand_ranges (r ∷ rest) = index_run r.0 (r.1 - r.0) ++ expand_ranges rest

-- `length <= remaining` and `remaining -= length` for `length = end - start`, which the source
-- computes in unbounded integers, are written without a difference that could be negative.
budget_loop : ℕ → List Range → List Range
budget_loop remaining [] = []
budget_loop remaining (r ∷ rest) =
    let more = budget_loop (remaining + r.0 - r.1) rest in
    if leb remaining 0
    then []
    else if leb r.1 (r.0 + remaining)
    then r ∷ more
    else (r.0, r.0 + remaining) ∷ []

unfoldable pub limit_ranges_to_chunk_budget : List Range → ℕ → List Range
unfolding budget_loop
limit_ranges_to_chunk_budget missing_ranges chunk_budget =
    if leb chunk_budget 0 then [] else budget_loop chunk_budget missing_ranges
