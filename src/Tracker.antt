-- ===== src/Tracker.antt =====
-- src/ssync/space_sync/ranges.py, class `ChunkTracker`: which chunks of a transfer have arrived, as
-- a sorted list of ranges with their number. A method that changes the object returns the new one.
pub mod Search
pub mod Insert
pub mod Walk
pub mod Invariant
pub mod Missing
pub mod Restore
use ssync.Prelude.{
  ℕ, zero, suc, ◌+◌, ◌-◌, ◌/◌, min, max, Bool, true, false, not, ◌&&◌, Option, none, some, List, [],
  ◌∷◌, ltb, leb, ◌==◌, if◌then◌else◌, length, get_elem?, remove_at, insert_at,
}
use ssync.Ranges.{Range, merge_ranges, expand_ranges}

pub record ChunkTracker : Type 0 where
  pub total_chunks : ℕ
  pub received_ranges : List Range
  pub received_count : ℕ

-- `ChunkTracker(total_chunks=...)`
abbrev pub fresh : ℕ → ChunkTracker
fresh total_chunks = record {
  total_chunks = total_chunks;
  received_ranges = [];
  received_count = 0;
}

-- The binary search. `none` stands for an index out of range, or for fuel that ran out; neither
-- happens from `find_insert_at`.
find_loop : ℕ → List Range → ℕ → ℕ → ℕ → Option ℕ
find_loop zero ranges i lo hi = none
find_loop (suc fuel) ranges i lo hi =
    let mid = (lo + hi) / 2 in
    let right = find_loop fuel ranges i (mid + 1) hi in
    let left = find_loop fuel ranges i lo mid in
    if ltb lo hi
    then elim (get_elem? ranges mid) [ none ↦ none | some r ↦ if ltb r.0 i then right else left ]
    else some lo

unfoldable pub find_insert_at : List Range → ℕ → Option ℕ
unfolding find_loop
find_insert_at ranges chunk_index =
    find_loop (suc (length ranges)) ranges chunk_index 0 (length ranges)

-- `self._received_ranges[insert_at - 1]`, where `insert_at > 0`
abbrev prev_elem : ℕ → List Range → Option Range
prev_elem zero ranges = none
prev_elem (suc k) ranges = get_elem? ranges k

-- `start <= chunk_index < end`, for a neighbour that there may not be
abbrev is_covered : Option Range → ℕ → Bool
is_covered none i = false
is_covered (some r) i = leb r.0 i && ltb i r.1

-- Merge the previous range: the new start, the place of insertion, and the ranges left.
absorb_prev : ℕ → ℕ → List Range → ℕ × ℕ × List Range
absorb_prev i zero ranges = (i, 0, ranges)
absorb_prev i (suc k) ranges = elim (get_elem? ranges k) [
  | none ↦ (i, suc k, ranges)
  | some r ↦ if r.1 == i then (r.0, k, remove_at k ranges) else (i, suc k, ranges)
]

-- Merge the next range: the new end, and the ranges left.
absorb_next : ℕ → ℕ → List Range → ℕ × List Range
absorb_next i k ranges = elim (get_elem? ranges k) [
  | none ↦ (i + 1, ranges)
  | some r ↦ if r.0 == i + 1 then (r.1, remove_at k ranges) else (i + 1, ranges)
]

-- The body of `add` behind the search: `none` where it returns False.
pub place : ℕ → ℕ → List Range → Option (List Range)
unfolding absorb_prev absorb_next
place i k ranges =
    let (start, k', left) = absorb_prev i k ranges in
    let (stop, left') = absorb_next i k' left in
    if is_covered (prev_elem k ranges) i
    then none
    else if is_covered (get_elem? ranges k) i
    then none
    else some (insert_at k' (start, stop) left')

unfoldable pub add : ℕ → ChunkTracker → Bool × ChunkTracker
unfolding find_insert_at place
add chunk_index t =
    if not (ltb chunk_index t.total_chunks)
    then (false, t)
    else if t.total_chunks == 0
    then (false, t)
    else elim (find_insert_at t.received_ranges chunk_index) [
      | none ↦ (false, t)
      | some k ↦ elim (place chunk_index k t.received_ranges) [
        | none ↦ (false, t)
        | some ranges ↦
            (true, record t { received_ranges = ranges; received_count = t.received_count + 1 })
      ]
    ]

unfoldable pub is_complete : ChunkTracker → Bool
is_complete t = t.received_count == t.total_chunks

last_gap : ℕ → ℕ → List Range
last_gap cursor stop = if ltb cursor stop then (cursor, stop) ∷ [] else []

-- The loop of `_missing_ranges_between` and what follows it.
gaps_loop : ℕ → ℕ → List Range → List Range
unfolding last_gap
gaps_loop cursor stop [] = last_gap cursor stop
gaps_loop cursor stop (r ∷ rest) =
    let skipped = gaps_loop cursor stop rest in
    let cursor' = max cursor (min r.1 stop) in
    let later = gaps_loop cursor' stop rest in
    let following = if leb stop cursor' then last_gap cursor' stop else later in
    if leb r.1 cursor
    then skipped
    else if leb stop r.0
    then last_gap cursor stop
    else if ltb cursor r.0
    then (cursor, min r.0 stop) ∷ following
    else following

unfoldable pub missing_ranges_between : ℕ → ℕ → ChunkTracker → List Range
unfolding gaps_loop
missing_ranges_between start end_exclusive t =
    if leb end_exclusive start then [] else gaps_loop start end_exclusive t.received_ranges

unfoldable pub missing_ranges : ChunkTracker → List Range
unfolding missing_ranges_between
missing_ranges t = missing_ranges_between 0 t.total_chunks t

unfoldable pub missing_ranges_upto : ℕ → ChunkTracker → List Range
unfolding missing_ranges_between
missing_ranges_upto end_exclusive t =
    missing_ranges_between 0 (max 0 (min end_exclusive t.total_chunks)) t

unfoldable pub missing_indexes : ChunkTracker → List ℕ
unfolding missing_ranges expand_ranges
missing_indexes t = expand_ranges (missing_ranges t)

-- The loop of `from_received_ranges`: each range is cut to the chunks that there are.
bound_ranges : ℕ → List Range → List Range
bound_ranges total_chunks [] = []
bound_ranges total_chunks (r ∷ rest) =
    let start = max 0 (min r.0 total_chunks) in
    let stop = max 0 (min r.1 total_chunks) in
    let bounded = bound_ranges total_chunks rest in
    if ltb start stop then (start, stop) ∷ bounded else bounded

-- `sum(end - start for start, end in normalized)`
pub sum_lengths : List Range → ℕ
sum_lengths [] = 0
sum_lengths (r ∷ rest) = (r.1 - r.0) + sum_lengths rest

unfoldable pub from_received_ranges : ℕ → List Range → ChunkTracker
unfolding bound_ranges sum_lengths merge_ranges
from_received_ranges total_chunks received_ranges =
    let normalized = bound_ranges total_chunks (merge_ranges received_ranges) in
    record {
      total_chunks = total_chunks;
      received_ranges = normalized;
      received_count = sum_lengths normalized;
    }
