-- ===== src/Tests/Tracker.antt =====
-- `ChunkTracker` at work: a transfer of eight chunks, of which three have arrived.
use ssync.Prelude.{ℕ, ◌≡◌, refl, ◌↔◌, true, false, not, ◌&&◌, some, [], ◌∷◌, arith, ltb}
use ssync.Ranges.Cover.{covers, IsCanonical}
use ssync.Tracker.{
  ChunkTracker, find_insert_at, add, is_complete, missing_ranges, from_received_ranges,
}
use ssync.Tracker.Search.{count_before, find_insert_at_lem}
use ssync.Tracker.Insert.{insert_ref}
use ssync.Tracker.Invariant.{
  IsTracker, add_ref, AddSpec, add-eq-walk, add-IsTracker, add_correct, is_complete_iff,
}
use ssync.Tracker.Missing.{missing_ranges_correct, missing_ranges_empty_iff}
use ssync.Tracker.Restore.{from_received_ranges_correct}

abbrev arrived : ChunkTracker
arrived = record { total_chunks = 8; received_ranges = (1, 3) ∷ (4, 5) ∷ []; received_count = 3 }

arrived-IsTracker : IsTracker arrived
arrived-IsTracker = record {
  canonical = (omega arith, omega arith, (omega arith, omega arith, tt));
  within = (omega arith, (omega arith, tt));
  counted = refl;
}

-- Chunk 3 closes the gap between the two ranges.
add_closes_gap :
    add 3 arrived ≡ (true, record arrived { received_ranges = (1, 5) ∷ []; received_count = 4 })
unfolding add
add_closes_gap = refl

add_again : add 4 arrived ≡ (false, arrived)
unfolding add
add_again = refl

missing_run : missing_ranges arrived ≡ (0, 1) ∷ (3, 4) ∷ (5, 8) ∷ []
unfolding missing_ranges
missing_run = refl

restored_run :
    from_received_ranges 8 ((6, 12) ∷ (2, 4) ∷ (3, 5) ∷ [])
    ≡ record { total_chunks = 8; received_ranges = (2, 5) ∷ (6, 8) ∷ []; received_count = 5 }
unfolding from_received_ranges
restored_run = refl

add_correct_example : AddSpec 3 arrived (add 3 arrived)
add_correct_example = add_correct 3 arrived arrived-IsTracker

add-IsTracker_example : IsTracker (add 3 arrived).1
add-IsTracker_example = add-IsTracker 3 arrived arrived-IsTracker

add-eq-walk_example : add 3 arrived ≡ add_ref 3 arrived (insert_ref 3 arrived.received_ranges)
add-eq-walk_example = add-eq-walk 3 arrived arrived-IsTracker (omega arith)

missing_ranges_correct_example :
    IsCanonical (missing_ranges arrived)
    × ((i : ℕ)
        → covers (missing_ranges arrived) i ≡ (ltb i 8 && not (covers arrived.received_ranges i)))
missing_ranges_correct_example = missing_ranges_correct arrived arrived-IsTracker

is_complete_iff_example :
    (is_complete arrived ≡ true) ↔ ((i : ℕ) → covers arrived.received_ranges i ≡ ltb i 8)
is_complete_iff_example = is_complete_iff arrived arrived-IsTracker

missing_ranges_empty_iff_example : (missing_ranges arrived ≡ []) ↔ (is_complete arrived ≡ true)
missing_ranges_empty_iff_example = missing_ranges_empty_iff arrived arrived-IsTracker

from_received_ranges_correct_example :
    IsTracker (from_received_ranges 8 ((6, 12) ∷ (2, 4) ∷ (3, 5) ∷ []))
    × ((i : ℕ)
        → covers (from_received_ranges 8 ((6, 12) ∷ (2, 4) ∷ (3, 5) ∷ [])).received_ranges i
          ≡ (ltb i 8 && covers ((6, 12) ∷ (2, 4) ∷ (3, 5) ∷ []) i))
from_received_ranges_correct_example =
    from_received_ranges_correct 8 ((6, 12) ∷ (2, 4) ∷ (3, 5) ∷ [])

find_insert_at_lem_example :
    find_insert_at arrived.received_ranges 3 ≡ some (count_before 3 arrived.received_ranges)
find_insert_at_lem_example =
    find_insert_at_lem arrived.received_ranges 3 arrived-IsTracker.canonical
