-- ===== src/Tests/Ranges.antt =====
-- The functions on ranges at concrete lists.
use ssync.Prelude.{ℕ, ◌≡◌, refl, List, [], ◌∷◌, arith, take}
use ssync.Ranges.{
  Range, merge_ranges, ranges_from_indexes, expand_ranges, limit_ranges_to_chunk_budget,
}
use ssync.Ranges.Cover.{covers, IsCanonical}
use ssync.Ranges.Indexes.{elem, ranges_from_indexes_correct}
use ssync.Ranges.Budget.{expand-limit_ranges_to_chunk_budget}
use ssync.Ranges.Wire.{encode_ranges, decode_ranges}
use ssync.Ranges.Wire.Laws.{ranges_bytes, decode-encode_ranges}
use ssync.Result.{ok}
use ssync.Struct.{pack}

abbrev two : List Range
two = (1, 3) ∷ (5, 8) ∷ []

abbrev mixed : List Range
mixed = (5, 7) ∷ (1, 3) ∷ (6, 8) ∷ []

merge_run : merge_ranges mixed ≡ two
unfolding merge_ranges
merge_run = refl

indexes_run : ranges_from_indexes (7 ∷ 2 ∷ 5 ∷ 1 ∷ 2 ∷ 6 ∷ []) ≡ two
unfolding ranges_from_indexes
indexes_run = refl

budget_run : limit_ranges_to_chunk_budget two 4 ≡ (1, 3) ∷ (5, 7) ∷ []
unfolding limit_ranges_to_chunk_budget
budget_run = refl

wire_run : encode_ranges ((1, 300) ∷ []) ≡ ok (0 ∷ 0 ∷ 0 ∷ 1 ∷ 0 ∷ 0 ∷ 1 ∷ 44 ∷ [])
unfolding encode_ranges merge_ranges pack
wire_run = refl

ranges_from_indexes_correct_example :
    IsCanonical (ranges_from_indexes (4 ∷ 2 ∷ 3 ∷ []))
    × ((i : ℕ) → covers (ranges_from_indexes (4 ∷ 2 ∷ 3 ∷ [])) i ≡ elem i (4 ∷ 2 ∷ 3 ∷ []))
ranges_from_indexes_correct_example = ranges_from_indexes_correct (4 ∷ 2 ∷ 3 ∷ [])

expand-limit_ranges_to_chunk_budget_example :
    expand_ranges (limit_ranges_to_chunk_budget two 4) ≡ take 4 (expand_ranges two)
expand-limit_ranges_to_chunk_budget_example =
    expand-limit_ranges_to_chunk_budget two 4 (omega arith, (omega arith, tt))

decode-encode_ranges_example :
    (encode_ranges two ≡ ok (ranges_bytes two)) × (decode_ranges (ranges_bytes two) ≡ ok two)
decode-encode_ranges_example =
    decode-encode_ranges two (omega arith, omega arith, (omega arith, omega arith, tt))
      ((omega arith, omega arith), ((omega arith, omega arith), tt))
