-- ===== src/Ranges/Wire.antt =====
-- ranges.py: `encode_ranges` and `decode_ranges`, eight bytes for each range.
pub mod Laws
use ssync.Prelude.{ℕ, zero, suc, ◌+◌, ◌/◌, ◌%◌, not, List, [], ◌∷◌, ◌++◌, leb, ◌==◌, length, drop}
use ssync.Result.{Result, ok, raise_if, ◌>>=◌, ◌>>◌}
use ssync.Struct.{Bytes, Field, uint, raw, Values, size, pack, unpack, layout, int_from_bytes}
use ssync.Ranges.{Range, merge_ranges}

-- `!II`
abbrev pub range_struct : List Field
range_struct = uint 4 ∷ uint 4 ∷ []

pack_ranges : List Range → Result Bytes
pack_ranges [] = ok []
pack_ranges (r ∷ rest) = do
  first ← pack range_struct (r.0, (r.1, tt))
  others ← pack_ranges rest
  ok (first ++ others)

unfoldable pub encode_ranges : List Range → Result Bytes
unfolding pack_ranges
encode_ranges ranges = pack_ranges (merge_ranges ranges)

-- The ranges at the first `n` offsets.
unpack_ranges : ℕ → Bytes → Result (List Range)
unpack_ranges zero bytes = ok []
unpack_ranges (suc n) bytes = do
  fields ← unpack range_struct bytes
  raise_if (leb fields.1.0 fields.0) "Range start must be smaller than end"
  rest ← unpack_ranges n (drop (size range_struct) bytes)
  ok ((fields.0, fields.1.0) ∷ rest)

unfoldable pub decode_ranges : Bytes → Result (List Range)
unfolding unpack_ranges
decode_ranges payload = do
  raise_if (not (length payload % size range_struct == 0)) "Invalid range payload size"
  ranges ← unpack_ranges (length payload / size range_struct) payload
  ok (merge_ranges ranges)
