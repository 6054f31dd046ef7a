-- ===== src/Ranges/Wire/Laws.antt =====
-- Ranges come back from their bytes merged.
use ssync.Prelude.{
  leb→gt, ◌≤◌, length-drop, le→ltb, ℕ, zero, suc, ◌*◌, ◌/◌, ◌%◌, ◌^◌, ◌<◌, ◌≡◌, refl, true, not,
  List, [], ◌∷◌, ◌++◌, arith, leb, ◌==◌, lt→leb, length, drop, All, length-append,
}
use ssync.Result.{
  Ensures, Ensures-ok, Ensures-bind, Ensures-raise_if, OnlyValueErrors, OnlyValueErrors-ok,
  OnlyValueErrors-bind, OnlyValueErrors-raise_if, ok,
}
use ssync.Struct.{Bytes, Values, size, unpack, layout}
use ssync.Struct.Laws.{pack-Exact, unpack-layout, unpack_errors, length-layout, drop-layout}
use ssync.Ranges.{Range}
use ssync.Ranges.Cover.{IsCanonical}
use ssync.Ranges.Merge.{
  IsProper, merge_ranges-IsCanonical, merge_ranges_of_canonical, canonical-All,
}
use ssync.Ranges.Wire.{range_struct, pack_ranges, encode_ranges, unpack_ranges, decode_ranges}

-- The indexes of a range fit 32 bits.
abbrev pub FitsWord : Range → Type 0
FitsWord r = (r.0 < 2 ^ 32) × (r.1 < 2 ^ 32)

abbrev fields_of : Range → Values range_struct
fields_of r = (r.0, (r.1, tt))

unfoldable pub ranges_bytes : List Range → Bytes
ranges_bytes [] = []
ranges_bytes (r ∷ rs) = layout range_struct (fields_of r) ++ ranges_bytes rs

pub length-ranges_bytes : (rs : List Range) → length (ranges_bytes rs) ≡ 8 * length rs
unfolding ranges_bytes
length-ranges_bytes [] = refl
length-ranges_bytes (r ∷ rs) = omega (
  arith,
  length-append (layout range_struct (fields_of r)) (ranges_bytes rs),
  length-layout range_struct (fields_of r),
  length-ranges_bytes rs,
)

pack_ranges_lem : (rs : List Range) → All FitsWord rs → pack_ranges rs ≡ ok (ranges_bytes rs)
unfolding pack_ranges ranges_bytes
pack_ranges_lem [] h = refl
pack_ranges_lem (r ∷ rs) (h, hs) =
    rw (pack-Exact range_struct (fields_of r) (h.0, (h.1, tt)), pack_ranges_lem rs hs)

unpack-ranges_bytes :
    (rs : List Range)
    → All FitsWord rs
    → All IsProper rs
    → unpack_ranges (length rs) (ranges_bytes rs) ≡ ok rs
unfolding unpack_ranges ranges_bytes
unpack-ranges_bytes [] h p = refl
unpack-ranges_bytes (r ∷ rs) (h, hs) (p, ps) = rw (
  unpack-layout range_struct (fields_of r) (ranges_bytes rs) (h.0, (h.1, tt)),
  drop-layout range_struct (fields_of r) (ranges_bytes rs),
  lt→leb r.1 r.0 p,
  unpack-ranges_bytes rs hs ps,
)

-- Canonical ranges below 2^32 are encoded in eight bytes each, and their bytes decode to them.
pub decode-encode_ranges :
    (rs : List Range)
    → IsCanonical rs
    → All FitsWord rs
    → (encode_ranges rs ≡ ok (ranges_bytes rs)) × (decode_ranges (ranges_bytes rs) ≡ ok rs)
unfolding encode_ranges decode_ranges
decode-encode_ranges rs c h =
    let same = merge_ranges_of_canonical rs c in
    let whole : (length (ranges_bytes rs) % 8 == 0) ≡ true =
      ground (arith, length-ranges_bytes rs) in
    let count : length (ranges_bytes rs) / 8 ≡ length rs = omega (arith, length-ranges_bytes rs) in
    (
      rw same (pack_ranges_lem rs h),
      rw (whole, count, unpack-ranges_bytes rs h (canonical-All 0 rs c), same),
    )

unpack_ranges-IsProper : (n : ℕ) (bytes : Bytes) → Ensures (All IsProper) (unpack_ranges n bytes)
unfolding unpack_ranges
unpack_ranges-IsProper zero bytes = Ensures-ok [] tt
unpack_ranges-IsProper (suc n) bytes = Ensures-bind (unpack range_struct bytes) _ λ fields _.
    Ensures-raise_if _ _ _ λ ordered. Ensures-bind _ _ λ rest e.
      Ensures-ok ((fields.0, fields.1.0) ∷ rest) (
        leb→gt fields.1.0 fields.0 ordered,
        (unpack_ranges-IsProper n (drop (size range_struct) bytes)).at rest e,
      )

-- Ranges that were decoded are canonical, whatever the bytes.
pub decode_ranges-IsCanonical : (payload : Bytes) → Ensures IsCanonical (decode_ranges payload)
unfolding decode_ranges
decode_ranges-IsCanonical payload = Ensures-raise_if _ _ _ λ _. Ensures-bind _ _ λ rs e.
    Ensures-ok _
      (merge_ranges-IsCanonical rs ((unpack_ranges-IsProper (length payload / 8) payload).at rs e))

unpack_ranges_errors :
    (n : ℕ) (bytes : Bytes) → n * 8 ≤ length bytes → OnlyValueErrors (unpack_ranges n bytes)
unfolding unpack_ranges
unpack_ranges_errors zero bytes h = OnlyValueErrors-ok []
unpack_ranges_errors (suc n) bytes h =
    let rest = drop (size range_struct) bytes in
    unpack_errors range_struct bytes _ (le→ltb (length bytes) (size range_struct) (omega arith))
      λ fields. OnlyValueErrors-raise_if (leb fields.1.0 fields.0) _ _ λ _.
        OnlyValueErrors-bind _ _
          (unpack_ranges_errors n rest (omega (arith, length-drop (size range_struct) bytes)))
          (λ others. OnlyValueErrors-ok _)

pub decode_ranges_errors : (payload : Bytes) → OnlyValueErrors (decode_ranges payload)
unfolding decode_ranges
decode_ranges_errors payload = OnlyValueErrors-raise_if (not (length payload % 8 == 0)) _ _ λ _.
    OnlyValueErrors-bind _ _ (unpack_ranges_errors (length payload / 8) payload (omega arith))
      (λ rs. OnlyValueErrors-ok _)
