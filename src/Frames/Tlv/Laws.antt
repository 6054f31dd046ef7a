-- ===== src/Frames/Tlv/Laws.antt =====
-- Metadata come back from their bytes; decoding ends on every input.
use ssync.Prelude.{
  ==_sym, ℕ, zero, suc, ◌+◌, ◌≤◌, ◌<◌, ◌≡◌, refl, ap, ◌∙◌, [], ◌∷◌, ◌++◌, arith, ltb, ◌==◌, le→ltb,
  length, drop, All, length-append, take-append, drop-append, length-drop,
}
use ssync.Result.{OnlyValueErrors, OnlyValueErrors-ok, OnlyValueErrors-raise_if, Result, ok}
use ssync.Struct.{Bytes, Values, size, layout}
use ssync.Struct.Laws.{
  Exact, pack-Exact, unpack-layout, unpack_errors, length-layout, layout_long, drop-layout,
}
use ssync.Dict.{IsDict}
use ssync.Dict.Laws.{fold_set, fold_set-IsDict}
use ssync.Types.{Metadata, max_tlv_value_size, max_tlv_total_size}
use ssync.Frames.Tlv.{
  tlv_header_struct, encode_items, encode_tlvs, store_tlv, tlv_round, decode_items, decode_tlvs,
}

-- A key of one byte, and a value of at most 65535 bytes.
abbrev pub IsTlv : ℕ × Bytes → Type 0
IsTlv p = (p.0 < 256) × (length p.1 ≤ max_tlv_value_size)

abbrev header_of : ℕ × Bytes → Values tlv_header_struct
header_of p = (p.0, (length p.1, tt))

unfoldable pub tlv_bytes : Metadata → Bytes
tlv_bytes [] = []
tlv_bytes (p ∷ d) = layout tlv_header_struct (header_of p) ++ (p.1 ++ tlv_bytes d)

header_Exact : (p : ℕ × Bytes) → IsTlv p → Exact tlv_header_struct (header_of p)
header_Exact p (h, k) = (h, (omega arith, tt))

encode_items_lem : (d : Metadata) → All IsTlv d → encode_items d ≡ ok (tlv_bytes d)
unfolding encode_items tlv_bytes
encode_items_lem [] h = refl
encode_items_lem (p ∷ d) (h, hs) = rw (
  le→ltb max_tlv_value_size (length p.1) h.1,
  pack-Exact tlv_header_struct (header_of p) (header_Exact p h),
  encode_items_lem d hs,
)

decode_items_step :
    (fuel : ℕ) (bytes : Bytes) (tlvs : Metadata)
    → 0 < length bytes
    → decode_items (suc fuel) bytes tlvs ≡ tlv_round bytes tlvs (decode_items fuel)
unfolding decode_items
decode_items_step fuel [] tlvs h = absurd (omega arith)
decode_items_step fuel (b ∷ bs) tlvs h = refl

tlv_round_item :
    (p : ℕ × Bytes) (rest : Bytes) (tlvs : Metadata) (loop : Bytes → Metadata → Result Metadata)
    → IsTlv p
    → tlv_round (layout tlv_header_struct (header_of p) ++ (p.1 ++ rest)) tlvs loop
      ≡ loop rest (store_tlv p.0 p.1 tlvs)
tlv_round_item p rest tlvs loop h = rw (
  layout_long tlv_header_struct (header_of p) (p.1 ++ rest),
  unpack-layout tlv_header_struct (header_of p) (p.1 ++ rest) (header_Exact p h),
  drop-layout tlv_header_struct (header_of p) (p.1 ++ rest),
  le→ltb (length (p.1 ++ rest)) (length p.1) (omega (arith, length-append p.1 rest)),
  take-append (length p.1) p.1 rest refl,
  drop-append (length p.1) p.1 rest refl,
)

items_length :
    (p : ℕ × Bytes) (d : Metadata)
    → length (tlv_bytes (p ∷ d)) ≡ 3 + length p.1 + length (tlv_bytes d)
unfolding tlv_bytes
items_length p d = omega (
  arith,
  length-append (layout tlv_header_struct (header_of p)) (p.1 ++ tlv_bytes d),
  length-append p.1 (tlv_bytes d),
  length-layout tlv_header_struct (header_of p),
)

items_first :
    (p : ℕ × Bytes) (d tlvs : Metadata) (fuel : ℕ)
    → IsTlv p
    → decode_items (suc fuel) (tlv_bytes (p ∷ d)) tlvs
      ≡ decode_items fuel (tlv_bytes d) (store_tlv p.0 p.1 tlvs)
items_first p d tlvs fuel h =
    decode_items_step fuel (tlv_bytes (p ∷ d)) tlvs (omega (arith, items_length p d))
    ∙ unfold tlv_bytes in tlv_round_item p (tlv_bytes d) tlvs (decode_items fuel) h

decode_items-tlv_bytes :
    (fuel : ℕ) (d tlvs : Metadata)
    → All IsTlv d
    → length (tlv_bytes d) ≤ fuel
    → decode_items fuel (tlv_bytes d) tlvs ≡ ok (fold_set ◌==◌ d tlvs)
decode_items-tlv_bytes fuel [] tlvs h f = unfold decode_items tlv_bytes fold_set in refl
decode_items-tlv_bytes zero (p ∷ d) tlvs h f = absurd (omega (arith, items_length p d, f))
decode_items-tlv_bytes (suc fuel) (p ∷ d) tlvs h f =
    items_first p d tlvs fuel h.0
    ∙ decode_items-tlv_bytes fuel d (store_tlv p.0 p.1 tlvs) h.1
        (omega (arith, items_length p d, f))
    ∙ unfold fold_set in refl

-- Metadata with keys of one byte, values of at most 65535 bytes and at most 65535 bytes in all are
-- encoded, and their bytes decode to the same entries in the same order.
pub decode-encode_tlvs :
    (d : Metadata)
    → All IsTlv d
    → IsDict ◌==◌ d
    → length (tlv_bytes d) ≤ max_tlv_total_size
    → (encode_tlvs d ≡ ok (tlv_bytes d)) × (decode_tlvs (tlv_bytes d) ≡ ok d)
unfolding encode_tlvs decode_tlvs
decode-encode_tlvs d h i k = (
  rw (encode_items_lem d h, le→ltb max_tlv_total_size (length (tlv_bytes d)) k),
  decode_items-tlv_bytes (length (tlv_bytes d)) d [] h (omega arith)
      ∙ ap ok (fold_set-IsDict ◌==◌ ==_sym d i),
)

tlv_round_errors :
    (bytes : Bytes) (tlvs : Metadata) (loop : Bytes → Metadata → Result Metadata)
    → ((rest : Bytes) (d : Metadata) → length rest < length bytes → OnlyValueErrors (loop rest d))
    → OnlyValueErrors (tlv_round bytes tlvs loop)
tlv_round_errors bytes tlvs loop h =
    OnlyValueErrors-raise_if (ltb (length bytes) (size tlv_header_struct)) _ _ λ long.
      unpack_errors tlv_header_struct bytes _ long λ header. OnlyValueErrors-raise_if _ _ _ λ _.
        let behind = drop (size tlv_header_struct) bytes in
        h (drop header.1.0 behind) _ (
          ground (arith, length-drop header.1.0 behind, length-drop (size tlv_header_struct) bytes))

decode_items_errors :
    (fuel : ℕ) (bytes : Bytes) (tlvs : Metadata)
    → length bytes ≤ fuel
    → OnlyValueErrors (decode_items fuel bytes tlvs)
unfolding decode_items
decode_items_errors fuel [] tlvs h = OnlyValueErrors-ok tlvs
decode_items_errors zero (b ∷ bs) tlvs h = absurd (omega arith)
decode_items_errors (suc fuel) (b ∷ bs) tlvs h =
    tlv_round_errors (b ∷ bs) tlvs (decode_items fuel)
      λ rest d shorter. decode_items_errors fuel rest d (omega arith)

-- On any bytes `decode_tlvs` returns or raises a `ValueError`; its loop never runs out of fuel.
pub decode_tlvs_errors : (payload : Bytes) → OnlyValueErrors (decode_tlvs payload)
unfolding decode_tlvs
decode_tlvs_errors payload = decode_items_errors (length payload) payload [] (omega arith)
