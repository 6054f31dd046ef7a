-- ===== src/Frames/Tlv.antt =====
-- frames.py: the metadata of a manifest as type-length-value entries, `encode_tlvs` and
-- `decode_tlvs`.
pub mod Laws
use ssync.Prelude.{ℕ, zero, suc, ◌+◌, List, [], ◌∷◌, ◌++◌, ltb, ◌==◌, length, take, drop}
use ssync.Result.{no_fuel, Result, ok, err, raise_if, ◌>>=◌, ◌>>◌}
use ssync.Struct.{Bytes, Field, uint, raw, Values, size, pack, unpack, layout, int_from_bytes}
use ssync.Struct.Laws.{Exact, pack-Exact, unpack-layout, length-layout}
use ssync.Dict.{get_item, set_item, IsDict}
use ssync.Types.{Metadata, max_tlv_value_size, max_tlv_total_size}

-- `!BH`
abbrev pub tlv_header_struct : List Field
tlv_header_struct = uint 1 ∷ uint 2 ∷ []

encode_items : Metadata → Result Bytes
encode_items [] = ok []
encode_items ((key, value) ∷ rest) = do
  raise_if (ltb max_tlv_value_size (length value)) "TLV value too large"
  header ← pack tlv_header_struct (key, (length value, tt))
  others ← encode_items rest
  ok (header ++ (value ++ others))

unfoldable pub encode_tlvs : Metadata → Result Bytes
unfolding encode_items
encode_tlvs tlvs = do
  out ← encode_items tlvs
  raise_if (ltb max_tlv_total_size (length out)) "TLV payload too large"
  ok out

abbrev store_tlv : ℕ → Bytes → Metadata → Metadata
store_tlv key value tlvs = set_item ◌==◌ key value tlvs

-- One round of the loop of `decode_tlvs`, on the bytes from the cursor on; `loop` is what follows.
abbrev tlv_round : Bytes → Metadata → (Bytes → Metadata → Result Metadata) → Result Metadata
tlv_round bytes tlvs loop = do
  raise_if (ltb (length bytes) (size tlv_header_struct)) "Corrupt TLV payload"
  header ← unpack tlv_header_struct bytes
  let behind = drop (size tlv_header_struct) bytes
  raise_if (ltb (length behind) header.1.0) "Corrupt TLV value length"
  loop (drop header.1.0 behind) (store_tlv header.0 (take header.1.0 behind) tlvs)

-- Each round takes the three bytes of a header at least.
decode_items : ℕ → Bytes → Metadata → Result Metadata
decode_items fuel [] tlvs = ok tlvs
decode_items zero (b ∷ bs) tlvs = err no_fuel
decode_items (suc fuel) (b ∷ bs) tlvs = tlv_round (b ∷ bs) tlvs (decode_items fuel)

unfoldable pub decode_tlvs : Bytes → Result Metadata
unfolding decode_items
decode_tlvs payload = decode_items (length payload) payload []
