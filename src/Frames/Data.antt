-- ===== src/Frames/Data.antt =====
-- frames.py: DATA frames, `encode_data_chunk` and `decode_data_chunk`.
use ssync.Prelude.{
  ℕ, ◌^◌, ◌≤◌, ◌<◌, ◌≡◌, not, some, List, [], ◌∷◌, ◌++◌, arith, ltb, ◌==◌, le→ltb, ==_refl, length,
  drop, length-append, drop-append,
}
use ssync.Result.{Result, ok, raise_if, ◌>>=◌, ◌>>◌}
use ssync.Struct.{Bytes, Field, uint, raw, Values, size, pack, unpack, layout}
use ssync.Struct.Laws.{Exact, pack-Exact, unpack-layout, length-layout}
use ssync.Types.{data_frame, DataChunk}
use ssync.Frames.{encode_frame}
use ssync.Frames.Header.{read_frame, read-encode_frame}

-- `!16sIH`
abbrev pub data_fixed_struct : List Field
data_fixed_struct = raw 16 ∷ uint 4 ∷ uint 2 ∷ []

unfoldable pub encode_data_chunk : Bytes → ℕ → Bytes → Result Bytes
encode_data_chunk transfer_id chunk_index chunk_payload = do
  raise_if (ltb 65535 (length chunk_payload)) "Chunk payload too large"
  fixed ← pack data_fixed_struct (transfer_id, (chunk_index, (length chunk_payload, tt)))
  encode_frame data_frame (fixed ++ chunk_payload) 0

abbrev data_fields : Values data_fixed_struct → Bytes → Result DataChunk
data_fields (transfer_id, (chunk_index, (payload_size, _))) chunk_payload = do
  raise_if (not (payload_size == length chunk_payload)) "Chunk payload size mismatch"
  ok (record { transfer_id = transfer_id; chunk_index = chunk_index; payload = chunk_payload })

unfoldable pub decode_data_chunk : Bytes → Result DataChunk
decode_data_chunk payload = do
  raise_if (ltb (length payload) (size data_fixed_struct)) "Data payload too short"
  fields ← unpack data_fixed_struct payload
  data_fields fields (drop (size data_fixed_struct) payload)

-- A chunk that fits a frame.
pub record IsDataChunk (c : DataChunk) : Type 0 where
  pub id_size : length c.transfer_id ≡ 16
  pub index_range : c.chunk_index < 2 ^ 32
  pub payload_range : length c.payload ≤ 65535

abbrev fixed_of : DataChunk → Values data_fixed_struct
fixed_of c = (c.transfer_id, (c.chunk_index, (length c.payload, tt)))

module _ (c : DataChunk) (v : IsDataChunk c) where
  fixed_Exact : Exact data_fixed_struct (fixed_of c)
  fixed_Exact = (v.id_size, (v.index_range, (omega (arith, v.payload_range), tt)))

  decode-fixed : decode_data_chunk (layout data_fixed_struct (fixed_of c) ++ c.payload) ≡ ok c
  unfolding decode_data_chunk
  decode-fixed =
      let fixed = layout data_fixed_struct (fixed_of c) in
      rw
        (
          le→ltb (length (fixed ++ c.payload)) (size data_fixed_struct) (
              omega (
                arith,
                length-append fixed c.payload,
                length-layout data_fixed_struct (fixed_of c),
              )),
          unpack-layout data_fixed_struct (fixed_of c) c.payload fixed_Exact,
          drop-append (size data_fixed_struct) fixed c.payload
              (length-layout data_fixed_struct (fixed_of c)),
        )
        (rw ==_refl)

  -- A chunk with a 16 byte transfer id, a 32 bit index and at most 65535 bytes comes back from its
  -- frame as it is, and the frame is a DATA frame.
  pub data_round_trip :
      (encode_data_chunk c.transfer_id c.chunk_index c.payload >>= read_frame decode_data_chunk)
      ≡ ok (some data_frame, c)
  unfolding encode_data_chunk
  data_round_trip =
      let fixed = layout data_fixed_struct (fixed_of c) in
      rw
        (
          le→ltb 65535 (length c.payload) v.payload_range,
          pack-Exact data_fixed_struct (fixed_of c) fixed_Exact,
        )
        (read-encode_frame decode_data_chunk data_frame (fixed ++ c.payload) c
          (omega (
            arith,
            length-append fixed c.payload,
            length-layout data_fixed_struct (fixed_of c),
            v.payload_range,
          ))
          decode-fixed)
