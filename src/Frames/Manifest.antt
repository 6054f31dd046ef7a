-- ===== src/Frames/Manifest.antt =====
-- frames.py: METADATA frames, `encode_manifest` and `decode_manifest`; `encode_metadata` and
-- `decode_metadata` are other names for them.
pub mod Laws
pub mod Checks
use ssync.Prelude.{
  ℕ, ◌+◌, ◌/◌, Bool, true, false, not, List, [], ◌∷◌, ◌++◌, ltb, leb, ◌==◌, length, take, drop,
}
use ssync.Result.{Result, ok, raise_if, ◌>>=◌, ◌>>◌}
use ssync.Struct.{Bytes, Field, uint, raw, Values, size, pack, unpack, layout, int_from_bytes}
use ssync.Utf8.{Str, encode_utf8, decode_utf8}
use ssync.Types.{FrameType, metadata, TransferManifest, expected_total_chunks, max_file_name_bytes}
use ssync.Frames.{encode_frame, decode_frame}
use ssync.Frames.Tlv.{encode_tlvs, decode_tlvs}

-- `!16sQII32sH`
abbrev pub manifest_fixed_struct : List Field
manifest_fixed_struct = raw 16 ∷ uint 8 ∷ uint 4 ∷ uint 4 ∷ raw 32 ∷ uint 2 ∷ []

-- `!H`
abbrev pub size_struct : List Field
size_struct = uint 2 ∷ []

abbrev pub is_empty : List ℕ → Bool
is_empty [] = true
is_empty (x ∷ xs) = false

abbrev fixed_of : TransferManifest → Bytes → Values manifest_fixed_struct
fixed_of m name =
    (m.transfer_id, (m.file_size, (m.chunk_size, (m.total_chunks, (m.sha256, (length name, tt))))))

unfoldable pub encode_manifest : TransferManifest → Result Bytes
encode_manifest m = do
  raise_if (leb m.chunk_size 0) "chunk_size must be positive"
  raise_if (not (m.total_chunks == expected_total_chunks m.file_size m.chunk_size))
      "manifest total_chunks does not match file_size/chunk_size"
  name ← encode_utf8 m.file_name
  raise_if (is_empty name) "file_name must not be empty"
  raise_if (ltb max_file_name_bytes (length name)) "file_name too long"
  tlvs ← encode_tlvs m.metadata
  fixed ← pack manifest_fixed_struct (fixed_of m name)
  tlv_size ← pack size_struct (length tlvs, tt)
  encode_frame metadata (fixed ++ (name ++ (tlv_size ++ tlvs))) 0

-- The checks behind the file name; `bytes` begins with the size of the metadata.
manifest_tail : Values manifest_fixed_struct → Str → Bytes → Result TransferManifest
manifest_tail (transfer_id, (file_size, (chunk_size, (total_chunks, (sha256, _))))) file_name
      bytes =
    do
      sizes ← unpack size_struct bytes
      let tlvs = drop (size size_struct) bytes
      raise_if (not (length tlvs == sizes.0)) "Manifest metadata size mismatch"
      entries ← decode_tlvs tlvs
      raise_if (leb chunk_size 0) "Manifest chunk_size must be positive"
      raise_if (not (total_chunks == expected_total_chunks file_size chunk_size))
          "Manifest total_chunks mismatch"
      ok (record {
        transfer_id = transfer_id;
        file_name = file_name;
        file_size = file_size;
        chunk_size = chunk_size;
        total_chunks = total_chunks;
        sha256 = sha256;
        metadata = entries;
      })

-- The checks of the file name; `bytes` begins with it.
manifest_name : Values manifest_fixed_struct → Bytes → Result TransferManifest
unfolding manifest_tail
manifest_name fields bytes = do
  let file_name_size = fields.1.1.1.1.1.0
  raise_if (ltb (length bytes) (file_name_size + 2)) "Manifest missing file name or metadata size"
  file_name ← decode_utf8 (take file_name_size bytes)
  raise_if (is_empty file_name) "Manifest file name must not be empty"
  raise_if (ltb max_file_name_bytes file_name_size) "Manifest file name too large"
  manifest_tail fields file_name (drop file_name_size bytes)

unfoldable pub decode_manifest : Bytes → Result TransferManifest
unfolding manifest_name
decode_manifest payload = do
  raise_if (ltb (length payload) (size manifest_fixed_struct + 2)) "Manifest payload too short"
  fields ← unpack manifest_fixed_struct payload
  manifest_name fields (drop (size manifest_fixed_struct) payload)
