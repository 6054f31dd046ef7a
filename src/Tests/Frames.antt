-- ===== src/Tests/Frames.antt =====
-- The frames at concrete values.
use ssync.Prelude.{◌≡◌, refl, true, none, some, List, [], ◌∷◌, ◌++◌, arith, ◌==◌, replicate}
use ssync.Result.{returns_or_caught, ok, ◌>>=◌}
use ssync.Frames.FileInfo.{decode_file_info_response}
use ssync.Struct.{Bytes, unpack, layout, field_values}
use ssync.Utf8.{Str, encode_utf8, decode_utf8}
use ssync.Utf8.Laws.{decode-encode_utf8}
use ssync.Types.{
  metadata, data_frame, status, beacon, TransferManifest, DataChunk, RemoteFileInfo, receiver,
  incomplete, complete, Metadata,
}
use ssync.Dict.{get_item, IsDict}
use ssync.Ranges.{Range, merge_ranges}
use ssync.Ranges.Wire.{decode_ranges}
use ssync.Ranges.Cover.{IsCanonical}
use ssync.Frames.{encode_frame, decode_frame}
use ssync.Frames.Header.{read_frame, decode-encode_frame}
use ssync.Frames.Data.{encode_data_chunk, decode_data_chunk, IsDataChunk, data_round_trip}
use ssync.Frames.Tlv.{encode_tlvs, decode_tlvs}
use ssync.Frames.Tlv.Laws.{tlv_bytes, decode-encode_tlvs}
use ssync.Frames.Manifest.{encode_manifest, decode_manifest}
use ssync.Frames.Manifest.Laws.{IsManifest, manifest_round_trip}
use ssync.Frames.Manifest.Checks.{IsConsistent, decode_manifest-IsConsistent}
use ssync.Frames.FileInfo.{IsFileInfo}
use ssync.Frames.Status.{encode_status, decode_status}
use ssync.Frames.Status.Laws.{transfer_status, transfer_status_round_trip}
use ssync.Frames.Status.FileInfo.{file_info_status, file_info_status_round_trip}
use ssync.Frames.Beacon.{encode_beacon, decode_beacon, beacon_round_trip}
use ssync.Frames.Errors.{decoders_raise_value_errors, decode_status-IsCanonical}

abbrev id : Bytes
id = replicate 16 7

abbrev entries : Metadata
entries = (1, 104 ∷ 105 ∷ []) ∷ (3, []) ∷ []

-- "é.bin"
abbrev name : Str
name = 233 ∷ 46 ∷ 98 ∷ 105 ∷ 110 ∷ []

abbrev name_bytes : Bytes
name_bytes = 195 ∷ 169 ∷ 46 ∷ 98 ∷ 105 ∷ 110 ∷ []

encoded_name : encode_utf8 name ≡ ok name_bytes
unfolding encode_utf8
encoded_name = refl

entries-IsDict : IsDict ◌==◌ entries
unfolding get_item
entries-IsDict = (refl, (refl, tt))

abbrev manifest : TransferManifest
manifest = record {
  transfer_id = id;
  file_name = name;
  file_size = 2500;
  chunk_size = 1200;
  total_chunks = 3;
  sha256 = replicate 32 0;
  metadata = entries;
}

manifest-IsManifest : IsManifest manifest name_bytes
unfolding tlv_bytes layout
manifest-IsManifest = record {
  id_size = refl;
  hash_size = refl;
  size_range = omega arith;
  chunk_positive = omega arith;
  chunk_range = omega arith;
  total_range = omega arith;
  total_exact = refl;
  name_bytes = encoded_name;
  name_positive = omega arith;
  name_range = omega arith;
  tlv_range = ((omega arith, omega arith), ((omega arith, omega arith), tt));
  tlv_keys = entries-IsDict;
  tlv_size = omega arith;
}

manifest_round_trip_example :
    (encode_manifest manifest >>= read_frame decode_manifest) ≡ ok (some metadata, manifest)
manifest_round_trip_example = manifest_round_trip manifest name_bytes manifest-IsManifest

abbrev empty_file : TransferManifest
empty_file = record manifest { file_size = 0; total_chunks = 0; file_name = 97 ∷ []; metadata = [] }

-- The manifest of the empty file "a" with chunks of 1200 bytes, byte by byte.
abbrev empty_payload : Bytes
empty_payload =
    id
    ++ (replicate 8 0
        ++ (0 ∷ 0 ∷ 4 ∷ 176 ∷ 0 ∷ 0 ∷ 0 ∷ 0 ∷ [] ++ (replicate 32 0 ++ (0 ∷ 1 ∷ 97 ∷ 0 ∷ 0 ∷ []))))

decoded_manifest : decode_manifest empty_payload ≡ ok empty_file
unfolding decode_manifest decode_utf8 decode_tlvs unpack field_values
decoded_manifest = refl

decode_manifest-IsConsistent_example : IsConsistent empty_file
decode_manifest-IsConsistent_example =
    decode_manifest-IsConsistent empty_payload empty_file decoded_manifest

abbrev chunk : DataChunk
chunk = record { transfer_id = id; chunk_index = 70000; payload = 1 ∷ 2 ∷ 3 ∷ [] }

chunk-IsDataChunk : IsDataChunk chunk
chunk-IsDataChunk = record {
  id_size = refl;
  index_range = omega arith;
  payload_range = omega arith;
}

data_round_trip_example :
    (encode_data_chunk id 70000 (1 ∷ 2 ∷ 3 ∷ []) >>= read_frame decode_data_chunk)
    ≡ ok (some data_frame, chunk)
data_round_trip_example = data_round_trip chunk chunk-IsDataChunk

abbrev missing : List Range
missing = (1, 3) ∷ (5, 8) ∷ []

missing-IsCanonical : IsCanonical missing
missing-IsCanonical = (omega arith, omega arith, (omega arith, omega arith, tt))

transfer_status_round_trip_example :
    (encode_status (transfer_status id incomplete missing) >>= read_frame decode_status)
    ≡ ok (some status, transfer_status id incomplete missing)
transfer_status_round_trip_example =
    transfer_status_round_trip id incomplete missing refl missing-IsCanonical
      ((omega arith, omega arith), ((omega arith, omega arith), tt)) (omega arith)

-- A status whose two ranges overlap: (4, 6) and (1, 5).
abbrev overlapping_payload : Bytes
overlapping_payload =
    id ++ (0 ∷ 0 ∷ 0 ∷ 2 ∷ 0 ∷ 0 ∷ 0 ∷ 4 ∷ 0 ∷ 0 ∷ 0 ∷ 6 ∷ 0 ∷ 0 ∷ 0 ∷ 1 ∷ 0 ∷ 0 ∷ 0 ∷ 5 ∷ [])

decoded_status :
    decode_status overlapping_payload ≡ ok (transfer_status id incomplete ((1, 6) ∷ []))
unfolding decode_status decode_ranges merge_ranges unpack field_values
decoded_status = refl

decode_status-IsCanonical_example : IsCanonical ((1, 6) ∷ [])
decode_status-IsCanonical_example =
    decode_status-IsCanonical overlapping_payload (transfer_status id incomplete ((1, 6) ∷ []))
      decoded_status

abbrev info : RemoteFileInfo
info = record { path = name; exists = true; size = 2500; mtime_ns = 12345; sha256 = none }

info-IsFileInfo : IsFileInfo info name_bytes
info-IsFileInfo = record {
  size_range = omega arith;
  mtime_range = omega arith;
  hash_size = refl;
  path_bytes = encoded_name;
  path_positive = omega arith;
  path_range = omega arith;
}

file_info_status_round_trip_example :
    (encode_status (file_info_status id complete info (some (9 ∷ []))) >>= read_frame decode_status)
    ≡ ok (some status, file_info_status id complete info (some (9 ∷ [])))
file_info_status_round_trip_example =
    file_info_status_round_trip id complete info name_bytes (9 ∷ []) refl info-IsFileInfo
      (omega arith)

beacon_round_trip_example :
    (encode_beacon receiver id 2500 >>= read_frame decode_beacon)
    ≡ ok (some beacon, (receiver, id, 2500))
beacon_round_trip_example = beacon_round_trip receiver id 2500 refl (omega arith)

decode-encode_tlvs_example :
    (encode_tlvs entries ≡ ok (tlv_bytes entries)) × (decode_tlvs (tlv_bytes entries) ≡ ok entries)
unfolding tlv_bytes layout
decode-encode_tlvs_example =
    decode-encode_tlvs entries ((omega arith, omega arith), ((omega arith, omega arith), tt))
      entries-IsDict (omega arith)

decode-encode_frame_example :
    (do raw ← encode_frame beacon (1 ∷ 2 ∷ []) 5; decode_frame raw)
    ≡ ok (record { frame_type = some beacon; frame_type_raw = 10; flags = 5; payload = 1 ∷ 2 ∷ [] })
decode-encode_frame_example = decode-encode_frame beacon (1 ∷ 2 ∷ []) 5 (omega arith) (omega arith)

decode-encode_utf8_example : decode_utf8 name_bytes ≡ ok name
decode-encode_utf8_example = decode-encode_utf8 name name_bytes encoded_name

decoders_raise_value_errors_example :
    (returns_or_caught (decode_frame name_bytes) ≡ true)
    × (returns_or_caught (decode_data_chunk name_bytes) ≡ true)
    × (returns_or_caught (decode_manifest name_bytes) ≡ true)
    × (returns_or_caught (decode_status name_bytes) ≡ true)
    × (returns_or_caught (decode_beacon name_bytes) ≡ true)
    × (returns_or_caught (decode_tlvs name_bytes) ≡ true)
    × (returns_or_caught (decode_file_info_response name_bytes) ≡ true)
    × (returns_or_caught (decode_ranges name_bytes) ≡ true)
decoders_raise_value_errors_example = decoders_raise_value_errors name_bytes
