-- ===== src/Tests/Query.antt =====
-- A query for the file "a" to a receiver that has it.
use ssync.Prelude.{◌≡◌, refl, true, [], ◌∷◌, arith, replicate}
use ssync.Result.{ok}
use ssync.Struct.{Bytes, layout}
use ssync.Utf8.{encode_utf8}
use ssync.Dict.{get_item}
use ssync.Frames.FileInfo.{IsFileInfo}
use ssync.Frames.Tlv.Laws.{tlv_bytes}
use ssync.Frames.Manifest.{encode_manifest}
use ssync.Frames.Manifest.Laws.{IsManifest}
use ssync.Receiver.{send_frame}
use ssync.Paths.{safe_destination_path, parts_of}
use ssync.Server.{Server, started}
use ssync.Server.Completed.{query_local_file, status_query_name}
use ssync.Server.Datagrams.{receive_encoded}
use ssync.Server.Queried.{query_answered}
use ssync.Sender.Query.{query_manifest, wait_for_answer}
use ssync.Tests.Server.{config, digest, peer}

abbrev server : Server
server = started (((97 ∷ []) ∷ [], record { contents = 1 ∷ 2 ∷ 3 ∷ []; mtime_ns = 8 }) ∷ [])

abbrev id : Bytes
id = replicate 16 5

abbrev token : Bytes
token = 49 ∷ 50 ∷ []

encoded_label : encode_utf8 status_query_name ≡ ok status_query_name
unfolding encode_utf8
encoded_label = refl

query-IsManifest : IsManifest (query_manifest digest id (97 ∷ []) token true) status_query_name
unfolding tlv_bytes layout get_item
query-IsManifest = record {
  id_size = refl;
  hash_size = refl;
  size_range = omega arith;
  chunk_positive = omega arith;
  chunk_range = omega arith;
  total_range = omega arith;
  total_exact = refl;
  name_bytes = encoded_label;
  name_positive = omega arith;
  name_range = omega arith;
  tlv_range = ground arith;
  tlv_keys = (refl, (refl, (refl, tt)));
  tlv_size = omega arith;
}

told-IsFileInfo : IsFileInfo (query_local_file digest (97 ∷ []) true server) (97 ∷ [])
unfolding query_local_file safe_destination_path parts_of get_item encode_utf8
told-IsFileInfo = record {
  size_range = omega arith;
  mtime_range = omega arith;
  hash_size = refl;
  path_bytes = refl;
  path_positive = omega arith;
  path_range = omega arith;
}

query_answered_example :
    (f : Bytes) × (receive_encoded digest config 1 true true
        (encode_manifest (query_manifest digest id (97 ∷ []) token true))
        peer
        server
      ≡ (server, send_frame (ok f) peer ∷ []))
    × (wait_for_answer token (97 ∷ []) (f ∷ [])
        ≡ ok (query_local_file digest (97 ∷ []) true server))
query_answered_example =
    query_answered digest config id (97 ∷ []) token (97 ∷ []) true status_query_name peer server
      told-IsFileInfo (omega arith) (omega arith) query-IsManifest 1 true true []
