-- ===== src/Tests/Server.antt =====
-- A file of ten bytes in chunks of four comes to a receiver with an empty output directory. For the
-- hash a function stands that pads or cuts to 32 bytes.
use ssync.Prelude.{◌≡◌, refl, true, false, none, List, [], ◌∷◌, ◌++◌, arith, ◌==◌, take, replicate}
use ssync.Result.{ok}
use ssync.Struct.{Bytes, layout}
use ssync.Utf8.{encode_utf8}
use ssync.Dict.{get_item}
use ssync.Types.{TransferManifest}
use ssync.Frames.Tlv.Laws.{tlv_bytes}
use ssync.Frames.Manifest.Laws.{IsManifest}
use ssync.Receiver.{Addr, FilePath}
use ssync.Receiver.Reassembly.{Describes}
use ssync.Paths.{safe_destination_path, parts_of}
use ssync.Server.{ReceiverConfig, Server, started}
use ssync.Server.Opening.{Unseen}
use ssync.Server.Consistency.{IsConsistent}
use ssync.Server.Events.{
  ServerEvent, datagram, silence, repair_time, maintenance_time, finalization, run_server,
  run_server-IsConsistent,
}

abbrev pub raw : Bytes
raw = 0 ∷ 1 ∷ 2 ∷ 3 ∷ 4 ∷ 5 ∷ 6 ∷ 7 ∷ 8 ∷ 9 ∷ []

abbrev pub digest : Bytes → Bytes
digest bytes = take 32 (bytes ++ replicate 32 0)

abbrev pub manifest : TransferManifest
manifest = record {
  transfer_id = replicate 16 7;
  file_name = 97 ∷ [];
  file_size = 10;
  chunk_size = 4;
  total_chunks = 3;
  sha256 = digest raw;
  metadata = [];
}

abbrev pub config : ReceiverConfig
config = record {
  repair = record {
    enable_feedback = true;
    periodic_repair_request_s = 500;
    periodic_repair_min_seen_chunks = 4;
    max_repair_chunks_per_request = 3;
    adaptive_leading_hole_boost = true;
    leading_hole_start_threshold_chunks = 2;
    leading_hole_min_span_chunks = 5;
    leading_hole_boost_multiplier = 4;
    leading_hole_max_repair_chunks_per_request = 6;
    repair_request_inflight_timeout_s = 1500;
  };
  pre_metadata = record {
    pre_metadata_max_pending_bytes = 100;
    pre_metadata_max_pending_bytes_per_transfer = 60;
    pre_metadata_max_pending_transfers = 2;
    pre_metadata_ttl_s = 1000;
  };
  keep_part_files_on_complete = false;
  status_repeat = 2;
  transfer_inactivity_timeout_s = 10000;
  journal_flush_interval_s = 500;
  beacon_interval_s = 1000;
  forward_stream_quiet_s = 500;
}

abbrev pub peer : Addr
peer = (49 ∷ [], 9000)

abbrev pub path : FilePath
path = (97 ∷ []) ∷ []

abbrev pub idle_server : Server
idle_server = record {
  transfers = [];
  transfer_ids_by_signature = [];
  pre_metadata = record { pending = []; total_bytes = 0 };
  completed = [];
  completed_hash_cache = [];
  finalize_queue = [];
  files = [];
}

pub manifest-Describes : Describes manifest raw
manifest-Describes = record { sized = refl; chunk_positive = omega arith; total = refl }

encoded_name : encode_utf8 (97 ∷ []) ≡ ok (97 ∷ [])
unfolding encode_utf8
encoded_name = refl

pub manifest-IsManifest : IsManifest manifest (97 ∷ [])
unfolding tlv_bytes layout
manifest-IsManifest = record {
  id_size = refl;
  hash_size = refl;
  size_range = omega arith;
  chunk_positive = omega arith;
  chunk_range = omega arith;
  total_range = omega arith;
  total_exact = refl;
  name_bytes = encoded_name;
  name_positive = omega arith;
  name_range = omega arith;
  tlv_range = tt;
  tlv_keys = tt;
  tlv_size = omega arith;
}

pub idle-Unseen : Unseen manifest path idle_server
unfolding safe_destination_path parts_of get_item
idle-Unseen = record {
  destination = refl;
  no_final = refl;
  no_part = refl;
  no_transfer = refl;
  no_signature = refl;
  no_buffer = refl;
  idle = refl;
}

pub no_query : get_item ◌==◌ 100 manifest.metadata ≡ none
unfolding get_item
no_query = refl

abbrev metadata_bytes : Bytes
metadata_bytes =
    0x53 ∷ 0x53 ∷ 1 ∷ 1 ∷ 0 ∷ 0 ∷ 0 ∷ 0 ∷ 0 ∷ 69 ∷ []
    ++ (replicate 16 7
        ++ (0 ∷ 0 ∷ 0 ∷ 0 ∷ 0 ∷ 0 ∷ 0 ∷ 10 ∷ 0 ∷ 0 ∷ 0 ∷ 4 ∷ 0 ∷ 0 ∷ 0 ∷ 3 ∷ []
            ++ (digest raw ++ (0 ∷ 1 ∷ 97 ∷ 0 ∷ 0 ∷ []))))

abbrev data_bytes : Bytes
data_bytes =
    0x53 ∷ 0x53 ∷ 1 ∷ 2 ∷ 0 ∷ 0 ∷ 0 ∷ 0 ∷ 0 ∷ 24 ∷ []
    ++ (replicate 16 7 ++ (0 ∷ 0 ∷ 0 ∷ 2 ∷ 0 ∷ 2 ∷ 8 ∷ 9 ∷ []))

-- A chunk before its METADATA, the METADATA, a datagram that is no frame, and the clocks.
abbrev events : List ServerEvent
events =
    datagram 1 true true data_bytes peer
    ∷ datagram 2 true true metadata_bytes peer
    ∷ datagram 3 true true (9 ∷ []) peer
    ∷ silence 200 true
    ∷ repair_time 700
    ∷ maintenance_time 900
    ∷ finalization 77
    ∷ []

run_server-IsConsistent_example : IsConsistent (run_server digest config events (started []))
run_server-IsConsistent_example = run_server-IsConsistent digest config events []
