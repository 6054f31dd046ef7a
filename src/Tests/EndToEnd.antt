-- ===== src/Tests/EndToEnd.antt =====
-- A sender that drops every third chunk, and a link that changes the order of its frames, bring the
-- file of Tests/Server to its receiver.
use ssync.Prelude.{◌+◌, ℕ, ◌≡◌, refl, true, false, List, [], ◌∷◌}
use ssync.Result.{ok}
use ssync.Struct.{pack}
use ssync.Utf8.{encode_utf8}
use ssync.Frames.{encode_frame}
use ssync.Frames.Tlv.{encode_tlvs}
use ssync.Frames.Manifest.{encode_manifest}
use ssync.Frames.Beacon.{encode_beacon}
use ssync.Frames.Data.{encode_data_chunk}
use ssync.Ranges.{index_run}
use ssync.Sender.{read_chunk}
use ssync.Sender.OpenLoop.{
  SenderConfig, Moment, delivered, sendto, send_or_drop, Outgoing, metadata_frame, beacon_frame,
  chunk_frame, announce, send_chunk, send_chunks, resend_chunk, resend_chunks, send_beacon_if_due,
  maybe_send_periodic_metadata, drop_tail,
}
use ssync.Sender.OpenLoop.Send.{
  World, tail_indexes, settle, send_result, close_open_loop, chunk_at, send_data, after_announce,
  send_open_loop,
}
use ssync.Server.Link.{Reception}
use ssync.Tests.Server.{raw, manifest}

-- A sender that drops every third chunk, repeats METADATA, and resends the last two chunks.
abbrev pub sender_config : SenderConfig
sender_config = record {
  chunk_size = 4;
  manifest_repeats = 2;
  drop_every_nth_data = 3;
  beacon_interval_s = 1000;
  periodic_metadata_interval_s = 10000;
  periodic_metadata_every_n_chunks = 2;
  tail_redundancy_chunks = 2;
}

abbrev calm : ℕ → Moment
calm i = record {
  now = 10 + i;
  beacon_outcome = delivered;
  metadata_outcome = delivered;
  frame_outcome = delivered;
  stop_requested = false;
  random_drop = false;
}

abbrev pub calm_world : World
calm_world = record { announced = calm; chunks = calm; tail = calm; announced_s = 20 }

pub sent_run : send_open_loop sender_config manifest raw calm_world true ≡ (
  metadata_frame
      ∷ beacon_frame
      ∷ metadata_frame
      ∷ chunk_frame 0
      ∷ chunk_frame 1
      ∷ metadata_frame
      ∷ chunk_frame 1
      ∷ chunk_frame 2
      ∷ [],
  ok (send_result manifest true),
)
unfolding send_open_loop announce after_announce send_data send_chunks send_chunk resend_chunks
    resend_chunk send_beacon_if_due maybe_send_periodic_metadata settle drop_tail tail_indexes
    close_open_loop chunk_at read_chunk index_run send_result sendto send_or_drop encode_manifest
    encode_beacon encode_data_chunk encode_frame encode_tlvs encode_utf8 pack
sent_run = refl

abbrev received_at : ℕ → List Outgoing → List Reception
received_at now [] = []
received_at now (f ∷ rest) =
    record { now = now; sent = true; mapped = true; frame = f } ∷ received_at (now + 1) rest

abbrev receptions : List Reception
receptions = received_at 30 (
    metadata_frame
    ∷ beacon_frame
    ∷ metadata_frame
    ∷ chunk_frame 0
    ∷ chunk_frame 1
    ∷ metadata_frame
    ∷ chunk_frame 1
    ∷ chunk_frame 2
    ∷ [])

-- Chunks in another order, one of them twice, with METADATA and a beacon between them.
abbrev lossy : List Reception
lossy = received_at 31 (
    chunk_frame 2
    ∷ beacon_frame
    ∷ chunk_frame 0
    ∷ chunk_frame 2
    ∷ metadata_frame
    ∷ chunk_frame 1
    ∷ [])
