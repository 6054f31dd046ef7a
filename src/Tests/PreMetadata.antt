-- ===== src/Tests/PreMetadata.antt =====
-- Buffers for chunks that come before their metadata, with room for ten bytes, six of them for one
-- transfer.
use ssync.Prelude.{◌≤◌, ◌≡◌, refl, List, [], ◌∷◌, take, replicate, All}
use ssync.Struct.{Bytes}
use ssync.Dict.{get_item, set_item, update_item, pop_item}
use ssync.PreMetadata.{PreMetadataConfig, PreMetadata, buffer_chunk, pop_buffer}
use ssync.PreMetadata.Sums.{payload_bytes}
use ssync.PreMetadata.Run.{Event, chunk_comes, empty, run, held_bytes, buffers_within_limits}

abbrev config : PreMetadataConfig
config = record {
  pre_metadata_max_pending_bytes = 10;
  pre_metadata_max_pending_bytes_per_transfer = 6;
  pre_metadata_max_pending_transfers = 2;
  pre_metadata_ttl_s = 1000;
}

abbrev first_id : Bytes
first_id = replicate 16 1

abbrev second_id : Bytes
second_id = replicate 16 2

abbrev third_id : Bytes
third_id = replicate 16 3

-- Two chunks of the first transfer, out of order, one of the second, and one of the third, which makes
-- the first go.
abbrev events : List Event
events =
    chunk_comes 1 first_id 4 (9 ∷ 9 ∷ [])
    ∷ chunk_comes 2 first_id 2 (8 ∷ 8 ∷ 8 ∷ [])
    ∷ chunk_comes 3 second_id 0 (7 ∷ 7 ∷ [])
    ∷ chunk_comes 4 third_id 1 (6 ∷ [])
    ∷ []

abbrev remaining : PreMetadata
remaining = record {
  pending =
      (second_id, record { chunks = (0, 7 ∷ 7 ∷ []) ∷ []; buffered_bytes = 2; last_update_s = 3 })
      ∷ (third_id, record { chunks = (1, 6 ∷ []) ∷ []; buffered_bytes = 1; last_update_s = 4 })
      ∷ [];
  total_bytes = 3;
}

events_result : run config events empty ≡ remaining
unfolding run buffer_chunk get_item set_item update_item pop_item
events_result = refl

-- The buffered chunks come back in the order of their indexes.
popped_result :
    (pop_buffer first_id (run config (take 2 events) empty)).1
    ≡ (2, 8 ∷ 8 ∷ 8 ∷ []) ∷ (4, 9 ∷ 9 ∷ []) ∷ []
unfolding run buffer_chunk pop_buffer get_item set_item update_item pop_item
popped_result = refl

-- The buffer of the first transfer is the oldest when its second chunk does not fit: it goes, and the
-- chunk with it, but the total keeps the chunk's five bytes.
leak_result :
    run config
      (chunk_comes 1 first_id 0 (1 ∷ [])
        ∷ chunk_comes 2 second_id 0 (2 ∷ 2 ∷ 2 ∷ 2 ∷ 2 ∷ [])
        ∷ chunk_comes 3 first_id 1 (3 ∷ 3 ∷ 3 ∷ 3 ∷ 3 ∷ [])
        ∷ [])
      empty
    ≡ record {
      pending =
          (
            second_id,
            record {
              chunks = (0, 2 ∷ 2 ∷ 2 ∷ 2 ∷ 2 ∷ []) ∷ [];
              buffered_bytes = 5;
              last_update_s = 2;
            },
          )
          ∷ [];
      total_bytes = 10;
    }
unfolding run buffer_chunk get_item set_item update_item pop_item
leak_result = refl

abbrev before : PreMetadata
before = run config (take 2 events) empty

buffers_within_limits_example :
    (held_bytes (run config events empty).pending ≤ 10)
    × All (λ q. payload_bytes q.1.chunks ≤ 6) (run config events empty).pending
buffers_within_limits_example = buffers_within_limits config events
