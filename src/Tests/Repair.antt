-- ===== src/Tests/Repair.antt =====
-- Repair requests of a transfer of twenty chunks, of which nine have arrived.
use ssync.Prelude.{
  ℕ, ◌≡◌, refl, ◌⊎◌, Bool, true, false, none, some, List, [], ◌∷◌, arith, ltb, leb, ◌==◌,
  if◌then◌else◌, replicate,
}
use ssync.Types.{TransferManifest}
use ssync.Ranges.{Range}
use ssync.Ranges.Cover.{span, IsCanonical}
use ssync.Tracker.{ChunkTracker, missing_ranges, is_complete}
use ssync.Tracker.Invariant.{IsTracker}
use ssync.Receiver.{Transfer}
use ssync.Receiver.Repair.{
  RepairConfig, effective_repair_chunk_budget, is_leading_hole_heavy,
  limit_missing_ranges_for_transfer, maybe_send_periodic_repair_request,
}
use ssync.Receiver.Repair.Limits.{Asks, limit_missing_ranges-Asks, span-limit_missing_ranges}
use ssync.Receiver.Repair.Requests.{Requested, periodic_request, next_request}

abbrev config : RepairConfig
config = record {
  enable_feedback = true;
  periodic_repair_request_s = 500;
  periodic_repair_min_seen_chunks = 4;
  max_repair_chunks_per_request = 3;
  adaptive_leading_hole_boost = true;
  leading_hole_start_threshold_chunks = 2;
  leading_hole_min_span_chunks = 5;
  leading_hole_boost_multiplier = 4;
  leading_hole_max_repair_chunks_per_request = 6;
  repair_request_inflight_timeout_s = 1500;
}

abbrev manifest : TransferManifest
manifest = record {
  transfer_id = replicate 16 7;
  file_name = 97 ∷ [];
  file_size = 80;
  chunk_size = 4;
  total_chunks = 20;
  sha256 = replicate 32 0;
  metadata = [];
}

abbrev tracker : ChunkTracker
tracker = record {
  total_chunks = 20;
  received_ranges = (7, 12) ∷ (14, 18) ∷ [];
  received_count = 9;
}

tracker-IsTracker : IsTracker tracker
tracker-IsTracker = record {
  canonical = (omega arith, omega arith, (omega arith, omega arith, tt));
  within = (omega arith, (omega arith, tt));
  counted = refl;
}

abbrev incomplete_transfer : Bool → ℕ → Transfer
incomplete_transfer in_flight count = record {
  manifest = manifest;
  part_path = (46 ∷ 112 ∷ []) ∷ [];
  final_path = (97 ∷ []) ∷ [];
  source_addr = (49 ∷ [], 9000);
  reply_addr = none;
  part = replicate 80 0;
  tracker = tracker;
  done = false;
  finalized = false;
  highest_chunk_seen = some 17;
  last_chunk_seen = some 17;
  backfill_chunks = 0;
  last_activity_s = 900;
  last_data_s = 900;
  is_mapped = false;
  mmap_dirty = false;
  last_mmap_flush_s = 0;
  last_beacon_s = 0;
  last_beacon_rx_s = 0;
  last_sender_peer_age_ms = 4294967295;
  last_periodic_repair_request_s = 300;
  repair_request_in_flight = in_flight;
  received_count_at_last_request = count;
  requested_chunks_at_last_request = 3;
}

abbrev missing : List Range
missing = (0, 7) ∷ (12, 14) ∷ (18, 20) ∷ []

missing-IsCanonical : IsCanonical missing
missing-IsCanonical =
    (omega arith, omega arith, (omega arith, omega arith, (omega arith, omega arith, tt)))

-- The leading hole of seven chunks raises the budget from 3 to the cap of 6.
boosted_run : effective_repair_chunk_budget config (incomplete_transfer false 0) missing ≡ 6
unfolding effective_repair_chunk_budget is_leading_hole_heavy
boosted_run = refl

limited_run :
    limit_missing_ranges_for_transfer config (incomplete_transfer false 0) missing ≡ (0, 6) ∷ []
unfolding limit_missing_ranges_for_transfer effective_repair_chunk_budget is_leading_hole_heavy
limited_run = refl

limit_missing_ranges-Asks_example :
    Asks missing (limit_missing_ranges_for_transfer config (incomplete_transfer false 0) missing)
limit_missing_ranges-Asks_example =
    limit_missing_ranges-Asks config (incomplete_transfer false 0) (0, 7) ((12, 14) ∷ (18, 20) ∷ [])
      missing-IsCanonical

span-limit_missing_ranges_example :
    (if ltb 0 (effective_repair_chunk_budget config (incomplete_transfer false 0) missing)
      then leb
          (span (limit_missing_ranges_for_transfer config (incomplete_transfer false 0) missing))
          (effective_repair_chunk_budget config (incomplete_transfer false 0) missing)
      else span (limit_missing_ranges_for_transfer config (incomplete_transfer false 0) missing)
        == span missing)
    ≡ true
span-limit_missing_ranges_example =
    span-limit_missing_ranges config (incomplete_transfer false 0) missing missing-IsCanonical

periodic_request_example :
    ((maybe_send_periodic_repair_request config 1000 (incomplete_transfer false 0)).1 ≡ [])
    ⊎ Requested
        (missing_ranges tracker)
        (incomplete_transfer false 0)
        (maybe_send_periodic_repair_request config 1000 (incomplete_transfer false 0))
periodic_request_example =
    periodic_request config 1000 (incomplete_transfer false 0) tracker-IsTracker refl (omega arith)
      (omega arith) (omega arith)

some_missing : is_complete tracker ≡ false
unfolding is_complete
some_missing = refl

next_request_example :
    Requested
      (missing_ranges tracker)
      (incomplete_transfer true 6)
      (maybe_send_periodic_repair_request config 1000 (incomplete_transfer true 6))
next_request_example =
    next_request config 1000 (incomplete_transfer true 6) tracker-IsTracker refl (omega arith)
      (omega arith) (omega arith) refl (omega arith) (omega arith) refl (omega arith) (omega arith)
      some_missing
