-- ===== src/Receiver/Repair.antt =====
-- src/ssync/space_sync/receiver.py: which missing chunks the receiver asks for, and when:
-- `_effective_repair_chunk_budget`, `_is_leading_hole_heavy`, `_limit_missing_ranges_for_transfer`,
-- `_can_send_repair_request`, `_send_repair_request` and `_maybe_send_periodic_repair_request`.
pub mod Limits
pub mod Encoded
pub mod Requests
use ssync.Prelude.{
  ℕ, ◌+◌, ◌-◌, ◌*◌, min, max, Bool, true, false, not, ◌&&◌, Option, none, some, List, [], ◌∷◌, ltb,
  leb, if◌then◌else◌,
}
use ssync.Result.{Result, ok, err}
use ssync.Struct.{Bytes}
use ssync.Types.{TransferStatus, transfer, incomplete}
use ssync.Ranges.{Range, limit_ranges_to_chunk_budget}
use ssync.Tracker.{missing_ranges, sum_lengths}
use ssync.Frames.Status.{encode_status}
use ssync.Receiver.{Transfer, Effect, send_frame, effective_reply_addr}

-- The part of `ReceiverConfig` that these functions read; times are in milliseconds.
pub record RepairConfig : Type 0 where
  pub enable_feedback : Bool
  pub periodic_repair_request_s : ℕ
  pub periodic_repair_min_seen_chunks : ℕ
  pub max_repair_chunks_per_request : ℕ
  pub adaptive_leading_hole_boost : Bool
  pub leading_hole_start_threshold_chunks : ℕ
  pub leading_hole_min_span_chunks : ℕ
  pub leading_hole_boost_multiplier : ℕ
  pub leading_hole_max_repair_chunks_per_request : ℕ
  pub repair_request_inflight_timeout_s : ℕ

-- `highest_chunk_seen + 1`
abbrev pub seen_chunks : Option ℕ → ℕ
seen_chunks none = 0
seen_chunks (some h) = h + 1

unfoldable pub is_leading_hole_heavy : RepairConfig → Transfer → List Range → Bool
is_leading_hole_heavy config t [] = false
is_leading_hole_heavy config t ((first_start, first_end) ∷ rest) =
    if ltb config.leading_hole_start_threshold_chunks first_start
    then false
    else if ltb (max 0 (first_end - first_start)) config.leading_hole_min_span_chunks
    then false
    else if leb (seen_chunks t.highest_chunk_seen) first_start
    then false
    else true

unfoldable pub effective_repair_chunk_budget : RepairConfig → Transfer → List Range → ℕ
effective_repair_chunk_budget config t missing =
    let base_budget = config.max_repair_chunks_per_request in
    let boosted_budget = base_budget * max 1 config.leading_hole_boost_multiplier in
    let cap = config.leading_hole_max_repair_chunks_per_request in
    if leb base_budget 0
    then 0
    else if not config.adaptive_leading_hole_boost
    then base_budget
    else if not (is_leading_hole_heavy config t missing)
    then base_budget
    else max base_budget (if ltb 0 cap then min boosted_budget cap else boosted_budget)

unfoldable pub limit_missing_ranges_for_transfer : RepairConfig → Transfer → List Range → List Range
limit_missing_ranges_for_transfer config t [] = []
limit_missing_ranges_for_transfer config t ((start, stop) ∷ rest) =
    let missing = (start, stop) ∷ rest in
    let budget = effective_repair_chunk_budget config t missing in
    if leb budget 0
    then missing
    else if is_leading_hole_heavy config t missing
    then (start, min stop (start + budget)) ∷ []
    else limit_ranges_to_chunk_budget missing budget

-- `received_since_request / float(requested) >= 0.75`
abbrev is_early_release : ℕ → ℕ → Bool
is_early_release received_since_request requested = leb (3 * requested) (4 * received_since_request)

unfoldable pub can_send_repair_request : RepairConfig → ℕ → Transfer → Bool × Transfer
can_send_repair_request config now t =
    let received_since_request = t.tracker.received_count - t.received_count_at_last_request in
    let requested = t.requested_chunks_at_last_request in
    let elapsed_s = now - t.last_periodic_repair_request_s in
    if not t.repair_request_in_flight
    then (true, t)
    else if ltb 0 requested && leb requested received_since_request
    then (true, record t { repair_request_in_flight = false; last_periodic_repair_request_s = 0 })
    else if ltb 0 requested
        && ltb 0 received_since_request
        && leb config.periodic_repair_request_s elapsed_s
        && is_early_release received_since_request requested
    then (true, record t { repair_request_in_flight = false; last_periodic_repair_request_s = 0 })
    else if ltb elapsed_s config.repair_request_inflight_timeout_s
    then (false, t)
    else (true, record t { repair_request_in_flight = false })

-- The status that asks for the ranges.
abbrev pub repair_status : Transfer → List Range → TransferStatus
repair_status t ranges = record {
  transfer_id = t.manifest.transfer_id;
  kind = transfer;
  state = incomplete;
  missing_ranges = ranges;
  file_info = none;
  query_token = none;
}

abbrev pub returns : Result Bytes → Bool
returns (ok bytes) = true
returns (err e) = false

-- When `encode_status` raises, the request is not noted.
unfoldable pub send_repair_request :
    RepairConfig → ℕ → List Range → Transfer → Transfer × List Effect
send_repair_request config now missing t =
    let limited = limit_missing_ranges_for_transfer config t missing in
    let requested_chunks = sum_lengths limited in
    let requested : Transfer = record t {
      repair_request_in_flight = true;
      received_count_at_last_request = t.tracker.received_count;
      requested_chunks_at_last_request = requested_chunks;
      last_periodic_repair_request_s = now;
    } in
    let encoded = encode_status (repair_status t limited) in
    if not config.enable_feedback then (t, []) else if leb requested_chunks 0 then (t, []) else (
      if returns encoded then requested else t,
      send_frame encoded (effective_reply_addr t) ∷ [],
    )

abbrev pub no_ranges : List Range → Bool
no_ranges [] = true
no_ranges (r ∷ rest) = false

unfoldable pub maybe_send_periodic_repair_request :
    RepairConfig → ℕ → Transfer → Transfer × List Effect
maybe_send_periodic_repair_request config now t =
    let (can_send, t') = can_send_repair_request config now t in
    let missing = missing_ranges t'.tracker in
    if not config.enable_feedback
    then (t, [])
    else if leb config.periodic_repair_request_s 0
    then (t, [])
    else if ltb (seen_chunks t.highest_chunk_seen) config.periodic_repair_min_seen_chunks
    then (t, [])
    else if not can_send
    then (t', [])
    else if ltb 0 t'.last_periodic_repair_request_s
        && ltb (now - t'.last_periodic_repair_request_s) config.periodic_repair_request_s
    then (t', [])
    else if no_ranges missing
    then (t', [])
    else send_repair_request config now missing t'
