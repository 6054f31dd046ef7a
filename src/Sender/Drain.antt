-- ===== src/Sender/Drain.antt =====
-- src/ssync/space_sync/sender.py: `_drain_repair_requests`, which answers the datagrams that have come
-- in.
--
-- `incoming` is what `recvfrom` returns, one after the other, until there is no more. A limit of 0 is
-- no limit. No interruption is asked for.
pub mod Counts
pub mod Limits
use ssync.Prelude.{
  ℕ, ◌+◌, ◌-◌, Bool, true, false, not, ◌&&◌, ◌||◌, Option, some, List, [], ◌∷◌, ◌++◌, ltb, leb,
  if◌then◌else◌,
}
use ssync.Result.{Result, ok, err, is_value_error, ◌>>=◌, ◌>>◌}
use ssync.Struct.{Bytes}
use ssync.Types.{
  FrameType, TransferStatus, TransferState, StatusKind, status, transfer, file_info_response,
  complete, incomplete,
}
use ssync.Ranges.{Range, limit_ranges_to_chunk_budget, index_run}
use ssync.Frames.{ParsedFrame, bytes_eq, decode_frame}
use ssync.Frames.Status.{decode_status}
use ssync.Sender.{Repaired, repairs_loop, send_requested_repairs}

pub record Drained : Type 0 where
  pub frames : List Bytes
  pub repaired_chunks : ℕ
  pub repair_rounds : ℕ
  pub paced_data_bytes : ℕ
  pub completed : Bool
  pub saw_uplink : Bool

-- The loop goes on with this, or ends with it.
pub data Round : Type 0 where
  continue_with break_with : Drained → Round

abbrev pub is_status : Option FrameType → Bool
is_status (some status) = true
is_status frame_type = false

abbrev pub is_transfer : StatusKind → Bool
is_transfer transfer = true
is_transfer file_info_response = false

abbrev pub is_complete_status : TransferState → Bool
is_complete_status complete = true
is_complete_status state = false

abbrev pub asks_repair : TransferState → List Range → Bool
asks_repair incomplete (r ∷ rest) = true
asks_repair state ranges = false

-- `limit > 0 and count >= limit`
abbrev pub is_reached : ℕ → ℕ → Bool
is_reached limit count = ltb 0 limit && leb limit count

module _ (transfer_id : Bytes) (total_chunks : ℕ) (chunk_reader : ℕ → Bytes)
    (max_rounds max_chunks : ℕ) where
  -- A request is answered as far as the limit of chunks goes.
  unfoldable pub answer_request : List Range → Drained → Result Round
  answer_request missing_ranges st = do
    let repair_ranges =
        if leb max_chunks 0
        then missing_ranges
        else limit_ranges_to_chunk_budget missing_ranges (max_chunks - st.repaired_chunks)
    sent ←
        send_requested_repairs transfer_id total_chunks chunk_reader repair_ranges
          st.paced_data_bytes
    ok (
        continue_with (record st {
          frames = st.frames ++ sent.0.frames;
          repaired_chunks = st.repaired_chunks + sent.0.repaired;
          repair_rounds = st.repair_rounds + 1;
          paced_data_bytes = sent.0.paced_data_bytes;
        }))

  unfoldable pub answer_status : TransferStatus → Drained → Result Round
  unfolding answer_request
  answer_status s st =
      if not (is_transfer s.kind)
      then ok (continue_with st)
      else if not (bytes_eq s.transfer_id transfer_id)
      then ok (continue_with st)
      else if is_complete_status s.state
      then ok (break_with (record st { completed = true }))
      else if not (asks_repair s.state s.missing_ranges)
      then ok (continue_with st)
      else if is_reached max_chunks st.repaired_chunks
      then ok (break_with st)
      else answer_request s.missing_ranges st

  unfoldable pub answer_frame : ParsedFrame → Drained → Result Round
  unfolding answer_status
  answer_frame parsed st =
      if is_status parsed.frame_type
      then (do s ← decode_status parsed.payload; answer_status s st)
      else ok (continue_with st)

  -- A malformed datagram is passed over.
  unfoldable pub answer_datagram : Bytes → Drained → Result Round
  unfolding answer_frame
  answer_datagram response_raw before =
      let st = record before { saw_uplink = true } in
      elim (decode_frame response_raw) [
        | err e ↦ if is_value_error e then ok (continue_with st) else err e
        | ok parsed ↦ answer_frame parsed st
      ]

  unfoldable pub drain_loop : List Bytes → Drained → Result Drained
  unfolding answer_datagram
  drain_loop [] st = ok st
  drain_loop (response_raw ∷ rest) st =
      if is_reached max_rounds st.repair_rounds
      then ok st
      else if is_reached max_chunks st.repaired_chunks
      then ok st
      else elim (answer_datagram response_raw st) [
        | err e ↦ err e
        | ok round ↦ elim round [
          | break_with final ↦ ok final
          | continue_with next ↦ drain_loop rest next
        ]
      ]

  unfoldable pub drain_repair_requests : List Bytes → ℕ → Result Drained
  unfolding drain_loop
  drain_repair_requests incoming paced_data_bytes = drain_loop incoming (record {
    frames = [];
    repaired_chunks = 0;
    repair_rounds = 0;
    paced_data_bytes = paced_data_bytes;
    completed = false;
    saw_uplink = false;
  })
