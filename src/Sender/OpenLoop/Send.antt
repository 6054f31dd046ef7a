-- ===== src/Sender/OpenLoop/Send.antt =====
-- src/ssync/space_sync/sender.py: `send_file` in the open loop, put together from the METADATA repeats,
-- the loop over the chunks and the tail redundancy.
use ssync.Prelude.{ℕ, ◌-◌, Bool, true, false, ◌||◌, List, [], ◌∷◌, ltb, leb, ◌==◌, if◌then◌else◌}
use ssync.Result.{Result, ok, err}
use ssync.Struct.{Bytes}
use ssync.Types.{TransferManifest}
use ssync.Ranges.{index_run}
use ssync.Hex.{hex}
use ssync.Sender.{read_chunk}
use ssync.Sender.OpenLoop.{
  SenderConfig, SendResult, Moment, Outgoing, SendState, Step, going, aborted, raised,
  continue_with, announce, send_chunks, resend_chunks, drop_tail,
}

unfoldable pub tail_indexes : SenderConfig → ℕ → List ℕ
unfolding index_run
tail_indexes config total_chunks =
    let start_index = total_chunks - config.tail_redundancy_chunks in
    if leb config.tail_redundancy_chunks 0 || leb total_chunks 0
    then []
    else index_run start_index (total_chunks - start_index)

unfoldable pub settle : SenderConfig → ℕ → SendState → SendState
unfolding drop_tail
settle config total_chunks st = record st {
  dropped_chunk_indexes =
      if ltb 0 st.tail_redundancy_sent
      then drop_tail (total_chunks - config.tail_redundancy_chunks) st.dropped_chunk_indexes
      else st.dropped_chunk_indexes;
}

abbrev pub no_indexes : List ℕ → Bool
no_indexes [] = true
no_indexes (i ∷ rest) = false

unfoldable pub send_result : TransferManifest → Bool → SendResult
unfolding hex
send_result m completed = record {
  transfer_id_hex = hex m.transfer_id;
  total_chunks = m.total_chunks;
  repaired_chunks = 0;
  repair_rounds = 0;
  completed = completed;
}

unfoldable pub close_open_loop : TransferManifest → Step → List Outgoing × Result SendResult
unfolding send_result
close_open_loop m (raised e st) = (st.frames, err e)
close_open_loop m (aborted st) = (st.frames, ok (send_result m false))
close_open_loop m (going st) = (st.frames, ok (send_result m (no_indexes st.dropped_chunk_indexes)))

-- The call returns a result that says completed.
abbrev pub is_completed : Result SendResult → Bool
is_completed (ok result) = result.completed
is_completed (err e) = false

-- The moments of the METADATA repeats, of the chunks, and of the tail.
pub record World : Type 0 where
  pub announced : ℕ → Moment
  pub chunks : ℕ → Moment
  pub tail : ℕ → Moment
  pub announced_s : ℕ

module _ (config : SenderConfig) (m : TransferManifest) (raw : Bytes) (world : World) where
  unfoldable pub chunk_at : ℕ → Bytes
  unfolding read_chunk
  chunk_at i = read_chunk raw m.chunk_size i

  -- The chunks, the tail redundancy, and the indexes that are still dropped.
  unfoldable pub send_data : SendState → Step
  unfolding send_chunks resend_chunks tail_indexes settle chunk_at index_run
  send_data st =
      continue_with (send_chunks config m chunk_at world.chunks (index_run 0 m.total_chunks) st)
        λ sent.
          continue_with
            (resend_chunks config m chunk_at world.tail (tail_indexes config m.total_chunks)
              (record sent { tail_redundancy_sent = 0 }))
            λ resent. going (settle config m.total_chunks resent)

  abbrev pub initial_state : SendState
  initial_state = record {
    frames = [];
    last_beacon_s = 0;
    last_metadata_s = 0;
    chunks_since_metadata = 0;
    paced_data_bytes = 0;
    dropped_chunk_indexes = [];
    tail_redundancy_sent = 0;
  }

  -- What follows the METADATA repeats.
  unfoldable pub after_announce : Bool → Step → List Outgoing × Result SendResult
  unfolding send_data send_result close_open_loop
  after_announce send_initial_data (raised e st) = (st.frames, err e)
  after_announce send_initial_data (aborted st) = (st.frames, ok (send_result m false))
  after_announce send_initial_data (going st) =
      let started = record st { last_metadata_s = world.announced_s; chunks_since_metadata = 0 } in
      if m.total_chunks == 0
      then (st.frames, ok (send_result m true))
      else if send_initial_data
      then close_open_loop m (send_data started)
      else close_open_loop m (going started)

  unfoldable pub send_open_loop : Bool → List Outgoing × Result SendResult
  unfolding announce after_announce
  send_open_loop send_initial_data =
      after_announce send_initial_data
        (announce config m world.announced config.manifest_repeats initial_state)
