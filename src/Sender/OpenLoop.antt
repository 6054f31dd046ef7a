-- ===== src/Sender/OpenLoop.antt =====
-- src/ssync/space_sync/sender.py: `send_file` in the open loop, without feedback: `enable_feedback` and
-- `auto_feedback_discovery` are off. With it `_maybe_send_beacon`, `_maybe_send_periodic_metadata`,
-- `_send_tail_redundancy` with its interruption, and `_aborted_result`.
--
-- The frames that are sent are listed in order. Each is a METADATA frame of the manifest, a beacon of the
-- transfer, or a DATA frame of a chunk of the file; `encode_outgoing` gives its bytes. One pass of a loop
-- sees one `Moment` of the world. An encoder's error, and a `TimeoutError` of the socket that is not
-- caught, leave the call.
pub mod Send
pub mod Steps
pub mod Coverage
pub mod Undisturbed
pub mod Stream
pub mod Announced
use ssync.Prelude.{
  ℕ, zero, suc, ◌+◌, ◌-◌, ◌%◌, Bool, not, ◌&&◌, ◌||◌, List, [], ◌∷◌, ◌++◌, ltb, leb, ◌==◌,
  if◌then◌else◌, length,
}
use ssync.Result.{Error, timeout_error, Result, ok, err}
use ssync.Struct.{Bytes, be_bytes}
use ssync.Utf8.{Str}
use ssync.Types.{TransferManifest, sender, expected_total_chunks}
use ssync.Ranges.{index_run}
use ssync.Frames.Manifest.{encode_manifest}
use ssync.Frames.Beacon.{encode_beacon, beacon_peer_age_never}
use ssync.Frames.Data.{encode_data_chunk}
use ssync.Hex.{hex}
use ssync.Sender.{read_chunk, no_bytes, apply_rate_limit}

-- The part of `SenderConfig` that the open loop reads; times are in milliseconds.
pub record SenderConfig : Type 0 where
  pub chunk_size : ℕ
  pub manifest_repeats : ℕ
  pub drop_every_nth_data : ℕ
  pub beacon_interval_s : ℕ
  pub periodic_metadata_interval_s : ℕ
  pub periodic_metadata_every_n_chunks : ℕ
  pub tail_redundancy_chunks : ℕ

pub record SendResult : Type 0 where
  pub transfer_id_hex : Str
  pub total_chunks : ℕ
  pub repaired_chunks : ℕ
  pub repair_rounds : ℕ
  pub completed : Bool

-- How a call that sends a datagram ends. Where it is not sent, `_sendto_with_interrupt` answers False
-- after a request to stop, and the best-effort sends catch a `BlockingIOError`.
pub data SendOutcome : Type 0 where
  delivered not_sent timed_out : SendOutcome

-- The clock, how the sending of a beacon, of a periodic METADATA frame and of the frame of the loop ends,
-- what `stop_requested` says, and whether a chunk is dropped at random.
pub record Moment : Type 0 where
  pub now : ℕ
  pub beacon_outcome : SendOutcome
  pub metadata_outcome : SendOutcome
  pub frame_outcome : SendOutcome
  pub stop_requested : Bool
  pub random_drop : Bool

pub data Outgoing : Type 0 where
  metadata_frame : Outgoing
  beacon_frame : Outgoing
  chunk_frame : ℕ → Outgoing

unfoldable pub encode_outgoing : Bytes → TransferManifest → Outgoing → Result Bytes
encode_outgoing raw m metadata_frame = encode_manifest m
encode_outgoing raw m beacon_frame = encode_beacon sender m.transfer_id beacon_peer_age_never
encode_outgoing raw m (chunk_frame i) =
    encode_data_chunk m.transfer_id i (read_chunk raw m.chunk_size i)

-- The local variables of `send_file`
pub record SendState : Type 0 where
  pub frames : List Outgoing
  pub last_beacon_s : ℕ
  pub last_metadata_s : ℕ
  pub chunks_since_metadata : ℕ
  pub paced_data_bytes : ℕ
  pub dropped_chunk_indexes : List ℕ
  pub tail_redundancy_sent : ℕ

-- The function goes on, returns `_aborted_result`, or raises.
pub data Step : Type 0 where
  going aborted : SendState → Step
  raised : Error → SendState → Step

abbrev pub continue_with : Step → (SendState → Step) → Step
continue_with (going st) f = f st
continue_with (aborted st) f = aborted st
continue_with (raised e st) f = raised e st

-- A datagram of an encoder is sent, which makes the second state of the first; `refused` is what follows
-- where it is not sent.
unfoldable pub sendto : Result Bytes → SendOutcome → Step → SendState → SendState → Step
sendto (err e) outcome refused st next = raised e st
sendto (ok bytes) delivered refused st next = going next
sendto (ok bytes) not_sent refused st next = refused
sendto (ok bytes) timed_out refused st next = raised timeout_error st

abbrev pub put_frame : Outgoing → SendState → SendState
put_frame frame st = record st { frames = st.frames ++ (frame ∷ []) }

-- The manifest that is announced, with the time of the source and the port for replies.
unfoldable pub announced_manifest :
    SenderConfig → (Bytes → Bytes) → Bytes → Str → ℕ → ℕ → Bytes → TransferManifest
announced_manifest config sha256 transfer_id remote_name mtime_ns rx_port raw = record {
  transfer_id = transfer_id;
  file_name = remote_name;
  file_size = length raw;
  chunk_size = config.chunk_size;
  total_chunks = expected_total_chunks (length raw) config.chunk_size;
  sha256 = sha256 raw;
  metadata = (3, be_bytes 8 mtime_ns) ∷ (4, be_bytes 2 rx_port) ∷ [];
}

abbrev pub is_beacon_early : SenderConfig → Moment → SendState → Bool
is_beacon_early config w st =
    ltb 0 st.last_beacon_s && ltb (w.now - st.last_beacon_s) config.beacon_interval_s

abbrev pub after_beacon : Moment → SendState → SendState
after_beacon w st = record (put_frame beacon_frame st) { last_beacon_s = w.now }

abbrev pub beacon_bytes : TransferManifest → Result Bytes
beacon_bytes m = encode_beacon sender m.transfer_id beacon_peer_age_never

unfoldable pub send_beacon_if_due : SenderConfig → TransferManifest → Moment → SendState → Step
unfolding sendto
send_beacon_if_due config m w st =
    if leb config.beacon_interval_s 0
    then going st
    else if is_beacon_early config w st
    then going st
    else sendto (beacon_bytes m) w.beacon_outcome (going st) st (after_beacon w st)

-- Neither `interval_due` nor `chunk_due`
abbrev pub is_metadata_early : SenderConfig → Moment → SendState → Bool
is_metadata_early config w st =
    let interval_due =
      ltb 0 config.periodic_metadata_interval_s
      && leb config.periodic_metadata_interval_s (w.now - st.last_metadata_s) in
    let chunk_due =
      ltb 0 config.periodic_metadata_every_n_chunks
      && leb config.periodic_metadata_every_n_chunks st.chunks_since_metadata in
    not interval_due && not chunk_due

abbrev pub after_metadata : Moment → SendState → SendState
after_metadata w st = record (put_frame metadata_frame st) {
  last_metadata_s = w.now;
  chunks_since_metadata = 0;
}

unfoldable pub maybe_send_periodic_metadata :
    SenderConfig → TransferManifest → Moment → SendState → Step
unfolding sendto
maybe_send_periodic_metadata config m w st =
    if is_metadata_early config w st
    then going st
    else sendto (encode_manifest m) w.metadata_outcome (going st) st (after_metadata w st)

-- The loop over `manifest_repeats`; `world n` is the moment with n passes to follow.
unfoldable pub announce : SenderConfig → TransferManifest → (ℕ → Moment) → ℕ → SendState → Step
unfolding send_beacon_if_due sendto
announce config m world zero st = going st
announce config m world (suc n) st =
    let w = world n in
    if w.stop_requested
    then aborted st
    else continue_with
        (continue_with
          (sendto (encode_manifest m) w.frame_outcome (aborted st) st (put_frame metadata_frame st))
          (send_beacon_if_due config m w))
        (announce config m world n)

-- `drop_every_nth_data > 0 and (chunk_index + 1) % drop_every_nth_data == 0`, or by chance
abbrev pub should_drop : SenderConfig → Moment → ℕ → Bool
should_drop config w i =
    (ltb 0 config.drop_every_nth_data && ((i + 1) % config.drop_every_nth_data == 0))
    || w.random_drop

module _ (config : SenderConfig) (m : TransferManifest) (chunk_reader : ℕ → Bytes)
    (world : ℕ → Moment) where
  abbrev pub count_sent : ℕ → SendState → SendState
  count_sent i st = record st {
    paced_data_bytes = apply_rate_limit st.paced_data_bytes (length (chunk_reader i));
    chunks_since_metadata = st.chunks_since_metadata + 1;
  }

  -- What follows the beacon.
  unfoldable pub send_or_drop : ℕ → SendState → Step
  unfolding sendto maybe_send_periodic_metadata
  send_or_drop i st =
      if should_drop config (world i) i
      then going (record st { dropped_chunk_indexes = i ∷ st.dropped_chunk_indexes })
      else continue_with
          (sendto (encode_data_chunk m.transfer_id i (chunk_reader i)) (world i).frame_outcome
            (aborted st) st (count_sent i (put_frame (chunk_frame i) st)))
          (maybe_send_periodic_metadata config m (world i))

  -- One pass of the loop over the chunks.
  unfoldable pub send_chunk : ℕ → SendState → Step
  unfolding send_beacon_if_due send_or_drop
  send_chunk i st =
      if (world i).stop_requested
      then aborted st
      else if no_bytes (chunk_reader i)
      then going st
      else continue_with (send_beacon_if_due config m (world i) st) (send_or_drop i)

  unfoldable pub send_chunks : List ℕ → SendState → Step
  unfolding send_chunk
  send_chunks [] st = going st
  send_chunks (i ∷ rest) st = continue_with (send_chunk i st) (send_chunks rest)

  -- One pass of `_send_tail_redundancy`.
  unfoldable pub resend_chunk : ℕ → SendState → Step
  unfolding sendto
  resend_chunk i st =
      let sent = record (put_frame (chunk_frame i) st) {
        paced_data_bytes = apply_rate_limit st.paced_data_bytes (length (chunk_reader i));
        tail_redundancy_sent = st.tail_redundancy_sent + 1;
      } in
      if no_bytes (chunk_reader i)
      then going st
      else sendto (encode_data_chunk m.transfer_id i (chunk_reader i)) (world i).frame_outcome
          (aborted st) st sent

  unfoldable pub resend_chunks : List ℕ → SendState → Step
  unfolding resend_chunk
  resend_chunks [] st = going st
  resend_chunks (i ∷ rest) st = continue_with (resend_chunk i st) (resend_chunks rest)

-- `dropped_chunk_indexes.difference_update(range(tail_start, total_chunks))`, for indexes below the end
unfoldable pub drop_tail : ℕ → List ℕ → List ℕ
drop_tail tail_start [] = []
drop_tail tail_start (i ∷ rest) =
    let kept = drop_tail tail_start rest in if leb tail_start i then kept else i ∷ kept
