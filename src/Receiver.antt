-- ===== src/Receiver.antt =====
-- src/ssync/space_sync/receiver.py: what the receiver does with a chunk of a transfer that it knows,
-- the part of `_accept_data` behind the lookup of the transfer, with `_maybe_send_beacon`,
-- `_queue_finalization` and `_close_transfer_mmap`.
--
-- The part file is its contents, mapped into memory or not: both ways of writing change the same
-- bytes. Times are in milliseconds, and all reads of the clock in one call see the same `now`. `sent`
-- is what `_sendto_best_effort` answers. What the code does to the world is a list of effects, in
-- order. An index that is -1 at first is `none`.
pub mod Slices
pub mod Chunks
pub mod Copy
pub mod Repair
pub mod Deliver
pub mod Reassembly
use ssync.Prelude.{
  ℕ, ◌+◌, ◌-◌, ◌*◌, min, Bool, true, false, ◌&&◌, ◌||◌, Option, none, some, List, [], ◌∷◌, ◌++◌,
  ltb, leb, ◌==◌, if◌then◌else◌, length, take, drop,
}
use ssync.Result.{Error, Result, err}
use ssync.Struct.{Bytes}
use ssync.Utf8.{Str}
use ssync.Types.{TransferManifest, TransferState, BeaconRole, receiver}
use ssync.Ranges.{Range}
use ssync.Tracker.{ChunkTracker, fresh, add}
use ssync.Frames.Beacon.{encode_beacon, beacon_peer_age_never}

-- A host and a port.
abbrev pub Addr : Type 0
Addr = Str × ℕ

-- A path below the output directory.
abbrev pub FilePath : Type 0
FilePath = List Str

pub record Transfer : Type 0 where
  pub manifest : TransferManifest
  pub part_path : FilePath
  pub final_path : FilePath
  pub source_addr : Addr
  pub reply_addr : Option Addr
  pub part : Bytes
  pub tracker : ChunkTracker
  pub done : Bool
  pub finalized : Bool
  pub highest_chunk_seen : Option ℕ
  pub last_chunk_seen : Option ℕ
  pub backfill_chunks : ℕ
  pub last_activity_s : ℕ
  pub last_data_s : ℕ
  pub is_mapped : Bool
  pub mmap_dirty : Bool
  pub last_mmap_flush_s : ℕ
  pub last_beacon_s : ℕ
  pub last_beacon_rx_s : ℕ
  pub last_sender_peer_age_ms : ℕ
  pub last_periodic_repair_request_s : ℕ
  pub repair_request_in_flight : Bool
  pub received_count_at_last_request : ℕ
  pub requested_chunks_at_last_request : ℕ

-- A datagram that an encoder has not returned, `send_frame (err e)`, is no datagram: the exception leaves
-- the handler, and no effect follows it. `uncaught` is any other exception that leaves the handler.
pub data Effect : Type 0 where
  send_frame : Result Bytes → Addr → Effect
  mark_journal_dirty flush_journal flush_mmap publish_beacon publish_update : Effect
  finalize : List Range → Effect
  publish_terminal : TransferState → Effect
  publish_cleared : Str → Effect
  uncaught : Error → Effect

-- An exception has left the handler.
abbrev pub raises : List Effect → Bool
raises [] = false
raises (send_frame (err e) addr ∷ effects) = true
raises (uncaught e ∷ effects) = true
raises (effect ∷ effects) = raises effects

-- `reply_addr or source_addr`
abbrev pub effective_reply_addr : Transfer → Addr
effective_reply_addr t = elim t.reply_addr [ none ↦ t.source_addr | some addr ↦ addr ]

-- `mapped_file[start : start + len(payload)] = payload`, or a seek and a write: what is called with
-- the whole of the payload inside the file.
unfoldable pub write_at : ℕ → Bytes → Bytes → Bytes
write_at offset payload file = take offset file ++ (payload ++ drop (offset + length payload) file)

-- `min(int((now - last_beacon_rx_s) * 1000), BEACON_PEER_AGE_NEVER - 1)`, or never
abbrev peer_age : ℕ → Transfer → ℕ
peer_age now t =
    if ltb 0 t.last_beacon_rx_s
    then min (now - t.last_beacon_rx_s) (beacon_peer_age_never - 1)
    else beacon_peer_age_never

unfoldable pub maybe_send_beacon : ℕ → ℕ → Bool → Transfer → Transfer × List Effect
maybe_send_beacon beacon_interval_s now sent t =
    let frame =
      send_frame (encode_beacon receiver t.manifest.transfer_id (peer_age now t))
        (effective_reply_addr t) in
    if leb beacon_interval_s 0
    then (t, [])
    else if ltb 0 t.last_beacon_s && ltb (now - t.last_beacon_s) beacon_interval_s
    then (t, [])
    else if sent
    then (record t { last_beacon_s = now }, frame ∷ mark_journal_dirty ∷ publish_beacon ∷ [])
    else (t, frame ∷ [])

-- `_flush_transfer_mmap(force=True)`, and the map is closed
abbrev pub close_mmap : ℕ → Transfer → Transfer × List Effect
close_mmap now t =
    if t.is_mapped && t.mmap_dirty
    then (
      record t { is_mapped = false; mmap_dirty = false; last_mmap_flush_s = now },
      flush_mmap ∷ [],
    )
    else (record t { is_mapped = false }, [])

unfoldable pub queue_finalization : ℕ → List Range → Transfer → Transfer × List Effect
queue_finalization now missing_ranges t =
    let (closed, effects) = close_mmap now (record t { finalized = true }) in
    if t.finalized
    then (t, [])
    else (closed, effects ++ (mark_journal_dirty ∷ flush_journal ∷ finalize missing_ranges ∷ []))

-- `chunk_index < highest_chunk_seen`, and `>`
abbrev before_highest : ℕ → Option ℕ → Bool
before_highest i none = false
before_highest i (some h) = ltb i h

abbrev new_highest : ℕ → Option ℕ → Option ℕ
new_highest i none = some i
new_highest i (some h) = if ltb h i then some i else some h

-- The chunk is written, and counted.
abbrev pub store_chunk : ℕ → ℕ → Bytes → Transfer → Transfer
store_chunk now chunk_index payload t =
    let (changed, tracker) = add chunk_index t.tracker in
    record t {
      part = write_at (chunk_index * t.manifest.chunk_size) payload t.part;
      mmap_dirty = t.is_mapped || t.mmap_dirty;
      tracker = tracker;
      backfill_chunks =
          if changed && before_highest chunk_index t.highest_chunk_seen
          then t.backfill_chunks + 1
          else t.backfill_chunks;
      last_activity_s = now;
      last_data_s = now;
      highest_chunk_seen = new_highest chunk_index t.highest_chunk_seen;
      last_chunk_seen = some chunk_index;
    }

-- What follows the guards: the beacon, the journal, and the finalization of a complete transfer.
unfoldable pub receive_chunk : ℕ → ℕ → Bool → ℕ → Bytes → Transfer → Transfer × List Effect
unfolding maybe_send_beacon queue_finalization
receive_chunk beacon_interval_s now sent chunk_index payload t =
    let changed = (add chunk_index t.tracker).0 in
    let (beaconed, beacon_effects) =
      maybe_send_beacon beacon_interval_s now sent (store_chunk now chunk_index payload t) in
    let change_effects = if changed then mark_journal_dirty ∷ publish_update ∷ [] else [] in
    let (queued, queue_effects) = queue_finalization now [] beaconed in
    if ltb 0 t.manifest.total_chunks && leb t.manifest.total_chunks beaconed.tracker.received_count
    then (queued, beacon_effects ++ (change_effects ++ queue_effects))
    else (beaconed, beacon_effects ++ change_effects)

unfoldable pub accept_data : ℕ → ℕ → Bool → ℕ → Bytes → Transfer → Transfer × List Effect
unfolding receive_chunk
accept_data beacon_interval_s now sent chunk_index payload t =
    if t.done || t.finalized
    then (t, [])
    else if leb t.manifest.total_chunks chunk_index
    then (t, [])
    else if ltb t.manifest.file_size (chunk_index * t.manifest.chunk_size + length payload)
    then (t, [])
    else receive_chunk beacon_interval_s now sent chunk_index payload t

-- The object that `_prepare_transfer` makes of a new manifest, with the contents of its part file and
-- the addresses. `mapped` says whether `_ensure_mapped_file_locked` could map it.
unfoldable pub created_transfer :
    ℕ → Bool → TransferManifest → FilePath → FilePath → Addr → Option Addr → Bytes → Transfer
created_transfer now mapped manifest part_path final_path source_addr reply_addr part = record {
  manifest = manifest;
  part_path = part_path;
  final_path = final_path;
  source_addr = source_addr;
  reply_addr = reply_addr;
  part = part;
  tracker = fresh manifest.total_chunks;
  done = false;
  finalized = false;
  highest_chunk_seen = none;
  last_chunk_seen = none;
  backfill_chunks = 0;
  last_activity_s = now;
  last_data_s = 0;
  is_mapped = mapped && ltb 0 manifest.file_size;
  mmap_dirty = false;
  last_mmap_flush_s = if mapped && ltb 0 manifest.file_size then now else 0;
  last_beacon_s = 0;
  last_beacon_rx_s = 0;
  last_sender_peer_age_ms = beacon_peer_age_never;
  last_periodic_repair_request_s = 0;
  repair_request_in_flight = false;
  received_count_at_last_request = 0;
  requested_chunks_at_last_request = 0;
}

-- An empty file has no DATA frames, and is finalized at once.
unfoldable pub new_transfer :
    ℕ → Bool → TransferManifest → FilePath → FilePath → Addr → Option Addr → Bytes → Transfer
unfolding queue_finalization created_transfer
new_transfer now mapped manifest part_path final_path source_addr reply_addr part =
    let transfer =
      created_transfer now mapped manifest part_path final_path source_addr reply_addr part in
    if manifest.total_chunks == 0 then (queue_finalization now [] transfer).0 else transfer
