-- ===== src/Server.antt =====
-- src/ssync/space_sync/receiver.py: the state of `SpaceSyncReceiver`, and what it looks up and changes
-- in it: `_manifest_signature`, `_find_transfer_by_manifest_locked`, `_remove_transfer_locked`,
-- `_reply_addr_for`, `_limit_missing_ranges` and `_maybe_advertise_receiver_state`.
--
-- A transfer object is known by its key in `transfers`: the finalization queue holds keys, and a
-- transfer that gets a new key takes its entry in the queue along. The contents of the part file of a
-- transfer are in the transfer; `files` is the rest of the output directory. The calls of the file
-- system succeed.
pub mod Completed
pub mod Accept
pub mod Prepare
pub mod Finalize
pub mod Tick
pub mod Dispatch
pub mod Arrivals
pub mod Opening
pub mod Delivery
pub mod Datagrams
pub mod Table
pub mod Consistency
pub mod Opened
pub mod Run
pub mod Events
pub mod Waiting
pub mod Link
pub mod EndToEnd
pub mod Queried
use ssync.Prelude.{
  ℕ, ◌+◌, ◌-◌, Bool, true, false, not, ◌&&◌, Option, none, some, List, [], ◌∷◌, ◌++◌, ltb, leb,
  ◌==◌, if◌then◌else◌, length,
}
use ssync.Struct.{Bytes, int_from_bytes}
use ssync.Utf8.{Str}
use ssync.Dict.{get_item, set_item, pop_item}
use ssync.Types.{
  TransferManifest, TransferStatus, TransferState, StatusKind, incomplete, complete, transfer,
}
use ssync.Ranges.{Range, limit_ranges_to_chunk_budget}
use ssync.Tracker.{missing_ranges}
use ssync.Frames.{bytes_eq}
use ssync.Frames.Status.{encode_status}
use ssync.Receiver.{Addr, FilePath, Transfer, Effect, send_frame, finalize, effective_reply_addr}
use ssync.Receiver.Repair.{RepairConfig, no_ranges}
use ssync.PreMetadata.{PreMetadataConfig, PreMetadata}

-- `ReceiverConfig`; times are in milliseconds.
pub record ReceiverConfig : Type 0 where
  pub repair : RepairConfig
  pub pre_metadata : PreMetadataConfig
  pub keep_part_files_on_complete : Bool
  pub status_repeat : ℕ
  pub transfer_inactivity_timeout_s : ℕ
  pub journal_flush_interval_s : ℕ
  pub beacon_interval_s : ℕ
  pub forward_stream_quiet_s : ℕ

pub record StoredFile : Type 0 where
  pub contents : Bytes
  pub mtime_ns : ℕ

pub record ReceivedTransferInfo : Type 0 where
  pub transfer_id_hex : Str
  pub file_name : Str
  pub completed : Bool
  pub missing_ranges : List Range
  pub hash_mismatch : Bool

abbrev pub Signature : Type 0
Signature = ℕ × ℕ × Bytes × Str

pub record Server : Type 0 where
  pub transfers : List (Bytes × Transfer)
  pub transfer_ids_by_signature : List (Signature × Bytes)
  pub pre_metadata : PreMetadata
  pub completed : List ReceivedTransferInfo
  pub completed_hash_cache : List (FilePath × (ℕ × ℕ × Bytes))
  pub finalize_queue : List (Bytes × List Range)
  pub files : List (FilePath × StoredFile)

abbrev pub manifest_signature : TransferManifest → Signature
manifest_signature m = (m.file_size, m.chunk_size, m.sha256, m.file_name)

abbrev pub signature_eq : Signature → Signature → Bool
signature_eq (size, chunk_size, sha256, file_name) (size', chunk_size', sha256', file_name') =
    (size == size')
    && (chunk_size == chunk_size')
    && bytes_eq sha256 sha256'
    && bytes_eq file_name file_name'

abbrev pub path_eq : FilePath → FilePath → Bool
path_eq [] [] = true
path_eq [] (q ∷ qs) = false
path_eq (p ∷ ps) [] = false
path_eq (p ∷ ps) (q ∷ qs) = bytes_eq p q && path_eq ps qs

-- A stale entry of the index is taken out.
unfoldable pub find_transfer_by_manifest :
    TransferManifest → Server → Server × Option (Bytes × Transfer)
find_transfer_by_manifest manifest s =
    let signature = manifest_signature manifest in
    elim (get_item signature_eq signature s.transfer_ids_by_signature) [
      | none ↦ (s, none)
      | some transfer_id ↦ elim (get_item bytes_eq transfer_id s.transfers) [
        | none ↦ (
          record s {
            transfer_ids_by_signature = pop_item signature_eq signature s.transfer_ids_by_signature;
          },
          none,
        )
        | some t ↦ (s, some (transfer_id, t))
      ]
    ]

-- The index without the signature, if it leads to the transfer.
abbrev pub forget_signature :
    Bytes → Signature → List (Signature × Bytes) → List (Signature × Bytes)
forget_signature transfer_id signature index = elim (get_item signature_eq signature index) [
  | none ↦ index
  | some indexed_transfer_id ↦
      if bytes_eq indexed_transfer_id transfer_id
      then pop_item signature_eq signature index
      else index
]

unfoldable pub remove_transfer : Bytes → Server → Server
remove_transfer transfer_id s = elim (get_item bytes_eq transfer_id s.transfers) [
  | none ↦ s
  | some t ↦ record s {
    transfers = pop_item bytes_eq transfer_id s.transfers;
    transfer_ids_by_signature =
        forget_signature transfer_id (manifest_signature t.manifest) s.transfer_ids_by_signature;
  }
]

-- `MetadataType.REPLY_PORT` and `MetadataType.SOURCE_MTIME_NS`
abbrev pub reply_port_key : ℕ
reply_port_key = 4

abbrev pub source_mtime_key : ℕ
source_mtime_key = 3

-- The value of the entry, if it has the size.
abbrev pub sized_entry : ℕ → ℕ → TransferManifest → Option ℕ
sized_entry key size manifest = elim (get_item ◌==◌ key manifest.metadata) [
  | none ↦ none
  | some raw ↦ if length raw == size then some (int_from_bytes raw) else none
]

unfoldable pub reply_addr_for : TransferManifest → Addr → Addr
reply_addr_for manifest source_addr = elim (sized_entry reply_port_key 2 manifest) [
  | none ↦ source_addr
  | some port ↦ if ltb 0 port then (source_addr.0, port) else source_addr
]

unfoldable pub limit_missing_ranges : ReceiverConfig → List Range → List Range
limit_missing_ranges config missing =
    let limit = config.repair.max_repair_chunks_per_request in
    if leb limit 0 then missing else limit_ranges_to_chunk_budget missing limit

-- A status of a transfer.
abbrev pub status_of_transfer : Bytes → TransferState → List Range → TransferStatus
status_of_transfer transfer_id state ranges = record {
  transfer_id = transfer_id;
  kind = transfer;
  state = state;
  missing_ranges = ranges;
  file_info = none;
  query_token = none;
}

-- Chunks of the transfer came a short time ago, and more are missing.
abbrev pub is_streaming : ReceiverConfig → ℕ → Transfer → Bool
is_streaming config now t =
    ltb 0 t.last_data_s
    && ltb (now - t.last_data_s) config.forward_stream_quiet_s
    && ltb t.tracker.received_count t.manifest.total_chunks

unfoldable pub maybe_advertise_receiver_state : ReceiverConfig → ℕ → Transfer → List Effect
unfolding limit_missing_ranges
maybe_advertise_receiver_state config now t =
    let missing = missing_ranges t.tracker in
    let state = if t.done && no_ranges missing then complete else incomplete in
    let ranges = limit_missing_ranges config missing in
    if not config.repair.enable_feedback
    then []
    else if leb t.tracker.received_count 0
    then []
    else if is_streaming config now t
    then []
    else send_frame (encode_status (status_of_transfer t.manifest.transfer_id state ranges))
        (effective_reply_addr t)
      ∷ []

-- The finalizations that a call has put into the queue.
pub queued : Bytes → List Effect → List (Bytes × List Range)
queued transfer_id [] = []
queued transfer_id (finalize ranges ∷ effects) = (transfer_id, ranges) ∷ queued transfer_id effects
queued transfer_id (effect ∷ effects) = queued transfer_id effects

-- A call has changed the transfer.
unfoldable pub put_transfer : Bytes → Transfer × List Effect → Server → Server × List Effect
unfolding queued
put_transfer transfer_id (t, effects) s = (
  record s {
    transfers = set_item bytes_eq transfer_id t s.transfers;
    finalize_queue = s.finalize_queue ++ queued transfer_id effects;
  },
  effects,
)

-- A receiver that starts on an output directory.
abbrev pub started : List (FilePath × StoredFile) → Server
started files = record {
  transfers = [];
  transfer_ids_by_signature = [];
  pre_metadata = record { pending = []; total_bytes = 0 };
  completed = [];
  completed_hash_cache = [];
  finalize_queue = [];
  files = files;
}
