-- ===== src/Server/Prepare.antt =====
-- src/ssync/space_sync/receiver.py: `_prepare_transfer`. `mapped` says whether a part file could be
-- mapped, `sent` what `_sendto_best_effort` answers for the beacons in the call.
use ssync.Prelude.{
  ℕ, ◌&&◌, ltb, length, false, Bool, not, Option, none, some, List, [], ◌∷◌, ◌++◌, ◌==◌,
  if◌then◌else◌, replicate,
}
use ssync.Result.{value_error}
use ssync.Struct.{Bytes}
use ssync.Dict.{get_item, set_item, pop_item}
use ssync.Types.{TransferManifest, complete}
use ssync.Ranges.{Range}
use ssync.Frames.{bytes_eq}
use ssync.Frames.Status.{encode_status}
use ssync.Receiver.{
  Addr, FilePath, Transfer, Effect, send_frame, mark_journal_dirty, publish_update,
  created_transfer, queue_finalization, uncaught,
}
use ssync.PreMetadata.{has_none, pop_buffer}
use ssync.Paths.{safe_destination_path}
use ssync.Hex.{hex}
use ssync.Server.{
  ReceiverConfig, Server, manifest_signature, signature_eq, path_eq, find_transfer_by_manifest,
  remove_transfer, reply_addr_for, status_of_transfer, maybe_advertise_receiver_state, put_transfer,
}
use ssync.Server.Completed.{HashCache, is_matching_completed_file}
use ssync.Server.Accept.{replay}

-- `transfer.source_addr` and `transfer.reply_addr` are set.
abbrev pub set_addrs : TransferManifest → Addr → Transfer → Transfer
set_addrs manifest source_addr t = record t {
  source_addr = source_addr;
  reply_addr = some (reply_addr_for manifest source_addr);
}

-- METADATA of a transfer that is there.
unfoldable pub refresh_transfer :
    ReceiverConfig → ℕ → TransferManifest → Addr → Transfer → Server → Server × List Effect
refresh_transfer config now manifest source_addr existing s =
    let t = set_addrs manifest source_addr existing in
    if not (signature_eq (manifest_signature existing.manifest) (manifest_signature manifest))
    then (s, [])
    else (
      record s { transfers = set_item bytes_eq manifest.transfer_id t s.transfers },
      maybe_advertise_receiver_state config now t ++ (publish_update ∷ []),
    )

-- The entries of the queue follow the transfer to its new key.
rename_queued : Bytes → Bytes → List (Bytes × List Range) → List (Bytes × List Range)
rename_queued previous_id transfer_id [] = []
rename_queued previous_id transfer_id ((queued_id, ranges) ∷ rest) =
    (if bytes_eq queued_id previous_id then transfer_id else queued_id, ranges)
    ∷ rename_queued previous_id transfer_id rest

-- METADATA of a file that another transfer is about: the transfer goes on under the new id.
unfoldable pub resume_transfer :
    ReceiverConfig → ℕ → TransferManifest → Addr → Bytes → Transfer → Server → Server × List Effect
unfolding rename_queued
resume_transfer config now manifest source_addr previous_transfer_id resumed s =
    let renamed = not (bytes_eq previous_transfer_id manifest.transfer_id) in
    let named = if renamed then record resumed { manifest = manifest } else resumed in
    let t = set_addrs manifest source_addr named in
    let removed = if renamed then remove_transfer previous_transfer_id s else s in
    let index =
      set_item signature_eq (manifest_signature manifest) manifest.transfer_id
        removed.transfer_ids_by_signature in
    (
      record removed {
        transfers = set_item bytes_eq manifest.transfer_id t removed.transfers;
        transfer_ids_by_signature = if renamed then index else removed.transfer_ids_by_signature;
        finalize_queue =
            rename_queued previous_transfer_id manifest.transfer_id removed.finalize_queue;
      },
      (if renamed then mark_journal_dirty ∷ [] else [])
          ++ (maybe_advertise_receiver_state config now t ++ (publish_update ∷ [])),
    )

-- `.{transfer_id}.part`
abbrev pub part_path_of : Bytes → FilePath
part_path_of transfer_id = (46 ∷ (hex transfer_id ++ (46 ∷ 112 ∷ 97 ∷ 114 ∷ 116 ∷ []))) ∷ []

-- The contents of the part file, which is made with zeros if it is not there.
unfoldable pub part_contents : FilePath → ℕ → Server → Bytes
part_contents part_path file_size s = elim (get_item path_eq part_path s.files) [
  | none ↦ replicate file_size 0
  | some file ↦ file.contents
]

-- `mmap` of a part file that is shorter than the file raises a `ValueError`, which is not caught.
unfoldable pub map_fails : Bool → TransferManifest → Server → Bool
unfolding part_contents
map_fails mapped manifest s =
    mapped
    && ltb 0 manifest.file_size
    && ltb (length (part_contents (part_path_of manifest.transfer_id) manifest.file_size s))
        manifest.file_size

-- The new transfer stands in the table and the index.
unfoldable pub put_created : ℕ → Bool → TransferManifest → FilePath → Addr → Server → Server
unfolding part_contents
put_created now mapped manifest final_path source_addr s =
    let part_path = part_path_of manifest.transfer_id in
    let t =
      created_transfer now mapped manifest part_path final_path source_addr
        (some (reply_addr_for manifest source_addr))
        (part_contents part_path manifest.file_size s) in
    record s {
      transfers = set_item bytes_eq manifest.transfer_id t s.transfers;
      transfer_ids_by_signature =
          set_item signature_eq (manifest_signature manifest) manifest.transfer_id
            s.transfer_ids_by_signature;
      files = pop_item path_eq part_path s.files;
    }

-- The new transfer, with its buffered chunks.
unfoldable pub add_transfer :
    ℕ → Bool → TransferManifest → FilePath → Addr → Server → Server × List (ℕ × Bytes)
unfolding put_created
add_transfer now mapped manifest final_path source_addr s =
    let (unbuffered, buffered_chunks) = pop_buffer manifest.transfer_id s.pre_metadata in
    (
      record (put_created now mapped manifest final_path source_addr s) {
        pre_metadata = unbuffered;
      },
      buffered_chunks,
    )

-- `_queue_finalization` of the transfer, if it is there
abbrev pub queue_at : ℕ → Bytes → List Range → Server → Server × List Effect
queue_at now transfer_id missing s = elim (get_item bytes_eq transfer_id s.transfers) [
  | none ↦ (s, [])
  | some t ↦ put_transfer transfer_id (queue_finalization now missing t) s
]

abbrev pub advertise_at : ReceiverConfig → ℕ → Bytes → Server → List Effect
advertise_at config now transfer_id s = elim (get_item bytes_eq transfer_id s.transfers) [
  | none ↦ []
  | some t ↦ maybe_advertise_receiver_state config now t
]

-- METADATA of a file that no transfer is about.
unfoldable pub open_transfer :
    ReceiverConfig
    → ℕ
    → Bool
    → Bool
    → TransferManifest
    → FilePath
    → Addr
    → Server
    → Server × List Effect
unfolding map_fails put_created add_transfer replay
open_transfer config now sent mapped manifest final_path source_addr s =
    let transfer_id = manifest.transfer_id in
    let (added, buffered_chunks) = add_transfer now mapped manifest final_path source_addr s in
    let (ended, end_effects) = queue_at now transfer_id [] added in
    let (replayed, effects) = replay config now sent transfer_id buffered_chunks added in
    let start = mark_journal_dirty ∷ publish_update ∷ [] in
    let mmap_error = value_error "mmap length is greater than file size" in
    if map_fails mapped manifest s
    then (put_created now false manifest final_path source_addr s, uncaught mmap_error ∷ [])
    else if manifest.total_chunks == 0
    then (ended, start ++ end_effects)
    else if has_none buffered_chunks
    then (added, start)
    else (replayed, start ++ (effects ++ advertise_at config now transfer_id replayed))

-- No completed file matches the manifest: what is there is a transfer of its id, or of its signature,
-- or none.
unfoldable pub prepare_found :
    ReceiverConfig
    → ℕ
    → Bool
    → Bool
    → TransferManifest
    → FilePath
    → Addr
    → Server
    → Server × Option (Bytes × Transfer)
    → Server × List Effect
unfolding refresh_transfer resume_transfer open_transfer
prepare_found config now sent mapped manifest final_path source_addr s (searched, found) =
    elim (get_item bytes_eq manifest.transfer_id s.transfers) [
      | some existing ↦ refresh_transfer config now manifest source_addr existing s
      | none ↦ elim found [
        | some (previous_transfer_id, resumed) ↦
            resume_transfer config now manifest source_addr previous_transfer_id resumed searched
        | none ↦ open_transfer config now sent mapped manifest final_path source_addr searched
      ]
    ]

-- What follows the search for a completed file, with its answer and the cache.
unfoldable pub prepare_checked :
    ReceiverConfig
    → ℕ
    → Bool
    → Bool
    → TransferManifest
    → FilePath
    → Addr
    → Server
    → Bool × HashCache
    → Server × List Effect
unfolding prepare_found
prepare_checked config now sent mapped manifest final_path source_addr s (matching, cache) =
    let checked = record s { completed_hash_cache = cache } in
    let answer =
      send_frame (encode_status (status_of_transfer manifest.transfer_id complete []))
        (reply_addr_for manifest source_addr)
      ∷ [] in
    if matching
    then (checked, if config.repair.enable_feedback then answer else [])
    else prepare_found config now sent mapped manifest final_path source_addr checked
        (find_transfer_by_manifest manifest checked)

-- METADATA that are no query.
unfoldable pub prepare_transfer :
    (Bytes → Bytes)
    → ReceiverConfig
    → ℕ
    → Bool
    → Bool
    → TransferManifest
    → Addr
    → Server
    → Server × List Effect
unfolding prepare_checked
prepare_transfer sha256 config now sent mapped manifest source_addr s =
    elim (safe_destination_path manifest.file_name) [
      | none ↦ (s, [])
      | some final_path ↦
          prepare_checked config now sent mapped manifest final_path source_addr s
            (is_matching_completed_file sha256 final_path manifest s)
    ]
