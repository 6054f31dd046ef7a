-- ===== src/Server/Finalize.antt =====
-- src/ssync/space_sync/receiver.py: the worker for the finalization queue, `_run_finalize_worker` and
-- `_finalize_transfer_impl`. When no worker runs, `_queue_finalization` calls the second at once: that
-- is a step of the worker directly after.
--
-- A part file that is kept is a second link to the final file. `mtime` is the modification time that the file system gives the part file. The effects of a step are
-- those after the last change of the state.
use ssync.Prelude.{
  ℕ, Bool, true, false, not, Option, none, some, List, [], ◌∷◌, ◌++◌, if◌then◌else◌, length, drop,
  replicate,
}
use ssync.Struct.{Bytes}
use ssync.Dict.{get_item, set_item, pop_item}
use ssync.Types.{TransferManifest, TransferState, incomplete, complete, hash_mismatch}
use ssync.Ranges.{Range}
use ssync.Frames.{bytes_eq}
use ssync.Frames.Status.{encode_status}
use ssync.Receiver.{
  FilePath, Transfer, Effect, send_frame, mark_journal_dirty, flush_journal, publish_terminal,
  effective_reply_addr,
}
use ssync.Receiver.Repair.{no_ranges}
use ssync.Hex.{hex}
use ssync.Server.{
  ReceiverConfig, StoredFile, ReceivedTransferInfo, Server, path_eq, remove_transfer, sized_entry,
  source_mtime_key, status_of_transfer,
}
use ssync.Server.Completed.{HashCache, trim_completed_hash_cache}

-- `os.utime` with the time of the source, if the manifest has it
abbrev pub final_mtime : TransferManifest → ℕ → ℕ
final_mtime manifest mtime = elim (sized_entry source_mtime_key 8 manifest) [
  | none ↦ mtime
  | some mtime_ns ↦ mtime_ns
]

abbrev pub is_complete_state : TransferState → Bool
is_complete_state complete = true
is_complete_state state = false

abbrev pub is_mismatch_state : TransferState → Bool
is_mismatch_state hash_mismatch = true
is_mismatch_state state = false

-- The last statuses, all the same.
abbrev pub final_statuses : ReceiverConfig → Transfer → TransferState → List Range → List Effect
final_statuses config t state missing =
    if config.repair.enable_feedback
    then replicate config.status_repeat (
        send_frame (encode_status (status_of_transfer t.manifest.transfer_id state missing))
          (effective_reply_addr t))
    else []

module _ (sha256 : Bytes → Bytes) where
  -- The state that the transfer ends in.
  unfoldable pub final_state : Transfer → List Range → TransferState
  final_state t missing =
      if not (no_ranges missing)
      then incomplete
      else if bytes_eq (sha256 t.part) t.manifest.sha256
      then complete
      else hash_mismatch

  -- The output directory: the part file becomes the final file, is removed, or stays.
  unfoldable pub final_files :
      ReceiverConfig
      → ℕ
      → Transfer
      → TransferState
      → List (FilePath × StoredFile)
      → List (FilePath × StoredFile)
  final_files config mtime t complete files =
      let final : StoredFile = record {
        contents = t.part;
        mtime_ns = final_mtime t.manifest mtime;
      } in
      let kept =
        if config.keep_part_files_on_complete
        then set_item path_eq t.part_path final files
        else files in
      set_item path_eq t.final_path final kept
  final_files config mtime t hash_mismatch files = files
  final_files config mtime t state files =
      let part : StoredFile = record { contents = t.part; mtime_ns = mtime } in
      set_item path_eq t.part_path part files

  unfoldable pub final_cache : ℕ → Transfer → TransferState → HashCache → HashCache
  unfolding trim_completed_hash_cache
  final_cache mtime t complete cache =
      let entry : ℕ × ℕ × Bytes =
        (length t.part, final_mtime t.manifest mtime, t.manifest.sha256) in
      trim_completed_hash_cache (set_item path_eq t.final_path entry cache)
  final_cache mtime t state cache = pop_item path_eq t.final_path cache

  abbrev pub transfer_info : Transfer → TransferState → List Range → ReceivedTransferInfo
  transfer_info t state missing = record {
    transfer_id_hex = hex t.manifest.transfer_id;
    file_name = t.manifest.file_name;
    completed = is_complete_state state;
    missing_ranges = missing;
    hash_mismatch = is_mismatch_state state;
  }

  unfoldable pub finalize_transfer :
      ReceiverConfig → ℕ → Transfer → List Range → Server → Server × List Effect
  unfolding final_state final_files final_cache
  finalize_transfer config mtime t missing s =
      let state = final_state t missing in
      let removed = remove_transfer t.manifest.transfer_id s in
      (
        record removed {
          files = final_files config mtime t state s.files;
          completed_hash_cache = final_cache mtime t state s.completed_hash_cache;
          completed = s.completed ++ (transfer_info t state missing ∷ []);
        },
        mark_journal_dirty
            ∷ flush_journal
            ∷ publish_terminal state
            ∷ final_statuses config t state missing,
      )

  -- A step of the worker.
  unfoldable pub finalize_next : ReceiverConfig → ℕ → Server → Server × List Effect
  unfolding finalize_transfer
  finalize_next config mtime s =
      let first : Option (Bytes × List Range) = elim s.finalize_queue [
        | [] ↦ none
        | entry ∷ rest ↦ some entry
      ] in
      let popped : Server = record s { finalize_queue = drop 1 s.finalize_queue } in
      elim first [
        | none ↦ (s, [])
        | some (transfer_id, missing) ↦ elim (get_item bytes_eq transfer_id s.transfers) [
          | none ↦ (popped, [])
          | some t ↦ finalize_transfer config mtime t missing popped
        ]
      ]
