-- ===== src/Journal/Clear.antt =====
-- src/ssync/space_sync/receiver.py and output_dir.py: the request to clear the output directory,
-- `consume_clear_request`, `_maybe_handle_clear_request` and `clear_output_dir`, and a pass of
-- `_run_maintenance_loop` with the journal. `refused` says whether the directory is the root of the file
-- system or the home directory. The journal file is apart from the other files, and `mtime` is the time
-- of part files that no transfer holds any more.
use ssync.Prelude.{ℕ, Bool, true, false, Option, none, some, List, [], ◌∷◌, ◌++◌, if◌then◌else◌}
use ssync.Dict.{get_item, set_item, pop_item}
use ssync.Receiver.{
  FilePath, Effect, mark_journal_dirty, flush_journal, publish_cleared, close_mmap,
}
use ssync.Hex.{hex}
use ssync.Server.{ReceiverConfig, StoredFile, Server, path_eq}
use ssync.Server.Tick.{maintain}
use ssync.Journal.{codes}
use ssync.Journal.Save.{Journal, mark_dirty, flush_if_due}
use ssync.Journal.Signatures.{Transfers}

unfoldable pub clear_request_path : FilePath
unfolding codes
clear_request_path = codes ".ssync-clear-request.json" ∷ []

-- The request file is there, and goes.
unfoldable pub consume_clear_request : Server → Option Server
unfolding clear_request_path
consume_clear_request s = elim (get_item path_eq clear_request_path s.files) [
  | none ↦ none
  | some request ↦ some (record s { files = pop_item path_eq clear_request_path s.files })
]

-- The part files of transfers that are given up stay in the directory.
unfoldable pub leave_parts :
    ℕ → Transfers → List (FilePath × StoredFile) → List (FilePath × StoredFile)
leave_parts mtime [] files = files
leave_parts mtime ((transfer_id, t) ∷ rest) files =
    leave_parts mtime rest
      (set_item path_eq t.part_path (record { contents = t.part; mtime_ns = mtime }) files)

-- `_transfers.clear()` and so on, under the lock. The maps of the transfers are closed, so their part
-- files are files of the directory.
unfoldable pub clear_tables : ℕ → Server → Server
unfolding leave_parts
clear_tables mtime s = record s {
  transfers = [];
  transfer_ids_by_signature = [];
  completed = [];
  completed_hash_cache = [];
  pre_metadata = record s.pre_metadata { pending = []; total_bytes = 0 };
  files = leave_parts mtime s.transfers s.files;
}

-- The loop over `get_nowait`, without the lock.
unfoldable pub drain_finalize_queue : Server → Server
drain_finalize_queue s = record s { finalize_queue = [] }

-- `clear_output_dir`, which a refused directory ends with a `ValueError`.
unfoldable pub clear_output_dir : Bool → Server → Server
clear_output_dir refused s = record s { files = if refused then s.files else [] }

-- The three in their order, with no step of another thread between them.
unfoldable pub clear_server : Bool → ℕ → Server → Server
unfolding clear_tables drain_finalize_queue clear_output_dir
clear_server refused mtime s =
    clear_output_dir refused (drain_finalize_queue (clear_tables mtime s))

-- The journal file is cleared with the others, and written again.
unfoldable pub clear_journal : ReceiverConfig → ℕ → Bool → Journal → Journal
unfolding flush_if_due
clear_journal config now refused j =
    let reset = record j { journal_dirty = false; last_journal_flush_s = 0 } in
    if refused
    then reset
    else flush_if_due config.journal_flush_interval_s now true []
        (mark_dirty (record reset { document = none }))

unfoldable pub close_all : ℕ → Transfers → List Effect
close_all now [] = []
close_all now ((transfer_id, t) ∷ rest) = (close_mmap now t).1 ++ close_all now rest

unfoldable pub publish_all : Transfers → List Effect
unfolding hex
publish_all [] = []
publish_all ((transfer_id, t) ∷ rest) =
    publish_cleared (hex t.manifest.transfer_id) ∷ publish_all rest

-- The state and the effects, if there is a request.
unfoldable pub clear_on_request : ℕ → Bool → ℕ → Server → Option (Server × List Effect)
unfolding consume_clear_request clear_server close_all publish_all
clear_on_request now refused mtime s = elim (consume_clear_request s) [
  | none ↦ none
  | some requested ↦ some (
    clear_server refused mtime requested,
    close_all now s.transfers
        ++ (if refused then [] else mark_journal_dirty ∷ flush_journal ∷ publish_all s.transfers),
  )
]

unfoldable pub maybe_handle_clear_request :
    ReceiverConfig → ℕ → Bool → ℕ → Server → Journal → Server × Journal × List Effect
unfolding clear_on_request clear_journal
maybe_handle_clear_request config now refused mtime s j =
    elim (clear_on_request now refused mtime s) [
      | none ↦ (s, j, [])
      | some (cleared, effects) ↦ (cleared, clear_journal config now refused j, effects)
    ]

-- A pass of `_run_maintenance_loop`.
unfoldable pub maintenance_pass :
    ReceiverConfig → ℕ → Bool → ℕ → Server → Journal → Server × Journal × List Effect
unfolding maybe_handle_clear_request maintain flush_if_due
maintenance_pass config now refused mtime s j =
    let (cleared, journal, effects) = maybe_handle_clear_request config now refused mtime s j in
    let (maintained, flush_effects) = maintain config now cleared in
    (
      maintained,
      flush_if_due config.journal_flush_interval_s now false cleared.transfers journal,
      effects ++ flush_effects,
    )
