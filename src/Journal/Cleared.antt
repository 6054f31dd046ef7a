-- ===== src/Journal/Cleared.antt =====
-- A receiver whose output directory is cleared starts again with nothing.
use ssync.Prelude.{ℕ, ◌≡◌, refl, Bool, true, false, if◌then◌else◌, Option, some, [], ◌∷◌}
use ssync.Result.{ok}
use ssync.Utf8.{Str}
use ssync.Dict.{get_item, pop_item}
use ssync.Receiver.{mark_journal_dirty, flush_journal}
use ssync.Server.{ReceiverConfig, StoredFile, Server, started, path_eq}
use ssync.Journal.{codes, Json, get_field}
use ssync.Journal.Save.{Journal, save_journal, transfer_records, flush_if_due}
use ssync.Journal.Restore.{load_journal, load_items}
use ssync.Journal.Clear.{
  clear_request_path, consume_clear_request, clear_server, clear_tables, drain_finalize_queue,
  clear_output_dir, leave_parts, clear_journal, clear_on_request, maybe_handle_clear_request,
}

module _ (show : Json → Str) (float_of_str : Str → Option ℕ) (config : ReceiverConfig)
    (now mtime : ℕ) (s : Server) (j : Journal) where
  -- The document that a cleared receiver has written.
  empty_document :
      load_journal show float_of_str now true (some (save_journal [])) (started [])
      ≡ ok (started [], mark_journal_dirty ∷ flush_journal ∷ [])
  unfolding load_journal save_journal transfer_records codes get_field load_items
  empty_document = refl

  -- On a request to clear the output directory, the receiver has the state of one that has just started,
  -- whatever its tables, its index, its buffers, its caches and its queue were: on an empty directory, or,
  -- where clearing is refused, on what is in it less the request, with the part files of all transfers.
  -- Where it is allowed, the journal is written, and a receiver that loads it has that state too.
  pub clear-restart :
      (refused : Bool) (request : StoredFile)
      → get_item path_eq clear_request_path s.files ≡ some request
      → ((maybe_handle_clear_request config now refused mtime s j).0
          ≡ started (
              if refused
              then leave_parts mtime s.transfers (pop_item path_eq clear_request_path s.files)
              else []))
        × ((maybe_handle_clear_request config now false mtime s j).1.journal_dirty ≡ false)
        × (load_journal show float_of_str now true
              (maybe_handle_clear_request config now false mtime s j).1.document
              (started [])
            ≡ ok (started [], mark_journal_dirty ∷ flush_journal ∷ []))
  unfolding maybe_handle_clear_request clear_on_request consume_clear_request clear_server
      clear_tables drain_finalize_queue clear_output_dir clear_journal flush_if_due
  clear-restart refused request e = rw (e, maybe_handle_clear_request) (refl, refl, empty_document)
