-- ===== src/Tests/Journal.antt =====
-- A receiver of two transfers, one of them finalized, is stopped and started again. `str` of a value that
-- is no text stands for the empty text, and no text is a float.
use ssync.Prelude.{ℕ, ◌≡◌, refl, true, false, none, some, List, [], ◌∷◌, arith, replicate, All}
use ssync.Result.{ok, err, attribute_error}
use ssync.Struct.{Bytes}
use ssync.Dict.{get_item, set_item}
use ssync.Types.{TransferManifest}
use ssync.Frames.{bytes_eq}
use ssync.Receiver.{FilePath, Transfer, mark_journal_dirty, flush_journal, created_transfer}
use ssync.Paths.{safe_destination_path, parts_of}
use ssync.Paths.Laws.{is_entry, has_slash}
use ssync.Server.{Signature, StoredFile, Server, signature_eq, path_eq, started}
use ssync.Server.Table.{signature_of, IsTable, empty-IsTable}
use ssync.Server.Table.Changes.{add-IsTable}
use ssync.Server.Consistency.{IsConsistent}
use ssync.Tests.Server.{config}
use ssync.Journal.{codes, null, object, no_fields, field, array, no_items, item, get_field}
use ssync.Journal.Save.{Journal, save_journal}
use ssync.Journal.Load.{parse_record}
use ssync.Journal.Restore.{load_journal, restore_transfer, load_items}
use ssync.Journal.RoundTrip.{IsSound}
use ssync.Journal.Survivors.{IsEntry, survivors}
use ssync.Journal.Restart.{load-save}
use ssync.Journal.Clear.{clear_request_path, maybe_handle_clear_request}
use ssync.Journal.Cleared.{clear-restart}
use ssync.Journal.Signatures.{Transfers}

abbrev manifest : ℕ → TransferManifest
manifest n = record {
  transfer_id = replicate 16 n;
  file_name = 97 ∷ 47 ∷ n ∷ [];
  file_size = 10;
  chunk_size = 4;
  total_chunks = 3;
  sha256 = replicate 32 n;
  metadata = (3, 1 ∷ 2 ∷ []) ∷ [];
}

abbrev part_path : ℕ → FilePath
part_path n = (46 ∷ n ∷ []) ∷ []

abbrev final_path : ℕ → FilePath
final_path n = (97 ∷ []) ∷ (n ∷ []) ∷ []

-- Two of three chunks have come.
abbrev partial : Transfer
partial =
    record (created_transfer 5 false (manifest 98) (part_path 98) (final_path 98) (49 ∷ [], 9000)
      none (replicate 10 1)) {
        tracker = record {
          total_chunks = 3;
          received_ranges = (0, 1) ∷ (2, 3) ∷ [];
          received_count = 2;
        };
        highest_chunk_seen = some 2;
        last_chunk_seen = some 0;
        last_beacon_s = 1500;
      }

abbrev ended : Transfer
ended =
    record (created_transfer 5 false (manifest 99) (part_path 99) (final_path 99) (49 ∷ [], 9000)
      none []) { finalized = true }

abbrev transfers : Transfers
transfers =
    set_item bytes_eq (replicate 16 99) ended (set_item bytes_eq (replicate 16 98) partial [])

abbrev signature_index : List (Signature × Bytes)
signature_index =
    set_item signature_eq (signature_of ended) (replicate 16 99)
      (set_item signature_eq (signature_of partial) (replicate 16 98) [])

abbrev part_file : StoredFile
part_file = record { contents = replicate 10 1; mtime_ns = 7 }

abbrev files : List (FilePath × StoredFile)
files = (part_path 98, part_file) ∷ []

partial-IsSound : IsSound partial
unfolding created_transfer get_item safe_destination_path parts_of is_entry has_slash
partial-IsSound = record {
  sized = refl;
  id_bytes = ground arith;
  sha256_bytes = ground arith;
  keys = (refl, tt);
  value_bytes = ground arith;
  destination = refl;
  below = (refl, tt);
  tracked = record { canonical = ground arith; within = ground arith; counted = refl };
  total = refl;
}

transfers-AreEntries : All (IsEntry files) transfers
unfolding created_transfer get_item set_item
transfers-AreEntries = (
  record {
    named = refl;
    sound = λ e. partial-IsSound;
    part = λ e. record { file = part_file; there = refl; filled = refl };
  },
  (record { named = refl; sound = λ e. absurd (cc); part = λ e. absurd (cc) }, tt),
)

transfers-IsTable : IsTable transfers signature_index
unfolding created_transfer get_item set_item
transfers-IsTable =
    add-IsTable (set_item bytes_eq (replicate 16 98) partial [])
      (set_item signature_eq (signature_of partial) (replicate 16 98) [])
      (add-IsTable [] [] empty-IsTable (replicate 16 98) partial refl refl refl) (replicate 16 99)
      ended refl refl refl

load-save_example :
    (s' : Server) × (load_journal
        (λ v. [])
        (λ s. none)
        9
        true
        (some (save_journal transfers))
        (started files)
      ≡ ok (s', mark_journal_dirty ∷ flush_journal ∷ []))
    × (s'.transfers ≡ survivors 9 true files transfers)
    × IsConsistent s'
load-save_example =
    load-save (λ v. []) (λ s. none) 9 true transfers signature_index (started files)
      transfers-IsTable transfers-AreEntries refl refl

abbrev request_files : List (FilePath × StoredFile)
request_files = (codes ".ssync-clear-request.json" ∷ [], part_file) ∷ files

abbrev journal : Journal
journal = record { journal_dirty = false; last_journal_flush_s = 4; document = none }

request_there : get_item path_eq clear_request_path request_files ≡ some part_file
unfolding get_item clear_request_path codes
request_there = refl

abbrev full_server : Server
full_server = record (started request_files) {
  transfers = transfers;
  transfer_ids_by_signature = signature_index;
}

clear-restart_example :
    ((maybe_handle_clear_request config 9 false 3 full_server journal).0 ≡ started [])
    × ((maybe_handle_clear_request config 9 false 3 full_server journal).1.journal_dirty ≡ false)
    × (load_journal
          (λ v. [])
          (λ s. none)
          9
          true
          (maybe_handle_clear_request config 9 false 3 full_server journal).1.document
          (started [])
        ≡ ok (started [], mark_journal_dirty ∷ flush_journal ∷ []))
clear-restart_example =
    clear-restart (λ v. []) (λ s. none) config 9 3 full_server journal false part_file request_there

-- A journal that is no object ends the start with an error.
load-no_object :
    load_journal (λ v. []) (λ s. none) 9 true (some (array no_items)) (started files)
    ≡ err attribute_error
unfolding load_journal
load-no_object = refl

-- Items that are no object, or that lack a field, are passed over.
load-bad_items :
    load_journal
      (λ v. [])
      (λ s. none)
      9
      true
      (some (
        object (
          field
            (codes "transfers")
            (array (item null (item (object no_fields) no_items)))
            no_fields)))
      (started files)
    ≡ ok (started files, mark_journal_dirty ∷ flush_journal ∷ [])
unfolding load_journal load_items restore_transfer parse_record codes get_field
load-bad_items = refl
