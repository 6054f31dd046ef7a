-- ===== src/Journal/Restore.antt =====
-- src/ssync/space_sync/receiver.py: what `_restore_transfer` and `_load_journal` do with the records
-- that they have read. A read of the document that fails with an OSError or a JSONDecodeError is no
-- document. Files are looked up in the output directory as it was before the load, and the contents of a
-- part file go to the transfer that it belongs to. `mapped` says whether a part file could be mapped.
use ssync.Prelude.{
  ℕ, Bool, not, ◌||◌, Option, none, some, List, [], ◌∷◌, ◌==◌, if◌then◌else◌, length,
}
use ssync.Result.{Result, ok, err, attribute_error, outside}
use ssync.Struct.{Bytes}
use ssync.Utf8.{Str}
use ssync.Dict.{get_item, set_item, pop_item}
use ssync.Types.{transfer_id_size}
use ssync.Tracker.{from_received_ranges}
use ssync.Frames.{bytes_eq}
use ssync.Receiver.{FilePath, Transfer, Effect, mark_journal_dirty, flush_journal, created_transfer}
use ssync.Paths.{is_absolute, parts_of, has_dot_dot, safe_destination_path}
use ssync.Server.{StoredFile, Server, manifest_signature, signature_eq, path_eq}
use ssync.Journal.{
  codes, Json, seconds, array, object, Items, no_items, item, Fields, get_field, got, refused,
  negative, index_of_number, coerce_optional_float,
}
use ssync.Journal.Load.{Parsed, with_default, parse_record}

-- The transfer of a record, with the times of its beacons.
unfoldable pub restored : ℕ → Bool → Parsed → FilePath → FilePath → Bytes → ℕ → ℕ → Transfer
unfolding created_transfer from_received_ranges
restored now mapped p part_path final_path contents last_beacon_tx_s last_beacon_rx_s =
    record (created_transfer now mapped p.manifest part_path final_path p.source_addr none
      contents) {
        tracker = from_received_ranges p.manifest.total_chunks p.received_ranges;
        highest_chunk_seen = index_of_number p.highest_chunk_seen;
        last_chunk_seen = index_of_number p.last_chunk_seen;
        last_beacon_s = last_beacon_tx_s;
        last_beacon_rx_s = last_beacon_rx_s;
      }

-- `exists`, and `stat().st_size` is the size: the contents.
abbrev pub part_of_size : ℕ → Option StoredFile → Option Bytes
part_of_size file_size none = none
part_of_size file_size (some file) =
    if length file.contents == file_size then some file.contents else none

-- Both relative paths stay below the output directory.
unfoldable pub is_refused_path : Str → Bool
unfolding parts_of has_dot_dot
is_refused_path relative = is_absolute relative || has_dot_dot (parts_of relative)

-- A restored transfer takes its place in the table and in the index, and its part file.
abbrev pub put_restored : Transfer → Server → Server
put_restored t s = record s {
  transfers = set_item bytes_eq t.manifest.transfer_id t s.transfers;
  transfer_ids_by_signature =
      set_item signature_eq (manifest_signature t.manifest) t.manifest.transfer_id
        s.transfer_ids_by_signature;
  files = pop_item path_eq t.part_path s.files;
}

abbrev pub put_if_restored : Option Transfer → Server → Server
put_if_restored none s = s
put_if_restored (some t) s = put_restored t s

module _ (show : Json → Str) (float_of_str : Str → Option ℕ) (now : ℕ) (mapped : Bool)
    (files : List (FilePath × StoredFile)) where
  unfoldable pub time_of : Str → Fields → Result ℕ
  unfolding get_field coerce_optional_float
  time_of key raw =
      coerce_optional_float show float_of_str (with_default (seconds 0) (get_field key raw)) 0

  abbrev pub with_times : (ℕ → ℕ → Transfer) → Result ℕ → Result ℕ → Result (Option Transfer)
  with_times make (err e) rx = err e
  with_times make (ok tx) (err e) = err e
  with_times make (ok tx) (ok rx) = ok (some (make tx rx))

  -- The part file is there, and the destination is known.
  unfoldable pub restore_found :
      Fields → Parsed → Option FilePath → Option Bytes → Result (Option Transfer)
  unfolding codes parts_of
  restore_found raw p none contents = ok none
  restore_found raw p (some final_path) none = ok none
  restore_found raw p (some final_path) (some contents) =
      with_times (restored now mapped p (parts_of p.part_relative) final_path contents)
        (time_of (codes "last_beacon_tx_s") raw) (time_of (codes "last_beacon_rx_s") raw)

  -- What follows the `try` block.
  unfoldable pub restore_parsed : Fields → Parsed → Result (Option Transfer)
  unfolding parts_of safe_destination_path
  restore_parsed raw p =
      if not (length p.manifest.transfer_id == transfer_id_size)
      then ok none
      else if is_refused_path p.part_relative || is_refused_path p.final_relative
      then ok none
      else restore_found raw p (safe_destination_path p.manifest.file_name)
          (part_of_size p.manifest.file_size (get_item path_eq (parts_of p.part_relative) files))

  unfoldable pub restore_transfer : Fields → Result (Option Transfer)
  unfolding parse_record restore_parsed
  restore_transfer raw = elim (parse_record show float_of_str raw) [
    | got p ↦ restore_parsed raw p
    | refused ↦ ok none
    | negative ↦ err outside
  ]

  -- The loop of `_load_journal`
  unfoldable pub load_items : Items → Server → Result Server
  unfolding restore_transfer
  load_items no_items s = ok s
  load_items (item (object raw) rest) s = elim (restore_transfer raw) [
    | err e ↦ err e
    | ok found ↦ load_items rest (put_if_restored found s)
  ]
  load_items (item value rest) s = load_items rest s

abbrev pub flushed : Result Server → Result (Server × List Effect)
flushed (err e) = err e
flushed (ok s) = ok (s, mark_journal_dirty ∷ flush_journal ∷ [])

unfoldable pub load_journal :
    (Json → Str)
    → (Str → Option ℕ)
    → ℕ
    → Bool
    → Option Json
    → Server
    → Result (Server × List Effect)
unfolding codes get_field load_items
load_journal show float_of_str now mapped none s = ok (s, [])
load_journal show float_of_str now mapped (some (object raw)) s =
    elim (with_default (array no_items) (get_field (codes "transfers") raw)) [
      | array elements ↦ flushed (load_items show float_of_str now mapped s.files elements s)
      | _ ↦ ok (s, [])
    ]
load_journal show float_of_str now mapped (some value) s = err attribute_error
