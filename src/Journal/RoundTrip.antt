-- ===== src/Journal/RoundTrip.antt =====
-- The record of a transfer brings the transfer back.
use ssync.Prelude.{
  ℕ, ◌<◌, ◌≡◌, refl, sym, ap, ◌∙◌, Bool, true, false, Option, none, some, List, ◌==◌, if◌then◌else◌,
  ==_refl, length, All,
}
use ssync.Result.{ok}
use ssync.Struct.{Bytes}
use ssync.Utf8.{Str}
use ssync.Dict.{get_item, IsDict}
use ssync.Types.{transfer_id_size}
use ssync.Tracker.{from_received_ranges}
use ssync.Tracker.Invariant.{IsTracker}
use ssync.Tracker.Restore.{from_received_ranges_same}
use ssync.Receiver.{FilePath, Transfer, created_transfer}
use ssync.Paths.{parts_of, safe_destination_path, path_text}
use ssync.Paths.Laws.{is_entry, safe_destination_path-IsBelow, parts_of-path_text}
use ssync.Decimal.{Number}
use ssync.Hex.Laws.{from_hex-hex}
use ssync.Server.{StoredFile, path_eq}
use ssync.Journal.{
  codes, Json, get_field, index, got, required, bytes_of, coerce_optional_int, index_of_number,
  coerce_optional_float,
}
use ssync.Journal.Save.{transfer_record}
use ssync.Journal.Load.{Parsed, parse_record}
use ssync.Journal.Restore.{
  restored, part_of_size, is_refused_path, restore_found, time_of, restore_parsed, restore_transfer,
}
use ssync.Journal.Pieces.{manifest_of-record, ranges_of-range_items}

-- What the receiver sees to for a transfer in its table.
pub record IsSound (t : Transfer) : Type 0 where
  pub sized : length t.manifest.transfer_id ≡ transfer_id_size
  pub id_bytes : All (λ b. b < 256) t.manifest.transfer_id
  pub sha256_bytes : All (λ b. b < 256) t.manifest.sha256
  pub keys : IsDict ◌==◌ t.manifest.metadata
  pub value_bytes : All (λ e. All (λ b. b < 256) e.1) t.manifest.metadata
  pub destination : safe_destination_path t.manifest.file_name ≡ some t.final_path
  pub below : All (λ part. is_entry part ≡ true) t.part_path
  pub tracked : IsTracker t.tracker
  pub total : t.tracker.total_chunks ≡ t.manifest.total_chunks

-- A restored transfer goes on with the chunks that it has; what the journal does not bring back is as
-- in a new transfer.
unfoldable pub reloaded : ℕ → Bool → Bytes → Transfer → Transfer
unfolding created_transfer
reloaded now mapped contents t =
    record (created_transfer now mapped t.manifest t.part_path t.final_path t.source_addr none
      contents) {
        tracker = t.tracker;
        highest_chunk_seen = t.highest_chunk_seen;
        last_chunk_seen = t.last_chunk_seen;
        last_beacon_s = t.last_beacon_s;
        last_beacon_rx_s = t.last_beacon_rx_s;
      }

abbrev number_of_index : Option ℕ → Number
number_of_index none = (true, 1)
number_of_index (some i) = (false, i)

abbrev parsed : Transfer → Parsed
parsed t = record {
  manifest = t.manifest;
  part_relative = path_text t.part_path;
  final_relative = path_text t.final_path;
  source_addr = t.source_addr;
  highest_chunk_seen = number_of_index t.highest_chunk_seen;
  last_chunk_seen = number_of_index t.last_chunk_seen;
  received_ranges = t.tracker.received_ranges;
}

coerce-index :
    (i : Option ℕ) (default : Number)
    → coerce_optional_int (index i) default ≡ got (number_of_index i)
unfolding coerce_optional_int
coerce-index none default = refl
coerce-index (some i) default = refl

index_of-number : (i : Option ℕ) → index_of_number (number_of_index i) ≡ i
index_of-number none = refl
index_of-number (some i) = refl

module _ (show : Json → Str) (float_of_str : Str → Option ℕ) (t : Transfer) (h : IsSound t) where
  parse-record :
      parse_record show float_of_str (transfer_record t.manifest.transfer_id t) ≡ got (parsed t)
  unfolding parse_record transfer_record codes get_field required bytes_of
  parse-record = rw (from_hex-hex t.manifest.transfer_id h.id_bytes) (
      rw (manifest_of-record show float_of_str t.manifest h.keys h.value_bytes h.sha256_bytes) (
        rw (coerce-index t.highest_chunk_seen) (
          rw (coerce-index t.last_chunk_seen)
            (rw (ranges_of-range_items t.tracker.received_ranges) refl))))

  final_below : All (λ part. is_entry part ≡ true) t.final_path
  final_below = (safe_destination_path-IsBelow t.manifest.file_name t.final_path h.destination).1

  accepted_path :
      (path : FilePath)
      → All (λ part. is_entry part ≡ true) path
      → is_refused_path (path_text path) ≡ false
  unfolding is_refused_path
  accepted_path path b =
      let (same, relative, inside) = parts_of-path_text path b in rw relative (rw same inside)

  tracker_lem : from_received_ranges t.manifest.total_chunks t.tracker.received_ranges ≡ t.tracker
  tracker_lem =
      ap (λ n. from_received_ranges n t.tracker.received_ranges) (sym h.total)
      ∙ from_received_ranges_same t.tracker h.tracked

  restored-parsed :
      (now : ℕ) (mapped : Bool) (contents : Bytes)
      → restored now mapped
          (parsed t)
          t.part_path
          t.final_path
          contents
          t.last_beacon_s
          t.last_beacon_rx_s
        ≡ reloaded now mapped contents t
  unfolding restored reloaded
  restored-parsed now mapped contents =
      rw tracker_lem
        (rw (index_of-number t.highest_chunk_seen, index_of-number t.last_chunk_seen) refl)

  module _ (now : ℕ) (mapped : Bool) (files : List (FilePath × StoredFile)) (file : StoredFile)
      (there : get_item path_eq t.part_path files ≡ some file)
      (complete : length file.contents ≡ t.manifest.file_size) where
    part_lem :
        part_of_size t.manifest.file_size
          (get_item path_eq (parts_of (path_text t.part_path)) files)
        ≡ some file.contents
    part_lem =
        let (same, relative, inside) = parts_of-path_text t.part_path h.below in
        ap (λ path. part_of_size t.manifest.file_size (get_item path_eq path files)) same
        ∙ ap (part_of_size t.manifest.file_size) there
        ∙ ap (λ b. if b then some file.contents else none)
            (ap (λ n. n == t.manifest.file_size) complete ∙ ==_refl t.manifest.file_size)

    restore-parsed :
        restore_parsed show float_of_str now mapped files
          (transfer_record t.manifest.transfer_id t)
          (parsed t)
        ≡ ok (some (reloaded now mapped file.contents t))
    unfolding restore_parsed restore_found time_of coerce_optional_float transfer_record codes
        get_field
    restore-parsed =
        rw (h.sized, accepted_path t.part_path h.below, accepted_path t.final_path final_below)
          (rw (h.destination, part_lem)
            (rw (parts_of-path_text t.part_path h.below).0
              (ap (λ x. ok (some x)) (restored-parsed now mapped file.contents))))

    -- The record that is saved of a transfer restores it.
    pub restore_transfer-record :
        restore_transfer show float_of_str now mapped files
          (transfer_record t.manifest.transfer_id t)
        ≡ ok (some (reloaded now mapped file.contents t))
    unfolding restore_transfer
    restore_transfer-record = rw (parse-record, restore_transfer) restore-parsed
