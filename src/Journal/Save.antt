-- ===== src/Journal/Save.antt =====
-- src/ssync/space_sync/receiver.py: writing the journal, `_save_journal_locked`,
-- `_mark_journal_dirty_locked` and `_flush_journal_locked`.
use ssync.Prelude.{
  ℕ, ◌-◌, Bool, true, false, not, ◌&&◌, Option, some, List, [], ◌∷◌, ltb, if◌then◌else◌,
}
use ssync.Struct.{Bytes}
use ssync.Types.{Metadata, TransferManifest}
use ssync.Ranges.{Range}
use ssync.Receiver.{Transfer}
use ssync.Paths.{path_text}
use ssync.Hex.{hex}
use ssync.Decimal.{decimal}
use ssync.Journal.{
  codes, Json, seconds, text, array, object, Items, no_items, item, Fields, no_fields, field,
  natural, index,
}

-- `{str(key): value.hex() for key, value in metadata.items()}`
unfoldable pub metadata_fields : Metadata → Fields
unfolding hex decimal
metadata_fields [] = no_fields
metadata_fields ((key, value) ∷ rest) =
    field (decimal key) (text (hex value)) (metadata_fields rest)

-- `[list(item) for item in received_ranges]`
unfoldable pub range_items : List Range → Items
range_items [] = no_items
range_items (r ∷ rest) =
    item (array (item (natural r.0) (item (natural r.1) no_items))) (range_items rest)

unfoldable pub manifest_record : TransferManifest → Fields
unfolding codes hex metadata_fields
manifest_record m = field (codes "file_name") (text m.file_name) (
    field (codes "file_size") (natural m.file_size) (
      field (codes "chunk_size") (natural m.chunk_size) (
        field (codes "total_chunks") (natural m.total_chunks) (
          field (codes "sha256_hex") (text (hex m.sha256))
            (field (codes "metadata") (object (metadata_fields m.metadata)) no_fields)))))

unfoldable pub transfer_record : Bytes → Transfer → Fields
unfolding codes hex path_text range_items manifest_record
transfer_record transfer_id t = field (codes "transfer_id_hex") (text (hex transfer_id)) (
    field (codes "manifest") (object (manifest_record t.manifest)) (
      field (codes "part_path") (text (path_text t.part_path)) (
        field (codes "final_path") (text (path_text t.final_path)) (
          field (codes "received_ranges") (array (range_items t.tracker.received_ranges)) (
            field (codes "highest_chunk_seen") (index t.highest_chunk_seen) (
              field (codes "last_chunk_seen") (index t.last_chunk_seen) (
                field (codes "source_addr")
                  (array (item (text t.source_addr.0) (item (natural t.source_addr.1) no_items)))
                  (field (codes "last_beacon_tx_s") (seconds t.last_beacon_s) (
                    field (codes "last_beacon_rx_s") (seconds t.last_beacon_rx_s) (
                      field (codes "last_sender_peer_age_ms") (natural t.last_sender_peer_age_ms) (
                        field (codes "backfill_chunks") (natural t.backfill_chunks)
                          no_fields)))))))))))

-- The records of the transfers that are not finalized.
unfoldable pub transfer_records : List (Bytes × Transfer) → Items
unfolding transfer_record
transfer_records [] = no_items
transfer_records ((transfer_id, t) ∷ rest) =
    let records = transfer_records rest in
    if t.finalized then records else item (object (transfer_record transfer_id t)) records

unfoldable pub save_journal : List (Bytes × Transfer) → Json
unfolding codes transfer_records
save_journal transfers =
    object (field (codes "transfers") (array (transfer_records transfers)) no_fields)

-- What the receiver keeps of the journal: whether it must be written, when it was written last, and the
-- document in the file.
pub record Journal : Type 0 where
  pub journal_dirty : Bool
  pub last_journal_flush_s : ℕ
  pub document : Option Json

abbrev pub mark_dirty : Journal → Journal
mark_dirty j = record j { journal_dirty = true }

unfoldable pub flush_if_due : ℕ → ℕ → Bool → List (Bytes × Transfer) → Journal → Journal
unfolding save_journal
flush_if_due journal_flush_interval_s now force transfers j =
    let flushed = record j {
      journal_dirty = false;
      last_journal_flush_s = now;
      document = some (save_journal transfers);
    } in
    if not j.journal_dirty
    then j
    else if not force
        && ltb 0 journal_flush_interval_s
        && ltb (now - j.last_journal_flush_s) journal_flush_interval_s
    then j
    else flushed
