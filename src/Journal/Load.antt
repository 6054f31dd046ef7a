-- ===== src/Journal/Load.antt =====
-- src/ssync/space_sync/receiver.py: reading the journal, `_restore_transfer` and `_load_journal`. A read
-- of the document that fails with an OSError or a JSONDecodeError is no document. The files of the
-- output directory are looked up as they were before the load; the contents of a part file go to the
-- transfer that it belongs to.
use ssync.Prelude.{ℕ, true, Option, none, some, List, [], ◌∷◌, ◌==◌}
use ssync.Struct.{Bytes}
use ssync.Utf8.{Str}
use ssync.Dict.{set_item}
use ssync.Types.{Metadata, TransferManifest}
use ssync.Ranges.{Range}
use ssync.Receiver.{Addr}
use ssync.Decimal.{Number, int_of_str}
use ssync.Journal.{
  codes, Json, number, array, object, Items, no_items, item, Fields, no_fields, field, index,
  get_field, Attempt, got, refused, ◌>>=◌, attempt, required, natural_of_number, natural_of,
  coerce_optional_int, str_of, bytes_of,
}

-- What the `try` block reads of a record.
pub record Parsed : Type 0 where
  pub manifest : TransferManifest
  pub part_relative : Str
  pub final_relative : Str
  pub source_addr : Addr
  pub highest_chunk_seen : Number
  pub last_chunk_seen : Number
  pub received_ranges : List Range

-- `isinstance(value, dict)`, where None is returned if not
abbrev pub entries_of : Json → Attempt Fields
entries_of (object entries) = got entries
entries_of value = refused

-- `isinstance(value, list)`, likewise
abbrev pub items_of : Json → Attempt Items
items_of (array elements) = got elements
items_of value = refused

abbrev pub with_default : Json → Option Json → Json
with_default default none = default
with_default default (some value) = value

-- `(value[0], value[1])` of a list of length 2
abbrev pub pair_of : Items → Attempt (Json × Json)
pair_of no_items = refused
pair_of (item a no_items) = refused
pair_of (item a (item b no_items)) = got (a, b)
pair_of (item a (item b (item c elements))) = refused

unfoldable pub range_of : Json → Attempt Range
unfolding natural_of
range_of value = do
  elements ← items_of value
  (a, b) ← pair_of elements
  start ← natural_of a
  stop ← natural_of b
  got (start, stop)

unfoldable pub ranges_of : Items → Attempt (List Range)
unfolding range_of
ranges_of no_items = got []
ranges_of (item value elements) = do r ← range_of value; rest ← ranges_of elements; got (r ∷ rest)

module _ (show : Json → Str) (float_of_str : Str → Option ℕ) where
  -- `{int(key): bytes.fromhex(str(value)) for key, value in metadata_raw.items()}`, behind `metadata`
  unfoldable pub metadata_of : Fields → Metadata → Attempt Metadata
  unfolding bytes_of
  metadata_of no_fields metadata = got metadata
  metadata_of (field name value rest) metadata = do
    key_number ← attempt (int_of_str name)
    key ← natural_of_number key_number
    bytes ← bytes_of show float_of_str value
    metadata_of rest (set_item ◌==◌ key bytes metadata)

  unfoldable pub manifest_of : Bytes → Fields → Attempt TransferManifest
  unfolding codes required natural_of bytes_of metadata_of
  manifest_of transfer_id fields = do
    entries ← entries_of (with_default (object no_fields) (get_field (codes "metadata") fields))
    metadata ← metadata_of entries []
    file_name ← required (codes "file_name") fields
    file_size ← required (codes "file_size") fields
    size ← natural_of file_size
    chunk_size ← required (codes "chunk_size") fields
    chunk ← natural_of chunk_size
    total_chunks ← required (codes "total_chunks") fields
    total ← natural_of total_chunks
    sha256_hex ← required (codes "sha256_hex") fields
    sha256 ← bytes_of show float_of_str sha256_hex
    got (record {
      transfer_id = transfer_id;
      file_name = str_of show float_of_str file_name;
      file_size = size;
      chunk_size = chunk;
      total_chunks = total;
      sha256 = sha256;
      metadata = metadata;
    })

  unfoldable pub addr_of : Json → Attempt Addr
  addr_of value = do
    elements ← items_of value
    (host, port) ← pair_of elements
    port_number ← natural_of port
    got (str_of show float_of_str host, port_number)

  -- The `try` block of `_restore_transfer`
  unfoldable pub parse_record : Fields → Attempt Parsed
  unfolding codes required bytes_of manifest_of addr_of coerce_optional_int ranges_of
  parse_record raw = do
    transfer_id_hex ← required (codes "transfer_id_hex") raw
    transfer_id ← bytes_of show float_of_str transfer_id_hex
    manifest_raw ← required (codes "manifest") raw
    fields ← entries_of manifest_raw
    manifest ← manifest_of transfer_id fields
    part ← required (codes "part_path") raw
    final ← required (codes "final_path") raw
    source_addr_raw ← required (codes "source_addr") raw
    source_addr ← addr_of source_addr_raw
    highest ←
        coerce_optional_int (with_default (index none) (get_field (codes "highest_chunk_seen") raw))
          (true, 1)
    last ←
        coerce_optional_int
          (with_default (number highest) (get_field (codes "last_chunk_seen") raw)) highest
    elements ← items_of (with_default (array no_items) (get_field (codes "received_ranges") raw))
    ranges ← ranges_of elements
    got (record {
      manifest = manifest;
      part_relative = str_of show float_of_str part;
      final_relative = str_of show float_of_str final;
      source_addr = source_addr;
      highest_chunk_seen = highest;
      last_chunk_seen = last;
      received_ranges = ranges;
    })
