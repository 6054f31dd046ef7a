-- ===== src/Journal/Pieces.antt =====
-- The parts of a record come back as they were written.
use ssync.Prelude.{ℕ, ◌<◌, ◌≡◌, refl, Option, List, [], ◌∷◌, ◌==◌, ==_sym, All}
use ssync.Struct.{Bytes}
use ssync.Utf8.{Str}
use ssync.Dict.{IsDict}
use ssync.Dict.Laws.{fold_set, fold_set-IsDict}
use ssync.Types.{Metadata, TransferManifest}
use ssync.Ranges.{Range}
use ssync.Hex.{hex}
use ssync.Hex.Laws.{from_hex-hex}
use ssync.Decimal.Laws.{int_of_str-decimal}
use ssync.Receiver.{Addr}
use ssync.Journal.{
  codes, Json, text, array, no_items, item, natural, got, natural_of, int_of, bytes_of, required,
  get_field,
}
use ssync.Journal.Save.{metadata_fields, range_items, manifest_record}
use ssync.Journal.Load.{ranges_of, range_of, metadata_of, manifest_of, addr_of}

pub ranges_of-range_items : (rs : List Range) → ranges_of (range_items rs) ≡ got rs
unfolding ranges_of range_items range_of natural_of int_of
ranges_of-range_items [] = refl
ranges_of-range_items (r ∷ rs) = rw (ranges_of-range_items rs) refl

module _ (show : Json → Str) (float_of_str : Str → Option ℕ) where
  pub bytes_of-hex :
      (bytes : Bytes)
      → All (λ b. b < 256) bytes
      → bytes_of show float_of_str (text (hex bytes)) ≡ got bytes
  unfolding bytes_of
  bytes_of-hex bytes h = rw (from_hex-hex bytes h) refl

  -- The entries are stored one by one behind those that are there.
  metadata_of-fields :
      (m d : Metadata)
      → All (λ e. All (λ b. b < 256) e.1) m
      → metadata_of show float_of_str (metadata_fields m) d ≡ got (fold_set ◌==◌ m d)
  unfolding metadata_of metadata_fields fold_set bytes_of
  metadata_of-fields [] d h = refl
  metadata_of-fields ((key, value) ∷ m) d h =
      rw (int_of_str-decimal key) (rw (from_hex-hex value h.0) (metadata_of-fields m _ h.1))

  module _ (m : TransferManifest) (i : IsDict ◌==◌ m.metadata)
      (b : All (λ e. All (λ x. x < 256) e.1) m.metadata) (h : All (λ x. x < 256) m.sha256) where
    -- The manifest of a record, whose id stands beside it.
    pub manifest_of-record : manifest_of show float_of_str m.transfer_id (manifest_record m) ≡ got m
    unfolding manifest_of manifest_record codes get_field required natural_of int_of bytes_of
    manifest_of-record =
        rw (metadata_of-fields m.metadata [] b)
          (rw (fold_set-IsDict ◌==◌ ==_sym m.metadata i) (rw (from_hex-hex m.sha256 h) refl))

  pub addr_of-items :
      (addr : Addr)
      → addr_of show float_of_str (array (item (text addr.0) (item (natural addr.1) no_items)))
        ≡ got addr
  unfolding addr_of natural_of int_of
  addr_of-items addr = refl
