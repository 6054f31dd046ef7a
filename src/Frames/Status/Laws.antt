-- ===== src/Frames/Status/Laws.antt =====
-- A status comes back from its frame; a decoded one has canonical ranges.
use ssync.Prelude.{
  inl, inr, ◌*◌, ◌/◌, ◌≤◌, ◌<◌, ◌≡◌, refl, true, none, some, List, ◌++◌, arith, ◌==◌, le→ltb,
  length, All, length-append,
}
use ssync.Result.{Result-cases, ok, ◌>>=◌}
use ssync.Struct.{Bytes, Values, layout}
use ssync.Struct.Laws.{Exact, pack-Exact, unpack-layout, length-layout, layout_long, drop-layout}
use ssync.Types.{
  status, TransferState, incomplete, complete, hash_mismatch, pending_metadata, keepalive,
  state_code, transfer, TransferStatus, max_ranges_per_frame,
}
use ssync.Ranges.{Range}
use ssync.Ranges.Cover.{IsCanonical}
use ssync.Ranges.Wire.Laws.{FitsWord, ranges_bytes, length-ranges_bytes, decode-encode_ranges}
use ssync.Frames.Header.{read_frame, read-encode_frame}
use ssync.Frames.Status.{status_fixed_struct, encode_status, transfer_state, decode_status}

pub state_lem : (s : TransferState) → (state_code s < 256) × (transfer_state (state_code s) ≡ ok s)
state_lem incomplete = (omega arith, refl)
state_lem complete = (omega arith, refl)
state_lem hash_mismatch = (omega arith, refl)
state_lem pending_metadata = (omega arith, refl)
state_lem keepalive = (omega arith, refl)

-- the status that a receiver sends of a transfer
abbrev pub transfer_status : Bytes → TransferState → List Range → TransferStatus
transfer_status id state ranges = record {
  transfer_id = id;
  kind = transfer;
  state = state;
  missing_ranges = ranges;
  file_info = none;
  query_token = none;
}

module _ (id : Bytes) (state : TransferState) (ranges : List Range) (id_size : length id ≡ 16)
    (canonical : IsCanonical ranges) (words : All FitsWord ranges)
    (few : length ranges ≤ max_ranges_per_frame) where
  abbrev fields : Values status_fixed_struct
  fields = (id, (0, (state_code state, (length ranges, tt))))

  fields-Exact : Exact status_fixed_struct fields
  fields-Exact = (id_size, (omega arith, ((state_lem state).0, (omega arith, tt))))

  decode_transfer :
      decode_status (layout status_fixed_struct fields ++ ranges_bytes ranges)
      ≡ ok (transfer_status id state ranges)
  unfolding decode_status
  decode_transfer =
      let counted : (length (ranges_bytes ranges) == length ranges * 8) ≡ true =
        ground (arith, length-ranges_bytes ranges) in
      rw (
        layout_long status_fixed_struct fields (ranges_bytes ranges),
        unpack-layout status_fixed_struct fields (ranges_bytes ranges) fields-Exact,
        drop-layout status_fixed_struct fields (ranges_bytes ranges),
        le→ltb max_ranges_per_frame (length ranges) few,
        counted,
        (state_lem state).1,
        (decode-encode_ranges ranges canonical words).1,
      )

  -- A TRANSFER status with a 16 byte transfer id and at most 2048 canonical ranges below 2^32 comes
  -- back from its STATUS frame as it is.
  pub transfer_status_round_trip :
      (encode_status (transfer_status id state ranges) >>= read_frame decode_status)
      ≡ ok (some status, transfer_status id state ranges)
  unfolding encode_status
  transfer_status_round_trip =
      let count : length (ranges_bytes ranges) / 8 ≡ length ranges =
        omega (arith, length-ranges_bytes ranges) in
      rw
        (
          le→ltb max_ranges_per_frame (length ranges) few,
          (decode-encode_ranges ranges canonical words).0,
          count,
          pack-Exact status_fixed_struct fields fields-Exact,
        )
        (read-encode_frame decode_status status
          (layout status_fixed_struct fields ++ ranges_bytes ranges)
          (transfer_status id state ranges)
          (omega (
            arith,
            length-append (layout status_fixed_struct fields) (ranges_bytes ranges),
            length-layout status_fixed_struct fields,
            length-ranges_bytes ranges,
          ))
          decode_transfer)

  -- And so it is encoded.
  pub transfer_status_encoded :
      (f : Bytes) × (encode_status (transfer_status id state ranges) ≡ ok f)
  transfer_status_encoded = elim (Result-cases (encode_status (transfer_status id state ranges))) [
    | inl q ↦ q
    | inr (x, e) ↦ absurd (ground (arith, rw e at transfer_status_round_trip))
  ]
