-- ===== src/Frames/Errors.antt =====
-- What the decoders raise: the receiver's handlers catch `ValueError`, and nothing else.
use ssync.Prelude.{
  ◌≡◌, refl, arith, ℕ, ◌*◌, Bool, true, false, not, [], ◌∷◌, ltb, ◌==◌, if◌then◌else◌, length, drop,
}
use ssync.Result.{
  ok, Result, Ensures, Ensures-ok, Ensures-bind, Ensures-raise_if, OnlyValueErrors,
  OnlyValueErrors-ok, OnlyValueErrors-value_error, OnlyValueErrors-bind, returns_or_caught,
  OnlyValueErrors→caught, OnlyValueErrors-raise_if,
}
use ssync.Struct.{Bytes, uint, Values, size, unpack}
use ssync.Types.{
  TransferStatus, StatusKind, transfer, file_info_response, max_ranges_per_frame, protocol_magic,
  protocol_version,
}
use ssync.Ranges.Cover.{IsCanonical}
use ssync.Ranges.Wire.{decode_ranges}
use ssync.Ranges.Wire.Laws.{decode_ranges-IsCanonical, decode_ranges_errors}
use ssync.Frames.{bytes_eq, header_struct, decode_frame}
use ssync.Frames.Data.{data_fixed_struct, decode_data_chunk}
use ssync.Frames.Beacon.{beacon_struct, beacon_struct_legacy, beacon_role, decode_beacon}
use ssync.Struct.Laws.{unpack_errors}
use ssync.Frames.Tlv.{decode_tlvs}
use ssync.Frames.Tlv.Laws.{decode_tlvs_errors}
use ssync.Frames.Manifest.{decode_manifest}
use ssync.Frames.Manifest.Checks.{decode_manifest_errors}
use ssync.Frames.FileInfo.{decode_file_info_response, decode_file_info_errors}
use ssync.Frames.Status.{
  status_fixed_struct, status_kind, transfer_state, status_body, decode_status,
}

decode_frame_errors : (bytes : Bytes) → OnlyValueErrors (decode_frame bytes)
unfolding decode_frame
decode_frame_errors bytes =
    let payload = drop (size header_struct) bytes in
    OnlyValueErrors-raise_if (ltb (length bytes) (size header_struct)) _ _ λ long.
      unpack_errors header_struct bytes _ long λ fields.
        OnlyValueErrors-raise_if (not (bytes_eq fields.0 protocol_magic)) _ _ λ _.
          OnlyValueErrors-raise_if (not (fields.1.0 == protocol_version)) _ _ λ _.
            OnlyValueErrors-raise_if (not (fields.1.1.1.1.1.0 == length payload)) _ _
              λ _. OnlyValueErrors-ok _

decode_data_errors : (payload : Bytes) → OnlyValueErrors (decode_data_chunk payload)
unfolding decode_data_chunk
decode_data_errors payload =
    let rest = drop (size data_fixed_struct) payload in
    OnlyValueErrors-raise_if (ltb (length payload) (size data_fixed_struct)) _ _ λ long.
      unpack_errors data_fixed_struct payload _ long λ fields.
        OnlyValueErrors-raise_if (not (fields.1.1.0 == length rest)) _ _ λ _. OnlyValueErrors-ok _

OnlyValueErrors-if :
    {A : Type 0} (b : Bool) (m n : Result A)
    → (b ≡ true → OnlyValueErrors m)
    → OnlyValueErrors n
    → OnlyValueErrors (if b then m else n)
OnlyValueErrors-if true m n h k = h refl
OnlyValueErrors-if false m n h k = k

role_errors : (code : ℕ) → OnlyValueErrors (beacon_role code)
role_errors code = record { caught = λ e h. ground arith }

kind_errors : (code : ℕ) → OnlyValueErrors (status_kind code)
kind_errors code = record { caught = λ e h. ground arith }

state_errors : (code : ℕ) → OnlyValueErrors (transfer_state code)
state_errors code = record { caught = λ e h. ground arith }

decode_beacon_errors : (payload : Bytes) → OnlyValueErrors (decode_beacon payload)
unfolding decode_beacon
decode_beacon_errors payload =
    OnlyValueErrors-if (length payload == size beacon_struct) _ _
      (λ sized. unpack_errors beacon_struct payload _ (ground (arith, sized)) λ fields.
        OnlyValueErrors-bind (beacon_role fields.0) _ (role_errors fields.0)
          (λ role. OnlyValueErrors-ok _))
      (OnlyValueErrors-if (length payload == size beacon_struct_legacy) _ _
        (λ sized. unpack_errors beacon_struct_legacy payload _ (ground (arith, sized)) λ fields.
          OnlyValueErrors-bind (beacon_role fields.0) _ (role_errors fields.0)
            (λ role. OnlyValueErrors-ok _))
        (OnlyValueErrors-value_error "Beacon payload size mismatch"))

status_body_errors :
    (kind : StatusKind) (fields : Values status_fixed_struct) (bytes : Bytes)
    → OnlyValueErrors (status_body kind fields bytes)
unfolding status_body
status_body_errors transfer fields bytes =
    OnlyValueErrors-raise_if (not (length bytes == fields.1.1.1.0 * 8)) _ _ λ _.
      OnlyValueErrors-bind (transfer_state fields.1.1.0) _ (state_errors fields.1.1.0) λ state.
        OnlyValueErrors-bind (decode_ranges bytes) _ (decode_ranges_errors bytes)
          λ ranges. OnlyValueErrors-ok _
status_body_errors file_info_response fields bytes =
    let behind = drop 1 bytes in
    OnlyValueErrors-raise_if (ltb (length bytes) 1) _ _ λ long.
      unpack_errors (uint 1 ∷ []) bytes _ long λ sizes.
        let token_size = sizes.0 in
        let info = decode_file_info_response (drop token_size behind) in
        OnlyValueErrors-raise_if (ltb (length behind) token_size) _ _ λ _.
          OnlyValueErrors-bind info _ (decode_file_info_errors (drop token_size behind)) λ found.
            OnlyValueErrors-bind (transfer_state fields.1.1.0) _ (state_errors fields.1.1.0)
              λ state. OnlyValueErrors-ok _

decode_status_errors : (payload : Bytes) → OnlyValueErrors (decode_status payload)
unfolding decode_status
decode_status_errors payload =
    OnlyValueErrors-raise_if (ltb (length payload) (size status_fixed_struct)) _ _ λ long.
      unpack_errors status_fixed_struct payload _ long λ fields.
        OnlyValueErrors-bind (status_kind fields.1.0) _ (kind_errors fields.1.0) λ kind.
          OnlyValueErrors-raise_if (ltb max_ranges_per_frame fields.1.1.1.0) _ _
            λ _. status_body_errors kind fields (drop (size status_fixed_struct) payload)

-- Whatever bytes arrive, every decoder of frames.py and ranges.py returns or raises a `ValueError`, the
-- error that the receive loop and the frame handlers catch: no bytes are read that are not there, which
-- would be a `struct.error`, and no loop runs out of fuel.
pub decoders_raise_value_errors :
    (bytes : Bytes)
    → (returns_or_caught (decode_frame bytes) ≡ true)
      × (returns_or_caught (decode_data_chunk bytes) ≡ true)
      × (returns_or_caught (decode_manifest bytes) ≡ true)
      × (returns_or_caught (decode_status bytes) ≡ true)
      × (returns_or_caught (decode_beacon bytes) ≡ true)
      × (returns_or_caught (decode_tlvs bytes) ≡ true)
      × (returns_or_caught (decode_file_info_response bytes) ≡ true)
      × (returns_or_caught (decode_ranges bytes) ≡ true)
decoders_raise_value_errors bytes = (
  OnlyValueErrors→caught _ (decode_frame_errors bytes),
  OnlyValueErrors→caught _ (decode_data_errors bytes),
  OnlyValueErrors→caught _ (decode_manifest_errors bytes),
  OnlyValueErrors→caught _ (decode_status_errors bytes),
  OnlyValueErrors→caught _ (decode_beacon_errors bytes),
  OnlyValueErrors→caught _ (decode_tlvs_errors bytes),
  OnlyValueErrors→caught _ (decode_file_info_errors bytes),
  OnlyValueErrors→caught _ (decode_ranges_errors bytes),
)

body-IsCanonical :
    (kind : StatusKind) (fields : Values status_fixed_struct) (bytes : Bytes)
    → Ensures (λ s. IsCanonical s.missing_ranges) (status_body kind fields bytes)
unfolding status_body
body-IsCanonical transfer fields bytes =
    Ensures-raise_if (not (length bytes == fields.1.1.1.0 * 8)) _ _ λ _.
      Ensures-bind (transfer_state fields.1.1.0) _ λ state _.
        Ensures-bind (decode_ranges bytes) _
          λ ranges e. Ensures-ok _ ((decode_ranges-IsCanonical bytes).at ranges e)
body-IsCanonical file_info_response fields bytes =
    let behind = drop 1 bytes in
    Ensures-raise_if (ltb (length bytes) 1) _ _ λ _.
      Ensures-bind (unpack (uint 1 ∷ []) bytes) _ λ sizes _.
        let token_size = sizes.0 in
        Ensures-raise_if (ltb (length behind) token_size) _ _ λ _.
          Ensures-bind (decode_file_info_response (drop token_size behind)) _
            λ found _. Ensures-bind (transfer_state fields.1.1.0) _ λ state _. Ensures-ok _ tt

status-IsCanonical :
    (payload : Bytes) → Ensures (λ s. IsCanonical s.missing_ranges) (decode_status payload)
unfolding decode_status
status-IsCanonical payload =
    Ensures-raise_if (ltb (length payload) (size status_fixed_struct)) _ _ λ _.
      Ensures-bind (unpack status_fixed_struct payload) _ λ fields _.
        Ensures-bind (status_kind fields.1.0) _ λ kind _.
          Ensures-raise_if (ltb max_ranges_per_frame fields.1.1.1.0) _ _
            λ _. body-IsCanonical kind fields (drop (size status_fixed_struct) payload)

-- The missing ranges of every status that `decode_status` returns, from whatever bytes, are canonical:
-- ascending, non-empty, with a gap between any two.
pub decode_status-IsCanonical :
    (payload : Bytes) (s : TransferStatus)
    → decode_status payload ≡ ok s
    → IsCanonical s.missing_ranges
decode_status-IsCanonical payload s e = (status-IsCanonical payload).at s e
