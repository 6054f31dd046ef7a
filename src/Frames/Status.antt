-- ===== src/Frames/Status.antt =====
-- frames.py: STATUS frames, `encode_status` and `decode_status`.
pub mod Laws
pub mod FileInfo
use ssync.Prelude.{
  ℕ, ◌+◌, ◌-◌, ◌*◌, ◌/◌, not, Option, none, some, List, [], ◌∷◌, ◌++◌, ltb, ◌==◌, length, take,
  drop,
}
use ssync.Result.{value_error, Result, ok, err, raise_if, ◌>>=◌, ◌>>◌}
use ssync.Struct.{Bytes, Field, uint, raw, Values, size, pack, unpack, layout, int_from_bytes}
use ssync.Types.{
  FrameType, status, TransferState, state_code, state_of, StatusKind, transfer, file_info_response,
  kind_code, kind_of, RemoteFileInfo, TransferStatus, max_ranges_per_frame,
}
use ssync.Ranges.{Range}
use ssync.Ranges.Wire.{encode_ranges, decode_ranges}
use ssync.Frames.{encode_frame}
use ssync.Frames.FileInfo.{encode_file_info_response, decode_file_info_response}

-- `!16sBBH`
abbrev pub status_fixed_struct : List Field
status_fixed_struct = raw 16 ∷ uint 1 ∷ uint 1 ∷ uint 2 ∷ []

-- `status.query_token or b""`
abbrev pub token_or_empty : Option Bytes → Bytes
token_or_empty none = []
token_or_empty (some token) = token

-- `query_token or None`
abbrev pub token_or_none : Bytes → Option Bytes
token_or_none [] = none
token_or_none (b ∷ bs) = some (b ∷ bs)

-- What follows the fixed part, and the ranges' bytes in it.
status_tail : StatusKind → TransferStatus → Result (Bytes × Bytes)
status_tail transfer s = do
  raise_if (ltb max_ranges_per_frame (length s.missing_ranges)) "Too many ranges in STATUS"
  ranges ← encode_ranges s.missing_ranges
  let tail : Bytes × Bytes = (ranges, ranges)
  ok tail
status_tail file_info_response s = elim s.file_info [
  | none ↦ err (value_error "file_info required for FILE_INFO_RESPONSE status")
  | some info ↦ (do
    info_payload ← encode_file_info_response info
    let token = token_or_empty s.query_token
    raise_if (ltb 255 (length token)) "query token too large"
    token_size ← pack (uint 1 ∷ []) (length token, tt)
    let tail : Bytes × Bytes = (token_size ++ (token ++ info_payload), [])
    ok tail)
]

abbrev status_fields : TransferStatus → ℕ → Values status_fixed_struct
status_fields s range_count =
    (s.transfer_id, (kind_code s.kind, (state_code s.state, (range_count, tt))))

unfoldable pub encode_status : TransferStatus → Result Bytes
unfolding status_tail
encode_status s = do
  tail ← status_tail s.kind s
  fixed ← pack status_fixed_struct (status_fields s (length tail.1 / 8))
  encode_frame status (fixed ++ tail.0) 0

-- `StatusKind(raw_kind)` and `TransferState(raw_state)`
abbrev pub status_kind : ℕ → Result StatusKind
status_kind code = elim (kind_of code) [
  | none ↦ err (value_error "not a valid StatusKind")
  | some kind ↦ ok kind
]

abbrev pub transfer_state : ℕ → Result TransferState
transfer_state code = elim (state_of code) [
  | none ↦ err (value_error "not a valid TransferState")
  | some state ↦ ok state
]

-- The branches of `decode_status` behind the fixed part, on the bytes from the cursor on.
unfoldable pub status_body : StatusKind → Values status_fixed_struct → Bytes → Result TransferStatus
status_body transfer (transfer_id, (_, (raw_state, (range_count, _)))) bytes = do
  raise_if (not (length bytes == range_count * 8)) "Status range count mismatch"
  state ← transfer_state raw_state
  ranges ← decode_ranges bytes
  ok (record {
    transfer_id = transfer_id;
    kind = transfer;
    state = state;
    missing_ranges = ranges;
    file_info = none;
    query_token = none;
  })
status_body file_info_response (transfer_id, (_, (raw_state, _))) bytes = do
  raise_if (ltb (length bytes) 1) "Status file-info payload missing token size"
  sizes ← unpack (uint 1 ∷ []) bytes
  let token_size = sizes.0
  let behind = drop 1 bytes
  raise_if (ltb (length behind) token_size) "Status file-info payload token size mismatch"
  info ← decode_file_info_response (drop token_size behind)
  state ← transfer_state raw_state
  ok (record {
    transfer_id = transfer_id;
    kind = file_info_response;
    state = state;
    missing_ranges = [];
    file_info = some info;
    query_token = token_or_none (take token_size behind);
  })

unfoldable pub decode_status : Bytes → Result TransferStatus
unfolding status_body
decode_status payload = do
  raise_if (ltb (length payload) (size status_fixed_struct)) "Status payload too short"
  fields ← unpack status_fixed_struct payload
  kind ← status_kind fields.1.0
  raise_if (ltb max_ranges_per_frame fields.1.1.1.0) "STATUS range count too large"
  status_body kind fields (drop (size status_fixed_struct) payload)
