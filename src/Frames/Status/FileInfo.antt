-- ===== src/Frames/Status/FileInfo.antt =====
-- A FILE_INFO_RESPONSE status comes back from its frame.
use ssync.Prelude.{
  ◌≤◌, ◌≡◌, refl, Option, some, [], ◌∷◌, ◌++◌, arith, le→ltb, length, length-append, take-append,
  drop-append,
}
use ssync.Result.{ok, ◌>>=◌}
use ssync.Struct.{Bytes, uint, Values, layout}
use ssync.Struct.Laws.{Exact, pack-Exact, unpack-layout, length-layout, layout_long, drop-layout}
use ssync.Types.{
  status, TransferState, state_code, file_info_response, RemoteFileInfo, TransferStatus,
}
use ssync.Frames.Header.{read_frame, read-encode_frame}
use ssync.Frames.FileInfo.{
  file_info_fixed_struct, info_fields, IsFileInfo, info_bytes, encode_info, decode_info,
}
use ssync.Frames.Status.{status_fixed_struct, token_or_none, encode_status, decode_status}
use ssync.Frames.Status.Laws.{state_lem}

-- the answer to a file info query
abbrev pub file_info_status : Bytes → TransferState → RemoteFileInfo → Option Bytes → TransferStatus
file_info_status id state info token = record {
  transfer_id = id;
  kind = file_info_response;
  state = state;
  missing_ranges = [];
  file_info = some info;
  query_token = token;
}

module _ (id : Bytes) (state : TransferState) (info : RemoteFileInfo) (path token : Bytes)
    (id_size : length id ≡ 16) (good : IsFileInfo info path)
    (token_range : length token ≤ 255) where
  abbrev fields : Values status_fixed_struct
  fields = (id, (1, (state_code state, (0, tt))))

  fields-Exact : Exact status_fixed_struct fields
  fields-Exact = (id_size, (omega arith, ((state_lem state).0, (omega arith, tt))))

  abbrev token_field : Values (uint 1 ∷ [])
  token_field = (length token, tt)

  token_Exact : Exact (uint 1 ∷ []) token_field
  token_Exact = (omega arith, tt)

  abbrev body : Bytes
  body = layout (uint 1 ∷ []) token_field ++ (token ++ info_bytes info path good)

  decode_answer :
      decode_status (layout status_fixed_struct fields ++ body)
      ≡ ok (file_info_status id state info (token_or_none token))
  unfolding decode_status
  decode_answer =
      let behind = token ++ info_bytes info path good in
      rw
        (
          layout_long status_fixed_struct fields body,
          unpack-layout status_fixed_struct fields body fields-Exact,
          drop-layout status_fixed_struct fields body,
        )
        (rw (
          layout_long (uint 1 ∷ []) token_field behind,
          unpack-layout (uint 1 ∷ []) token_field behind token_Exact,
          drop-layout (uint 1 ∷ []) token_field behind,
          le→ltb (length behind) (length token)
              (omega (arith, length-append token (info_bytes info path good))),
          take-append (length token) token (info_bytes info path good) refl,
          drop-append (length token) token (info_bytes info path good) refl,
          decode_info info path good,
          (state_lem state).1,
        ))

  -- The answer to a file info query comes back from its STATUS frame with the query's token; an empty
  -- token comes back as none.
  pub file_info_status_round_trip :
      (encode_status (file_info_status id state info (some token)) >>= read_frame decode_status)
      ≡ ok (some status, file_info_status id state info (token_or_none token))
  unfolding encode_status
  file_info_status_round_trip =
      rw
        (
          encode_info info path good,
          le→ltb 255 (length token) token_range,
          pack-Exact (uint 1 ∷ []) token_field token_Exact,
          pack-Exact status_fixed_struct fields fields-Exact,
        )
        (read-encode_frame decode_status status (layout status_fixed_struct fields ++ body)
          (file_info_status id state info (token_or_none token))
          (omega (
            arith,
            length-append (layout status_fixed_struct fields) body,
            length-layout status_fixed_struct fields,
            length-append (layout (uint 1 ∷ []) token_field) (token ++ info_bytes info path good),
            length-layout (uint 1 ∷ []) token_field,
            length-append token (info_bytes info path good),
            length-append (layout file_info_fixed_struct (info_fields info path)) path,
            length-layout file_info_fixed_struct (info_fields info path),
            good.path_range,
          ))
          decode_answer)
