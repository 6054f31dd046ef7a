-- ===== src/Frames/FileInfo.antt =====
-- frames.py: the file info that a STATUS frame carries in answer to a query.
use ssync.Prelude.{
  ℕ, ◌^◌, ◌≤◌, ◌<◌, ◌≡◌, ap, Bool, true, false, not, Option, none, some, List, [], ◌∷◌, ◌++◌, arith,
  ltb, ◌==◌, if◌then◌else◌, le→ltb, ==_refl, length, drop, replicate,
}
use ssync.Result.{
  Result, ok, raise_if, ◌>>=◌, ◌>>◌, OnlyValueErrors, OnlyValueErrors-ok, OnlyValueErrors-bind,
  OnlyValueErrors-raise_if,
}
use ssync.Struct.{Bytes, Field, uint, raw, Values, size, pack, unpack, layout}
use ssync.Struct.Laws.{Exact, pack-Exact, unpack-layout, unpack_errors, layout_long, drop-layout}
use ssync.Utf8.{Str, encode_utf8, decode_utf8}
use ssync.Utf8.Laws.{decode-encode_utf8, decode_utf8_errors}
use ssync.Types.{RemoteFileInfo, max_file_name_bytes, sha256_size}
use ssync.Frames.Manifest.{is_empty}
use ssync.Frames.Manifest.Laws.{positive→is_empty, named}

-- `!BBQQ32sH`
abbrev pub file_info_fixed_struct : List Field
file_info_fixed_struct = uint 1 ∷ uint 1 ∷ uint 8 ∷ uint 8 ∷ raw 32 ∷ uint 2 ∷ []

abbrev pub bool_byte : Bool → ℕ
bool_byte true = 1
bool_byte false = 0

abbrev pub is_some_byte : Option Bytes → ℕ
is_some_byte none = 0
is_some_byte (some sha) = 1

abbrev pub sha_or_zeros : Option Bytes → Bytes
sha_or_zeros none = replicate sha256_size 0
sha_or_zeros (some sha) = sha

abbrev pub info_fields : RemoteFileInfo → Bytes → Values file_info_fixed_struct
info_fields info path = (
  bool_byte info.exists,
  (
    is_some_byte info.sha256,
    (info.size, (info.mtime_ns, (sha_or_zeros info.sha256, (length path, tt)))),
  ),
)

unfoldable pub encode_file_info_response : RemoteFileInfo → Result Bytes
encode_file_info_response info = do
  path ← encode_utf8 info.path
  raise_if (is_empty path) "File info response path must not be empty"
  raise_if (ltb max_file_name_bytes (length path)) "File info response path too long"
  raise_if (not (length (sha_or_zeros info.sha256) == sha256_size))
      "File info response sha256 must be 32 bytes"
  fixed ← pack file_info_fixed_struct (info_fields info path)
  ok (fixed ++ path)

abbrev info_of : Values file_info_fixed_struct → Str → RemoteFileInfo
info_of (exists_raw, (has_sha_raw, (file_size, (mtime_ns, (sha256, _))))) path = record {
  path = path;
  exists = not (exists_raw == 0);
  size = file_size;
  mtime_ns = mtime_ns;
  sha256 = if has_sha_raw == 0 then none else some sha256;
}

info_path : Values file_info_fixed_struct → Bytes → Result RemoteFileInfo
info_path fields path_bytes = do
  raise_if (not (length path_bytes == fields.1.1.1.1.1.0)) "File info response path size mismatch"
  path ← decode_utf8 path_bytes
  raise_if (is_empty path) "File info response path must not be empty"
  ok (info_of fields path)

unfoldable pub decode_file_info_response : Bytes → Result RemoteFileInfo
unfolding info_path
decode_file_info_response payload = do
  raise_if (ltb (length payload) (size file_info_fixed_struct))
      "File info response payload too short"
  fields ← unpack file_info_fixed_struct payload
  info_path fields (drop (size file_info_fixed_struct) payload)

-- A file info whose path has the UTF-8 bytes `path`, with every part in the range of its field.
pub record IsFileInfo (info : RemoteFileInfo) (path : Bytes) : Type 0 where
  pub size_range : info.size < 2 ^ 64
  pub mtime_range : info.mtime_ns < 2 ^ 64
  pub hash_size : length (sha_or_zeros info.sha256) ≡ 32
  pub path_bytes : encode_utf8 info.path ≡ ok path
  pub path_positive : 0 < length path
  pub path_range : length path ≤ max_file_name_bytes

info_of-fields :
    (info : RemoteFileInfo) (path : Bytes) → info_of (info_fields info path) info.path ≡ info
info_of-fields info path = ground arith

module _ (info : RemoteFileInfo) (path : Bytes) (v : IsFileInfo info path) where
  flag_lt : (b : Bool) → bool_byte b < 256
  flag_lt b = ground arith

  has_sha_lt : (o : Option Bytes) → is_some_byte o < 256
  has_sha_lt o = ground arith

  info-Exact : Exact file_info_fixed_struct (info_fields info path)
  info-Exact = (
    flag_lt info.exists,
    (
      has_sha_lt info.sha256,
      (v.size_range, (v.mtime_range, (v.hash_size, (omega (arith, v.path_range), tt)))),
    ),
  )

  -- the bytes of the file info
  abbrev pub info_bytes : Bytes
  info_bytes = layout file_info_fixed_struct (info_fields info path) ++ path

  pub encode_info : encode_file_info_response info ≡ ok info_bytes
  unfolding encode_file_info_response
  encode_info = rw (
    v.path_bytes,
    positive→is_empty path v.path_positive,
    le→ltb max_file_name_bytes (length path) v.path_range,
    v.hash_size,
    pack-Exact file_info_fixed_struct (info_fields info path) info-Exact,
  )

  pub decode_info : decode_file_info_response info_bytes ≡ ok info
  unfolding decode_file_info_response
  decode_info =
      rw
        (
          layout_long file_info_fixed_struct (info_fields info path) path,
          unpack-layout file_info_fixed_struct (info_fields info path) path info-Exact,
          drop-layout file_info_fixed_struct (info_fields info path) path,
          ==_refl,
          decode-encode_utf8 info.path path v.path_bytes,
          named info.path path v.path_bytes v.path_positive,
        )
        (ap ok (info_of-fields info path))

pub decode_file_info_errors :
    (payload : Bytes) → OnlyValueErrors (decode_file_info_response payload)
unfolding decode_file_info_response
decode_file_info_errors payload =
    let path_bytes = drop (size file_info_fixed_struct) payload in
    OnlyValueErrors-raise_if (ltb (length payload) (size file_info_fixed_struct)) _ _ λ long.
      unpack_errors file_info_fixed_struct payload _ long λ fields.
        OnlyValueErrors-raise_if (not (length path_bytes == fields.1.1.1.1.1.0)) _ _ λ _.
          OnlyValueErrors-bind (decode_utf8 path_bytes) _ (decode_utf8_errors path_bytes) λ path.
            OnlyValueErrors-raise_if (is_empty path) _ _
              λ _. OnlyValueErrors-ok (info_of fields path)
