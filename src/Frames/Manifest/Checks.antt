-- ===== src/Frames/Manifest/Checks.antt =====
-- What the checks of `decode_manifest` let through, and what it raises.
use ssync.Prelude.{
  leb→gt, not_ne→eq, ◌+◌, ◌<◌, ◌≡◌, not, ltb, leb, ◌==◌, length, take, drop, length-drop, le→ltb,
  arith, ◌≤◌, false,
}
use ssync.Result.{
  Ensures, Ensures-ok, Ensures-bind, Ensures-raise_if, OnlyValueErrors, OnlyValueErrors-ok,
  OnlyValueErrors-bind, OnlyValueErrors-raise_if, ok,
}
use ssync.Struct.{Bytes, Values, size, unpack}
use ssync.Struct.Laws.{unpack_errors}
use ssync.Utf8.{Str, decode_utf8}
use ssync.Utf8.Laws.{decode_utf8_errors}
use ssync.Types.{TransferManifest, expected_total_chunks, max_file_name_bytes}
use ssync.Frames.Tlv.{decode_tlvs}
use ssync.Frames.Tlv.Laws.{decode_tlvs_errors}
use ssync.Frames.Manifest.{
  manifest_fixed_struct, size_struct, is_empty, manifest_tail, manifest_name, decode_manifest,
}

-- What a decoded manifest satisfies: a positive chunk size, and the number of chunks that the sizes
-- give.
pub record IsConsistent (m : TransferManifest) : Type 0 where
  pub chunk_positive : 0 < m.chunk_size
  pub total_exact : m.total_chunks ≡ expected_total_chunks m.file_size m.chunk_size
  pub named : is_empty m.file_name ≡ false

tail-IsConsistent :
    (fields : Values manifest_fixed_struct) (name : Str) (bytes : Bytes)
    → is_empty name ≡ false
    → Ensures IsConsistent (manifest_tail fields name bytes)
unfolding manifest_tail
tail-IsConsistent fields name bytes h =
    let chunk_size = fields.1.1.0 in
    let total = fields.1.1.1.0 in
    let expected = expected_total_chunks fields.1.0 chunk_size in
    Ensures-bind (unpack size_struct bytes) _ λ sizes _.
      Ensures-raise_if (not (length (drop (size size_struct) bytes) == sizes.0)) _ _ λ _.
        Ensures-bind (decode_tlvs (drop (size size_struct) bytes)) _ λ entries _.
          Ensures-raise_if (leb chunk_size 0) _ _ λ positive.
            Ensures-raise_if (not (total == expected)) _ _ λ exact. Ensures-ok _ (record {
              chunk_positive = leb→gt chunk_size 0 positive;
              total_exact = not_ne→eq total expected exact;
              named = h;
            })

name-IsConsistent :
    (fields : Values manifest_fixed_struct) (bytes : Bytes)
    → Ensures IsConsistent (manifest_name fields bytes)
unfolding manifest_name
name-IsConsistent fields bytes =
    let n = fields.1.1.1.1.1.0 in
    Ensures-raise_if (ltb (length bytes) (n + 2)) _ _ λ _.
      Ensures-bind (decode_utf8 (take n bytes)) _ λ name _.
        Ensures-raise_if (is_empty name) _ _ λ filled.
          Ensures-raise_if (ltb max_file_name_bytes n) _ _
            λ _. tail-IsConsistent fields name (drop n bytes) filled

manifest-IsConsistent : (payload : Bytes) → Ensures IsConsistent (decode_manifest payload)
unfolding decode_manifest
manifest-IsConsistent payload =
    Ensures-raise_if (ltb (length payload) (size manifest_fixed_struct + 2)) _ _ λ _.
      Ensures-bind (unpack manifest_fixed_struct payload) _ λ fields _. name-IsConsistent fields _

-- Every manifest that `decode_manifest` returns, from whatever bytes, has a positive chunk size, the
-- number of chunks that its sizes give, and a name.
pub decode_manifest-IsConsistent :
    (payload : Bytes) (m : TransferManifest) → decode_manifest payload ≡ ok m → IsConsistent m
decode_manifest-IsConsistent payload m e = (manifest-IsConsistent payload).at m e

tail_errors :
    (fields : Values manifest_fixed_struct) (name : Str) (bytes : Bytes)
    → 2 ≤ length bytes
    → OnlyValueErrors (manifest_tail fields name bytes)
unfolding manifest_tail
tail_errors fields name bytes long =
    let chunk_size = fields.1.1.0 in
    unpack_errors size_struct bytes _ (le→ltb (length bytes) 2 long) λ sizes.
      OnlyValueErrors-raise_if (not (length (drop (size size_struct) bytes) == sizes.0)) _ _ λ _.
        OnlyValueErrors-bind (decode_tlvs (drop (size size_struct) bytes)) _ (decode_tlvs_errors _)
          λ entries. OnlyValueErrors-raise_if (leb chunk_size 0) _ _ λ _.
            OnlyValueErrors-raise_if
              (not (fields.1.1.1.0 == expected_total_chunks fields.1.0 chunk_size)) _ _
              λ _. OnlyValueErrors-ok _

name_errors :
    (fields : Values manifest_fixed_struct) (bytes : Bytes)
    → OnlyValueErrors (manifest_name fields bytes)
unfolding manifest_name
name_errors fields bytes =
    let n = fields.1.1.1.1.1.0 in
    OnlyValueErrors-raise_if (ltb (length bytes) (n + 2)) _ _ λ long.
      OnlyValueErrors-bind (decode_utf8 (take n bytes)) _ (decode_utf8_errors (take n bytes))
        λ name. OnlyValueErrors-raise_if (is_empty name) _ _ λ _.
          OnlyValueErrors-raise_if (ltb max_file_name_bytes n) _ _
            λ _. tail_errors fields name (drop n bytes) (ground (arith, long, length-drop n bytes))

pub decode_manifest_errors : (payload : Bytes) → OnlyValueErrors (decode_manifest payload)
unfolding decode_manifest
decode_manifest_errors payload =
    OnlyValueErrors-raise_if (ltb (length payload) (size manifest_fixed_struct + 2)) _ _ λ long.
      unpack_errors manifest_fixed_struct payload _ (ground (arith, long))
        λ fields. name_errors fields _
