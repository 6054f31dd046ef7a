-- ===== src/Frames/Manifest/Laws.antt =====
-- A manifest comes back from its METADATA frame.
use ssync.Prelude.{
  ◌+◌, ◌^◌, ◌≤◌, ◌<◌, ◌≡◌, refl, true, false, some, [], ◌∷◌, ◌++◌, arith, ltb, ◌==◌, le→ltb, lt→leb,
  ==_refl, length, All, length-append, take-append, drop-append,
}
use ssync.Result.{ok, ◌>>=◌}
use ssync.Struct.{Bytes, layout}
use ssync.Struct.Laws.{Exact, pack-Exact, unpack-layout, length-layout, drop-layout}
use ssync.Utf8.{Str, encode_utf8}
use ssync.Utf8.Laws.{decode-encode_utf8}
use ssync.Dict.{IsDict}
use ssync.Types.{
  metadata, TransferManifest, expected_total_chunks, max_file_name_bytes, max_tlv_total_size,
}
use ssync.Frames.Header.{read_frame, read-encode_frame}
use ssync.Frames.Tlv.Laws.{IsTlv, tlv_bytes, decode-encode_tlvs}
use ssync.Frames.Manifest.{
  manifest_fixed_struct, size_struct, is_empty, fixed_of, encode_manifest, manifest_tail,
  manifest_name, decode_manifest,
}

-- A manifest whose name has the UTF-8 bytes `name`, with every part in the range of its field.
pub record IsManifest (m : TransferManifest) (name : Bytes) : Type 0 where
  pub id_size : length m.transfer_id ≡ 16
  pub hash_size : length m.sha256 ≡ 32
  pub size_range : m.file_size < 2 ^ 64
  pub chunk_positive : 0 < m.chunk_size
  pub chunk_range : m.chunk_size < 2 ^ 32
  pub total_range : m.total_chunks < 2 ^ 32
  pub total_exact : m.total_chunks ≡ expected_total_chunks m.file_size m.chunk_size
  pub name_bytes : encode_utf8 m.file_name ≡ ok name
  pub name_positive : 0 < length name
  pub name_range : length name ≤ max_file_name_bytes
  pub tlv_range : All IsTlv m.metadata
  pub tlv_keys : IsDict ◌==◌ m.metadata
  pub tlv_size : length (tlv_bytes m.metadata) ≤ max_tlv_total_size

pub positive→is_empty : (bs : Bytes) → 0 < length bs → is_empty bs ≡ false
positive→is_empty [] h = absurd (omega arith)
positive→is_empty (b ∷ bs) h = refl

pub named :
    (s : Str) (name : Bytes) → encode_utf8 s ≡ ok name → 0 < length name → is_empty s ≡ false
unfolding encode_utf8
named [] name e h = ground arith
named (c ∷ s) name e h = refl

module _ (m : TransferManifest) (name : Bytes) (v : IsManifest m name) where
  abbrev tlvs : Bytes
  tlvs = tlv_bytes m.metadata

  fixed_Exact : Exact manifest_fixed_struct (fixed_of m name)
  fixed_Exact = (
    v.id_size,
    (
      v.size_range,
      (v.chunk_range, (v.total_range, (v.hash_size, (omega (arith, v.name_range), tt)))),
    ),
  )

  size_Exact : Exact size_struct (length tlvs, tt)
  size_Exact = (omega (arith, v.tlv_size), tt)

  total_test : (m.total_chunks == expected_total_chunks m.file_size m.chunk_size) ≡ true
  total_test = rw v.total_exact (==_refl _)

  tail_lem :
      manifest_tail (fixed_of m name) m.file_name (layout size_struct (length tlvs, tt) ++ tlvs)
      ≡ ok m
  unfolding manifest_tail
  tail_lem =
      rw
        (
          unpack-layout size_struct (length tlvs, tt) tlvs size_Exact,
          drop-layout size_struct (length tlvs, tt) tlvs,
          ==_refl,
        )
        (rw (
          (decode-encode_tlvs m.metadata v.tlv_range v.tlv_keys v.tlv_size).1,
          lt→leb m.chunk_size 0 v.chunk_positive,
          total_test,
        ))

  name_lem :
      manifest_name (fixed_of m name) (name ++ (layout size_struct (length tlvs, tt) ++ tlvs))
      ≡ ok m
  unfolding manifest_name
  name_lem =
      let behind = layout size_struct (length tlvs, tt) ++ tlvs in
      let enough : ltb (length (name ++ behind)) (length name + 2) ≡ false = le→ltb _ _ (
        omega (
          arith,
          length-append name behind,
          length-append (layout size_struct (length tlvs, tt)) tlvs,
          length-layout size_struct (length tlvs, tt),
        )) in
      rw
        (
          enough,
          take-append (length name) name behind refl,
          drop-append (length name) name behind refl,
          decode-encode_utf8 m.file_name name v.name_bytes,
        )
        (rw
          (
            named m.file_name name v.name_bytes v.name_positive,
            le→ltb max_file_name_bytes (length name) v.name_range,
          )
          tail_lem)

  abbrev payload : Bytes
  payload =
      layout manifest_fixed_struct (fixed_of m name)
      ++ (name ++ (layout size_struct (length tlvs, tt) ++ tlvs))

  decode_payload : decode_manifest payload ≡ ok m
  unfolding decode_manifest
  decode_payload =
      let behind = name ++ (layout size_struct (length tlvs, tt) ++ tlvs) in
      let enough : ltb (length payload) 68 ≡ false = le→ltb _ _ (
        omega (
          arith,
          length-append (layout manifest_fixed_struct (fixed_of m name)) behind,
          length-layout manifest_fixed_struct (fixed_of m name),
          length-append name (layout size_struct (length tlvs, tt) ++ tlvs),
          length-append (layout size_struct (length tlvs, tt)) tlvs,
          length-layout size_struct (length tlvs, tt),
        )) in
      rw
        (
          enough,
          unpack-layout manifest_fixed_struct (fixed_of m name) behind fixed_Exact,
          drop-layout manifest_fixed_struct (fixed_of m name) behind,
        )
        name_lem

  -- A manifest with every part in the range of its field is encoded, and comes back from its METADATA
  -- frame as it is, its metadata in their order.
  pub manifest_round_trip :
      (encode_manifest m >>= read_frame decode_manifest) ≡ ok (some metadata, m)
  unfolding encode_manifest
  manifest_round_trip =
      rw
        (
          lt→leb m.chunk_size 0 v.chunk_positive,
          total_test,
          v.name_bytes,
          positive→is_empty name v.name_positive,
          le→ltb max_file_name_bytes (length name) v.name_range,
          (decode-encode_tlvs m.metadata v.tlv_range v.tlv_keys v.tlv_size).0,
          pack-Exact manifest_fixed_struct (fixed_of m name) fixed_Exact,
          pack-Exact size_struct (length tlvs, tt) size_Exact,
        )
        (read-encode_frame decode_manifest metadata payload m
          (omega (
            arith,
            length-append (layout manifest_fixed_struct (fixed_of m name))
                (name ++ (layout size_struct (length tlvs, tt) ++ tlvs)),
            length-layout manifest_fixed_struct (fixed_of m name),
            length-append name (layout size_struct (length tlvs, tt) ++ tlvs),
            length-append (layout size_struct (length tlvs, tt)) tlvs,
            length-layout size_struct (length tlvs, tt),
            v.name_range,
            v.tlv_size,
          ))
          decode_payload)
