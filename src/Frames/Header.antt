-- ===== src/Frames/Header.antt =====
-- The frame header: what `encode_frame` writes, `decode_frame` reads.
use ssync.Prelude.{
  ℕ, ◌<◌, ◌^◌, ◌≡◌, Option, some, ◌++◌, length, arith, drop-append, length-append, le→ltb, ==_refl,
}
use ssync.Result.{Result, ok, ◌>>=◌}
use ssync.Struct.{Bytes, Values, size, layout}
use ssync.Struct.Laws.{Exact, pack-Exact, unpack-layout, length-layout}
use ssync.Types.{
  FrameType, metadata, data_frame, status, beacon, frame_code, protocol_magic, protocol_version,
}
use ssync.Frames.{header_struct, encode_frame, header_fields, decode_frame}

abbrev header_of : FrameType → Bytes → ℕ → Values header_struct
header_of t payload flags =
    (protocol_magic, (protocol_version, (frame_code t, (flags, (0, (length payload, tt))))))

header_Exact :
    (t : FrameType) (payload : Bytes) (flags : ℕ)
    → flags < 256
    → length payload < 2 ^ 32
    → Exact header_struct (header_of t payload flags)
header_Exact metadata payload flags h k = omega arith
header_Exact data_frame payload flags h k = omega arith
header_Exact status payload flags h k = omega arith
header_Exact beacon payload flags h k = omega arith

-- The bytes of a frame.
abbrev pub frame_bytes : FrameType → Bytes → ℕ → Bytes
frame_bytes t payload flags = layout header_struct (header_of t payload flags) ++ payload

pub encode_frame_lem :
    (t : FrameType) (payload : Bytes) (flags : ℕ)
    → flags < 256
    → length payload < 2 ^ 32
    → encode_frame t payload flags ≡ ok (frame_bytes t payload flags)
unfolding encode_frame
encode_frame_lem t payload flags h k =
    rw (pack-Exact header_struct (header_of t payload flags) (header_Exact t payload flags h k))

header_fields_lem :
    (t : FrameType) (payload : Bytes) (flags : ℕ)
    → header_fields (header_of t payload flags) payload
      ≡ ok (record {
        frame_type = some t;
        frame_type_raw = frame_code t;
        flags = flags;
        payload = payload;
      })
header_fields_lem metadata payload flags = rw ==_refl
header_fields_lem data_frame payload flags = rw ==_refl
header_fields_lem status payload flags = rw ==_refl
header_fields_lem beacon payload flags = rw ==_refl

pub decode-frame_bytes :
    (t : FrameType) (payload : Bytes) (flags : ℕ)
    → flags < 256
    → length payload < 2 ^ 32
    → decode_frame (frame_bytes t payload flags)
      ≡ ok (record {
        frame_type = some t;
        frame_type_raw = frame_code t;
        flags = flags;
        payload = payload;
      })
unfolding decode_frame
decode-frame_bytes t payload flags h k =
    let hdr = header_of t payload flags in
    rw
      (
        le→ltb (length (layout header_struct hdr ++ payload)) (size header_struct) (
            omega (
              arith,
              length-append (layout header_struct hdr) payload,
              length-layout header_struct hdr,
            )),
        unpack-layout header_struct hdr payload (header_Exact t payload flags h k),
        drop-append (size header_struct) (layout header_struct hdr) payload
            (length-layout header_struct hdr),
      )
      (header_fields_lem t payload flags)

-- A receiver's view of some bytes: the type of the frame and its payload, decoded.
abbrev pub read_frame : {A : Type 0} → (Bytes → Result A) → Bytes → Result (Option FrameType × A)
read_frame decode bytes = do
  frame ← decode_frame bytes
  value ← decode frame.payload
  ok (frame.frame_type, value)

-- A frame that was encoded is read as its type, with what its payload decodes to.
pub read-encode_frame :
    {A : Type 0} (decode : Bytes → Result A) (t : FrameType) (payload : Bytes) (a : A)
    → length payload < 2 ^ 32
    → decode payload ≡ ok a
    → (encode_frame t payload 0 >>= read_frame decode) ≡ ok (some t, a)
read-encode_frame decode t payload a h e =
    rw (encode_frame_lem t payload 0 (omega arith) h)
      (rw (decode-frame_bytes t payload 0 (omega arith) h) (rw e))

-- What `encode_frame` writes, `decode_frame` reads: the type, the flags and the payload, for flags of
-- one byte and a payload of less than 4 GiB.
pub decode-encode_frame :
    (t : FrameType) (payload : Bytes) (flags : ℕ)
    → flags < 256
    → length payload < 2 ^ 32
    → (do raw ← encode_frame t payload flags; decode_frame raw)
      ≡ ok (record {
        frame_type = some t;
        frame_type_raw = frame_code t;
        flags = flags;
        payload = payload;
      })
decode-encode_frame t payload flags h k =
    rw (encode_frame_lem t payload flags h k) (decode-frame_bytes t payload flags h k)
