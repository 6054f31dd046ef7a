-- ===== src/Frames.antt =====
-- src/ssync/space_sync/frames.py: the frame around every payload; the payloads are the modules below.
pub mod Header
pub mod Equal
pub mod Data
pub mod Tlv
pub mod Manifest
pub mod FileInfo
pub mod Status
pub mod Beacon
pub mod Errors
use ssync.Prelude.{
  ℕ, ◌+◌, not, Bool, true, false, Option, List, [], ◌∷◌, ◌++◌, ltb, ◌==◌, ◌&&◌, length, drop,
}
use ssync.Result.{Result, ok, raise_if, ◌>>=◌, ◌>>◌}
use ssync.Struct.{Bytes, Field, uint, raw, Values, size, pack, unpack}
use ssync.Types.{FrameType, frame_code, frame_type_of, protocol_magic, protocol_version}

-- `bytes.__eq__`
abbrev pub bytes_eq : Bytes → Bytes → Bool
bytes_eq [] [] = true
bytes_eq [] (b ∷ bs) = false
bytes_eq (a ∷ as') [] = false
bytes_eq (a ∷ as') (b ∷ bs) = (a == b) && bytes_eq as' bs

-- `!2sBBBBI`
abbrev pub header_struct : List Field
header_struct = raw 2 ∷ uint 1 ∷ uint 1 ∷ uint 1 ∷ uint 1 ∷ uint 4 ∷ []

pub record ParsedFrame : Type 0 where
  pub frame_type : Option FrameType
  pub frame_type_raw : ℕ
  pub flags : ℕ
  pub payload : Bytes

unfoldable pub encode_frame : FrameType → Bytes → ℕ → Result Bytes
encode_frame frame_type payload flags = do
  header ← pack header_struct (
    protocol_magic,
    (protocol_version, (frame_code frame_type, (flags, (0, (length payload, tt))))),
  )
  ok (header ++ payload)

abbrev header_fields : Values header_struct → Bytes → Result ParsedFrame
header_fields (magic, (version, (code, (flags, (reserved, (payload_size, _)))))) payload = do
  raise_if (not (bytes_eq magic protocol_magic)) "Invalid protocol magic"
  raise_if (not (version == protocol_version)) "Unsupported protocol version"
  raise_if (not (payload_size == length payload)) "Invalid payload size"
  ok (record {
    frame_type = frame_type_of code;
    frame_type_raw = code;
    flags = flags;
    payload = payload;
  })

unfoldable pub decode_frame : Bytes → Result ParsedFrame
decode_frame bytes = do
  raise_if (ltb (length bytes) (size header_struct)) "Frame too short"
  fields ← unpack header_struct bytes
  header_fields fields (drop (size header_struct) bytes)
