-- ===== src/Frames/Beacon.antt =====
-- frames.py: BEACON frames, with the legacy form that carries no age.
use ssync.Prelude.{
  ℕ, ◌^◌, ◌<◌, ◌≡◌, refl, true, not, none, some, List, [], ◌∷◌, arith, ◌==◌, if◌then◌else◌, length,
}
use ssync.Result.{value_error, Result, ok, err, raise_if, ◌>>=◌, ◌>>◌}
use ssync.Struct.{Bytes, Field, uint, raw, Values, size, pack, unpack, layout}
use ssync.Struct.Laws.{Exact, pack-Exact, unpack-layout, length-layout}
use ssync.Types.{beacon, BeaconRole, sender, receiver, role_code, role_of, transfer_id_size}
use ssync.Frames.{encode_frame}
use ssync.Frames.Header.{read_frame, read-encode_frame}
use mathlib.Core.List.{append-nil}

-- `!B16sI`, and before the age was sent `!B16s`
abbrev pub beacon_struct : List Field
beacon_struct = uint 1 ∷ raw 16 ∷ uint 4 ∷ []

abbrev pub beacon_struct_legacy : List Field
beacon_struct_legacy = uint 1 ∷ raw 16 ∷ []

abbrev pub beacon_peer_age_never : ℕ
beacon_peer_age_never = 0xffffffff

abbrev pub Beacon : Type 0
Beacon = BeaconRole × Bytes × ℕ

unfoldable pub encode_beacon : BeaconRole → Bytes → ℕ → Result Bytes
encode_beacon role transfer_id peer_beacon_age_ms = do
  raise_if (not (length transfer_id == transfer_id_size)) "Beacon transfer_id size mismatch"
  payload ← pack beacon_struct (role_code role, (transfer_id, (peer_beacon_age_ms, tt)))
  encode_frame beacon payload 0

-- `BeaconRole(raw_role)`, which raises `ValueError` for an unknown number.
abbrev pub beacon_role : ℕ → Result BeaconRole
beacon_role code = elim (role_of code) [
  | none ↦ err (value_error "not a valid BeaconRole")
  | some role ↦ ok role
]

unfoldable pub decode_beacon : Bytes → Result Beacon
decode_beacon payload =
    if length payload == size beacon_struct
    then (do
      fields ← unpack beacon_struct payload
      role ← beacon_role fields.0
      let found : Beacon = (role, fields.1.0, fields.1.1.0)
      ok found)
    else if length payload == size beacon_struct_legacy
    then (do
      fields ← unpack beacon_struct_legacy payload
      role ← beacon_role fields.0
      let found : Beacon = (role, fields.1.0, beacon_peer_age_never)
      ok found)
    else err (value_error "Beacon payload size mismatch")

beacon_role-code : (role : BeaconRole) → beacon_role (role_code role) ≡ ok role
beacon_role-code sender = refl
beacon_role-code receiver = refl

role_code-lt : (role : BeaconRole) → role_code role < 256
role_code-lt sender = omega arith
role_code-lt receiver = omega arith

module _ (role : BeaconRole) (id : Bytes) (age : ℕ) (h : length id ≡ 16) where
  decode-beacon_layout :
      age < 2 ^ 32
      → decode_beacon (layout beacon_struct (role_code role, (id, (age, tt)))) ≡ ok (role, id, age)
  unfolding decode_beacon
  decode-beacon_layout k =
      let vs : Values beacon_struct = (role_code role, (id, (age, tt))) in
      let exact : Exact beacon_struct vs = (role_code-lt role, (h, (k, tt))) in
      let fields : unpack beacon_struct (layout beacon_struct vs) ≡ ok vs =
        rw append-nil at (unpack-layout beacon_struct vs [] exact) in
      rw (length-layout beacon_struct vs) (rw fields (rw (beacon_role-code role)))

  -- A beacon with a 16 byte transfer id and an age of 32 bits comes back from its frame.
  pub beacon_round_trip :
      age < 2 ^ 32
      → (encode_beacon role id age >>= read_frame decode_beacon) ≡ ok (some beacon, (role, id, age))
  unfolding encode_beacon
  beacon_round_trip k =
      let vs : Values beacon_struct = (role_code role, (id, (age, tt))) in
      let sized : (length id == 16) ≡ true = ground arith in
      rw (sized, pack-Exact beacon_struct vs (role_code-lt role, (h, (k, tt))))
        (read-encode_frame decode_beacon beacon (layout beacon_struct vs) (role, id, age)
          (omega (arith, length-layout beacon_struct vs)) (decode-beacon_layout k))

  -- A legacy beacon is read with the age "never".
  pub decode_legacy_beacon :
      decode_beacon (layout beacon_struct_legacy (role_code role, (id, tt)))
      ≡ ok (role, id, beacon_peer_age_never)
  unfolding decode_beacon
  decode_legacy_beacon =
      let vs : Values beacon_struct_legacy = (role_code role, (id, tt)) in
      let fields : unpack beacon_struct_legacy (layout beacon_struct_legacy vs) ≡ ok vs =
        rw append-nil at (unpack-layout beacon_struct_legacy vs [] (role_code-lt role, (h, tt))) in
      rw (length-layout beacon_struct_legacy vs) (rw fields (rw (beacon_role-code role)))
