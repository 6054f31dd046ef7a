-- ===== src/Types.antt =====
-- src/ssync/space_sync/types.py and manifest.py: the constants of the protocol, its enumerations and
-- the records that frames carry.
use ssync.Prelude.{ℕ, ◌+◌, ◌-◌, ◌/◌, Bool, Option, none, some, List, [], ◌∷◌, ◌==◌, if◌then◌else◌}
use ssync.Struct.{Bytes}
use ssync.Utf8.{Str}
use ssync.Ranges.{Range}

abbrev pub protocol_magic : Bytes
protocol_magic = 0x53 ∷ 0x53 ∷ []

abbrev pub protocol_version : ℕ
protocol_version = 1

abbrev pub transfer_id_size : ℕ
transfer_id_size = 16

abbrev pub sha256_size : ℕ
sha256_size = 32

abbrev pub max_tlv_value_size : ℕ
max_tlv_value_size = 65535

abbrev pub max_tlv_total_size : ℕ
max_tlv_total_size = 65535

abbrev pub max_file_name_bytes : ℕ
max_file_name_bytes = 4096

abbrev pub max_ranges_per_frame : ℕ
max_ranges_per_frame = 2048

pub data FrameType : Type 0 where
  metadata data_frame status beacon : FrameType

-- `int(frame_type)`
abbrev pub frame_code : FrameType → ℕ
frame_code metadata = 1
frame_code data_frame = 2
frame_code status = 4
frame_code beacon = 10

-- `FrameType(code)`, for the codes that there are
abbrev pub frame_type_of : ℕ → Option FrameType
frame_type_of code =
    if code == 1
    then some metadata
    else if code == 2
    then some data_frame
    else if code == 4
    then some status
    else if code == 10
    then some beacon
    else none

pub data BeaconRole : Type 0 where
  sender receiver : BeaconRole

abbrev pub role_code : BeaconRole → ℕ
role_code sender = 1
role_code receiver = 2

abbrev pub role_of : ℕ → Option BeaconRole
role_of code = if code == 1 then some sender else if code == 2 then some receiver else none

pub data TransferState : Type 0 where
  incomplete complete hash_mismatch pending_metadata keepalive : TransferState

abbrev pub state_code : TransferState → ℕ
state_code incomplete = 0
state_code complete = 1
state_code hash_mismatch = 2
state_code pending_metadata = 3
state_code keepalive = 4

abbrev pub state_of : ℕ → Option TransferState
state_of code =
    if code == 0
    then some incomplete
    else if code == 1
    then some complete
    else if code == 2
    then some hash_mismatch
    else if code == 3
    then some pending_metadata
    else if code == 4
    then some keepalive
    else none

pub data StatusKind : Type 0 where
  transfer file_info_response : StatusKind

abbrev pub kind_code : StatusKind → ℕ
kind_code transfer = 0
kind_code file_info_response = 1

abbrev pub kind_of : ℕ → Option StatusKind
kind_of code =
    if code == 0 then some transfer else if code == 1 then some file_info_response else none

-- `dict[int, bytes]`, in the order of insertion
abbrev pub Metadata : Type 0
Metadata = List (ℕ × Bytes)

pub record TransferManifest : Type 0 where
  pub transfer_id : Bytes
  pub file_name : Str
  pub file_size : ℕ
  pub chunk_size : ℕ
  pub total_chunks : ℕ
  pub sha256 : Bytes
  pub metadata : Metadata

pub record RemoteFileInfo : Type 0 where
  pub path : Str
  pub exists : Bool
  pub size : ℕ
  pub mtime_ns : ℕ
  pub sha256 : Option Bytes

pub record DataChunk : Type 0 where
  pub transfer_id : Bytes
  pub chunk_index : ℕ
  pub payload : Bytes

pub record TransferStatus : Type 0 where
  pub transfer_id : Bytes
  pub kind : StatusKind
  pub state : TransferState
  pub missing_ranges : List Range
  pub file_info : Option RemoteFileInfo
  pub query_token : Option Bytes

-- The number of chunks of a file: the quotient rounded up, and 0 for an empty file.
abbrev pub expected_total_chunks : ℕ → ℕ → ℕ
expected_total_chunks file_size chunk_size =
    if file_size == 0 then 0 else (file_size + chunk_size - 1) / chunk_size
