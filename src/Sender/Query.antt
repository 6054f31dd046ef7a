-- ===== src/Sender/Query.antt =====
-- src/ssync/space_sync/sender.py and manifest.py: `query_remote_file`, with `TransferManifest.from_bytes`.
-- `incoming` is what `recvfrom` returns until the deadline; then a `TimeoutError` is raised.
use ssync.Prelude.{ℕ, Bool, not, Option, none, some, List, [], ◌∷◌, if◌then◌else◌, length}
use ssync.Result.{Result, ok, err, timeout_error, ◌>>=◌}
use ssync.Struct.{Bytes}
use ssync.Utf8.{Str}
use ssync.Types.{TransferManifest, TransferStatus, RemoteFileInfo, Metadata, expected_total_chunks}
use ssync.Frames.{bytes_eq, decode_frame}
use ssync.Frames.Status.{decode_status}
use ssync.Server.Completed.{
  query_path_key, query_include_checksum_key, query_token_key, status_query_name,
}
use ssync.Sender.Drain.{is_status, is_transfer}

-- `hashlib.sha256`, and the id that `uuid4` makes
module _ (sha256 : Bytes → Bytes) (transfer_id : Bytes) where
  abbrev pub from_bytes : Bytes → Str → ℕ → Metadata → TransferManifest
  from_bytes raw file_name chunk_size metadata = record {
    transfer_id = transfer_id;
    file_name = file_name;
    file_size = length raw;
    chunk_size = chunk_size;
    total_chunks = expected_total_chunks (length raw) chunk_size;
    sha256 = sha256 raw;
    metadata = metadata;
  }

  -- The manifest of a query, for the encoded name
  abbrev pub query_manifest : Bytes → Bytes → Bool → TransferManifest
  query_manifest name query_token include_checksum = from_bytes [] status_query_name 1 (
      (query_path_key, name)
      ∷ (query_include_checksum_key, (if include_checksum then 1 else 0) ∷ [])
      ∷ (query_token_key, query_token)
      ∷ [])

-- `status.query_token != query_token`, and so on: what is taken of a STATUS.
abbrev pub matching_info : Bytes → Str → TransferStatus → Option RemoteFileInfo
matching_info query_token remote_name answer = elim answer.query_token [
  | none ↦ none
  | some token ↦ elim answer.file_info [
    | none ↦ none
    | some info ↦
        if is_transfer answer.kind
        then none
        else if not (bytes_eq token query_token)
        then none
        else if not (bytes_eq info.path remote_name)
        then none
        else some info
  ]
]

-- One datagram: an answer, or none to go on. An error of a decoder ends the call.
unfoldable pub read_answer : Bytes → Str → Bytes → Result (Option RemoteFileInfo)
read_answer query_token remote_name response_raw = elim (decode_frame response_raw) [
  | err e ↦ err e
  | ok parsed ↦
      if is_status parsed.frame_type
      then (do
        answer ← decode_status parsed.payload
        ok (matching_info query_token remote_name answer))
      else ok none
]

unfoldable pub wait_for_answer : Bytes → Str → List Bytes → Result RemoteFileInfo
unfolding read_answer
wait_for_answer query_token remote_name [] = err timeout_error
wait_for_answer query_token remote_name (response_raw ∷ incoming) =
    elim (read_answer query_token remote_name response_raw) [
      | err e ↦ err e
      | ok found ↦ elim found [
        | some info ↦ ok info
        | none ↦ wait_for_answer query_token remote_name incoming
      ]
    ]
