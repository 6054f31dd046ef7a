-- ===== src/Server/Queried.antt =====
-- A file info query comes from a sender, and the answer comes back to it.
use ssync.Prelude.{
  ℕ, ◌≤◌, ◌<◌, ◌≡◌, refl, sym, ap, ◌∙◌, inl, inr, Bool, true, false, some, List, [], ◌∷◌, arith,
  ltb, if◌then◌else◌, length,
}
use ssync.Result.{ok, Result-cases}
use ssync.Struct.{Bytes}
use ssync.Utf8.{Str, encode_utf8, decode_utf8}
use ssync.Utf8.Laws.{decode-encode_utf8}
use ssync.Dict.{get_item}
use ssync.Types.{
  metadata, status, complete, incomplete, TransferState, TransferManifest, TransferStatus,
  RemoteFileInfo,
}
use ssync.Frames.{decode_frame}
use ssync.Frames.Equal.{bytes_eq_refl}
use ssync.Frames.FileInfo.{IsFileInfo}
use ssync.Frames.Manifest.{encode_manifest, decode_manifest}
use ssync.Frames.Manifest.Laws.{IsManifest, manifest_round_trip}
use ssync.Frames.Status.{encode_status, decode_status, token_or_none}
use ssync.Frames.Status.FileInfo.{file_info_status, file_info_status_round_trip}
use ssync.Receiver.{Addr, send_frame}
use ssync.Server.{ReceiverConfig, Server}
use ssync.Server.Completed.{info_status, query_local_file, maybe_handle_file_info_query}
use ssync.Server.Dispatch.{handle_frame}
use ssync.Server.Datagrams.{Carries, parsed-Carries, receive_encoded, receive-Carries}
use ssync.Sender.Query.{query_manifest, matching_info, read_answer, wait_for_answer}

-- A frame that carries a STATUS is read as it is.
read-Carries :
    (query_token : Bytes) (remote_name : Str) (f : Bytes) (answer : TransferStatus)
    → Carries decode_status (decode_frame f) status answer
    → read_answer query_token remote_name f ≡ ok (matching_info query_token remote_name answer)
unfolding read_answer
read-Carries query_token remote_name f answer c =
    rw (c.parsed, read_answer) (rw c.kind (rw c.value refl))

asked : (b : Bool) → ltb 0 (if b then 1 else 0) ≡ b
asked true = refl
asked false = refl

token_same : (token : Bytes) → 0 < length token → token_or_none token ≡ some token
token_same [] h = absurd (omega arith)
token_same (b ∷ bs) h = refl

module _ (sha256 : Bytes → Bytes) (config : ReceiverConfig) (id name token : Bytes)
    (remote_name : Str) (include_checksum : Bool) (label : Bytes) (addr : Addr) where
  abbrev query : TransferManifest
  query = query_manifest sha256 id name token include_checksum

  abbrev told : Server → RemoteFileInfo
  told s = query_local_file sha256 remote_name include_checksum s

  handled :
      (s : Server)
      → decode_utf8 name ≡ ok remote_name
      → maybe_handle_file_info_query sha256 query addr s
        ≡ some (send_frame (encode_status (info_status sha256 query (told s))) addr ∷ [])
  unfolding maybe_handle_file_info_query get_item
  handled s e = rw e (
      ap
        (λ b. some (
          send_frame
            (encode_status (info_status sha256 query (query_local_file sha256 remote_name b s)))
            addr
          ∷ []))
        (asked include_checksum))

  path-told : (s : Server) → (told s).path ≡ remote_name
  unfolding query_local_file
  path-told s = ground arith

  module _ (s : Server) (good : IsFileInfo (told s) name) (some_token : 0 < length token)
      (short : length token ≤ 255) (v : IsManifest query label) where
    abbrev state : TransferState
    state = if (told s).exists then complete else incomplete

    abbrev answer : TransferStatus
    answer = file_info_status id state (told s) (some token)

    found : matching_info token remote_name answer ≡ some (told s)
    found = rw (bytes_eq_refl token) (rw (path-told s) (rw (bytes_eq_refl remote_name) refl))

    answer_frame :
        (f : Bytes) × (encode_status answer ≡ ok f)
        × (read_answer token remote_name f ≡ ok (some (told s)))
    answer_frame =
        let comes_back =
          file_info_status_round_trip id state (told s) name token v.id_size good short
          ∙ ap (λ t. ok (some status, file_info_status id state (told s) t))
              (token_same token some_token) in
        elim (Result-cases (encode_status answer)) [
          | inl (f, e) ↦ (
            f,
            e,
            read-Carries token remote_name f answer
                  (parsed-Carries decode_status (decode_frame f) status answer (rw e at comes_back))
                ∙ ap ok found,
          )
          | inr (x, e) ↦ absurd (ground (arith, rw e at comes_back))
        ]

    handle_query :
        (now : ℕ) (sent mapped : Bool) (payload : Bytes)
        → decode_manifest payload ≡ ok query
        → handle_frame sha256 config now sent mapped metadata payload addr s
          ≡ (s, send_frame (encode_status answer) addr ∷ [])
    unfolding handle_frame get_item
    handle_query now sent mapped payload e =
        rw (e, handle_frame)
          (rw (handled s (decode-encode_utf8 remote_name name encoded_name), handle_frame) refl)
      where
        encoded_name : encode_utf8 remote_name ≡ ok name
        encoded_name = ap encode_utf8 (sym (path-told s)) ∙ good.path_bytes

    -- A sender asks a receiver about a file: with a manifest in the ranges of its fields, a token of 1 to
    -- 255 bytes, and a name whose encoded form the query carries. The receiver, in whatever state, keeps
    -- its state and sends one frame, and the sender that waits for its answer returns from this frame
    -- what the receiver knows of its file of that name: whether it is there, its size, its modification
    -- time, and its hash where that is asked for. The sizes of what is answered are in their fields.
    pub query_answered :
        (now : ℕ) (sent mapped : Bool) (later : List Bytes)
        → (f : Bytes) × (receive_encoded sha256 config now sent mapped
              (encode_manifest query)
              addr
              s
            ≡ (s, send_frame (ok f) addr ∷ []))
          × (wait_for_answer token remote_name (f ∷ later) ≡ ok (told s))
    unfolding wait_for_answer
    query_answered now sent mapped later =
        let (f, encoded, read) = answer_frame in
        (
          f,
          receive-Carries sha256 config now sent mapped addr s decode_manifest
                (encode_manifest query) metadata query _ (manifest_round_trip query label v)
                (λ bytes e. handle_query now sent mapped bytes e)
              ∙ ap (λ r. (s, send_frame r addr ∷ [])) encoded,
          rw (read, wait_for_answer) refl,
        )
