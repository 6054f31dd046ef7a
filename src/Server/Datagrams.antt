-- ===== src/Server/Datagrams.antt =====
-- The same way of a file, from the datagrams that its sender encodes.
use ssync.Prelude.{
  ℕ, ◌≤◌, ◌<◌, ◌≡◌, refl, sym, ap, ◌∙◌, inl, inr, Bool, true, ◌||◌, Option, none, some, List, [],
  ◌∷◌, arith, leb, ◌==◌, All,
}
use ssync.Result.{Result, ok, err, ◌>>=◌, Result-cases}
use mathlib.Core.Path.{subst}
use ssync.Struct.{Bytes}
use ssync.Dict.{get_item}
use ssync.Types.{FrameType, metadata, data_frame, TransferManifest, DataChunk}
use ssync.Frames.{ParsedFrame, decode_frame}
use ssync.Frames.Header.{read_frame}
use ssync.Frames.Manifest.{encode_manifest, decode_manifest}
use ssync.Frames.Manifest.Laws.{IsManifest, manifest_round_trip}
use ssync.Frames.Data.{IsDataChunk, encode_data_chunk, decode_data_chunk, data_round_trip}
use ssync.Ranges.Indexes.{elem}
use ssync.Sender.{read_chunk}
use ssync.Receiver.{FilePath, Addr, Effect}
use ssync.Receiver.Chunks.{length-read_chunk}
use ssync.Receiver.Deliver.{Arrival, deliver, arrived}
use ssync.Receiver.Reassembly.{Describes}
use ssync.Server.{ReceiverConfig, Server}
use ssync.Server.Completed.{query_path_key, maybe_handle_file_info_query}
use ssync.Server.Accept.{accept_chunk}
use ssync.Server.Prepare.{prepare_transfer}
use ssync.Server.Finalize.{finalize_next}
use ssync.Server.Dispatch.{handle_frame, handle_parsed, receive}
use ssync.Server.Arrivals.{accept_chunks}
use ssync.Server.Opening.{Unseen, opened}
use ssync.Server.Delivery.{Delivered, receives_file}

-- The parsed frame has the type, and its payload decodes to the value.
pub record Carries {A : Type 0} (decode : Bytes → Result A) (p : Result ParsedFrame)
    (ty : FrameType) (a : A) : Type 0 where
  pub frame : ParsedFrame
  pub parsed : p ≡ ok frame
  pub kind : frame.frame_type ≡ some ty
  pub value : decode frame.payload ≡ ok a

abbrev view : {A : Type 0} → (Bytes → Result A) → ParsedFrame → Result (Option FrameType × A)
view decode frame = do value ← decode frame.payload; ok (frame.frame_type, value)

value-Carries :
    {A : Type 0} (decode : Bytes → Result A) (frame : ParsedFrame) (ty : FrameType) (a : A)
    → view decode frame ≡ ok (some ty, a)
    → Carries decode (ok frame) ty a
value-Carries {A} decode frame ty a h = elim (Result-cases (decode frame.payload)) [
  | inl (v, e) ↦
      let both : ◌≡◌ {A = Result (Option FrameType × A)} (ok (frame.frame_type, v))
          (ok (some ty, a)) =
        sym (ap (λ r. do value ← r; ok (frame.frame_type, value)) e) ∙ h in
      record { frame = frame; parsed = refl; kind = cc; value = e ∙ ap ok (cc) }
  | inr (x, e) ↦
      let clash : ◌≡◌ {A = Result (Option FrameType × A)} (err x) (ok (some ty, a)) =
        sym (ap (λ r. do value ← r; ok (frame.frame_type, value)) e) ∙ h in
      absurd (cc)
]

pub parsed-Carries :
    {A : Type 0} (decode : Bytes → Result A) (p : Result ParsedFrame) (ty : FrameType) (a : A)
    → (p >>= view decode) ≡ ok (some ty, a)
    → Carries decode p ty a
parsed-Carries decode (err e) ty a h = absurd (cc)
parsed-Carries decode (ok frame) ty a h = value-Carries decode frame ty a h

module _ (sha256 : Bytes → Bytes) (config : ReceiverConfig) where
  -- The frame that a peer encodes arrives; one that it cannot encode does not.
  unfoldable pub receive_encoded :
      ℕ → Bool → Bool → Result Bytes → Addr → Server → Server × List Effect
  receive_encoded now sent mapped (err e) addr s = (s, [])
  receive_encoded now sent mapped (ok datagram) addr s =
      receive sha256 config now sent mapped datagram addr s

  pub handle_data :
      (now : ℕ) (sent mapped : Bool) (payload : Bytes) (addr : Addr) (s : Server) (c : DataChunk)
      → decode_data_chunk payload ≡ ok c
      → handle_frame sha256 config now sent mapped data_frame payload addr s
        ≡ accept_chunk config now sent c.transfer_id c.chunk_index c.payload s
  unfolding handle_frame
  handle_data now sent mapped payload addr s c e = rw (e, handle_frame) refl

  pub handle_metadata :
      (now : ℕ) (sent mapped : Bool) (payload : Bytes) (addr : Addr) (s : Server)
      (m : TransferManifest)
      → decode_manifest payload ≡ ok m
      → get_item ◌==◌ query_path_key m.metadata ≡ none
      → handle_frame sha256 config now sent mapped metadata payload addr s
        ≡ prepare_transfer sha256 config now sent mapped m addr s
  unfolding handle_frame maybe_handle_file_info_query
  handle_metadata now sent mapped payload addr s m e f =
      rw (e, handle_frame) (rw (f, maybe_handle_file_info_query) refl)

  abbrev handled : ℕ → Bool → Bool → Addr → Server → Result ParsedFrame → Server × List Effect
  handled now sent mapped addr s p = handle_parsed sha256 config now sent mapped p addr s

  handle-Carries :
      {A : Type 0} (now : ℕ) (sent mapped : Bool) (addr : Addr) (s : Server)
      (decode : Bytes → Result A) (p : Result ParsedFrame) (ty : FrameType) (a : A)
      (r : Server × List Effect)
      → Carries decode p ty a
      → ((payload : Bytes)
          → decode payload ≡ ok a
          → handle_frame sha256 config now sent mapped ty payload addr s ≡ r)
      → handle_parsed sha256 config now sent mapped p addr s ≡ r
  unfolding handle_parsed
  handle-Carries now sent mapped addr s decode p ty a r c f =
      ap (handled now sent mapped addr s) c.parsed
      ∙ rw (c.kind, handle_parsed) (f c.frame.payload c.value)

  pub receive-Carries :
      {A : Type 0} (now : ℕ) (sent mapped : Bool) (addr : Addr) (s : Server)
      (decode : Bytes → Result A) (encoded : Result Bytes) (ty : FrameType) (a : A)
      (r : Server × List Effect)
      → (encoded >>= read_frame decode) ≡ ok (some ty, a)
      → ((payload : Bytes)
          → decode payload ≡ ok a
          → handle_frame sha256 config now sent mapped ty payload addr s ≡ r)
      → receive_encoded now sent mapped encoded addr s ≡ r
  unfolding receive_encoded receive
  receive-Carries now sent mapped addr s decode (err e) ty a r h f = absurd (cc)
  receive-Carries now sent mapped addr s decode (ok bytes) ty a r h f =
      handle-Carries now sent mapped addr s decode (decode_frame bytes) ty a r
        (parsed-Carries decode (decode_frame bytes) ty a h) f

  -- The datagrams of chunks of the file, as its sender encodes them.
  pub receive_chunks : Bytes → TransferManifest → Addr → List Arrival → Server → Server
  unfolding receive_encoded
  receive_chunks raw m addr [] s = s
  receive_chunks raw m addr (a ∷ rest) s =
      let chunk = read_chunk raw m.chunk_size a.chunk_index in
      let datagram = encode_data_chunk m.transfer_id a.chunk_index chunk in
      receive_chunks raw m addr rest (receive_encoded a.now a.sent true datagram addr s).0

  module _ (raw : Bytes) (m : TransferManifest) (name : Bytes) (v : IsManifest m name)
      (small : m.chunk_size ≤ 65535) (addr : Addr) where
    receive_chunks_lem :
        (path : FilePath) (order : List Arrival) (s : Server)
        → All (λ a. a.chunk_index < m.total_chunks) order
        → receive_chunks raw m addr order s ≡ accept_chunks config raw m path order s
    unfolding receive_chunks accept_chunks
    receive_chunks_lem path [] s h = refl
    receive_chunks_lem path (a ∷ rest) s h =
        let payload = read_chunk raw m.chunk_size a.chunk_index in
        let chunk : DataChunk = record {
          transfer_id = m.transfer_id;
          chunk_index = a.chunk_index;
          payload = payload;
        } in
        let valid : IsDataChunk chunk = record {
          id_size = v.id_size;
          index_range = omega (arith, h.0, v.total_range);
          payload_range = omega (arith, small, length-read_chunk raw m.chunk_size a.chunk_index);
        } in
        let arrives =
          receive-Carries a.now a.sent true addr s decode_data_chunk
            (encode_data_chunk m.transfer_id a.chunk_index payload) data_frame chunk _
            (data_round_trip chunk valid)
            λ bytes e. handle_data a.now a.sent true bytes addr s chunk e in
        ap (λ r. receive_chunks raw m addr rest r.0) arrives ∙ receive_chunks_lem path rest _ h.1

    pub receive_metadata_lem :
        (now : ℕ) (sent mapped : Bool) (s : Server)
        → get_item ◌==◌ query_path_key m.metadata ≡ none
        → receive_encoded now sent mapped (encode_manifest m) addr s
          ≡ prepare_transfer sha256 config now sent mapped m addr s
    receive_metadata_lem now sent mapped s e =
        receive-Carries now sent mapped addr s decode_manifest (encode_manifest m) metadata m _
          (manifest_round_trip m name v)
          λ bytes f. handle_metadata now sent mapped bytes addr s m f e

    -- A sender encodes a manifest in the ranges of its fields, with the file's size, chunks and hash,
    -- chunks of at most 65535 bytes and no query, and then chunks of the file. A receiver that has not
    -- seen the file and gets the METADATA first and then DATA frames in any order and with any
    -- repetitions, among them one of every chunk, has the file at the destination path after the next
    -- step of the finalization worker, lists the transfer as completed, and sends the last statuses,
    -- which say COMPLETE.
    pub file_comes_over :
        (now mtime : ℕ) (sent mapped : Bool) (path : FilePath) (order : List Arrival) (s : Server)
        → get_item ◌==◌ query_path_key m.metadata ≡ none
        → Unseen m path s
        → Describes m raw
        → m.sha256 ≡ sha256 raw
        → All (λ a. a.chunk_index < m.total_chunks) order
        → ((i : ℕ) → (leb m.total_chunks i || elem i (arrived order)) ≡ true)
        → Delivered sha256 config mtime raw m path
            (receive_chunks raw m addr order
              (receive_encoded now sent mapped (encode_manifest m) addr s).0)
            (deliver raw config.beacon_interval_s order (opened now mapped m path addr))
            (finalize_next sha256 config mtime (
              receive_chunks raw m addr order
                (receive_encoded now sent mapped (encode_manifest m) addr s).0))
    file_comes_over now mtime sent mapped path order s e u d h inside all =
        let begun = (prepare_transfer sha256 config now sent mapped m addr s).0 in
        let same : accept_chunks config raw m path order begun
            ≡ receive_chunks raw m addr order
                (receive_encoded now sent mapped (encode_manifest m) addr s).0 =
          sym (
            ap (λ r. receive_chunks raw m addr order r.0) (receive_metadata_lem now sent mapped s e)
            ∙ receive_chunks_lem path order begun inside) in
        subst
          (λ q.
            Delivered sha256 config mtime raw m path q
              (deliver raw config.beacon_interval_s order (opened now mapped m path addr))
              (finalize_next sha256 config mtime q))
          same
          (receives_file sha256 config mtime raw m path now sent mapped addr order s u d h v.id_size
            all)
