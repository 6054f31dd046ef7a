-- ===== src/Server/Link.antt =====
-- The frames of a sender come over a link that loses, repeats and reorders them behind the first METADATA
-- frame.
use ssync.Prelude.{
  ℕ, ◌≤◌, ◌<◌, ◌≡◌, refl, sym, ap, ◌∙◌, Bool, ◌&&◌, ◌||◌, none, some, List, [], ◌∷◌, ◌++◌, arith,
  ltb, ◌==◌, All,
}
use mathlib.Core.Path.{subst}
use ssync.Struct.{Bytes}
use ssync.Dict.{get_item}
use ssync.Types.{beacon, data_frame, sender, TransferManifest, DataChunk}
use ssync.Ranges.Indexes.{elem, elem-append}
use ssync.Ranges.Cover.{covers}
use ssync.Frames.Beacon.{decode_beacon, beacon_peer_age_never, beacon_round_trip}
use ssync.Frames.Data.{IsDataChunk, decode_data_chunk, encode_data_chunk, data_round_trip}
use ssync.Frames.Manifest.Laws.{IsManifest}
use ssync.Sender.{read_chunk}
use ssync.Sender.OpenLoop.{Outgoing, metadata_frame, beacon_frame, chunk_frame, encode_outgoing}
use ssync.Sender.OpenLoop.Stream.{IsOwn}
use ssync.Sender.OpenLoop.Steps.{chunk_indexes, chunk_indexes-append}
use ssync.Receiver.{FilePath, Addr, Transfer}
use ssync.Receiver.Chunks.{length-read_chunk}
use ssync.Receiver.Deliver.{has, has-accept_data}
use ssync.Paths.{safe_destination_path}
use ssync.Server.{ReceiverConfig, Server}
use ssync.Server.Completed.{query_path_key}
use ssync.Server.Accept.{accept_chunk}
use ssync.Server.Dispatch.{handle_frame, receive_beacon}
use ssync.Server.Datagrams.{receive_encoded, handle_data, receive-Carries, receive_metadata_lem}
use ssync.Server.Waiting.{Waiting, Keeps, beacon-Waiting, metadata-Waiting, chunk-Waiting}

-- A frame that comes over: when, whether the receiver can send a beacon and map a file, and which frame.
pub record Reception : Type 0 where
  pub now : ℕ
  pub sent : Bool
  pub mapped : Bool
  pub frame : Outgoing

abbrev pub frames_of : List Reception → List Outgoing
frames_of [] = []
frames_of (r ∷ rest) = r.frame ∷ frames_of rest

module _ (sha256 : Bytes → Bytes) (config : ReceiverConfig) (raw : Bytes) (m : TransferManifest)
    (addr : Addr) where
  unfoldable pub receive_frame : Reception → Server → Server
  unfolding encode_outgoing receive_encoded
  receive_frame r s =
      (receive_encoded sha256 config r.now r.sent r.mapped (encode_outgoing raw m r.frame) addr s).0

  unfoldable pub receive_frames : List Reception → Server → Server
  unfolding receive_frame
  receive_frames [] s = s
  receive_frames (r ∷ rest) s = receive_frames rest (receive_frame r s)

  module _ (name : Bytes) (v : IsManifest m name) (small : m.chunk_size ≤ 65535) where
    beacon_lem :
        (now : ℕ) (sent mapped : Bool) (s : Server)
        → receive_encoded sha256 config now sent mapped (encode_outgoing raw m beacon_frame) addr s
          ≡ receive_beacon now addr m.transfer_id beacon_peer_age_never s
    unfolding encode_outgoing
    beacon_lem now sent mapped s =
        receive-Carries sha256 config now sent mapped addr s decode_beacon _ beacon
          (sender, m.transfer_id, beacon_peer_age_never) _
          (beacon_round_trip sender m.transfer_id beacon_peer_age_never v.id_size (omega arith))
          λ bytes e. unfold handle_frame in rw (e, handle_frame) refl

    chunk_lem :
        (now : ℕ) (sent mapped : Bool) (i : ℕ) (s : Server)
        → i < m.total_chunks
        → receive_encoded sha256 config now sent mapped
            (encode_outgoing raw m (chunk_frame i))
            addr
            s
          ≡ accept_chunk config now sent m.transfer_id i (read_chunk raw m.chunk_size i) s
    unfolding encode_outgoing
    chunk_lem now sent mapped i s h =
        let payload = read_chunk raw m.chunk_size i in
        let chunk : DataChunk = record {
          transfer_id = m.transfer_id;
          chunk_index = i;
          payload = payload;
        } in
        let valid : IsDataChunk chunk = record {
          id_size = v.id_size;
          index_range = omega (arith, h, v.total_range);
          payload_range = omega (arith, small, length-read_chunk raw m.chunk_size i);
        } in
        receive-Carries sha256 config now sent mapped addr s decode_data_chunk
          (encode_data_chunk m.transfer_id i payload) data_frame chunk _
          (data_round_trip chunk valid)
          λ bytes e. handle_data sha256 config now sent mapped bytes addr s chunk e

    joined :
        (j : ℕ) (xs ys : List ℕ) (b : Bool)
        → ((ltb j m.total_chunks && elem j ys) || ((ltb j m.total_chunks && elem j xs) || b))
          ≡ ((ltb j m.total_chunks && elem j (xs ++ ys)) || b)
    joined j xs ys b = rw (elem-append j xs ys) (ground arith)

    module _ (path : FilePath) (destination : safe_destination_path m.file_name ≡ some path)
        (no_query : get_item ◌==◌ query_path_key m.metadata ≡ none) where
      -- The receiver waits on, and has the chunks besides what it had.
      abbrev pub Gets : List ℕ → Server → Transfer → Type 0
      Gets is s t =
          (t' : Transfer) × Waiting raw m path s t'
          × ((j : ℕ) → has t' j ≡ ((ltb j m.total_chunks && elem j is) || has t j))

      kept-Gets :
          (s : Server) (t : Transfer) → Keeps sha256 config raw m path destination s t → Gets [] s t
      kept-Gets s t (t', w, c) =
          (t', w, λ j. ap (λ x. covers x.tracker.received_ranges j) c ∙ ground arith)

      chunk-Gets :
          (now : ℕ) (sent : Bool) (i : ℕ) (s : Server) (t : Transfer)
          → Waiting raw m path s t
          → i < m.total_chunks
          → Gets
              (i ∷ [])
              (accept_chunk config now sent m.transfer_id i (read_chunk raw m.chunk_size i) s).0
              t
      chunk-Gets now sent i s t w h = (
        _,
        chunk-Waiting sha256 config raw m path destination now sent i s t w,
        λ j.
            has-accept_data raw config.beacon_interval_s now sent i t j w.serving.holds
            ∙ ap (λ x. (ltb i x.total_chunks && (i == j)) || has t j) w.serving.same
            ∙ ground arith,
      )

      frame-Gets :
          (frame : Outgoing) (now : ℕ) (sent mapped : Bool) (s : Server) (t : Transfer)
          → Waiting raw m path s t
          → IsOwn m.total_chunks frame
          → Gets
              (chunk_indexes (frame ∷ []))
              (receive_encoded sha256 config now sent mapped (encode_outgoing raw m frame) addr s).0
              t
      unfolding chunk_indexes encode_outgoing
      frame-Gets metadata_frame now sent mapped s t w h =
          subst (λ q. Gets [] q.0 t)
            (sym (
              receive_metadata_lem sha256 config raw m name v small addr now sent mapped s
                no_query))
            (kept-Gets _ t
              (metadata-Waiting sha256 config raw m path destination now sent mapped addr s t w))
      frame-Gets beacon_frame now sent mapped s t w h =
          subst (λ q. Gets [] q.0 t) (sym (beacon_lem now sent mapped s))
            (kept-Gets _ t (
              beacon-Waiting sha256 config raw m path destination now addr beacon_peer_age_never s t
                w))
      frame-Gets (chunk_frame i) now sent mapped s t w h =
          subst (λ q. Gets (i ∷ []) q.0 t) (sym (chunk_lem now sent mapped i s h))
            (chunk-Gets now sent i s t w h)

      pub frames-Gets :
          (rs : List Reception) (s : Server) (t : Transfer)
          → Waiting raw m path s t
          → All (IsOwn m.total_chunks) (frames_of rs)
          → Gets (chunk_indexes (frames_of rs)) (receive_frames rs s) t
      unfolding receive_frames receive_frame chunk_indexes
      frames-Gets [] s t w h = (t, w, λ j. ground arith)
      frames-Gets (r ∷ rs) s t w h =
          let (t', w', gets) = frame-Gets r.frame r.now r.sent r.mapped s t w h.0 in
          let (t'', w'', later) = frames-Gets rs (receive_frame r s) t' w' h.1 in
          (
            t'',
            w'',
            λ j.
                later j
                ∙ ap (λ b. (ltb j m.total_chunks && elem j (chunk_indexes (frames_of rs))) || b)
                    (gets j)
                ∙ joined j (chunk_indexes (r.frame ∷ [])) (chunk_indexes (frames_of rs)) (has t j)
                ∙ ap (λ is. (ltb j m.total_chunks && elem j is) || has t j)
                    (sym (chunk_indexes-append (r.frame ∷ []) (frames_of rs))),
          )
