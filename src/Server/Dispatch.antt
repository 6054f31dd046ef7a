-- ===== src/Server/Dispatch.antt =====
-- src/ssync/space_sync/receiver.py: the loop of `run` for one datagram, and `_handle_frame`.
use ssync.Prelude.{ℕ, Bool, none, some, List, [], ◌∷◌, if◌then◌else◌}
use ssync.Result.{Result, ok, err}
use ssync.Struct.{Bytes}
use ssync.Dict.{get_item, set_item}
use ssync.Types.{FrameType, metadata, data_frame, status, beacon}
use ssync.Frames.{ParsedFrame, bytes_eq, decode_frame}
use ssync.Frames.Manifest.{decode_manifest}
use ssync.Frames.Data.{decode_data_chunk}
use ssync.Frames.Beacon.{decode_beacon}
use ssync.Receiver.{Addr, Transfer, Effect, mark_journal_dirty, publish_beacon}
use ssync.Server.{ReceiverConfig, Server}
use ssync.Server.Completed.{maybe_handle_file_info_query}
use ssync.Server.Accept.{accept_chunk}
use ssync.Server.Prepare.{prepare_transfer}

-- A BEACON of a transfer.
unfoldable pub receive_beacon : ℕ → Addr → Bytes → ℕ → Server → Server × List Effect
receive_beacon now source_addr transfer_id peer_age s =
    elim (get_item bytes_eq transfer_id s.transfers) [
      | none ↦ (s, [])
      | some t ↦
          let heard : Transfer = record t {
            source_addr = source_addr;
            last_activity_s = now;
            last_beacon_rx_s = now;
            last_sender_peer_age_ms = peer_age;
          } in
          if t.finalized then (s, []) else (
            record s { transfers = set_item bytes_eq transfer_id heard s.transfers },
            mark_journal_dirty ∷ publish_beacon ∷ [],
          )
    ]

module _ (sha256 : Bytes → Bytes) where
  unfoldable pub handle_frame :
      ReceiverConfig → ℕ → Bool → Bool → FrameType → Bytes → Addr → Server → Server × List Effect
  unfolding receive_beacon
  handle_frame config now sent mapped metadata payload source_addr s =
      elim (decode_manifest payload) [
        | err e ↦ (s, [])
        | ok manifest ↦ elim (maybe_handle_file_info_query sha256 manifest source_addr s) [
          | some answers ↦ (s, answers)
          | none ↦ prepare_transfer sha256 config now sent mapped manifest source_addr s
        ]
      ]
  handle_frame config now sent mapped data_frame payload source_addr s =
      elim (decode_data_chunk payload) [
        | err e ↦ (s, [])
        | ok chunk ↦
            accept_chunk config now sent chunk.transfer_id chunk.chunk_index chunk.payload s
      ]
  handle_frame config now sent mapped beacon payload source_addr s = elim (decode_beacon payload) [
    | err e ↦ (s, [])
    | ok heard ↦ receive_beacon now source_addr heard.1 heard.2 s
  ]
  handle_frame config now sent mapped status payload source_addr s = (s, [])

  -- What is done with the outcome of `decode_frame`.
  unfoldable pub handle_parsed :
      ReceiverConfig → ℕ → Bool → Bool → Result ParsedFrame → Addr → Server → Server × List Effect
  unfolding handle_frame
  handle_parsed config now sent mapped (err e) source_addr s = (s, [])
  handle_parsed config now sent mapped (ok frame) source_addr s = elim frame.frame_type [
    | none ↦ (s, [])
    | some frame_type ↦ handle_frame config now sent mapped frame_type frame.payload source_addr s
  ]

  -- A datagram that came in.
  unfoldable pub receive :
      ReceiverConfig → ℕ → Bool → Bool → Bytes → Addr → Server → Server × List Effect
  unfolding handle_parsed
  receive config now sent mapped datagram source_addr s =
      handle_parsed config now sent mapped (decode_frame datagram) source_addr s
