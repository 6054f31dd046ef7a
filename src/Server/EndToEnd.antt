-- ===== src/Server/EndToEnd.antt =====
-- A file comes from a sender in the open loop to a receiver.
use ssync.Prelude.{ℕ, ◌≤◌, ◌≡◌, Bool, true, none, List, ◌==◌}
use ssync.Struct.{Bytes}
use ssync.Dict.{get_item}
use ssync.Types.{TransferManifest}
use ssync.Frames.Manifest.Laws.{IsManifest}
use ssync.Sender.OpenLoop.{SenderConfig, Outgoing, metadata_frame}
use ssync.Sender.OpenLoop.Send.{World, send_open_loop}
use ssync.Receiver.{FilePath, Addr}
use ssync.Receiver.Reassembly.{Describes}
use ssync.Server.{ReceiverConfig, Server}
use ssync.Server.Completed.{query_path_key}
use ssync.Server.Opening.{Unseen}
use ssync.Server.Waiting.{Waiting}
use ssync.Server.Link.{Reception}

module _ (sha256 : Bytes → Bytes) (config : ReceiverConfig) (raw : Bytes) (m : TransferManifest)
    (addr : Addr) (name : Bytes) (v : IsManifest m name) (small : m.chunk_size ≤ 65535)
    (path : FilePath) (s : Server) (no_query : get_item ◌==◌ query_path_key m.metadata ≡ none)
    (u : Unseen m path s) (d : Describes m raw) (same_hash : m.sha256 ≡ sha256 raw) where
  -- The METADATA frame that comes first.
  abbrev first : ℕ → Bool → Bool → Reception
  first now sent mapped = record { now = now; sent = sent; mapped = mapped; frame = metadata_frame }

  -- All frames of a send come over, in their order.
  module _ (sender_config : SenderConfig) (world : World) where
    abbrev sent_frames : List Outgoing
    sent_frames = (send_open_loop sender_config m raw world true).0
