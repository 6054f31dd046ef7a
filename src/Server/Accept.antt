-- ===== src/Server/Accept.antt =====
-- src/ssync/space_sync/receiver.py: `_accept_data` with the lookup of the transfer. `sent` says what
-- `_sendto_best_effort` answers for the beacons in the call.
use ssync.Prelude.{ℕ, Bool, none, some, List, [], ◌∷◌, ◌++◌}
use ssync.Struct.{Bytes}
use ssync.Dict.{get_item}
use ssync.Frames.{bytes_eq}
use ssync.Receiver.{Effect, accept_data}
use ssync.PreMetadata.{buffer_chunk}
use ssync.Server.{ReceiverConfig, Server, put_transfer}

unfoldable pub accept_chunk :
    ReceiverConfig → ℕ → Bool → Bytes → ℕ → Bytes → Server → Server × List Effect
unfolding put_transfer
accept_chunk config now sent transfer_id chunk_index payload s =
    elim (get_item bytes_eq transfer_id s.transfers) [
      | none ↦ (
        record s {
          pre_metadata =
              buffer_chunk config.pre_metadata now transfer_id chunk_index payload s.pre_metadata;
        },
        [],
      )
      | some t ↦
          put_transfer transfer_id
            (accept_data config.beacon_interval_s now sent chunk_index payload t) s
    ]

-- The chunks that came before the metadata, one after the other.
unfoldable pub replay :
    ReceiverConfig → ℕ → Bool → Bytes → List (ℕ × Bytes) → Server → Server × List Effect
unfolding accept_chunk
replay config now sent transfer_id [] s = (s, [])
replay config now sent transfer_id ((chunk_index, payload) ∷ rest) s =
    let (accepted, effects) = accept_chunk config now sent transfer_id chunk_index payload s in
    let (replayed, later_effects) = replay config now sent transfer_id rest accepted in
    (replayed, effects ++ later_effects)
