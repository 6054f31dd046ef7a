-- ===== src/Server/Tick.antt =====
-- src/ssync/space_sync/receiver.py: what the receiver does by the clock: `_tick_periodic_repairs` when
-- no datagram came for a time, `_run_repair_timer` on its own thread, `_flush_transfer_mmap` and
-- `_maybe_finalize_stale_transfer`. A pass takes the transfers in the order of the table.
use ssync.Prelude.{
  ℕ, ◌-◌, Bool, false, not, ◌&&◌, ◌||◌, none, some, List, [], ◌∷◌, ◌++◌, ltb, leb, if◌then◌else◌,
}
use ssync.Struct.{Bytes}
use ssync.Dict.{get_item}
use ssync.Tracker.{missing_ranges}
use ssync.Frames.{bytes_eq}
use ssync.Receiver.{
  Transfer, Effect, mark_journal_dirty, flush_mmap, maybe_send_beacon, queue_finalization, raises,
}
use ssync.Receiver.Repair.{no_ranges, maybe_send_periodic_repair_request}
use ssync.PreMetadata.{evict_expired}
use ssync.Server.{ReceiverConfig, Server, is_streaming, put_transfer}

unfoldable pub flush_transfer_mmap : ReceiverConfig → ℕ → Transfer → Transfer × List Effect
flush_transfer_mmap config now t =
    if not t.is_mapped || not t.mmap_dirty
    then (t, [])
    else if ltb 0 config.journal_flush_interval_s
        && ltb (now - t.last_mmap_flush_s) config.journal_flush_interval_s
    then (t, [])
    else (record t { mmap_dirty = false; last_mmap_flush_s = now }, flush_mmap ∷ [])

unfoldable pub maybe_finalize_stale_transfer :
    ReceiverConfig → ℕ → Transfer → Transfer × List Effect
maybe_finalize_stale_transfer config now t =
    let missing = missing_ranges t.tracker in
    if t.finalized
    then (t, [])
    else if leb config.transfer_inactivity_timeout_s 0
    then (t, [])
    else if ltb (now - t.last_activity_s) config.transfer_inactivity_timeout_s
    then (t, [])
    else if no_ranges missing
    then queue_finalization now missing t
    else (
      record t {
        last_activity_s = now;
        repair_request_in_flight = false;
        requested_chunks_at_last_request = 0;
      },
      mark_journal_dirty ∷ [],
    )

-- One transfer of `_tick_periodic_repairs`.
unfoldable pub tick_transfer : ReceiverConfig → ℕ → Bool → Transfer → Transfer × List Effect
unfolding flush_transfer_mmap maybe_finalize_stale_transfer
tick_transfer config now sent t =
    let (beaconed, beacon_effects) = maybe_send_beacon config.beacon_interval_s now sent t in
    let (requested, request_effects) =
      maybe_send_periodic_repair_request config.repair now beaconed in
    let asks = config.repair.enable_feedback && ltb 0 config.repair.periodic_repair_request_s in
    let asked : Transfer × List Effect =
      if asks then (requested, request_effects) else (beaconed, []) in
    let (flushed, flush_effects) = flush_transfer_mmap config now asked.0 in
    let (ended, end_effects) = maybe_finalize_stale_transfer config now flushed in
    if t.done || t.finalized
    then (t, [])
    else if raises asked.1
    then (asked.0, beacon_effects ++ asked.1)
    else (ended, beacon_effects ++ (asked.1 ++ (flush_effects ++ end_effects)))

-- One transfer of `_run_repair_timer`.
unfoldable pub timer_transfer : ReceiverConfig → ℕ → Transfer → Transfer × List Effect
timer_transfer config now t =
    if t.done || t.finalized
    then (t, [])
    else if is_streaming config now t
    then (t, [])
    else maybe_send_periodic_repair_request config.repair now t

-- `list(self._transfers.values())`, by their keys
pub active_ids : List (Bytes × Transfer) → List Bytes
active_ids [] = []
active_ids ((transfer_id, t) ∷ rest) = transfer_id ∷ active_ids rest

-- The step for each of the transfers that are still there; an error of an encoder ends the loop.
unfoldable pub for_each :
    (Transfer → Transfer × List Effect) → List Bytes → Server → Server × List Effect
unfolding put_transfer
for_each step [] s = (s, [])
for_each step (transfer_id ∷ rest) s =
    let stepped : Server × List Effect = elim (get_item bytes_eq transfer_id s.transfers) [
      | none ↦ (s, [])
      | some t ↦ put_transfer transfer_id (step t) s
    ] in
    let (later, effects) = for_each step rest stepped.0 in
    if raises stepped.1 then stepped else (later, stepped.1 ++ effects)

unfoldable pub tick_periodic_repairs : ReceiverConfig → ℕ → Bool → Server → Server × List Effect
unfolding tick_transfer active_ids for_each
tick_periodic_repairs config now sent s =
    for_each (tick_transfer config now sent) (active_ids s.transfers) s

unfoldable pub repair_timer : ReceiverConfig → ℕ → Server → Server × List Effect
unfolding timer_transfer active_ids for_each
repair_timer config now s = for_each (timer_transfer config now) (active_ids s.transfers) s

-- A pass of `_run_maintenance_loop`, but for the clear request and the journal.
unfoldable pub maintain : ReceiverConfig → ℕ → Server → Server × List Effect
unfolding flush_transfer_mmap active_ids for_each
maintain config now s =
    for_each (flush_transfer_mmap config now) (active_ids s.transfers)
      (record s { pre_metadata = evict_expired config.pre_metadata now s.pre_metadata })
