-- ===== src/Server/Events.antt =====
-- Any sequence of what happens to the receiver, from its start without a journal.
use ssync.Prelude.{
  none, some, Option-cases, inl, inr, ℕ, Bool, true, false, if◌then◌else◌, List, [], ◌∷◌,
}
use ssync.Struct.{Bytes}
use ssync.Frames.{decode_frame}
use ssync.Receiver.{Addr, FilePath, Effect, raises}
use ssync.PreMetadata.{evict_expired}
use ssync.Server.{ReceiverConfig, StoredFile, Server, started}
use ssync.Journal.Clear.{consume_clear_request, clear_server, clear_on_request}
use ssync.Server.Finalize.{finalize_next}
use ssync.Server.Tick.{
  flush_transfer_mmap, tick_transfer, timer_transfer, active_ids, tick_periodic_repairs,
  repair_timer, maintain,
}
use ssync.Server.Dispatch.{receive}
use ssync.Server.Table.{empty-IsTable}
use ssync.Server.Consistency.{IsConsistent}
use ssync.Server.Run.{
  manifest-flush, manifest-timer, for_each-IsConsistent, manifest-tick, parsed-IsConsistent,
  next-IsConsistent,
}

-- A datagram comes, none comes for a time, the repair timer fires, the maintenance loop makes a pass or
-- looks for a request to clear, or the finalization worker makes a step. The arguments are what the world adds: times, whether datagrams can
-- be sent and files mapped, the bytes and the address of a datagram, and the time of a file.
pub data ServerEvent : Type 0 where
  datagram : ℕ → Bool → Bool → Bytes → Addr → ServerEvent
  silence : ℕ → Bool → ServerEvent
  repair_time maintenance_time : ℕ → ServerEvent
  finalization : ℕ → ServerEvent
  clear_request : ℕ → Bool → ℕ → ServerEvent

-- An exception in the thread of `run` ends it; an exception in another thread ends that thread only, and
-- the receiver goes on with fewer events.
abbrev pub ends_run : ServerEvent → List Effect → Bool
ends_run (datagram now sent mapped bytes addr) effects = raises effects
ends_run (silence now sent) effects = raises effects
ends_run event effects = false

module _ (sha256 : Bytes → Bytes) (config : ReceiverConfig) where
  abbrev pub handle_event : ServerEvent → Server → Server × List Effect
  handle_event (datagram now sent mapped bytes addr) s =
      receive sha256 config now sent mapped bytes addr s
  handle_event (silence now sent) s = tick_periodic_repairs config now sent s
  handle_event (repair_time now) s = repair_timer config now s
  handle_event (maintenance_time now) s = maintain config now s
  handle_event (finalization mtime) s = finalize_next sha256 config mtime s
  handle_event (clear_request now refused mtime) s = elim (clear_on_request now refused mtime s) [
    | none ↦ (s, [])
    | some cleared ↦ cleared
  ]

  unfoldable pub run_server : List ServerEvent → Server → Server
  run_server [] s = s
  run_server (event ∷ events) s =
      let (handled, effects) = handle_event event s in
      let later = run_server events handled in if ends_run event effects then handled else later

  handle-IsConsistent :
      (event : ServerEvent) (s : Server) → IsConsistent s → IsConsistent (handle_event event s).0
  unfolding receive tick_periodic_repairs repair_timer maintain clear_on_request clear_server
  handle-IsConsistent (datagram now sent mapped bytes addr) s v =
      parsed-IsConsistent sha256 config now sent mapped addr (decode_frame bytes) s v
  handle-IsConsistent (silence now sent) s v =
      for_each-IsConsistent config now (tick_transfer config now sent)
        (manifest-tick config now sent) (active_ids s.transfers) s v
  handle-IsConsistent (repair_time now) s v =
      for_each-IsConsistent config now (timer_transfer config now) (manifest-timer config now)
        (active_ids s.transfers) s v
  handle-IsConsistent (maintenance_time now) s v =
      for_each-IsConsistent config now (flush_transfer_mmap config now) (manifest-flush config now)
        (active_ids s.transfers)
        (record s { pre_metadata = evict_expired config.pre_metadata now s.pre_metadata }) v
  handle-IsConsistent (finalization mtime) s v = next-IsConsistent sha256 config mtime s v
  handle-IsConsistent (clear_request now refused mtime) s v =
      elim (Option-cases (consume_clear_request s)) [
        | inl e ↦ rw (e, handle_event, clear_on_request) v
        | inr (requested, e) ↦ rw (e, handle_event, clear_on_request) empty-IsTable
      ]

  kept_server :
      (b : Bool) (x y : Server)
      → IsConsistent x
      → IsConsistent y
      → IsConsistent (if b then x else y)
  kept_server true x y h k = h
  kept_server false x y h k = k

  run-IsConsistent :
      (events : List ServerEvent) (s : Server) → IsConsistent s → IsConsistent (run_server events s)
  unfolding run_server
  run-IsConsistent [] s v = v
  run-IsConsistent (event ∷ events) s v =
      let handled = (handle_event event s).0 in
      let kept = handle-IsConsistent event s v in
      kept_server (ends_run event (handle_event event s).1) handled (run_server events handled) kept
        (run-IsConsistent events handled kept)

  -- Whatever datagrams come, in whatever order with the ticks of the clocks and the steps of the
  -- finalization worker, in a receiver that has started without a journal no transfer id is there
  -- twice, each transfer stands under the id of its manifest, and the index leads from the signature of
  -- each transfer to it and from no other signature to anything, so no two have the same signature.
  pub run_server-IsConsistent :
      (events : List ServerEvent) (files : List (FilePath × StoredFile))
      → IsConsistent (run_server events (started files))
  run_server-IsConsistent events files = run-IsConsistent events (started files) empty-IsTable
