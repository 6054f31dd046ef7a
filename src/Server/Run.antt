-- ===== src/Server/Run.antt =====
-- The handlers, the ticks and the finalization worker keep the table and its index consistent.
use ssync.Prelude.{
  ℕ, ◌≡◌, refl, ap, ◌∙◌, ◌⊎◌, inl, inr, Bool, true, false, ◌&&◌, ◌||◌, none, some, List, [], ◌∷◌,
  ◌++◌, arith, ltb, if◌then◌else◌, Option-cases,
}
use ssync.Result.{Result, ok, err, Result-cases}
use ssync.Struct.{Bytes}
use ssync.Dict.{get_item}
use ssync.Types.{FrameType, metadata, data_frame, status, beacon}
use ssync.Ranges.{Range}
use ssync.Tracker.{missing_ranges}
use ssync.Frames.{ParsedFrame, bytes_eq}
use ssync.Frames.Manifest.{decode_manifest}
use ssync.Frames.Data.{decode_data_chunk}
use ssync.Frames.Beacon.{decode_beacon}
use ssync.Receiver.{Addr, Transfer, Effect, maybe_send_beacon, raises}
use ssync.Receiver.Copy.{core-beacon}
use ssync.Receiver.Repair.{
  RepairConfig, can_send_repair_request, send_repair_request, maybe_send_periodic_repair_request,
}
use ssync.Server.{ReceiverConfig, Server, put_transfer}
use ssync.Server.Completed.{maybe_handle_file_info_query}
use ssync.Server.Finalize.{finalize_transfer, finalize_next}
use ssync.Server.Tick.{
  flush_transfer_mmap, maybe_finalize_stale_transfer, tick_transfer, timer_transfer, for_each,
}
use ssync.Server.Dispatch.{receive_beacon, handle_frame, handle_parsed}
use ssync.Server.Table.Changes.{change-IsTable}
use ssync.Server.Consistency.{
  IsConsistent, put-IsConsistent, manifest-queue, accept-IsConsistent, remove-IsConsistent,
}
use ssync.Server.Opened.{kept_if, prepare-IsConsistent}

manifest-periodic :
    (config : RepairConfig) (now : ℕ) (t : Transfer)
    → (maybe_send_periodic_repair_request config now t).0.manifest ≡ t.manifest
unfolding maybe_send_periodic_repair_request can_send_repair_request send_repair_request
manifest-periodic config now t = ground arith

module _ (config : ReceiverConfig) (now : ℕ) where
  pub manifest-flush : (t : Transfer) → (flush_transfer_mmap config now t).0.manifest ≡ t.manifest
  unfolding flush_transfer_mmap
  manifest-flush t = ground arith

  manifest-stale :
      (t : Transfer) → (maybe_finalize_stale_transfer config now t).0.manifest ≡ t.manifest
  unfolding maybe_finalize_stale_transfer
  manifest-stale t = ground (arith, manifest-queue now (missing_ranges t.tracker) t)

  pub manifest-timer : (t : Transfer) → (timer_transfer config now t).0.manifest ≡ t.manifest
  unfolding timer_transfer
  manifest-timer t = ground (arith, manifest-periodic config.repair now t)

  pub for_each-IsConsistent :
      (step : Transfer → Transfer × List Effect)
      → ((t : Transfer) → (step t).0.manifest ≡ t.manifest)
      → (ids : List Bytes) (s : Server) → IsConsistent s
      → IsConsistent (for_each step ids s).0
  unfolding for_each
  for_each-IsConsistent step h [] s v = v
  for_each-IsConsistent step h (id ∷ ids) s v =
      let stepped : Server × List Effect = elim (get_item bytes_eq id s.transfers) [
        | none ↦ (s, [])
        | some t ↦ put_transfer id (step t) s
      ] in
      let kept : IsConsistent stepped.0 = elim (Option-cases (get_item bytes_eq id s.transfers)) [
        | inl e ↦ rw e v
        | inr (t, e) ↦ rw e (put-IsConsistent id t (step t) s v e (h t))
      ] in
      kept_if (raises stepped.1) stepped (_, _) (λ _. kept)
        λ _. for_each-IsConsistent step h ids stepped.0 kept

  manifest-if :
      (t : Transfer) (b : Bool) (x y : Transfer × List Effect)
      → x.0.manifest ≡ t.manifest
      → y.0.manifest ≡ t.manifest
      → (if b then x else y).0.manifest ≡ t.manifest
  manifest-if t true x y e f = e
  manifest-if t false x y e f = f

  pub manifest-tick :
      (sent : Bool) (t : Transfer) → (tick_transfer config now sent t).0.manifest ≡ t.manifest
  unfolding tick_transfer
  manifest-tick sent t =
      let (beaconed, effects) = maybe_send_beacon config.beacon_interval_s now sent t in
      let asks = config.repair.enable_feedback && ltb 0 config.repair.periodic_repair_request_s in
      let requested = maybe_send_periodic_repair_request config.repair now beaconed in
      let asked : Transfer × List Effect = if asks then requested else (beaconed, []) in
      let flushed = (flush_transfer_mmap config now asked.0).0 in
      let named : asked.0.manifest ≡ t.manifest =
        manifest-if beaconed asks requested (beaconed, [])
          (manifest-periodic config.repair now beaconed) refl
        ∙ ap (λ c. c.manifest) (core-beacon config.beacon_interval_s now sent t) in
      manifest-if t (t.done || t.finalized) (t, []) (_, _) refl
        (manifest-if t (raises asked.1) (asked.0, effects ++ asked.1) (_, _) named
          (manifest-stale flushed ∙ manifest-flush asked.0 ∙ named))

  beacon-IsConsistent :
      (addr : Addr) (id : Bytes) (peer_age : ℕ) (s : Server)
      → IsConsistent s
      → IsConsistent (receive_beacon now addr id peer_age s).0
  unfolding receive_beacon
  beacon-IsConsistent addr id peer_age s v =
      elim (Option-cases (get_item bytes_eq id s.transfers)) [
        | inl e ↦ rw (e, receive_beacon) v
        | inr (t, e) ↦
            rw (e, receive_beacon)
              (kept_if t.finalized (s, []) (_, _) (λ _. v)
                λ _. change-IsTable s.transfers _ v id t _ e refl)
      ]

module _ (sha256 : Bytes → Bytes) (config : ReceiverConfig) where
  module _ (now : ℕ) (sent mapped : Bool) (addr : Addr) where
    frame-IsConsistent :
        (ty : FrameType) (payload : Bytes) (s : Server)
        → IsConsistent s
        → IsConsistent (handle_frame sha256 config now sent mapped ty payload addr s).0
    unfolding handle_frame
    frame-IsConsistent metadata payload s v = elim (Result-cases (decode_manifest payload)) [
      | inl (m, e) ↦
          rw (e, handle_frame)
            (elim (Option-cases (maybe_handle_file_info_query sha256 m addr s)) [
              | inl f ↦ rw f (prepare-IsConsistent sha256 config now sent mapped m addr s v)
              | inr (answers, f) ↦ rw f v
            ])
      | inr (x, e) ↦ rw (e, handle_frame) v
    ]
    frame-IsConsistent data_frame payload s v = elim (Result-cases (decode_data_chunk payload)) [
      | inl (c, e) ↦
          rw (e, handle_frame)
            (accept-IsConsistent config now sent c.transfer_id c.chunk_index c.payload s v)
      | inr (x, e) ↦ rw (e, handle_frame) v
    ]
    frame-IsConsistent beacon payload s v = elim (Result-cases (decode_beacon payload)) [
      | inl (b, e) ↦ rw (e, handle_frame) (beacon-IsConsistent config now addr b.1 b.2 s v)
      | inr (x, e) ↦ rw (e, handle_frame) v
    ]
    frame-IsConsistent status payload s v = v

    pub parsed-IsConsistent :
        (p : Result ParsedFrame) (s : Server)
        → IsConsistent s
        → IsConsistent (handle_parsed sha256 config now sent mapped p addr s).0
    unfolding handle_parsed
    parsed-IsConsistent (err e) s v = v
    parsed-IsConsistent (ok frame) s v = elim (Option-cases frame.frame_type) [
      | inl e ↦ rw (e, handle_parsed) v
      | inr (ty, e) ↦ rw (e, handle_parsed) (frame-IsConsistent ty frame.payload s v)
    ]

  finalize-IsConsistent :
      (mtime : ℕ) (t : Transfer) (missing : List Range) (s : Server)
      → IsConsistent s
      → IsConsistent (finalize_transfer sha256 config mtime t missing s).0
  unfolding finalize_transfer
  finalize-IsConsistent mtime t missing s v = remove-IsConsistent t.manifest.transfer_id s v

  pub next-IsConsistent :
      (mtime : ℕ) (s : Server)
      → IsConsistent s
      → IsConsistent (finalize_next sha256 config mtime s).0
  unfolding finalize_next
  next-IsConsistent mtime s v = elim (queue_cases s.finalize_queue) [
    | inl e ↦ rw (e, finalize_next) v
    | inr (id, missing, rest, e) ↦
        rw (e, finalize_next)
          (elim (Option-cases (get_item bytes_eq id s.transfers)) [
            | inl f ↦ rw f v
            | inr (t, f) ↦ rw f (finalize-IsConsistent mtime t missing _ v)
          ])
  ]
    where
      queue_cases :
          (q : List (Bytes × List Range))
          → (q ≡ [])
            ⊎ ((id : Bytes) × (missing : List Range) × (rest : List (Bytes × List Range)) × (q
                  ≡ (id, missing) ∷ rest))
      queue_cases [] = inl refl
      queue_cases ((id, missing) ∷ rest) = inr (id, missing, rest, refl)
