-- ===== src/Sender/OpenLoop/Announced.antt =====
-- A send in the open loop that reports its completion has sent METADATA first.
use ssync.Prelude.{
  ℕ, zero, suc, ◌-◌, ◌<◌, ◌≡◌, refl, inl, inr, true, ◌||◌, [], arith, leb, ◌==◌, Bool-cases, All,
}
use ssync.Struct.{Bytes}
use ssync.Types.{TransferManifest}
use ssync.Ranges.{index_run}
use ssync.Sender.OpenLoop.{
  SenderConfig, metadata_frame, SendState, Step, going, aborted, raised, announce, send_chunks,
  resend_chunks, put_frame,
}
use ssync.Sender.OpenLoop.Send.{
  World, tail_indexes, settle, send_result, close_open_loop, is_completed, chunk_at, send_data,
  initial_state, after_announce, send_open_loop,
}
use ssync.Sender.OpenLoop.Steps.{OnGoing, OnGoing-if, OnGoing-continue, OnGoing-sendto}
use ssync.Frames.Manifest.{encode_manifest}
use ssync.Sender.OpenLoop.Coverage.{All-run}
use ssync.Sender.OpenLoop.Stream.{
  IsStream, Streams, OnStep, OnStep-continue, beacon-Streams, announce-Streams, send_chunks-Streams,
  resend_chunks-Streams,
}

on_going : (P : SendState → Type 0) (r : Step) → OnStep P r → OnGoing P r
on_going P (going st) h = h
on_going P (aborted st) h = tt
on_going P (raised e st) h = tt

module _ (config : SenderConfig) (m : TransferManifest) (raw : Bytes) (world : World) where
  abbrev Fine : SendState → Type 0
  Fine st = Streams m.total_chunks st

  started-Streams :
      (n : ℕ)
      → OnGoing Fine (announce config m world.announced (suc n) (initial_state config m raw world))
  unfolding announce
  started-Streams n =
      let start = initial_state config m raw world in
      let w = world.announced n in
      let put = put_frame metadata_frame start in
      let sent =
        OnGoing-sendto Fine (encode_manifest m) w.frame_outcome (aborted start) start put
          ([], refl, tt) tt in
      OnGoing-if Fine w.stop_requested (aborted start) _ (λ e. tt)
        λ e.
          OnGoing-continue Fine Fine _ _
            (OnGoing-continue Fine Fine _ _ sent
              (λ s h. on_going Fine _ (beacon-Streams m.total_chunks config m w s h)))
            (λ s h.
              on_going Fine _ (announce-Streams m.total_chunks config m world.announced n s h))

  pub tail_below : All (λ i. i < m.total_chunks) (tail_indexes config m.total_chunks)
  unfolding tail_indexes
  tail_below =
      let start = m.total_chunks - config.tail_redundancy_chunks in
      elim (Bool-cases (leb config.tail_redundancy_chunks 0 || leb m.total_chunks 0)) [
        | inl e ↦ rw e tt
        | inr e ↦ rw e (All-run start (m.total_chunks - start) (λ i h. omega arith))
      ]

  send_data-Streams : (st : SendState) → Fine st → OnStep Fine (send_data config m raw world st)
  unfolding send_data settle
  send_data-Streams st h =
      OnStep-continue Fine
        (send_chunks config m (chunk_at config m raw world) world.chunks
          (index_run 0 m.total_chunks) st)
        _
        (send_chunks-Streams m.total_chunks config m (chunk_at config m raw world) world.chunks
          (index_run 0 m.total_chunks) st (All-run 0 m.total_chunks (λ i k. omega (arith, k))) h)
        λ sent g.
          let begun = record sent { tail_redundancy_sent = 0 } in
          OnStep-continue Fine
            (resend_chunks config m (chunk_at config m raw world) world.tail
              (tail_indexes config m.total_chunks) begun)
            _
            (resend_chunks-Streams m.total_chunks config m (chunk_at config m raw world) world.tail
              (tail_indexes config m.total_chunks) begun tail_below g)
            λ resent k. k

  close-IsStream : (r : Step) → OnStep Fine r → IsStream m.total_chunks (close_open_loop m r).0
  unfolding close_open_loop
  close-IsStream (going st) h = h
  close-IsStream (aborted st) h = h
  close-IsStream (raised e st) h = h

  after-IsStream :
      (r : Step)
      → OnGoing Fine r
      → is_completed (after_announce config m raw world true r).1 ≡ true
      → IsStream m.total_chunks (after_announce config m raw world true r).0
  unfolding after_announce send_result
  after-IsStream (aborted st) h c = absurd (cc)
  after-IsStream (raised e st) h c = absurd (cc)
  after-IsStream (going st) h c = elim (Bool-cases (m.total_chunks == 0)) [
    | inl e ↦ rw e h
    | inr e ↦ rw e (close-IsStream (send_data config m raw world _) (send_data-Streams _ h))
  ]

  -- METADATA first, and then METADATA frames, beacons and chunks of the file.
  pub completed-IsStream :
      0 < config.manifest_repeats
      → is_completed (send_open_loop config m raw world true).1 ≡ true
      → IsStream m.total_chunks (send_open_loop config m raw world true).0
  unfolding send_open_loop
  completed-IsStream h c = from_repeats config.manifest_repeats h c
    where
      from_repeats :
          (n : ℕ)
          → 0 < n
          → is_completed
              (after_announce config m raw world true
                (announce config m world.announced n (initial_state config m raw world))).1
            ≡ true
          → IsStream m.total_chunks
              (after_announce config m raw world true
                (announce config m world.announced n (initial_state config m raw world))).0
      from_repeats zero k c = absurd (omega arith)
      from_repeats (suc n) k c = after-IsStream _ (started-Streams n) c
