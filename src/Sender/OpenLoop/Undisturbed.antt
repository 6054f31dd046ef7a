-- ===== src/Sender/OpenLoop/Undisturbed.antt =====
-- A send in the open loop that nothing disturbs comes to its end.
use ssync.Prelude.{
  ℕ, ◌≤◌, ◌<◌, leb, All, zero, suc, ◌≡◌, refl, ap, ◌∙◌, inl, inr, Bool, true, false, List, [], ◌∷◌,
  arith, ltb, ◌==◌, if◌then◌else◌, Bool-cases,
}
use ssync.Result.{Result, ok, err, ◌>>=◌}
use ssync.Types.{sender, DataChunk}
use ssync.Frames.Manifest.{encode_manifest}
use ssync.Frames.Manifest.Laws.{IsManifest, manifest_round_trip}
use ssync.Frames.Beacon.{beacon_peer_age_never, beacon_round_trip}
use ssync.Frames.Data.{encode_data_chunk, data_round_trip}
use ssync.Ranges.Indexes.{elem}
use ssync.Receiver.Chunks.{length-read_chunk}
use ssync.Receiver.Reassembly.{Describes}
use ssync.Sender.{read_chunk}
use ssync.Sender.OpenLoop.{
  SendOutcome, delivered, aborted, sendto, send_or_drop, is_beacon_early, after_beacon,
  beacon_bytes, is_metadata_early, after_metadata,
}
use ssync.Sender.OpenLoop.Send.{is_completed}
use ssync.Sender.OpenLoop.Steps.{chunk_indexes}
use ssync.Sender.OpenLoop.Coverage.{All-run, completed_covers}
use ssync.Sender.OpenLoop.Announced.{tail_below}
use ssync.Struct.{Bytes}
use ssync.Types.{TransferManifest}
use ssync.Ranges.{index_run}
use ssync.Sender.{no_bytes}
use ssync.Sender.OpenLoop.{
  SenderConfig, Moment, metadata_frame, SendState, Step, going, continue_with, announce,
  should_drop, send_chunk, send_chunks, resend_chunk, resend_chunks, drop_tail, send_beacon_if_due,
  put_frame, maybe_send_periodic_metadata,
}
use ssync.Sender.OpenLoop.Send.{
  World, tail_indexes, settle, no_indexes, send_result, close_open_loop, chunk_at, send_data,
  initial_state, after_announce, send_open_loop,
}

-- The step goes on, and nothing more is dropped.
abbrev Goes : SendState → Step → Type 0
Goes st step =
    (s : SendState) × (step ≡ going s) × (s.dropped_chunk_indexes ≡ st.dropped_chunk_indexes)

Goes-continue :
    (st : SendState) (r : Step) (f : SendState → Step)
    → Goes st r
    → ((s : SendState) → Goes s (f s))
    → Goes st (continue_with r f)
Goes-continue st r f (s, e, same) h =
    let (s', e', same') = h s in (s', ap (λ q. continue_with q f) e ∙ e', same' ∙ same)

Goes-if :
    (st : SendState) (b : Bool) (x y : Step) → Goes st x → Goes st y → Goes st (if b then x else y)
Goes-if st true x y g h = g
Goes-if st false x y g h = h

-- What an encoder returned whose result a decoder could read.
returned :
    {A B : Type 0} (r : Result A) (f : A → Result B) (b : B)
    → (r >>= f) ≡ ok b
    → (a : A) × (r ≡ ok a)
returned (ok a) f b e = (a, refl)
returned (err x) f b e = absurd (cc)

sendto-Goes :
    (encoded : Result Bytes) (outcome : SendOutcome) (refused : Step) (st next : SendState)
    → (f : Bytes) × (encoded ≡ ok f)
    → outcome ≡ delivered
    → next.dropped_chunk_indexes ≡ st.dropped_chunk_indexes
    → Goes st (sendto encoded outcome refused st next)
unfolding sendto
sendto-Goes encoded outcome refused st next (f, e) o h = rw (e, o) (next, refl, h)

-- No stop is asked for, every datagram is sent, and no chunk is dropped.
pub record IsUndisturbed (config : SenderConfig) (world : World) : Type 0 where
  pub unstopped : (n : ℕ) → (world.announced n).stop_requested ≡ false
  pub announced : (n : ℕ) → (world.announced n).frame_outcome ≡ delivered
  pub announced_beacon : (n : ℕ) → (world.announced n).beacon_outcome ≡ delivered
  pub running : (i : ℕ) → (world.chunks i).stop_requested ≡ false
  pub undropped : (i : ℕ) → should_drop config (world.chunks i) i ≡ false
  pub sent : (i : ℕ) → (world.chunks i).frame_outcome ≡ delivered
  pub sent_beacon : (i : ℕ) → (world.chunks i).beacon_outcome ≡ delivered
  pub sent_metadata : (i : ℕ) → (world.chunks i).metadata_outcome ≡ delivered
  pub resent : (i : ℕ) → (world.tail i).frame_outcome ≡ delivered

module _ (config : SenderConfig) (m : TransferManifest) (raw : Bytes) (world : World)
    (u : IsUndisturbed config world) (name : Bytes) (v : IsManifest m name)
    (small : m.chunk_size ≤ 65535) where
  abbrev reader : ℕ → Bytes
  reader i = chunk_at config m raw world i

  manifest_encoded : (f : Bytes) × (encode_manifest m ≡ ok f)
  manifest_encoded = returned (encode_manifest m) _ _ (manifest_round_trip m name v)

  beacon_encoded : (f : Bytes) × (beacon_bytes m ≡ ok f)
  beacon_encoded =
      returned (beacon_bytes m) _ _
        (beacon_round_trip sender m.transfer_id beacon_peer_age_never v.id_size (omega arith))

  chunk_encoded :
      (i : ℕ)
      → i < m.total_chunks
      → (f : Bytes) × (encode_data_chunk m.transfer_id i (reader i) ≡ ok f)
  unfolding chunk_at
  chunk_encoded i h =
      let c : DataChunk = record {
        transfer_id = m.transfer_id;
        chunk_index = i;
        payload = read_chunk raw m.chunk_size i;
      } in
      returned (encode_data_chunk m.transfer_id i (read_chunk raw m.chunk_size i)) _ _ (
        data_round_trip c (record {
          id_size = v.id_size;
          index_range = omega (arith, h, v.total_range);
          payload_range = omega (arith, length-read_chunk raw m.chunk_size i, small);
        }))

  beacon-Goes :
      (w : Moment) (st : SendState)
      → w.beacon_outcome ≡ delivered
      → Goes st (send_beacon_if_due config m w st)
  unfolding send_beacon_if_due
  beacon-Goes w st o =
      let late = sendto (beacon_bytes m) w.beacon_outcome (going st) st (after_beacon w st) in
      Goes-if st (leb config.beacon_interval_s 0) (going st)
        (if is_beacon_early config w st then going st else late) (st, refl, refl)
        (Goes-if st (is_beacon_early config w st) (going st) late (st, refl, refl)
          (sendto-Goes (beacon_bytes m) w.beacon_outcome (going st) st (after_beacon w st)
            beacon_encoded o refl))

  metadata-Goes :
      (w : Moment) (st : SendState)
      → w.metadata_outcome ≡ delivered
      → Goes st (maybe_send_periodic_metadata config m w st)
  unfolding maybe_send_periodic_metadata
  metadata-Goes w st o =
      Goes-if st (is_metadata_early config w st) (going st)
        (sendto (encode_manifest m) w.metadata_outcome (going st) st (after_metadata w st))
        (st, refl, refl)
        (sendto-Goes (encode_manifest m) w.metadata_outcome (going st) st (after_metadata w st)
          manifest_encoded o refl)

  announce-Goes : (n : ℕ) (st : SendState) → Goes st (announce config m world.announced n st)
  unfolding announce
  announce-Goes zero st = (st, refl, refl)
  announce-Goes (suc n) st =
      let w = world.announced n in
      rw (u.unstopped n) (
        Goes-continue st _ (announce config m world.announced n)
          (Goes-continue st
            (sendto (encode_manifest m) w.frame_outcome (aborted st) st
              (put_frame metadata_frame st))
            (send_beacon_if_due config m w)
            (sendto-Goes (encode_manifest m) w.frame_outcome (aborted st) st
              (put_frame metadata_frame st) manifest_encoded (u.announced n) refl)
            (λ s. beacon-Goes w s (u.announced_beacon n)))
          (announce-Goes n))

  or_drop-Goes :
      (i : ℕ) (st : SendState)
      → i < m.total_chunks
      → Goes st (send_or_drop config m reader world.chunks i st)
  unfolding send_or_drop
  or_drop-Goes i st h = rw (u.undropped i) (
      Goes-continue st _ (maybe_send_periodic_metadata config m (world.chunks i))
        (sendto-Goes (encode_data_chunk m.transfer_id i (reader i)) (world.chunks i).frame_outcome
          (aborted st) st _ (chunk_encoded i h) (u.sent i) refl)
        (λ s. metadata-Goes (world.chunks i) s (u.sent_metadata i)))

  send_chunk-Goes :
      (i : ℕ) (st : SendState)
      → i < m.total_chunks
      → Goes st (send_chunk config m reader world.chunks i st)
  unfolding send_chunk
  send_chunk-Goes i st h = rw (u.running i) (
      Goes-if st (no_bytes (reader i)) (going st)
        (continue_with (send_beacon_if_due config m (world.chunks i) st)
          (send_or_drop config m reader world.chunks i))
        (st, refl, refl)
        (Goes-continue st (send_beacon_if_due config m (world.chunks i) st) _
          (beacon-Goes (world.chunks i) st (u.sent_beacon i)) (λ s. or_drop-Goes i s h)))

  send_chunks-Goes :
      (is : List ℕ) (st : SendState)
      → All (λ i. i < m.total_chunks) is
      → Goes st (send_chunks config m reader world.chunks is st)
  unfolding send_chunks
  send_chunks-Goes [] st h = (st, refl, refl)
  send_chunks-Goes (i ∷ is) st (h, hs) =
      Goes-continue st _ _ (send_chunk-Goes i st h) (λ s. send_chunks-Goes is s hs)

  resend_chunk-Goes :
      (i : ℕ) (st : SendState)
      → i < m.total_chunks
      → Goes st (resend_chunk config m reader world.tail i st)
  unfolding resend_chunk
  resend_chunk-Goes i st h =
      Goes-if st (no_bytes (reader i)) (going st) _ (st, refl, refl)
        (sendto-Goes (encode_data_chunk m.transfer_id i (reader i)) (world.tail i).frame_outcome
          (aborted st) st _ (chunk_encoded i h) (u.resent i) refl)

  resend_chunks-Goes :
      (is : List ℕ) (st : SendState)
      → All (λ i. i < m.total_chunks) is
      → Goes st (resend_chunks config m reader world.tail is st)
  unfolding resend_chunks
  resend_chunks-Goes [] st h = (st, refl, refl)
  resend_chunks-Goes (i ∷ is) st (h, hs) =
      Goes-continue st _ _ (resend_chunk-Goes i st h) (λ s. resend_chunks-Goes is s hs)

  settle-empty :
      (st : SendState)
      → st.dropped_chunk_indexes ≡ []
      → (settle config m.total_chunks st).dropped_chunk_indexes ≡ []
  unfolding settle drop_tail
  settle-empty st h =
      rw h (elim (Bool-cases (ltb 0 st.tail_redundancy_sent)) [
        | inl e ↦ rw e refl
        | inr e ↦ rw e refl
      ])

  -- The data phase leaves nothing dropped where nothing was.
  send_data-Goes :
      (st : SendState)
      → st.dropped_chunk_indexes ≡ []
      → (s : SendState) × (send_data config m raw world st ≡ going s)
        × (s.dropped_chunk_indexes ≡ [])
  unfolding send_data
  send_data-Goes st h =
      let (sent, e, same) =
        send_chunks-Goes (index_run 0 m.total_chunks) st
          (All-run 0 m.total_chunks (λ i k. omega (arith, k))) in
      let begun = record sent { tail_redundancy_sent = 0 } in
      let (resent, e', same') =
        resend_chunks-Goes (tail_indexes config m.total_chunks) begun
          (tail_below config m raw world) in
      (
        settle config m.total_chunks resent,
        rw e (rw e' refl),
        settle-empty resent (same' ∙ same ∙ h),
      )

  close-completed :
      (r : Step)
      → (s : SendState) × (r ≡ going s) × (s.dropped_chunk_indexes ≡ [])
      → is_completed (close_open_loop m r).1 ≡ true
  unfolding close_open_loop send_result
  close-completed r (s, e, h) = ap (λ q. is_completed (close_open_loop m q).1) e ∙ ap no_indexes h

  after-completed :
      (st : SendState)
      → st.dropped_chunk_indexes ≡ []
      → is_completed (after_announce config m raw world true (going st)).1 ≡ true
  unfolding after_announce send_result
  after-completed st h = elim (Bool-cases (m.total_chunks == 0)) [
    | inl e ↦ rw e refl
    | inr e ↦ rw e (close-completed _ (send_data-Goes _ h))
  ]

  -- A send in the open loop, with `send_initial_data`, of a manifest in the ranges of its fields that
  -- describes the file, with chunks of at most 65535 bytes, comes to its end and reports its completion
  -- where no stop is asked for, every datagram is sent and no chunk is dropped; and then a DATA frame of
  -- each chunk of the file is among its frames.
  pub undisturbed_completed :
      Describes m raw
      → (is_completed (send_open_loop config m raw world true).1 ≡ true)
        × ((j : ℕ)
            → j < m.total_chunks
            → elem j (chunk_indexes (send_open_loop config m raw world true).0) ≡ true)
  unfolding send_open_loop
  undisturbed_completed d =
      let (st, e, same) =
        announce-Goes config.manifest_repeats (initial_state config m raw world) in
      let completed : is_completed (send_open_loop config m raw world true).1 ≡ true =
        ap (λ q. is_completed (after_announce config m raw world true q).1) e
        ∙ after-completed st same in
      (completed, completed_covers config m raw world d completed)
