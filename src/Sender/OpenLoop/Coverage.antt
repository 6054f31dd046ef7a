-- ===== src/Sender/OpenLoop/Coverage.antt =====
-- A send in the open loop that reports its completion has sent every chunk.
use ssync.Prelude.{
  ℕ, zero, suc, ◌+◌, ◌-◌, ◌<◌, ◌≡◌, refl, sym, ap, ◌∙◌, inl, inr, true, false, ◌&&◌, ◌||◌, List, [],
  ◌∷◌, arith, ltb, leb, ◌==◌, ltb→lt, ==_eq, Bool-cases, length, All,
}
use ssync.Result.{Result}
use ssync.Struct.{Bytes}
use ssync.Types.{TransferManifest}
use ssync.Ranges.{index_run}
use ssync.Ranges.Indexes.{elem, elem-index_run}
use ssync.Receiver.Chunks.{chunk_inside, length-read_chunk}
use ssync.Receiver.Reassembly.{Describes}
use ssync.Sender.{read_chunk, no_bytes}
use ssync.Sender.Repairs.{no_bytes-false}
use ssync.Sender.OpenLoop.{
  SenderConfig, SendResult, Outgoing, SendState, Step, going, aborted, raised, announce,
  send_chunks, resend_chunks, drop_tail,
}
use ssync.Sender.OpenLoop.Send.{
  World, tail_indexes, settle, no_indexes, send_result, close_open_loop, is_completed, chunk_at,
  send_data, after_announce, send_open_loop,
}
use ssync.Sender.OpenLoop.Steps.{
  chunk_indexes, is_sent, is_dropped, is_done, OnGoing, OnGoing-continue, send_chunks-done, Resends,
  resend_chunks-Resends,
}

elem-drop_tail :
    (j tail_start : ℕ) (is : List ℕ)
    → elem j (drop_tail tail_start is) ≡ (elem j is && ltb j tail_start)
unfolding drop_tail
elem-drop_tail j tail_start [] = refl
elem-drop_tail j tail_start (i ∷ is) = ground (arith, elem-drop_tail j tail_start is)

elem-none : (j : ℕ) (is : List ℕ) → no_indexes is ≡ true → elem j is ≡ false
elem-none j [] h = refl
elem-none j (i ∷ is) h = absurd (cc)

pub All-run :
    {P : ℕ → Type 0} (start n : ℕ) → ((i : ℕ) → i < start + n → P i) → All P (index_run start n)
unfolding index_run
All-run start zero h = tt
All-run start (suc n) h = (h start (omega arith), All-run (start + 1) n (λ i k. h i (omega arith)))

module _ (config : SenderConfig) (m : TransferManifest) (raw : Bytes) (world : World)
    (d : Describes m raw) where
  filled : (i : ℕ) → i < m.total_chunks → no_bytes (chunk_at config m raw world i) ≡ false
  unfolding chunk_at
  filled i h = no_bytes-false (read_chunk raw m.chunk_size i) (
      omega (
        arith,
        length-read_chunk raw m.chunk_size i,
        chunk_inside (length raw) m.chunk_size d.chunk_positive i (omega (arith, d.total)),
      ))

  tail-filled :
      All
        (λ i. no_bytes (chunk_at config m raw world i) ≡ false)
        (tail_indexes config m.total_chunks)
  unfolding tail_indexes
  tail-filled =
      let start = m.total_chunks - config.tail_redundancy_chunks in
      elim (Bool-cases (leb config.tail_redundancy_chunks 0 || leb m.total_chunks 0)) [
        | inl e ↦ rw e tt
        | inr e ↦ rw e (All-run start (m.total_chunks - start) (λ i h. filled i (omega arith)))
      ]

  -- What the tail is, where it is sent.
  elem-tail :
      (j : ℕ)
      → 0 < length (tail_indexes config m.total_chunks)
      → elem j (tail_indexes config m.total_chunks)
        ≡ (leb (m.total_chunks - config.tail_redundancy_chunks) j && ltb j m.total_chunks)
  unfolding tail_indexes
  elem-tail j h =
      let start = m.total_chunks - config.tail_redundancy_chunks in
      elim (Bool-cases (leb config.tail_redundancy_chunks 0 || leb m.total_chunks 0)) [
        | inl e ↦ absurd (omega (arith, rw e at h))
        | inr e ↦ rw e (elem-index_run j start (m.total_chunks - start) ∙ ground arith)
      ]

  -- Nothing is left that was dropped, so all is sent.
  abbrev AllSent : SendState → Type 0
  AllSent st =
      no_indexes st.dropped_chunk_indexes ≡ true
      → (j : ℕ) → j < m.total_chunks
      → is_sent j st ≡ true

  settle-AllSent :
      (sent resent : SendState)
      → ((j : ℕ) → j < m.total_chunks → is_done j sent ≡ true)
      → sent.tail_redundancy_sent ≡ 0
      → Resends config m
          (chunk_at config m raw world)
          world.tail
          (tail_indexes config m.total_chunks)
          sent
          resent
      → AllSent (settle config m.total_chunks resent)
  unfolding settle
  settle-AllSent sent resent h z (covers, dropped, counted) e j k =
      let start = m.total_chunks - config.tail_redundancy_chunks in
      let gone : is_dropped j (settle config m.total_chunks resent) ≡ false = elem-none j _ e in
      let same : is_dropped j resent ≡ is_dropped j sent = ap (elem j) dropped in
      elim (Bool-cases (ltb 0 resent.tail_redundancy_sent)) [
        | inl p ↦
            let below : (is_dropped j resent && ltb j start) ≡ false =
              sym (elem-drop_tail j start resent.dropped_chunk_indexes) ∙ rw p at gone in
            let some_tail : 0 < length (tail_indexes config m.total_chunks) =
              omega (arith, counted, z, ltb→lt _ _ p) in
            ground (arith, covers j, elem-tail j some_tail, h j k, same, below)
        | inr p ↦
            let nowhere : is_dropped j resent ≡ false = rw p at gone in
            ground (arith, covers j, h j k, same, nowhere)
      ]

  send_data-AllSent : (st : SendState) → OnGoing AllSent (send_data config m raw world st)
  unfolding send_data
  send_data-AllSent st =
      OnGoing-continue _ AllSent
        (send_chunks config m (chunk_at config m raw world) world.chunks
          (index_run 0 m.total_chunks) st)
        _
        (send_chunks-done config m (chunk_at config m raw world) world.chunks
          (index_run 0 m.total_chunks) st
          (All-run 0 m.total_chunks (λ i k. filled i (omega (arith, k)))))
        λ sent h.
          let begun = record sent { tail_redundancy_sent = 0 } in
          OnGoing-continue _ AllSent
            (resend_chunks config m (chunk_at config m raw world) world.tail
              (tail_indexes config m.total_chunks) begun)
            _
            (resend_chunks-Resends config m (chunk_at config m raw world) world.tail
              (tail_indexes config m.total_chunks) begun tail-filled)
            λ resent r.
              settle-AllSent begun resent
                (λ j k. h j ∙ rw (elem-index_run j 0 m.total_chunks) (ground (arith, k))) refl r

  -- A report with the frames: if it says completed, all chunks are among the frames.
  abbrev Covers : List Outgoing × Result SendResult → Type 0
  Covers (frames, result) =
      is_completed result ≡ true
      → (j : ℕ) → j < m.total_chunks
      → elem j (chunk_indexes frames) ≡ true

  close-Covers : (r : Step) → OnGoing AllSent r → Covers (close_open_loop m r)
  unfolding close_open_loop send_result
  close-Covers (going st) h = h
  close-Covers (aborted st) h = λ e j k. absurd (cc)
  close-Covers (raised x st) h = λ e j k. absurd (cc)

  after-Covers : (r : Step) → Covers (after_announce config m raw world true r)
  unfolding after_announce send_result
  after-Covers (aborted st) = λ e j k. absurd (cc)
  after-Covers (raised x st) = λ e j k. absurd (cc)
  after-Covers (going st) = elim (Bool-cases (m.total_chunks == 0)) [
    | inl e ↦ rw e (λ c j k. absurd (omega (arith, ==_eq _ _ e, k)))
    | inr e ↦ rw e (close-Covers (send_data config m raw world _) (send_data-AllSent _))
  ]

  -- A send in the open loop, with `send_initial_data`, that reports its completion has sent a DATA frame
  -- of each chunk of the file, in the first pass or in the tail redundancy: whatever chunks are dropped
  -- and whenever it is interrupted, for a manifest with the file's size and chunks.
  pub completed_covers :
      is_completed (send_open_loop config m raw world true).1 ≡ true
      → (j : ℕ) → j < m.total_chunks
      → elem j (chunk_indexes (send_open_loop config m raw world true).0) ≡ true
  unfolding send_open_loop
  completed_covers = after-Covers (announce config m world.announced config.manifest_repeats _)
