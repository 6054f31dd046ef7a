-- ===== src/Receiver/Copy.antt =====
-- What `accept_data` and its helpers do to the manifest, the part file, the tracker and the state of
-- a transfer, and the invariant that the part file holds what has arrived.
use ssync.Prelude.{
  ℕ, ◌+◌, ◌*◌, ◌/◌, ◌≤◌, ◌<◌, ◌≡◌, sym, ap, ◌∙◌, inl, inr, Bool, true, false, ◌&&◌, ◌||◌, [], arith,
  ltb, leb, ◌==◌, if◌then◌else◌, lt→ltb, le_or_lt, Bool-cases, length, get_elem?,
}
use ssync.Struct.{Bytes}
use ssync.Types.{TransferManifest, expected_total_chunks}
use ssync.Ranges.Cover.{covers}
use ssync.Tracker.{ChunkTracker, add, is_complete}
use ssync.Tracker.Invariant.{
  IsTracker, add-IsTracker, add_correct, is_complete_iff, received_count-le-total,
}
use ssync.Sender.{read_chunk}
use ssync.Receiver.{
  Transfer, write_at, maybe_send_beacon, queue_finalization, store_chunk, receive_chunk,
  accept_data,
}
use ssync.Receiver.Slices.{get_behind, get_ext, length-write_at}
use ssync.Receiver.Chunks.{
  chunk_inside, behind_chunks, chunk_window, length-read_chunk, get-write_chunk,
}

-- The part of a transfer that says what has been received.
pub record Core : Type 0 where
  pub manifest : TransferManifest
  pub part : Bytes
  pub tracker : ChunkTracker
  pub done : Bool
  pub finalized : Bool

abbrev pub core : Transfer → Core
core t = record {
  manifest = t.manifest;
  part = t.part;
  tracker = t.tracker;
  done = t.done;
  finalized = t.finalized;
}

pub core-beacon :
    (interval now : ℕ) (sent : Bool) (t : Transfer)
    → core (maybe_send_beacon interval now sent t).0 ≡ core t
unfolding maybe_send_beacon
core-beacon interval now sent t = ground arith

abbrev pub end_core : Core → Core
end_core c = record c { finalized = true }

pub core-queue : (now : ℕ) (t : Transfer) → core (queue_finalization now [] t).0 ≡ end_core (core t)
unfolding queue_finalization
core-queue now t = ground arith

-- What the chunk `i` makes of it.
abbrev pub core_stored : ℕ → Bytes → Core → Core
core_stored i payload c =
    let tracker = (add i c.tracker).1 in
    record c {
      part = write_at (i * c.manifest.chunk_size) payload c.part;
      tracker = tracker;
      finalized =
          c.finalized
          || (ltb 0 c.manifest.total_chunks && leb c.manifest.total_chunks tracker.received_count);
    }

core-receive_chunk :
    (interval now : ℕ) (sent : Bool) (i : ℕ) (payload : Bytes) (t : Transfer)
    → core (receive_chunk interval now sent i payload t).0 ≡ core_stored i payload (core t)
unfolding receive_chunk
core-receive_chunk interval now sent i payload t =
    let stored = store_chunk now i payload t in
    let beaconed = (maybe_send_beacon interval now sent stored).0 in
    let kept : core beaconed ≡ core stored = core-beacon interval now sent stored in
    let counted : beaconed.tracker.received_count ≡ stored.tracker.received_count =
      ap (λ c. c.tracker.received_count) kept in
    let enough =
      ltb 0 t.manifest.total_chunks && leb t.manifest.total_chunks stored.tracker.received_count in
    rw counted (elim (Bool-cases enough) [
      | inl e ↦ rw e (core-queue now beaconed ∙ ap end_core kept ∙ ground arith)
      | inr e ↦ rw e (kept ∙ ground arith)
    ])

pub core-accept_data :
    (interval now : ℕ) (sent : Bool) (i : ℕ) (payload : Bytes) (t : Transfer)
    → core (accept_data interval now sent i payload t).0 ≡ (
        if t.done || t.finalized
        then core t
        else if leb t.manifest.total_chunks i
        then core t
        else if ltb t.manifest.file_size (i * t.manifest.chunk_size + length payload)
        then core t
        else core_stored i payload (core t))
unfolding accept_data
core-accept_data interval now sent i payload t =
    ground (arith, core-receive_chunk interval now sent i payload t)

-- The part file holds the file `raw` wherever a chunk has arrived, and the transfer is finalized
-- exactly when every chunk has.
pub record Holds (raw : Bytes) (c : Core) : Type 0 where
  pub running : c.done ≡ false
  pub sized : c.manifest.file_size ≡ length raw
  pub chunk_positive : 0 < c.manifest.chunk_size
  pub total : c.manifest.total_chunks ≡ expected_total_chunks (length raw) c.manifest.chunk_size
  pub tracked : c.tracker.total_chunks ≡ c.manifest.total_chunks
  pub tracker : IsTracker c.tracker
  pub part_size : length c.part ≡ length raw
  pub agrees :
      (j : ℕ)
      → (if covers c.tracker.received_ranges (j / c.manifest.chunk_size)
          then get_elem? c.part j
          else get_elem? raw j)
        ≡ get_elem? raw j
  pub ended : c.finalized ≡ is_complete c.tracker

-- A complete part file is the file.
pub complete_part :
    (raw : Bytes) (c : Core) → Holds raw c → is_complete c.tracker ≡ true → c.part ≡ raw
complete_part raw c h e = get_ext c.part raw λ j.
    elim (le_or_lt c.tracker.total_chunks (j / c.manifest.chunk_size)) [
      | inl behind ↦
          let outside : length raw ≤ j =
            behind_chunks (length raw) c.manifest.chunk_size h.chunk_positive j
              (omega (arith, h.total, h.tracked)) in
          get_behind c.part j (omega (arith, h.part_size)) ∙ sym (get_behind raw j outside)
      | inr inside ↦
          let covered : covers c.tracker.received_ranges (j / c.manifest.chunk_size) ≡ true =
            (is_complete_iff c.tracker h.tracker).0 e (j / c.manifest.chunk_size)
            ∙ lt→ltb _ _ inside in
          rw covered at (h.agrees j)
    ]

module _ (raw : Bytes) (c : Core) (h : Holds raw c) (i : ℕ)
    (inside : i < c.manifest.total_chunks) where
  abbrev chunk_size : ℕ
  chunk_size = c.manifest.chunk_size

  abbrev payload : Bytes
  payload = read_chunk raw chunk_size i

  starts : i * chunk_size < length raw
  starts = chunk_inside (length raw) chunk_size h.chunk_positive i (omega (arith, h.total))

  pub fits : i * chunk_size + length payload ≤ length raw
  fits = omega (arith, length-read_chunk raw chunk_size i, starts)

  stored_total : (add i c.tracker).1.total_chunks ≡ c.manifest.total_chunks
  stored_total = (add_correct i c.tracker h.tracker).2 ∙ h.tracked

  pub covers-stored :
      (j : ℕ)
      → covers (add i c.tracker).1.received_ranges j
        ≡ ((i == j) || covers c.tracker.received_ranges j)
  covers-stored j =
      let found : ltb i c.tracker.total_chunks ≡ true = lt→ltb _ _ (omega (arith, h.tracked)) in
      rw found at ((add_correct i c.tracker h.tracker).4 j)

  stored_agrees :
      (j : ℕ)
      → (if covers (add i c.tracker).1.received_ranges (j / chunk_size)
          then get_elem? (write_at (i * chunk_size) payload c.part) j
          else get_elem? raw j)
        ≡ get_elem? raw j
  stored_agrees j = ground (
    arith,
    covers-stored (j / chunk_size),
    get-write_chunk raw c.part chunk_size i j h.part_size (omega (arith, starts)),
    λ (e : j / chunk_size ≡ i). chunk_window (length raw) chunk_size h.chunk_positive i j e,
    h.agrees j,
  )

  pub stored-Holds : c.finalized ≡ false → Holds raw (core_stored i payload c)
  stored-Holds e =
      let valid : IsTracker (add i c.tracker).1 = add-IsTracker i c.tracker h.tracker in
      record {
        running = h.running;
        sized = h.sized;
        chunk_positive = h.chunk_positive;
        total = h.total;
        tracked = stored_total;
        tracker = valid;
        part_size =
            length-write_at (i * chunk_size) payload c.part (omega (arith, fits, h.part_size))
            ∙ h.part_size;
        agrees = stored_agrees;
        ended =
            unfold is_complete in
            ground (arith, stored_total, received_count-le-total (add i c.tracker).1 valid);
      }
