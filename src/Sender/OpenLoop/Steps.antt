-- ===== src/Sender/OpenLoop/Steps.antt =====
-- What each step of the open loop does to the chunks that have been sent and those that are dropped.
use ssync.Prelude.{
  ℕ, leb, ◌+◌, ◌≡◌, refl, ap, ◌∙◌, Bool, true, false, ◌||◌, List, [], ◌∷◌, ◌++◌, arith, ◌==◌,
  if◌then◌else◌, length, All,
}
use ssync.Frames.Manifest.{encode_manifest}
use ssync.Result.{Result, ok, err}
use ssync.Struct.{Bytes}
use ssync.Ranges.Indexes.{elem, elem-append}
use ssync.Types.{TransferManifest}
use ssync.Sender.{no_bytes}
use ssync.Sender.OpenLoop.{
  SenderConfig, Moment, Outgoing, metadata_frame, beacon_frame, chunk_frame, SendState, Step, going,
  aborted, raised, SendOutcome, delivered, not_sent, timed_out, sendto, send_or_drop,
  is_beacon_early, after_beacon, beacon_bytes, is_metadata_early, after_metadata, continue_with,
  put_frame, send_beacon_if_due, maybe_send_periodic_metadata, should_drop, count_sent, send_chunk,
  send_chunks, resend_chunk, resend_chunks,
}

-- The chunks among the frames.
unfoldable pub chunk_indexes : List Outgoing → List ℕ
chunk_indexes [] = []
chunk_indexes (metadata_frame ∷ rest) = chunk_indexes rest
chunk_indexes (beacon_frame ∷ rest) = chunk_indexes rest
chunk_indexes (chunk_frame i ∷ rest) = i ∷ chunk_indexes rest

pub chunk_indexes-append :
    (xs ys : List Outgoing) → chunk_indexes (xs ++ ys) ≡ chunk_indexes xs ++ chunk_indexes ys
unfolding chunk_indexes
chunk_indexes-append [] ys = refl
chunk_indexes-append (metadata_frame ∷ xs) ys = chunk_indexes-append xs ys
chunk_indexes-append (beacon_frame ∷ xs) ys = chunk_indexes-append xs ys
chunk_indexes-append (chunk_frame i ∷ xs) ys = ap (λ q. i ∷ q) (chunk_indexes-append xs ys)

abbrev pub is_sent : ℕ → SendState → Bool
is_sent j st = elem j (chunk_indexes st.frames)

abbrev pub is_dropped : ℕ → SendState → Bool
is_dropped j st = elem j st.dropped_chunk_indexes

is_sent-put :
    (j : ℕ) (f : Outgoing) (st : SendState)
    → is_sent j (put_frame f st) ≡ (is_sent j st || elem j (chunk_indexes (f ∷ [])))
is_sent-put j f st =
    ap (elem j) (chunk_indexes-append st.frames (f ∷ []))
    ∙ elem-append j (chunk_indexes st.frames) (chunk_indexes (f ∷ []))

-- A property of the state, where the function goes on.
abbrev pub OnGoing : (SendState → Type 0) → Step → Type 0
OnGoing P (going st) = P st
OnGoing P (aborted st) = Unit {0}
OnGoing P (raised e st) = Unit {0}

pub OnGoing-if :
    (P : SendState → Type 0) (b : Bool) (x y : Step)
    → (b ≡ true → OnGoing P x)
    → (b ≡ false → OnGoing P y)
    → OnGoing P (if b then x else y)
OnGoing-if P true x y h k = h refl
OnGoing-if P false x y h k = k refl

pub OnGoing-continue :
    (P Q : SendState → Type 0) (r : Step) (f : SendState → Step)
    → OnGoing P r
    → ((st : SendState) → P st → OnGoing Q (f st))
    → OnGoing Q (continue_with r f)
OnGoing-continue P Q (going st) f h k = k st h
OnGoing-continue P Q (aborted st) f h k = tt
OnGoing-continue P Q (raised e st) f h k = tt

pub OnGoing-imp :
    (P Q : SendState → Type 0) (r : Step)
    → OnGoing P r
    → ((st : SendState) → P st → Q st)
    → OnGoing Q r
OnGoing-imp P Q (going st) h k = k st h
OnGoing-imp P Q (aborted st) h k = tt
OnGoing-imp P Q (raised e st) h k = tt

-- The call goes on with the datagram sent, or with what follows a refusal.
pub OnGoing-sendto :
    (P : SendState → Type 0) (encoded : Result Bytes) (outcome : SendOutcome) (refused : Step)
    (st next : SendState)
    → P next
    → OnGoing P refused
    → OnGoing P (sendto encoded outcome refused st next)
unfolding sendto
OnGoing-sendto P (err e) outcome refused st next h k = tt
OnGoing-sendto P (ok bytes) delivered refused st next h k = h
OnGoing-sendto P (ok bytes) not_sent refused st next h k = k
OnGoing-sendto P (ok bytes) timed_out refused st next h k = tt

-- The same chunks are sent, and the same are dropped.
abbrev pub Same : SendState → SendState → Type 0
Same st s = (j : ℕ) → (is_sent j s ≡ is_sent j st) × (is_dropped j s ≡ is_dropped j st)

-- A frame that is no chunk changes nothing.
beacon-Same :
    (config : SenderConfig) (m : TransferManifest) (w : Moment) (st : SendState)
    → OnGoing (Same st) (send_beacon_if_due config m w st)
unfolding send_beacon_if_due chunk_indexes
beacon-Same config m w st =
    let same : Same st st = λ j. (refl, refl) in
    OnGoing-if (Same st) (leb config.beacon_interval_s 0) (going st) _ (λ _. same)
      λ _.
        OnGoing-if (Same st) (is_beacon_early config w st) (going st) _ (λ _. same)
          λ _.
            OnGoing-sendto (Same st) (beacon_bytes m) w.beacon_outcome (going st) st
              (after_beacon w st) (λ j. (ground (arith, is_sent-put j beacon_frame st), refl)) same

metadata-Same :
    (config : SenderConfig) (m : TransferManifest) (w : Moment) (st : SendState)
    → OnGoing (Same st) (maybe_send_periodic_metadata config m w st)
unfolding maybe_send_periodic_metadata chunk_indexes
metadata-Same config m w st =
    let same : Same st st = λ j. (refl, refl) in
    OnGoing-if (Same st) (is_metadata_early config w st) (going st) _ (λ _. same)
      λ _.
        OnGoing-sendto (Same st) (encode_manifest m) w.metadata_outcome (going st) st
          (after_metadata w st) (λ j. (ground (arith, is_sent-put j metadata_frame st), refl)) same

-- Chunks that are sent or dropped.
abbrev pub is_done : ℕ → SendState → Bool
is_done j st = is_sent j st || is_dropped j st

-- The chunk is done, and nothing else is.
abbrev pub Does : ℕ → SendState → SendState → Type 0
Does i st s = (j : ℕ) → is_done j s ≡ ((j == i) || is_done j st)

module _ (config : SenderConfig) (m : TransferManifest) (chunk_reader : ℕ → List ℕ)
    (world : ℕ → Moment) where
  or_drop-Does :
      (i : ℕ) (st : SendState) → OnGoing (Does i st) (send_or_drop config m chunk_reader world i st)
  unfolding send_or_drop chunk_indexes
  or_drop-Does i st =
      let sent = count_sent config m chunk_reader world i (put_frame (chunk_frame i) st) in
      OnGoing-if (Does i st) (should_drop config (world i) i) _ _ (λ _. λ j. ground arith)
        λ _.
          OnGoing-continue (Does i st) (Does i st)
            (sendto _ (world i).frame_outcome (aborted st) st sent)
            (maybe_send_periodic_metadata config m (world i))
            (OnGoing-sendto (Does i st) _ (world i).frame_outcome (aborted st) st sent
              (λ j. ground (arith, is_sent-put j (chunk_frame i) st)) tt)
            λ s d.
              OnGoing-imp (Same s) (Does i st) _ (metadata-Same config m (world i) s)
                λ r e. λ j. ground (arith, d j, (e j).0, (e j).1)

  send_chunk-Does :
      (i : ℕ) (st : SendState)
      → no_bytes (chunk_reader i) ≡ false
      → OnGoing (Does i st) (send_chunk config m chunk_reader world i st)
  unfolding send_chunk
  send_chunk-Does i st h =
      OnGoing-if (Does i st) (world i).stop_requested _ _ (λ e. tt)
        λ e.
          OnGoing-if (Does i st) (no_bytes (chunk_reader i)) _ _ (λ f. absurd (cc))
            λ f.
              OnGoing-continue (Same st) (Does i st) (send_beacon_if_due config m (world i) st)
                (send_or_drop config m chunk_reader world i) (beacon-Same config m (world i) st)
                λ s e'.
                  OnGoing-imp (Does i s) (Does i st) _ (or_drop-Does i s)
                    λ r d. λ j. ground (arith, d j, (e' j).0, (e' j).1)

  -- The loop over the chunks sends or drops each of them.
  pub send_chunks-done :
      (is : List ℕ) (st : SendState)
      → All (λ i. no_bytes (chunk_reader i) ≡ false) is
      → OnGoing
          (λ s. (j : ℕ) → is_done j s ≡ (elem j is || is_done j st))
          (send_chunks config m chunk_reader world is st)
  unfolding send_chunks
  send_chunks-done [] st h = λ j. refl
  send_chunks-done (i ∷ is) st h =
      OnGoing-continue (Does i st) _ (send_chunk config m chunk_reader world i st) _
        (send_chunk-Does i st h.0)
        λ s d.
          OnGoing-imp _ _ (send_chunks config m chunk_reader world is s) (send_chunks-done is s h.1)
            λ r e. λ j. e j ∙ ap (λ b. elem j is || b) (d j) ∙ ground arith

  -- The chunk is sent, and counted.
  abbrev pub Resends : List ℕ → SendState → SendState → Type 0
  Resends is st s =
      ((j : ℕ) → is_sent j s ≡ (elem j is || is_sent j st))
      × (s.dropped_chunk_indexes ≡ st.dropped_chunk_indexes)
      × (s.tail_redundancy_sent ≡ st.tail_redundancy_sent + length is)

  resend_chunk-Resends :
      (i : ℕ) (st : SendState)
      → no_bytes (chunk_reader i) ≡ false
      → OnGoing (Resends (i ∷ []) st) (resend_chunk config m chunk_reader world i st)
  unfolding resend_chunk chunk_indexes
  resend_chunk-Resends i st h =
      OnGoing-if (Resends (i ∷ []) st) (no_bytes (chunk_reader i)) _ _ (λ f. absurd (cc))
        λ f.
          OnGoing-sendto (Resends (i ∷ []) st) _ (world i).frame_outcome (aborted st) st _
            (λ j. ground (arith, is_sent-put j (chunk_frame i) st), refl, omega arith) tt

  -- The tail redundancy sends each of its chunks.
  pub resend_chunks-Resends :
      (is : List ℕ) (st : SendState)
      → All (λ i. no_bytes (chunk_reader i) ≡ false) is
      → OnGoing (Resends is st) (resend_chunks config m chunk_reader world is st)
  unfolding resend_chunks
  resend_chunks-Resends [] st h = (λ j. refl, refl, omega arith)
  resend_chunks-Resends (i ∷ is) st h =
      OnGoing-continue (Resends (i ∷ []) st) _ (resend_chunk config m chunk_reader world i st) _
        (resend_chunk-Resends i st h.0)
        λ s d.
          OnGoing-imp _ _ (resend_chunks config m chunk_reader world is s)
            (resend_chunks-Resends is s h.1)
            λ r e. (
              λ j. e.0 j ∙ ap (λ b. elem j is || b) (d.0 j) ∙ ground arith,
              e.1 ∙ d.1,
              omega (arith, e.2, d.2),
            )
