-- ===== src/Sender/OpenLoop/Stream.antt =====
-- The frames of a send in the open loop: METADATA first, and chunks of the file.
use ssync.Prelude.{
  ℕ, zero, suc, ◌<◌, ◌≡◌, ap, Bool, true, false, List, [], ◌∷◌, ◌++◌, leb, if◌then◌else◌, All,
}
use ssync.Result.{Result, ok, err}
use ssync.Frames.Manifest.{encode_manifest}
use ssync.Struct.{Bytes}
use ssync.Types.{TransferManifest}
use ssync.Sender.{no_bytes}
use ssync.Sender.OpenLoop.{
  SenderConfig, Moment, Outgoing, metadata_frame, beacon_frame, chunk_frame, SendState, Step, going,
  aborted, raised, SendOutcome, delivered, not_sent, timed_out, sendto, send_or_drop,
  is_beacon_early, after_beacon, beacon_bytes, is_metadata_early, after_metadata, put_frame,
  continue_with, announce, should_drop, send_chunk, send_chunks, resend_chunk, resend_chunks,
  send_beacon_if_due, maybe_send_periodic_metadata,
}

if_both {ℓ} :
    {A : Type ℓ} (P : A → Type 0) (b : Bool) (x y : A) → P x → P y → P (if b then x else y)
if_both P true x y h k = h
if_both P false x y h k = k

-- A property of the state, whether the function goes on or returns.
abbrev pub OnStep : (SendState → Type 0) → Step → Type 0
OnStep P (going st) = P st
OnStep P (aborted st) = P st
OnStep P (raised e st) = P st

pub OnStep-continue :
    (P : SendState → Type 0) (r : Step) (f : SendState → Step)
    → OnStep P r
    → ((st : SendState) → P st → OnStep P (f st))
    → OnStep P (continue_with r f)
OnStep-continue P (going st) f h k = k st h
OnStep-continue P (aborted st) f h k = h
OnStep-continue P (raised e st) f h k = h

pub OnStep-sendto :
    (P : SendState → Type 0) (encoded : Result Bytes) (outcome : SendOutcome) (refused : Step)
    (st next : SendState)
    → P st
    → P next
    → OnStep P refused
    → OnStep P (sendto encoded outcome refused st next)
unfolding sendto
OnStep-sendto P (err e) outcome refused st next g h k = g
OnStep-sendto P (ok bytes) delivered refused st next g h k = h
OnStep-sendto P (ok bytes) not_sent refused st next g h k = k
OnStep-sendto P (ok bytes) timed_out refused st next g h k = g

module _ (total_chunks : ℕ) where
  -- A frame that carries a chunk carries one of the file.
  abbrev pub IsOwn : Outgoing → Type 0
  IsOwn metadata_frame = Unit {0}
  IsOwn beacon_frame = Unit {0}
  IsOwn (chunk_frame i) = i < total_chunks

  -- METADATA, and then such frames.
  abbrev pub IsStream : List Outgoing → Type 0
  IsStream frames = (rest : List Outgoing) × (frames ≡ metadata_frame ∷ rest) × All IsOwn rest

  All-put :
      (xs : List Outgoing) (f : Outgoing) → All IsOwn xs → IsOwn f → All IsOwn (xs ++ (f ∷ []))
  All-put [] f h k = (k, tt)
  All-put (x ∷ xs) f h k = (h.0, All-put xs f h.1 k)

  IsStream-put :
      (xs : List Outgoing) (f : Outgoing) → IsStream xs → IsOwn f → IsStream (xs ++ (f ∷ []))
  IsStream-put xs f (rest, e, h) k =
      (rest ++ (f ∷ []), ap (λ q. q ++ (f ∷ [])) e, All-put rest f h k)

  abbrev pub Streams : SendState → Type 0
  Streams st = IsStream st.frames

  pub beacon-Streams :
      (config : SenderConfig) (m : TransferManifest) (w : Moment) (st : SendState)
      → Streams st
      → OnStep Streams (send_beacon_if_due config m w st)
  unfolding send_beacon_if_due
  beacon-Streams config m w st h =
      let late = sendto (beacon_bytes m) w.beacon_outcome (going st) st (after_beacon w st) in
      if_both (OnStep Streams) (leb config.beacon_interval_s 0) (going st)
        (if is_beacon_early config w st then going st else late) h
        (if_both (OnStep Streams) (is_beacon_early config w st) (going st) late h (
          OnStep-sendto Streams (beacon_bytes m) w.beacon_outcome (going st) st (after_beacon w st)
            h (IsStream-put st.frames beacon_frame h tt) h))

  metadata-Streams :
      (config : SenderConfig) (m : TransferManifest) (w : Moment) (st : SendState)
      → Streams st
      → OnStep Streams (maybe_send_periodic_metadata config m w st)
  unfolding maybe_send_periodic_metadata
  metadata-Streams config m w st h =
      if_both (OnStep Streams) (is_metadata_early config w st) (going st)
        (sendto (encode_manifest m) w.metadata_outcome (going st) st (after_metadata w st)) h
        (OnStep-sendto Streams (encode_manifest m) w.metadata_outcome (going st) st
          (after_metadata w st) h (IsStream-put st.frames metadata_frame h tt) h)

  pub announce-Streams :
      (config : SenderConfig) (m : TransferManifest) (world : ℕ → Moment) (n : ℕ) (st : SendState)
      → Streams st
      → OnStep Streams (announce config m world n st)
  unfolding announce
  announce-Streams config m world zero st h = h
  announce-Streams config m world (suc n) st h =
      let put = put_frame metadata_frame st in
      let sent =
        OnStep-sendto Streams (encode_manifest m) (world n).frame_outcome (aborted st) st put h
          (IsStream-put st.frames metadata_frame h tt) h in
      if_both (OnStep Streams) (world n).stop_requested (aborted st) _ h (
        OnStep-continue Streams _ _
          (OnStep-continue Streams _ _ sent (λ s g. beacon-Streams config m (world n) s g))
          (λ s g. announce-Streams config m world n s g))

  module _ (config : SenderConfig) (m : TransferManifest) (chunk_reader : ℕ → Bytes)
      (world : ℕ → Moment) where
    or_drop-Streams :
        (i : ℕ) (st : SendState)
        → i < total_chunks
        → Streams st
        → OnStep Streams (send_or_drop config m chunk_reader world i st)
    unfolding send_or_drop
    or_drop-Streams i st k h =
        if_both (OnStep Streams) (should_drop config (world i) i) (going _) _ h (
          OnStep-continue Streams _ _
            (OnStep-sendto Streams _ (world i).frame_outcome (aborted st) st _ h
              (IsStream-put st.frames (chunk_frame i) h k) h)
            (λ s g. metadata-Streams config m (world i) s g))

    send_chunk-Streams :
        (i : ℕ) (st : SendState)
        → i < total_chunks
        → Streams st
        → OnStep Streams (send_chunk config m chunk_reader world i st)
    unfolding send_chunk
    send_chunk-Streams i st k h =
        if_both (OnStep Streams) (world i).stop_requested (aborted st) _ h (
          if_both (OnStep Streams) (no_bytes (chunk_reader i)) (going st) _ h (
            OnStep-continue Streams _ _ (beacon-Streams config m (world i) st h)
              (λ s g. or_drop-Streams i s k g)))

    pub send_chunks-Streams :
        (is : List ℕ) (st : SendState)
        → All (λ i. i < total_chunks) is
        → Streams st
        → OnStep Streams (send_chunks config m chunk_reader world is st)
    unfolding send_chunks
    send_chunks-Streams [] st k h = h
    send_chunks-Streams (i ∷ is) st k h =
        OnStep-continue Streams (send_chunk config m chunk_reader world i st) _
          (send_chunk-Streams i st k.0 h) (λ s g. send_chunks-Streams is s k.1 g)

    pub resend_chunks-Streams :
        (is : List ℕ) (st : SendState)
        → All (λ i. i < total_chunks) is
        → Streams st
        → OnStep Streams (resend_chunks config m chunk_reader world is st)
    unfolding resend_chunks resend_chunk
    resend_chunks-Streams [] st k h = h
    resend_chunks-Streams (i ∷ is) st k h =
        OnStep-continue Streams (resend_chunk config m chunk_reader world i st) _
          (if_both (OnStep Streams) (no_bytes (chunk_reader i)) _ _ h (
            OnStep-sendto Streams _ (world i).frame_outcome (aborted st) st _ h
              (IsStream-put st.frames (chunk_frame i) h k.0) h))
          (λ s g. resend_chunks-Streams is s k.1 g)
