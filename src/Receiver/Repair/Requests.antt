-- ===== src/Receiver/Repair/Requests.antt =====
-- What a periodic repair request asks for, and when none is sent.
use ssync.Prelude.{
  ℕ, ◌^◌, length, ◌+◌, ◌-◌, ◌≤◌, ◌<◌, ◌≡◌, refl, sym, ap, ◌∙◌, ◌⊎◌, inl, inr, Bool, true, false,
  not, ◌&&◌, List, [], ◌∷◌, arith, ltb, leb, if◌then◌else◌, lt→leb,
}
use mathlib.Core.Path.{subst}
use ssync.Ranges.{Range}
use ssync.Result.{ok}
use ssync.Struct.{Bytes}
use ssync.Types.{incomplete, max_ranges_per_frame}
use ssync.Ranges.Cover.{covers, span, IsCanonical}
use ssync.Tracker.{is_complete, missing_ranges, sum_lengths}
use ssync.Tracker.Invariant.{IsTracker}
use ssync.Tracker.Missing.{missing_ranges_correct, missing_ranges_empty_iff}
use ssync.Tracker.Restore.{sum_lengths-eq-span}
use ssync.Frames.Status.{encode_status}
use ssync.Receiver.{Transfer, Effect, send_frame, effective_reply_addr}
use ssync.Receiver.Repair.{
  RepairConfig, limit_missing_ranges_for_transfer, can_send_repair_request, repair_status,
  send_repair_request, no_ranges, seen_chunks, maybe_send_periodic_repair_request,
}
use ssync.Receiver.Repair.Encoded.{canonical-FitsWord, few_ranges}
use ssync.Frames.Status.Laws.{transfer_status_encoded}
use ssync.Receiver.Repair.Limits.{Asks, limit_missing_ranges-Asks}

-- One frame is sent, the bytes of a status that asks for some of the missing ranges, and the request is
-- noted.
pub record Requested (missing : List Range) (t : Transfer) (r : Transfer × List Effect)
    : Type 0 where
  pub asked : List Range
  pub asks : Asks missing asked
  pub bytes : Bytes
  pub encoded : encode_status (repair_status t asked) ≡ ok bytes
  pub frame : r.1 ≡ send_frame (ok bytes) (effective_reply_addr t) ∷ []
  pub in_flight : r.0.repair_request_in_flight ≡ true
  pub requested : r.0.requested_chunks_at_last_request ≡ span asked
  pub counted : r.0.received_count_at_last_request ≡ t.tracker.received_count
  pub tracker : r.0.tracker ≡ t.tracker

Requested-else :
    (b : Bool) (missing : List Range) (t : Transfer) (x y : Transfer × List Effect)
    → b ≡ false
    → Requested missing t y
    → Requested missing t (if b then x else y)
Requested-else true missing t x y e q = absurd (cc)
Requested-else false missing t x y e q = q

no_ranges-false : (missing : List Range) → (missing ≡ [] → true ≡ false) → no_ranges missing ≡ false
no_ranges-false [] h = h refl
no_ranges-false (r ∷ rest) h = refl

module _ (config : RepairConfig) (now : ℕ) where
  -- A request for some of the missing ranges fits its frame.
  record Sendable (missing : List Range) (t : Transfer) : Type 0 where
    id_size : length t.manifest.transfer_id ≡ 16
    limited : 0 < config.max_repair_chunks_per_request
    fits : config.max_repair_chunks_per_request ≤ max_ranges_per_frame
    bound : ℕ
    word : bound < 2 ^ 32
    below : (i : ℕ) → (covers missing i && leb bound i) ≡ false

  missing-Sendable :
      (t t' : Transfer)
      → t'.tracker ≡ t.tracker
      → t'.manifest ≡ t.manifest
      → IsTracker t.tracker
      → length t.manifest.transfer_id ≡ 16
      → t.tracker.total_chunks < 2 ^ 32
      → 0 < config.max_repair_chunks_per_request
      → config.max_repair_chunks_per_request ≤ max_ranges_per_frame
      → Sendable (missing_ranges t'.tracker) t'
  missing-Sendable t t' e f v a b c d = record {
    id_size = ap (λ m. length m.transfer_id) f ∙ a;
    limited = c;
    fits = d;
    bound = t.tracker.total_chunks;
    word = b;
    below = λ i.
        ap (λ k. covers (missing_ranges k) i && leb t.tracker.total_chunks i) e
        ∙ ground (arith, (missing_ranges_correct t.tracker v).1 i);
  }

  send-Requested :
      (t : Transfer) (r : Range) (rest : List Range)
      → IsCanonical (r ∷ rest)
      → config.enable_feedback ≡ true
      → Sendable (r ∷ rest) t
      → Requested (r ∷ rest) t (send_repair_request config now (r ∷ rest) t)
  unfolding send_repair_request
  send-Requested t r rest c e k =
      let limited = limit_missing_ranges_for_transfer config t (r ∷ rest) in
      let asks = limit_missing_ranges-Asks config t r rest c in
      let positive : leb (sum_lengths limited) 0 ≡ false =
        lt→leb _ _ (omega (arith, asks.some_chunk, sum_lengths-eq-span limited)) in
      let words =
        canonical-FitsWord 0 k.bound limited asks.canonical k.word
          (λ i. ground (arith, asks.of_missing i, k.below i)) in
      let few = few_ranges config t r rest c k.limited in
      let (bytes, encoded) =
        transfer_status_encoded t.manifest.transfer_id incomplete limited k.id_size asks.canonical
          words (omega (arith, few, k.fits)) in
      Requested-else (not config.enable_feedback) _ t _ _ (ground arith) (
        Requested-else (leb (sum_lengths limited) 0) _ t _ _ positive (
          rw encoded (record {
            asked = limited;
            asks = asks;
            bytes = bytes;
            encoded = encoded;
            frame = refl;
            in_flight = refl;
            requested = sum_lengths-eq-span limited;
            counted = refl;
            tracker = refl;
          })))

  send-Requested-list :
      (t : Transfer) (missing : List Range)
      → IsCanonical missing
      → config.enable_feedback ≡ true
      → no_ranges missing ≡ false
      → Sendable missing t
      → Requested missing t (send_repair_request config now missing t)
  send-Requested-list t [] c e n k = absurd (cc)
  send-Requested-list t (r ∷ rest) c e n k = send-Requested t r rest c e k

  can_send_keeps :
      (t : Transfer)
      → ((can_send_repair_request config now t).1.tracker ≡ t.tracker)
        × ((can_send_repair_request config now t).1.manifest ≡ t.manifest)
        × (effective_reply_addr (can_send_repair_request config now t).1 ≡ effective_reply_addr t)
  unfolding can_send_repair_request
  can_send_keeps t = (ground arith, ground arith, ground arith)

  same_request :
      (t t' : Transfer) (r : Transfer × List Effect)
      → t'.tracker ≡ t.tracker
      → t'.manifest ≡ t.manifest
      → effective_reply_addr t' ≡ effective_reply_addr t
      → Requested (missing_ranges t'.tracker) t' r
      → Requested (missing_ranges t.tracker) t r
  same_request t t' r e f g q = record {
    asked = q.asked;
    asks = subst (λ k. Asks (missing_ranges k) q.asked) e q.asks;
    bytes = q.bytes;
    encoded =
        ap (λ m. encode_status (repair_status (record t { manifest = m }) q.asked)) (sym f)
        ∙ q.encoded;
    frame = q.frame ∙ ap (λ a. send_frame (ok q.bytes) a ∷ []) g;
    in_flight = q.in_flight;
    requested = q.requested;
    counted = q.counted ∙ ap (λ k. k.received_count) e;
    tracker = q.tracker ∙ e;
  }

  -- Either no frame is sent, or a request for some of the chunks that have not arrived.
  abbrev Outcome : Transfer → Transfer × List Effect → Type 0
  Outcome t r = (r.1 ≡ []) ⊎ Requested (missing_ranges t.tracker) t r

  Outcome-if :
      (t : Transfer) (b : Bool) (x y : Transfer × List Effect)
      → Outcome t x
      → (b ≡ false → Outcome t y)
      → Outcome t (if b then x else y)
  Outcome-if t true x y h k = h
  Outcome-if t false x y h k = k refl

  -- A periodic tick on a transfer with a valid tracker, a 16 byte id and fewer than 2^32 chunks, under
  -- a limit of 1 to 2048 chunks per request, sends nothing, or the frame of one status that asks for
  -- canonical ranges, not empty, of chunks that have not arrived; then the request is in flight, with
  -- its number of chunks and the count at which it was sent, and the tracker is as before.
  pub periodic_request :
      (t : Transfer)
      → IsTracker t.tracker
      → length t.manifest.transfer_id ≡ 16
      → t.tracker.total_chunks < 2 ^ 32
      → 0 < config.max_repair_chunks_per_request
      → config.max_repair_chunks_per_request ≤ max_ranges_per_frame
      → ((maybe_send_periodic_repair_request config now t).1 ≡ [])
        ⊎ Requested (missing_ranges t.tracker) t (maybe_send_periodic_repair_request config now t)
  unfolding maybe_send_periodic_repair_request
  periodic_request t v id_size word limited fits =
      let t' = (can_send_repair_request config now t).1 in
      let (same, named, replied) = can_send_keeps t in
      let missing = missing_ranges t'.tracker in
      let canonical : IsCanonical missing =
        subst (λ k. IsCanonical (missing_ranges k)) (sym same)
          (missing_ranges_correct t.tracker v).0 in
      let early =
        ltb 0 t'.last_periodic_repair_request_s
        && ltb (now - t'.last_periodic_repair_request_s) config.periodic_repair_request_s in
      Outcome-if t (not config.enable_feedback) (t, []) _ (inl refl)
        λ enabled.
          Outcome-if t (leb config.periodic_repair_request_s 0) (t, []) _ (inl refl)
            λ _.
              Outcome-if t
                (ltb (seen_chunks t.highest_chunk_seen) config.periodic_repair_min_seen_chunks)
                (t, []) _ (inl refl)
                λ _.
                  Outcome-if t (not (can_send_repair_request config now t).0) (t', []) _ (inl refl)
                    λ _.
                      Outcome-if t early (t', []) _ (inl refl)
                        λ _.
                          Outcome-if t (no_ranges missing) (t', [])
                            (send_repair_request config now missing t') (inl refl)
                            λ filled. inr (
                              same_request t t' _ same named replied (
                                send-Requested-list t' missing canonical (ground arith) filled
                                  (missing-Sendable t t' same named v id_size word limited fits)))

  -- While a request is in flight and no chunk has arrived since, no tick before the timeout sends
  -- anything or changes the transfer.
  quiet_in_flight :
      (t : Transfer)
      → t.repair_request_in_flight ≡ true
      → 0 < t.requested_chunks_at_last_request
      → t.tracker.received_count ≡ t.received_count_at_last_request
      → now - t.last_periodic_repair_request_s < config.repair_request_inflight_timeout_s
      → maybe_send_periodic_repair_request config now t ≡ (t, [])
  unfolding maybe_send_periodic_repair_request can_send_repair_request
  quiet_in_flight t a b c d = ground arith

  released : Transfer → Transfer
  released t = record t { repair_request_in_flight = false; last_periodic_repair_request_s = 0 }

  follow_on :
      (t : Transfer)
      → config.enable_feedback ≡ true
      → 0 < config.periodic_repair_request_s
      → config.periodic_repair_min_seen_chunks ≤ seen_chunks t.highest_chunk_seen
      → t.repair_request_in_flight ≡ true
      → 0 < t.requested_chunks_at_last_request
      → t.received_count_at_last_request + t.requested_chunks_at_last_request
        ≤ t.tracker.received_count
      → no_ranges (missing_ranges t.tracker) ≡ false
      → maybe_send_periodic_repair_request config now t
        ≡ send_repair_request config now (missing_ranges t.tracker) (released t)
  unfolding maybe_send_periodic_repair_request can_send_repair_request released
  follow_on t a b c d e f g = ground arith

  -- Once as many chunks have arrived as the request in flight asked for, the next tick sends a request
  -- for chunks that have not arrived, if any are missing: with feedback and periodic requests enabled,
  -- enough chunks seen, a 16 byte id, fewer than 2^32 chunks, and a limit of 1 to 2048 chunks per request.
  pub next_request :
      (t : Transfer)
      → IsTracker t.tracker
      → length t.manifest.transfer_id ≡ 16
      → t.tracker.total_chunks < 2 ^ 32
      → 0 < config.max_repair_chunks_per_request
      → config.max_repair_chunks_per_request ≤ max_ranges_per_frame
      → config.enable_feedback ≡ true
      → 0 < config.periodic_repair_request_s
      → config.periodic_repair_min_seen_chunks ≤ seen_chunks t.highest_chunk_seen
      → t.repair_request_in_flight ≡ true
      → 0 < t.requested_chunks_at_last_request
      → t.received_count_at_last_request + t.requested_chunks_at_last_request
        ≤ t.tracker.received_count
      → is_complete t.tracker ≡ false
      → Requested (missing_ranges t.tracker) t (maybe_send_periodic_repair_request config now t)
  unfolding released
  next_request t v id_size word limited fits a b c d e f g =
      let missing = missing_ranges t.tracker in
      let filled : no_ranges missing ≡ false =
        no_ranges-false missing
          (λ (z : missing ≡ []). sym ((missing_ranges_empty_iff t.tracker v).0 z) ∙ g) in
      subst (Requested missing t) (sym (follow_on t a b c d e f filled)) (
        same_request t (released t) _ refl refl refl (
          send-Requested-list (released t) missing (missing_ranges_correct t.tracker v).0 a filled
            (missing-Sendable t (released t) refl refl v id_size word limited fits)))
