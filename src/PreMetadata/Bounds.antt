-- ===== src/PreMetadata/Bounds.antt =====
-- Buffering a chunk keeps the invariant of the buffers, so that they never hold more than the limit.
use ssync.Prelude.{
  ℕ, ◌+◌, ◌-◌, ◌≤◌, ◌≡◌, refl, ap, ◌⊎◌, inl, inr, Bool, true, false, Option, none, some, List, [],
  ◌∷◌, arith, ltb, leb, ◌==◌, if◌then◌else◌, ==_refl, ==_eq, length,
}
use mathlib.Core.Path.{subst}
use ssync.Struct.{Bytes}
use ssync.PreMetadata.Room.{Held, Fitted, fit_bytes-Fitted}
use ssync.Dict.{get_item, update_item}
use ssync.Dict.Update.{update_item_absent, set_item-IsDict, update_item-IsDict}
use ssync.Frames.{bytes_eq}
use ssync.Frames.Equal.{bytes_eq_refl, bytes_eq_sound}
use ssync.PreMetadata.{
  PreMetadataConfig, Pending, PreMetadata, has_none, projected, fit_bytes, open_pending,
  previous_size, put_chunk, store_pending, buffer_chunk,
}
use ssync.PreMetadata.Open.{Opened, open_pending-Opened}
use ssync.PreMetadata.Sums.{
  payload_bytes-set_item, previous_size-le, weigh-update_item, weigh-get_item, Values,
  Values-update_item,
}
use ssync.PreMetadata.Evictions.{buffered, IsPending, IsBuffered}

module _ (config : PreMetadataConfig) (now : ℕ) (id : Bytes) (index : ℕ) (payload : Bytes) where
  -- The buffer with the chunk in it.
  put-IsPending :
      (q : Pending)
      → IsPending config q
      → let bytes = q.buffered_bytes + length payload - previous_size index q.chunks in
        bytes ≤ config.pre_metadata_max_pending_bytes_per_transfer
        → IsPending config (put_chunk now index payload bytes q)
  put-IsPending q good within = record {
    apart = set_item-IsDict ◌==◌ ==_eq ==_refl index payload q.chunks good.apart;
    counted = omega (
      arith,
      good.counted,
      payload_bytes-set_item index payload q.chunks,
      previous_size-le index q.chunks,
    );
    within = within;
  }

  module _ (q : Pending) (good : IsPending config q) (p : PreMetadata)
      (h : IsBuffered config p) where
    abbrev previous : ℕ
    previous = previous_size index q.chunks

    abbrev bytes : ℕ
    bytes = q.buffered_bytes + length payload - previous

    abbrev put : List (Bytes × Pending)
    put = update_item bytes_eq id (put_chunk now index payload bytes) p.pending

    part : previous ≤ q.buffered_bytes
    part = omega (arith, good.counted, previous_size-le index q.chunks)

    -- Behind the loop the buffer is there, or it is not and the payload grows.
    buffered-put :
        Held config id (length payload) previous q part p
        → buffered put ≤ projected (length payload) previous p
    buffered-put (inl found) = omega (
      arith,
      part,
      h.counted,
      weigh-update_item bytes_eq (λ v. v.buffered_bytes) id (put_chunk now index payload bytes) q
          p.pending found,
      weigh-get_item bytes_eq (λ v. v.buffered_bytes) id q p.pending found,
    )
    buffered-put (inr (gone, grows)) =
        rw (update_item_absent bytes_eq id (put_chunk now index payload bytes) p.pending gone)
          (omega (arith, h.counted))

    put_empty : has_none p.pending ≡ true → buffered put ≡ 0
    unfolding update_item
    put_empty e = go p.pending e
      where
        go :
            (d : List (Bytes × Pending))
            → has_none d ≡ true
            → buffered (update_item bytes_eq id (put_chunk now index payload bytes) d) ≡ 0
        go [] e = refl
        go (x ∷ d) e = absurd (cc)

    put-IsBuffered :
        (total : ℕ)
        → bytes ≤ config.pre_metadata_max_pending_bytes_per_transfer
        → Held config id (length payload) previous q part p
        → total ≡ projected (length payload) previous p
        → (total ≤ config.pre_metadata_max_pending_bytes) ⊎ (has_none p.pending ≡ true)
        → IsBuffered config (record { pending = put; total_bytes = total })
    put-IsBuffered total within held e room = record {
      keys =
          update_item-IsDict bytes_eq bytes_eq_sound bytes_eq_refl id
            (put_chunk now index payload bytes) p.pending h.keys;
      each = put_each held;
      counted = omega (arith, buffered-put held);
      bounded = put_room room;
    }
      where
        put_room :
            (total ≤ config.pre_metadata_max_pending_bytes) ⊎ (has_none p.pending ≡ true)
            → (total ≤ config.pre_metadata_max_pending_bytes) ⊎ (buffered put ≡ 0)
        put_room (inl fits) = inl fits
        put_room (inr empty) = inr (put_empty empty)

        entry :
            Held config id (length payload) previous q part p
            → (v : Pending) → get_item bytes_eq id p.pending ≡ some v
            → q ≡ v
        entry (inl found) v f = cc
        entry (inr gone) v f = absurd (cc)

        put_each :
            Held config id (length payload) previous q part p
            → Values bytes_eq (IsPending config) put
        put_each held =
            Values-update_item bytes_eq (IsPending config) id (put_chunk now index payload bytes)
              p.pending
              (λ v f.
                subst (IsPending config) (ap (put_chunk now index payload bytes) (entry held v f))
                  (put-IsPending q good within))
              h.each

  kept_or :
      (b : Bool) (p r : PreMetadata)
      → IsBuffered config p
      → (b ≡ false → IsBuffered config r)
      → IsBuffered config (if b then p else r)
  kept_or true p r h k = h
  kept_or false p r h k = k refl

  store-IsBuffered :
      (p : PreMetadata) (q : Pending)
      → Opened config id (p, q)
      → IsBuffered config (store_pending config now id index payload (p, q))
  unfolding store_pending
  store-IsBuffered p q o =
      let limit = config.pre_metadata_max_pending_bytes_per_transfer in
      let before : ℕ = previous_size index q.chunks in
      let size : ℕ = length payload in
      let held : ℕ = q.buffered_bytes + size - before in
      let fit =
        fit_bytes (length p.pending) config.pre_metadata_max_pending_bytes id size before p in
      kept_or (ltb limit held) p _ o.buffers λ (w : ltb limit held ≡ false).
        go fit
          (fit_bytes-Fitted config id size before q (part q o.good p o.buffers) (length p.pending) p
            (omega arith) o.buffers (inl o.found))
          (ground (arith, w))
    where
      go :
          (r : PreMetadata × Option ℕ)
          → Fitted config id
              (length payload)
              (previous_size index q.chunks)
              q
              (part q o.good p o.buffers)
              r
          → q.buffered_bytes + length payload - previous_size index q.chunks
            ≤ config.pre_metadata_max_pending_bytes_per_transfer
          → IsBuffered config (elim r.1 [
            | none ↦ r.0
            | some bytes ↦ record {
              pending =
                  update_item bytes_eq id
                    (put_chunk now index payload
                      (q.buffered_bytes + length payload - previous_size index q.chunks))
                    r.0.pending;
              total_bytes = bytes;
            }
          ])
      go (p', none) f w = f
      go (p', some total) (h, held, e, room) w = put-IsBuffered q o.good p' h total w held e room

  -- `_buffer_pre_metadata_chunk_locked` keeps the invariant of the buffers, whatever the chunk: the
  -- total covers what the buffers hold, no buffer exceeds the limit of one transfer, and the total is
  -- within the limit of all, or else the buffers hold nothing.
  pub buffer_chunk-IsBuffered :
      (p : PreMetadata)
      → IsBuffered config p
      → IsBuffered config (buffer_chunk config now id index payload p)
  unfolding buffer_chunk
  buffer_chunk-IsBuffered p h =
      let opened = open_pending config now id p in
      kept_or (leb config.pre_metadata_max_pending_bytes 0) p _ h λ _.
        kept_or (leb config.pre_metadata_max_pending_bytes_per_transfer 0) p _ h λ _.
          kept_or (ltb config.pre_metadata_max_pending_bytes_per_transfer (length payload)) p _ h
            λ _. store-IsBuffered opened.0 opened.1 (open_pending-Opened config id now p h)
