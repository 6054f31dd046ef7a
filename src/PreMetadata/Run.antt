-- ===== src/PreMetadata/Run.antt =====
-- Any sequence of what happens to the buffers, and what they then hold.
use ssync.Prelude.{
  ℕ, ◌+◌, ◌≤◌, ◌≡◌, refl, ◌⊎◌, inl, inr, Bool, true, false, List, [], ◌∷◌, arith, leb,
  if◌then◌else◌, All,
}
use ssync.Struct.{Bytes}
use ssync.Frames.{bytes_eq}
use ssync.PreMetadata.{
  PreMetadataConfig, Pending, PreMetadata, evict_all, expired_ids, evict, evict_expired,
  buffer_chunk, pop_buffer,
}
use ssync.PreMetadata.Sums.{payload_bytes, Values}
use ssync.PreMetadata.Evictions.{buffered, IsPending, IsBuffered, evict-IsBuffered}
use ssync.PreMetadata.Bounds.{buffer_chunk-IsBuffered}

-- A chunk comes before its metadata, the metadata of a transfer come, or the maintenance loop runs.
pub data Event : Type 0 where
  chunk_comes : ℕ → Bytes → ℕ → Bytes → Event
  metadata_come : Bytes → Event
  maintenance : ℕ → Event

abbrev pub empty : PreMetadata
empty = record { pending = []; total_bytes = 0 }

abbrev pub handle : PreMetadataConfig → Event → PreMetadata → PreMetadata
handle config (chunk_comes now id index payload) p = buffer_chunk config now id index payload p
handle config (metadata_come id) p = (pop_buffer id p).0
handle config (maintenance now) p = evict_expired config now p

unfoldable pub run : PreMetadataConfig → List Event → PreMetadata → PreMetadata
run config [] p = p
run config (event ∷ events) p = run config events (handle config event p)

-- The bytes of all payloads in the buffers.
abbrev pub held_bytes : List (Bytes × Pending) → ℕ
held_bytes [] = 0
held_bytes (q ∷ rest) = payload_bytes q.1.chunks + held_bytes rest

module _ (config : PreMetadataConfig) where
  evict_all-IsBuffered :
      (ids : List Bytes) (p : PreMetadata)
      → IsBuffered config p
      → IsBuffered config (evict_all ids p)
  unfolding evict_all
  evict_all-IsBuffered [] p h = h
  evict_all-IsBuffered (id ∷ ids) p h =
      evict_all-IsBuffered ids (evict id p) (evict-IsBuffered config id p h)

  kept_if :
      (b : Bool) (p r : PreMetadata)
      → IsBuffered config p
      → IsBuffered config r
      → IsBuffered config (if b then p else r)
  kept_if true p r h k = h
  kept_if false p r h k = k

  handle-IsBuffered :
      (event : Event) (p : PreMetadata)
      → IsBuffered config p
      → IsBuffered config (handle config event p)
  unfolding pop_buffer evict_expired
  handle-IsBuffered (chunk_comes now id index payload) p h =
      buffer_chunk-IsBuffered config now id index payload p h
  handle-IsBuffered (metadata_come id) p h = evict-IsBuffered config id p h
  handle-IsBuffered (maintenance now) p h =
      kept_if (leb config.pre_metadata_ttl_s 0) p _ h
        (evict_all-IsBuffered (expired_ids config.pre_metadata_ttl_s now p.pending) p h)

  pub run-IsBuffered :
      (events : List Event) (p : PreMetadata)
      → IsBuffered config p
      → IsBuffered config (run config events p)
  unfolding run
  run-IsBuffered [] p h = h
  run-IsBuffered (event ∷ events) p h =
      run-IsBuffered events (handle config event p) (handle-IsBuffered event p h)

  held-eq-buffered :
      (d : List (Bytes × Pending))
      → Values bytes_eq (IsPending config) d
      → held_bytes d ≡ buffered d
  held-eq-buffered [] h = refl
  held-eq-buffered (q ∷ rest) h = omega (arith, h.0.counted, held-eq-buffered rest h.1)

  -- Whatever chunks come before their metadata, in whatever order with metadata and the maintenance
  -- loop, the payloads in the buffers never have more bytes than the limit for all transfers, and those
  -- of one transfer never more than the limit for one.
  pub buffers_within_limits :
      (events : List Event)
      → (held_bytes (run config events empty).pending ≤ config.pre_metadata_max_pending_bytes)
        × All
            (λ q. payload_bytes q.1.chunks ≤ config.pre_metadata_max_pending_bytes_per_transfer)
            (run config events empty).pending
  buffers_within_limits events =
      let start : IsBuffered config empty = record {
        keys = tt;
        each = tt;
        counted = omega arith;
        bounded = inl (omega arith);
      } in
      let h = run-IsBuffered events empty start in
      (total_bound h.bounded h, each_bound (run config events empty).pending h.each)
    where
      total_bound :
          {p : PreMetadata}
          → (p.total_bytes ≤ config.pre_metadata_max_pending_bytes) ⊎ (buffered p.pending ≡ 0)
          → IsBuffered config p
          → held_bytes p.pending ≤ config.pre_metadata_max_pending_bytes
      total_bound {p} (inl fits) h = omega (arith, held-eq-buffered p.pending h.each, h.counted)
      total_bound {p} (inr none_held) h = omega (arith, held-eq-buffered p.pending h.each)

      each_bound :
          (d : List (Bytes × Pending))
          → Values bytes_eq (IsPending config) d
          → All
              (λ q. payload_bytes q.1.chunks ≤ config.pre_metadata_max_pending_bytes_per_transfer)
              d
      each_bound [] h = tt
      each_bound (q ∷ rest) h = (omega (arith, h.0.counted, h.0.within), each_bound rest h.1)
