-- ===== src/PreMetadata/Open.antt =====
-- The buffer that a chunk goes to: the one that there is, or a new one for which room is made.
use ssync.Prelude.{
  ℕ, zero, suc, ◌≡◌, refl, inl, inr, Bool, true, false, none, some, List, [], ◌∷◌, arith,
  if◌then◌else◌, Option-cases, length,
}
use ssync.Struct.{Bytes}
use ssync.Dict.{get_item, set_item}
use ssync.Dict.Update.{get_item-set_item, set_item-IsDict}
use ssync.Frames.{bytes_eq}
use ssync.Frames.Equal.{bytes_eq_refl, bytes_eq_sound}
use ssync.PreMetadata.{
  PreMetadataConfig, Pending, PreMetadata, evict, evict_oldest, oldest_id, evict_all, expired_ids,
  evict_expired, limit_transfers, open_pending,
}
use ssync.PreMetadata.Sums.{weigh-set_item_new, Values-get_item, Values-set_item}
use ssync.PreMetadata.Evictions.{IsPending, IsBuffered, evict-IsBuffered, get_item-evict}

module _ (config : PreMetadataConfig) (id : Bytes) where
  -- The buffers are good, and there is none for the transfer.
  abbrev Without : PreMetadata → Type 0
  Without p = IsBuffered config p × (get_item bytes_eq id p.pending ≡ none)

  evict-Without : (k : Bytes) (p : PreMetadata) → Without p → Without (evict k p)
  evict-Without k p (h, e) =
      (evict-IsBuffered config k p h, rw (get_item-evict k id p h.keys) (ground arith))

  evict_all-Without : (ks : List Bytes) (p : PreMetadata) → Without p → Without (evict_all ks p)
  unfolding evict_all
  evict_all-Without [] p w = w
  evict_all-Without (k ∷ ks) p w = evict_all-Without ks (evict k p) (evict-Without k p w)

  evict_oldest-Without : (p : PreMetadata) → Without p → Without (evict_oldest p)
  unfolding evict_oldest
  evict_oldest-Without p w = elim (Option-cases (oldest_id p.pending)) [
    | inl e ↦ rw (e, evict_oldest) w
    | inr (k, e) ↦ rw (e, evict_oldest) (evict-Without k p w)
  ]

  Without-if : (b : Bool) (p q : PreMetadata) → Without p → Without q → Without (if b then p else q)
  Without-if true p q v w = v
  Without-if false p q v w = w

  limit_transfers-Without :
      (rounds max_transfers : ℕ) (p : PreMetadata)
      → Without p
      → Without (limit_transfers rounds max_transfers p)
  unfolding limit_transfers
  limit_transfers-Without zero m p w = w
  limit_transfers-Without (suc rounds) m p w =
      Without-if _ _ _
        (limit_transfers-Without rounds m (evict_oldest p) (evict_oldest-Without p w)) w

  evict_expired-Without :
      (now : ℕ) (p : PreMetadata) → Without p → Without (evict_expired config now p)
  unfolding evict_expired
  evict_expired-Without now p w =
      Without-if _ _ _ w
        (evict_all-Without (expired_ids config.pre_metadata_ttl_s now p.pending) p w)

  -- The buffers with that of the transfer, which is good too.
  pub record Opened (r : PreMetadata × Pending) : Type 0 where
    pub buffers : IsBuffered config r.0
    pub found : get_item bytes_eq id r.0.pending ≡ some r.1
    pub good : IsPending config r.1

  created : ℕ → Pending
  created now = record { chunks = []; buffered_bytes = 0; last_update_s = now }

  add_created :
      (now : ℕ) (p : PreMetadata)
      → Without p
      → Opened (record p { pending = set_item bytes_eq id (created now) p.pending }, created now)
  unfolding created
  add_created now p (h, e) =
      let fresh : IsPending config (created now) = record {
        apart = tt;
        counted = refl;
        within = omega arith;
      } in
      let same = weigh-set_item_new bytes_eq (λ q. q.buffered_bytes) id (created now) p.pending e in
      record {
        buffers = record {
          keys =
              set_item-IsDict bytes_eq bytes_eq_sound bytes_eq_refl id (created now) p.pending
                h.keys;
          each =
              Values-set_item bytes_eq (IsPending config) id (created now) p.pending fresh h.each;
          counted = omega (arith, same, h.counted);
          bounded = ground (arith, same, h.bounded);
        };
        found =
            rw
              (get_item-set_item bytes_eq bytes_eq_sound bytes_eq_refl id id (created now)
                p.pending)
              (rw (bytes_eq_refl id));
        good = fresh;
      }

  pub open_pending-Opened :
      (now : ℕ) (p : PreMetadata) → IsBuffered config p → Opened (open_pending config now id p)
  unfolding open_pending created
  open_pending-Opened now p h = elim (Option-cases (get_item bytes_eq id p.pending)) [
    | inl e ↦
        let expired = evict_expired config now p in
        rw (e, open_pending)
          (add_created now _ (
            limit_transfers-Without (length expired.pending)
              config.pre_metadata_max_pending_transfers expired
              (evict_expired-Without now p (h, e))))
    | inr (q, e) ↦
        rw (e, open_pending)
          (record {
            buffers = h;
            found = e;
            good = Values-get_item bytes_eq (IsPending config) id q p.pending h.each e;
          })
  ]
