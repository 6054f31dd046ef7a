-- ===== src/PreMetadata/Evictions.antt =====
-- The invariant of the buffers, and that evictions keep it and shorten the dictionary.
use ssync.Prelude.{
  ℕ, suc, ◌≤◌, ◌≡◌, refl, ◌≢◌, ◌⊎◌, inl, inr, false, none, List, [], ◌∷◌, arith, ◌==◌,
  if◌then◌else◌, Option-cases, length,
}
use ssync.Struct.{Bytes}
use ssync.Dict.{get_item, pop_item, IsDict}
use ssync.Dict.Update.{get_item-pop_item, pop_item-IsDict}
use ssync.Frames.{bytes_eq}
use ssync.Frames.Equal.{bytes_eq_refl, bytes_eq_sound}
use ssync.PreMetadata.{
  PreMetadataConfig, Pending, PreMetadata, oldest, oldest_id, evict, evict_oldest, has_none,
}
use ssync.PreMetadata.Sums.{payload_bytes, weigh, weigh-pop_item, Values, Values-pop_item}

-- The bytes that the buffers hold.
abbrev pub buffered : List (Bytes × Pending) → ℕ
buffered d = weigh bytes_eq (λ q. q.buffered_bytes) d

-- A buffer knows the size of its chunks, which is within the limit of one transfer.
pub record IsPending (config : PreMetadataConfig) (q : Pending) : Type 0 where
  pub apart : IsDict ◌==◌ q.chunks
  pub counted : q.buffered_bytes ≡ payload_bytes q.chunks
  pub within : q.buffered_bytes ≤ config.pre_metadata_max_pending_bytes_per_transfer

-- The buffers are good, they hold at most the total, and the total is within the limit of all
-- transfers, or else the buffers hold nothing.
pub record IsBuffered (config : PreMetadataConfig) (p : PreMetadata) : Type 0 where
  pub keys : IsDict bytes_eq p.pending
  pub each : Values bytes_eq (IsPending config) p.pending
  pub counted : buffered p.pending ≤ p.total_bytes
  pub bounded : (p.total_bytes ≤ config.pre_metadata_max_pending_bytes) ⊎ (buffered p.pending ≡ 0)

less_or_none : (a a' b b' m : ℕ) → a' ≤ a → b' ≤ b → (a ≤ m) ⊎ (b ≡ 0) → (a' ≤ m) ⊎ (b' ≡ 0)
less_or_none a a' b b' m h k (inl x) = inl (omega arith)
less_or_none a a' b b' m h k (inr x) = inr (omega arith)

module _ (config : PreMetadataConfig) where
  pub evict-IsBuffered :
      (id : Bytes) (p : PreMetadata) → IsBuffered config p → IsBuffered config (evict id p)
  unfolding evict
  evict-IsBuffered id p h = elim (Option-cases (get_item bytes_eq id p.pending)) [
    | inl e ↦ rw (e, evict) h
    | inr (q, e) ↦
        let popped = weigh-pop_item bytes_eq (λ q. q.buffered_bytes) id q p.pending e in
        rw (e, evict)
          (record {
            keys = pop_item-IsDict bytes_eq bytes_eq_sound bytes_eq_refl id p.pending h.keys;
            each = Values-pop_item bytes_eq (IsPending config) id p.pending h.each;
            counted = omega (arith, popped, h.counted);
            bounded =
                less_or_none p.total_bytes _ (buffered p.pending) _ _ (omega arith)
                  (omega (arith, popped)) h.bounded;
          })
  ]

  pub evict_oldest-IsBuffered :
      (p : PreMetadata) → IsBuffered config p → IsBuffered config (evict_oldest p)
  unfolding evict_oldest
  evict_oldest-IsBuffered p h = elim (Option-cases (oldest_id p.pending)) [
    | inl e ↦ rw (e, evict_oldest) h
    | inr (id, e) ↦ rw (e, evict_oldest) (evict-IsBuffered id p h)
  ]

-- What an eviction leaves of the entry at a key.
pub get_item-evict :
    (id j : Bytes) (p : PreMetadata)
    → IsDict bytes_eq p.pending
    → get_item bytes_eq j (evict id p).pending
      ≡ (if bytes_eq id j then none else get_item bytes_eq j p.pending)
unfolding evict
get_item-evict id j p h = ground (
  arith,
  bytes_eq_sound id j,
  get_item-pop_item bytes_eq bytes_eq_sound bytes_eq_refl id j p.pending h,
)

-- The oldest is one of the entries.
get_item-oldest :
    (best : Bytes × Pending) (d : List (Bytes × Pending))
    → get_item bytes_eq (oldest best d).0 (best ∷ d) ≢ none
unfolding oldest get_item
get_item-oldest best [] = ground (arith, bytes_eq_refl best.0)
get_item-oldest best (item ∷ rest) =
    ground (arith, get_item-oldest best rest, get_item-oldest item rest)

length-pop_item :
    (k : Bytes) (d : List (Bytes × Pending))
    → get_item bytes_eq k d ≢ none
    → suc (length (pop_item bytes_eq k d)) ≡ length d
unfolding get_item pop_item
length-pop_item k [] h = absurd (h refl)
length-pop_item k (q ∷ rest) h = ground (arith, length-pop_item k rest)

pub length-evict_oldest :
    (p : PreMetadata)
    → has_none p.pending ≡ false
    → suc (length (evict_oldest p).pending) ≡ length p.pending
unfolding evict_oldest evict oldest_id
length-evict_oldest p h = go p.pending p.total_bytes h
  where
    go :
        (d : List (Bytes × Pending)) (n : ℕ)
        → has_none d ≡ false
        → suc (length (evict_oldest (record { pending = d; total_bytes = n })).pending) ≡ length d
    go [] n h = absurd (cc)
    go (q ∷ rest) n h =
        ground (arith, get_item-oldest q rest, length-pop_item (oldest q rest).0 (q ∷ rest))
