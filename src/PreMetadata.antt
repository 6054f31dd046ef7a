-- ===== src/PreMetadata.antt =====
-- src/ssync/space_sync/receiver.py: the buffers for DATA that comes before its METADATA, the methods
-- `_buffer_pre_metadata_chunk_locked`, `_pop_pre_metadata_buffer_locked`,
-- `_evict_oldest_pre_metadata_locked` and `_evict_expired_pre_metadata_locked`.
--
-- The dictionaries keep the order of insertion. `pending` in the source is a reference: what is
-- written through it after its entry was evicted is lost, so the write here goes to the entry if there
-- still is one. The total is a natural number: it stops at 0 where the source takes `max(0, ...)`, and
-- elsewhere the source's differences are not negative.
pub mod Sums
pub mod Evictions
pub mod Room
pub mod Open
pub mod Bounds
pub mod Run
use ssync.Prelude.{
  ℕ, zero, suc, ◌+◌, ◌-◌, Bool, true, false, not, ◌&&◌, Option, none, some, List, [], ◌∷◌, ltb, leb,
  ◌==◌, if◌then◌else◌, length,
}
use ssync.Struct.{Bytes}
use ssync.Dict.{get_item, set_item, pop_item, update_item}
use ssync.Frames.{bytes_eq}

-- The part of `ReceiverConfig` that is read here; times are in milliseconds.
pub record PreMetadataConfig : Type 0 where
  pub pre_metadata_max_pending_bytes : ℕ
  pub pre_metadata_max_pending_bytes_per_transfer : ℕ
  pub pre_metadata_max_pending_transfers : ℕ
  pub pre_metadata_ttl_s : ℕ

pub record Pending : Type 0 where
  pub chunks : List (ℕ × Bytes)
  pub buffered_bytes : ℕ
  pub last_update_s : ℕ

-- `_pending_pre_metadata` and `_pending_pre_metadata_total_bytes`
pub record PreMetadata : Type 0 where
  pub pending : List (Bytes × Pending)
  pub total_bytes : ℕ

abbrev pub has_none {ℓ} : {A : Type ℓ} → List A → Bool
has_none [] = true
has_none (x ∷ xs) = false

-- `min(items, key=last_update_s)`: the first of the least.
pub oldest : Bytes × Pending → List (Bytes × Pending) → Bytes × Pending
oldest best [] = best
oldest best (item ∷ rest) =
    oldest (if ltb item.1.last_update_s best.1.last_update_s then item else best) rest

-- `pop`, and the bytes of the buffer are taken off the total
unfoldable pub evict : Bytes → PreMetadata → PreMetadata
evict transfer_id p = elim (get_item bytes_eq transfer_id p.pending) [
  | none ↦ p
  | some evicted ↦ record {
    pending = pop_item bytes_eq transfer_id p.pending;
    total_bytes = p.total_bytes - evicted.buffered_bytes;
  }
]

-- The key that `_evict_oldest_pre_metadata_locked` pops.
pub oldest_id : List (Bytes × Pending) → Option Bytes
unfolding oldest
oldest_id [] = none
oldest_id (item ∷ rest) = some (oldest item rest).0

unfoldable pub evict_oldest : PreMetadata → PreMetadata
unfolding evict oldest_id
evict_oldest p = elim (oldest_id p.pending) [ none ↦ p | some transfer_id ↦ evict transfer_id p ]

pub expired_ids : ℕ → ℕ → List (Bytes × Pending) → List Bytes
expired_ids ttl_s now [] = []
expired_ids ttl_s now ((transfer_id, pending) ∷ rest) =
    let later = expired_ids ttl_s now rest in
    if leb ttl_s (now - pending.last_update_s) then transfer_id ∷ later else later

pub evict_all : List Bytes → PreMetadata → PreMetadata
unfolding evict
evict_all [] p = p
evict_all (transfer_id ∷ rest) p = evict_all rest (evict transfer_id p)

unfoldable pub evict_expired : PreMetadataConfig → ℕ → PreMetadata → PreMetadata
unfolding expired_ids evict_all
evict_expired config now p =
    if leb config.pre_metadata_ttl_s 0
    then p
    else evict_all (expired_ids config.pre_metadata_ttl_s now p.pending) p

-- The loop that makes room for one more transfer; each round evicts one.
pub limit_transfers : ℕ → ℕ → PreMetadata → PreMetadata
unfolding evict_oldest
limit_transfers zero max_transfers p = p
limit_transfers (suc rounds) max_transfers p =
    let fewer = limit_transfers rounds max_transfers (evict_oldest p) in
    if leb max_transfers (length p.pending) && not (has_none p.pending) then fewer else p

-- `total + len(payload) - len(previous)`
abbrev projected : ℕ → ℕ → PreMetadata → ℕ
projected size previous p = p.total_bytes + size - previous

-- The loop that makes room for the payload: what is left, and the projected total, or none where the
-- method returns. Each round evicts one transfer.
pub fit_bytes : ℕ → ℕ → Bytes → ℕ → ℕ → PreMetadata → PreMetadata × Option ℕ
unfolding evict_oldest
fit_bytes zero max_bytes transfer_id size previous p = (p, some (projected size previous p))
fit_bytes (suc rounds) max_bytes transfer_id size previous p =
    let fewer = fit_bytes rounds max_bytes transfer_id size previous (evict_oldest p) in
    if not (ltb max_bytes (projected size previous p) && not (has_none p.pending))
    then (p, some (projected size previous p))
    else elim (get_item bytes_eq transfer_id p.pending) [
      | none ↦ fewer
      | some pending ↦ if length p.pending == 1 then (p, none) else fewer
    ]

-- `pending`, made if it is not there
pub open_pending : PreMetadataConfig → ℕ → Bytes → PreMetadata → PreMetadata × Pending
unfolding limit_transfers evict_expired
open_pending config now transfer_id p =
    let expired = evict_expired config now p in
    let limited =
      limit_transfers (length expired.pending) config.pre_metadata_max_pending_transfers expired in
    let created : Pending = record { chunks = []; buffered_bytes = 0; last_update_s = now } in
    elim (get_item bytes_eq transfer_id p.pending) [
      | none ↦ (
        record limited { pending = set_item bytes_eq transfer_id created limited.pending },
        created,
      )
      | some pending ↦ (p, pending)
    ]

-- `len(previous)`, or 0 if there is no previous payload
pub previous_size : ℕ → List (ℕ × Bytes) → ℕ
previous_size chunk_index chunks = elim (get_item ◌==◌ chunk_index chunks) [
  | none ↦ 0
  | some payload ↦ length payload
]

-- The chunk is put into the buffer, with its size and the time.
abbrev put_chunk : ℕ → ℕ → Bytes → ℕ → Pending → Pending
put_chunk now chunk_index payload transfer_bytes pending = record {
  chunks = set_item ◌==◌ chunk_index payload pending.chunks;
  buffered_bytes = transfer_bytes;
  last_update_s = now;
}

-- What follows the search for the buffer.
pub store_pending : PreMetadataConfig → ℕ → Bytes → ℕ → Bytes → PreMetadata × Pending → PreMetadata
unfolding fit_bytes previous_size
store_pending config now transfer_id chunk_index payload (p, pending) =
    let previous = previous_size chunk_index pending.chunks in
    let transfer_bytes = pending.buffered_bytes + length payload - previous in
    let (fitted, total) =
      fit_bytes (length p.pending) config.pre_metadata_max_pending_bytes transfer_id
        (length payload) previous p in
    if ltb config.pre_metadata_max_pending_bytes_per_transfer transfer_bytes
    then p
    else elim total [
      | none ↦ fitted
      | some bytes ↦ record {
        pending =
            update_item bytes_eq transfer_id (put_chunk now chunk_index payload transfer_bytes)
              fitted.pending;
        total_bytes = bytes;
      }
    ]

unfoldable pub buffer_chunk : PreMetadataConfig → ℕ → Bytes → ℕ → Bytes → PreMetadata → PreMetadata
unfolding open_pending store_pending
buffer_chunk config now transfer_id chunk_index payload p =
    if leb config.pre_metadata_max_pending_bytes 0
    then p
    else if leb config.pre_metadata_max_pending_bytes_per_transfer 0
    then p
    else if ltb config.pre_metadata_max_pending_bytes_per_transfer (length payload)
    then p
    else store_pending config now transfer_id chunk_index payload
        (open_pending config now transfer_id p)

-- `sorted(chunks.items(), key=index)`
insert_chunk : ℕ × Bytes → List (ℕ × Bytes) → List (ℕ × Bytes)
insert_chunk c [] = c ∷ []
insert_chunk c (d ∷ rest) = if leb c.0 d.0 then c ∷ d ∷ rest else d ∷ insert_chunk c rest

unfoldable pub sort_chunks : List (ℕ × Bytes) → List (ℕ × Bytes)
unfolding insert_chunk
sort_chunks [] = []
sort_chunks (c ∷ rest) = insert_chunk c (sort_chunks rest)

unfoldable pub pop_buffer : Bytes → PreMetadata → PreMetadata × List (ℕ × Bytes)
unfolding evict sort_chunks
pop_buffer transfer_id p =
    let chunks : List (ℕ × Bytes) = elim (get_item bytes_eq transfer_id p.pending) [
      | none ↦ []
      | some pending ↦ sort_chunks pending.chunks
    ] in
    (evict transfer_id p, chunks)
