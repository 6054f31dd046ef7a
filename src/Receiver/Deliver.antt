-- ===== src/Receiver/Deliver.antt =====
-- Arrivals of chunks of a file at a transfer, one after the other: what they keep, and which chunks
-- the transfer then has.
use ssync.Prelude.{
  ℕ, ◌≡◌, refl, sym, ap, ◌∙◌, inl, inr, Bool, true, false, ◌&&◌, ◌||◌, List, [], ◌∷◌, arith, ltb,
  leb, ◌==◌, if◌then◌else◌, le_or_lt, Bool-cases,
}
use ssync.Struct.{Bytes}
use ssync.Ranges.Cover.{covers}
use ssync.Ranges.Indexes.{elem}
use ssync.Tracker.Invariant.{is_complete_iff}
use ssync.Sender.{read_chunk}
use ssync.Receiver.{Transfer, accept_data}
use ssync.Receiver.Copy.{
  Core, core, core_stored, core-accept_data, Holds, covers-stored, stored-Holds, fits,
}

-- What `accept_data` makes of a transfer that holds what has arrived, for a chunk of the file.
core-accept_chunk :
    (raw : Bytes) (interval now : ℕ) (sent : Bool) (i : ℕ) (t : Transfer)
    → Holds raw (core t)
    → core (accept_data interval now sent i (read_chunk raw t.manifest.chunk_size i) t).0 ≡ (
        if t.finalized || leb t.manifest.total_chunks i
        then core t
        else core_stored i (read_chunk raw t.manifest.chunk_size i) (core t))
core-accept_chunk raw interval now sent i t h =
    let payload = read_chunk raw t.manifest.chunk_size i in
    core-accept_data interval now sent i payload t ∙ elim (le_or_lt t.manifest.total_chunks i) [
      | inl behind ↦ ground (arith, h.running)
      | inr inside ↦ ground (arith, h.running, h.sized, fits raw (core t) h i inside)
    ]

Holds-if :
    (raw : Bytes) (b : Bool) (x y : Core)
    → Holds raw x
    → (b ≡ false → Holds raw y)
    → Holds raw (if b then x else y)
Holds-if raw true x y h k = h
Holds-if raw false x y h k = k refl

-- `accept_data` of a chunk of the file, at any time, keeps the invariant.
pub accept_data-Holds :
    (raw : Bytes) (interval now : ℕ) (sent : Bool) (i : ℕ) (t : Transfer)
    → Holds raw (core t)
    → Holds raw
        (core (accept_data interval now sent i (read_chunk raw t.manifest.chunk_size i) t).0)
accept_data-Holds raw interval now sent i t h =
    let refused = t.finalized || leb t.manifest.total_chunks i in
    rw (core-accept_chunk raw interval now sent i t h) (
      Holds-if raw refused (core t) _ h
        λ (e : refused ≡ false). stored-Holds raw (core t) h i (ground arith) (ground arith))

-- The chunks that a transfer has received.
abbrev pub has : Transfer → ℕ → Bool
has t j = covers t.tracker.received_ranges j

pub has-accept_data :
    (raw : Bytes) (interval now : ℕ) (sent : Bool) (i : ℕ) (t : Transfer) (j : ℕ)
    → Holds raw (core t)
    → has (accept_data interval now sent i (read_chunk raw t.manifest.chunk_size i) t).0 j
      ≡ ((ltb i t.manifest.total_chunks && (i == j)) || has t j)
has-accept_data raw interval now sent i t j h =
    ap (λ c. covers c.tracker.received_ranges j) (core-accept_chunk raw interval now sent i t h)
    ∙ elim (Bool-cases t.finalized) [
      | inl e ↦
          let full : has t j ≡ ltb j t.tracker.total_chunks =
            (is_complete_iff t.tracker h.tracker).0 (sym h.ended ∙ e) j in
          ground (arith, e, full, h.tracked)
      | inr e ↦ elim (le_or_lt t.manifest.total_chunks i) [
        | inl behind ↦ ground (arith, e)
        | inr inside ↦ ground (arith, e, covers-stored raw (core t) h i inside j)
      ]
    ]

-- When a chunk arrives, whether a beacon that it causes can be sent, and which chunk it is.
pub record Arrival : Type 0 where
  pub now : ℕ
  pub sent : Bool
  pub chunk_index : ℕ

-- The arrivals of chunks of the file `raw`, one after the other.
unfoldable pub deliver : Bytes → ℕ → List Arrival → Transfer → Transfer
deliver raw interval [] t = t
deliver raw interval (a ∷ rest) t =
    let chunk = read_chunk raw t.manifest.chunk_size a.chunk_index in
    deliver raw interval rest (accept_data interval a.now a.sent a.chunk_index chunk t).0

unfoldable pub arrived : List Arrival → List ℕ
arrived [] = []
arrived (a ∷ rest) = a.chunk_index ∷ arrived rest

pub deliver-Holds :
    (raw : Bytes) (interval : ℕ) (order : List Arrival) (t : Transfer)
    → Holds raw (core t)
    → Holds raw (core (deliver raw interval order t))
unfolding deliver
deliver-Holds raw interval [] t h = h
deliver-Holds raw interval (a ∷ rest) t h =
    deliver-Holds raw interval rest _
      (accept_data-Holds raw interval a.now a.sent a.chunk_index t h)

pub manifest-accept_data :
    (raw : Bytes) (interval now : ℕ) (sent : Bool) (i : ℕ) (t : Transfer)
    → Holds raw (core t)
    → (accept_data interval now sent i (read_chunk raw t.manifest.chunk_size i) t).0.manifest
      ≡ t.manifest
manifest-accept_data raw interval now sent i t h =
    ap (λ c. c.manifest) (core-accept_chunk raw interval now sent i t h) ∙ ground arith

pub has-deliver :
    (raw : Bytes) (interval : ℕ) (order : List Arrival) (t : Transfer) (j : ℕ)
    → Holds raw (core t)
    → has (deliver raw interval order t) j
      ≡ ((ltb j t.manifest.total_chunks && elem j (arrived order)) || has t j)
unfolding deliver arrived
has-deliver raw interval [] t j h = ground arith
has-deliver raw interval (a ∷ rest) t j h =
    let chunk = read_chunk raw t.manifest.chunk_size a.chunk_index in
    let next = (accept_data interval a.now a.sent a.chunk_index chunk t).0 in
    let later =
      has-deliver raw interval rest next j
        (accept_data-Holds raw interval a.now a.sent a.chunk_index t h) in
    let same : next.manifest ≡ t.manifest =
      manifest-accept_data raw interval a.now a.sent a.chunk_index t h in
    ground (
      arith,
      later,
      ap (λ m. m.total_chunks) same,
      has-accept_data raw interval a.now a.sent a.chunk_index t j h,
    )

pub manifest-deliver :
    (raw : Bytes) (interval : ℕ) (order : List Arrival) (t : Transfer)
    → Holds raw (core t)
    → (deliver raw interval order t).manifest ≡ t.manifest
unfolding deliver
manifest-deliver raw interval [] t h = refl
manifest-deliver raw interval (a ∷ rest) t h =
    manifest-deliver raw interval rest _
      (accept_data-Holds raw interval a.now a.sent a.chunk_index t h)
    ∙ manifest-accept_data raw interval a.now a.sent a.chunk_index t h
