-- ===== src/Tracker/Invariant.antt =====
-- The invariant of `ChunkTracker`, and what `add` and `is_complete` do to the set of the chunks.
use ssync.Prelude.{
  ℕ, suc, ◌+◌, ◌≤◌, ◌<◌, ◌≡◌, ◌∙◌, refl, sym, ap, Bool, true, false, not, ◌&&◌, ◌||◌, ◌↔◌, Option,
  none, some, List, [], ◌∷◌, ltb, ◌==◌, if◌then◌else◌, arith, lt→ltb, le→ltb, pos→ne_zero, le_or_lt,
  inl, inr,
}
use ssync.Ranges.{Range}
use ssync.Ranges.Cover.{covers, covers_below, span, IsCanonicalFrom, IsCanonical}
use ssync.Tracker.{ChunkTracker, fresh, add, is_complete}
use ssync.Tracker.Search.{find_insert_at_lem}
use ssync.Tracker.Insert.{insert_ref, place-count_before}
use ssync.Tracker.Walk.{
  IsWithin, OnSome, is_none, insert_ref-IsCanonicalFrom, insert_ref-IsWithin, span-insert_ref,
  covers-insert_ref, is_none-insert_ref,
}

-- The ranges are canonical, they end within the transfer, and the count is their span.
pub record IsTracker (t : ChunkTracker) : Type 0 where
  pub canonical : IsCanonical t.received_ranges
  pub within : IsWithin t.total_chunks t.received_ranges
  pub counted : t.received_count ≡ span t.received_ranges

pub fresh-IsTracker : (n : ℕ) → IsTracker (fresh n)
fresh-IsTracker n = record { canonical = tt; within = tt; counted = refl }

-- `add` by the reference walk.
abbrev pub add_ref : ℕ → ChunkTracker → Option (List Range) → Bool × ChunkTracker
add_ref i t none = (false, t)
add_ref i t (some rs) =
    (true, record t { received_ranges = rs; received_count = t.received_count + 1 })

-- On a tracker that satisfies the invariant, the binary search with its insertions and removals by
-- position has the result of one walk over the ranges, for every chunk index of the transfer.
pub add-eq-walk :
    (i : ℕ) (t : ChunkTracker)
    → IsTracker t
    → i < t.total_chunks
    → add i t ≡ add_ref i t (insert_ref i t.received_ranges)
unfolding add
add-eq-walk i t v h =
    rw
      (
        lt→ltb _ _ h,
        find_insert_at_lem t.received_ranges i v.canonical,
        place-count_before 0 i t.received_ranges v.canonical,
      )
      (rw (pos→ne_zero t.total_chunks i h))

walk-IsTracker :
    (i : ℕ) (t : ChunkTracker)
    → IsTracker t
    → (o : Option (List Range)) → OnSome IsCanonical o
    → OnSome (IsWithin t.total_chunks) o
    → OnSome (λ rs. span rs ≡ suc (span t.received_ranges)) o
    → IsTracker (add_ref i t o).1
walk-IsTracker i t v none c w s = v
walk-IsTracker i t v (some rs) c w s = record {
  canonical = c;
  within = w;
  counted = omega (arith, v.counted);
}

-- What `add` of the index `i` makes of a tracker: its answer, the count, the part that it leaves as
-- it is, and the covered set.
abbrev pub AddSpec : ℕ → ChunkTracker → Bool × ChunkTracker → Type 0
AddSpec i t r =
    (r.0 ≡ (ltb i t.total_chunks && not (covers t.received_ranges i)))
    × (r.1.received_count ≡ (if r.0 then t.received_count + 1 else t.received_count))
    × (r.1.total_chunks ≡ t.total_chunks)
    × ((if r.0 then t else r.1) ≡ t)
    × ((j : ℕ)
        → covers r.1.received_ranges j
          ≡ ((ltb i t.total_chunks && (i == j)) || covers t.received_ranges j))

or_known :
    (i j : ℕ) (rs : List Range) → covers rs i ≡ true → covers rs j ≡ ((i == j) || covers rs j)
or_known i j rs h = ground (arith, λ (e : i ≡ j). ap (covers rs) e)

walk_correct :
    (i : ℕ) (t : ChunkTracker) (o : Option (List Range))
    → i < t.total_chunks
    → is_none o ≡ covers t.received_ranges i
    → ((j : ℕ) → OnSome (λ rs. covers rs j ≡ (i == j) || covers t.received_ranges j) o)
    → AddSpec i t (add_ref i t o)
walk_correct i t none h n c = (
  ground arith,
  refl,
  refl,
  refl,
  λ j. rw (lt→ltb _ _ h) (or_known i j t.received_ranges (sym n)),
)
walk_correct i t (some rs) h n c = (ground arith, refl, refl, refl, λ j. rw (lt→ltb _ _ h) (c j))

add_outside : (i : ℕ) (t : ChunkTracker) → t.total_chunks ≤ i → add i t ≡ (false, t)
unfolding add
add_outside i t h = ground arith

-- `add` keeps the invariant, whatever the index.
pub add-IsTracker : (i : ℕ) (t : ChunkTracker) → IsTracker t → IsTracker (add i t).1
add-IsTracker i t v = elim (le_or_lt t.total_chunks i) [
  | inl h ↦ rw (add_outside i t h) v
  | inr h ↦ rw (add-eq-walk i t v h) (
      walk-IsTracker i t v (insert_ref i t.received_ranges)
        (insert_ref-IsCanonicalFrom 0 i t.received_ranges (omega arith) v.canonical)
        (insert_ref-IsWithin t.total_chunks i t.received_ranges h v.within)
        (span-insert_ref 0 i t.received_ranges v.canonical))
]

-- `add` of a chunk of the transfer returns True exactly when the chunk was not there; then the
-- count goes up by one, and otherwise nothing changes. An index behind the transfer is refused.
-- Afterwards the ranges cover what they covered before and the chunk, and no other index.
pub add_correct : (i : ℕ) (t : ChunkTracker) → IsTracker t → AddSpec i t (add i t)
add_correct i t v = elim (le_or_lt t.total_chunks i) [
  | inl h ↦ rw (add_outside i t h) (rw (le→ltb _ _ h) (refl, refl, refl, refl, λ j. refl))
  | inr h ↦ rw (add-eq-walk i t v h) (
      walk_correct i t (insert_ref i t.received_ranges) h
        (is_none-insert_ref 0 i t.received_ranges v.canonical)
        (λ j. covers-insert_ref 0 i j t.received_ranges v.canonical))
]

span_bound :
    (lo n : ℕ) (rs : List Range) → IsCanonicalFrom lo rs → IsWithin n rs → lo ≤ n → lo + span rs ≤ n
span_bound lo n [] c w h = omega arith
span_bound lo n (r ∷ []) (a, b, c) (w, ws) h = omega arith
span_bound lo n (r ∷ s ∷ rs) (a, b, c) (w, ws) h =
    omega (arith, span_bound (suc r.1) n (s ∷ rs) c ws (omega arith))

full_covers :
    (lo n i : ℕ) (rs : List Range)
    → IsCanonicalFrom lo rs
    → IsWithin n rs
    → n ≤ lo + span rs
    → lo ≤ i
    → i < n
    → covers rs i ≡ true
full_covers lo n i [] c w f h k = absurd (omega arith)
full_covers lo n i (r ∷ []) (a, b, c) (w, ws) f h k = ground arith
full_covers lo n i (r ∷ s ∷ rs) (a, b, c) (w, ws) f h k =
    absurd (omega (arith, span_bound (suc r.1) n (s ∷ rs) c ws (omega arith)))

covers_full :
    (lo n : ℕ) (rs : List Range)
    → IsCanonicalFrom lo rs
    → IsWithin n rs
    → ((i : ℕ) → lo ≤ i → i < n → covers rs i ≡ true)
    → n ≤ lo + span rs
covers_full lo n [] c w f = elim (le_or_lt n lo) [
  | inl h ↦ omega arith
  | inr h ↦ ground (arith, f lo (omega arith) h)
]
covers_full lo n (r ∷ rs) (a, b, c) (w, ws) f = elim (le_or_lt n r.1) [
  | inl h ↦ elim (le_or_lt r.0 lo) [
    | inl g ↦ omega arith
    | inr g ↦ ground (arith, f lo (omega arith) (omega arith), covers_below (suc r.1) lo rs c)
  ]
  | inr h ↦ ground (arith, f r.1 (omega arith) h, covers_below (suc r.1) r.1 rs c)
]

-- A complete tracker covers every chunk, and one that does is complete.
complete_covers :
    (t : ChunkTracker)
    → IsTracker t
    → (is_complete t ≡ true) ↔ ((i : ℕ) → i < t.total_chunks → covers t.received_ranges i ≡ true)
unfolding is_complete
complete_covers t v = (
  λ e i h.
      full_covers 0 t.total_chunks i t.received_ranges v.canonical v.within
        (ground (arith, v.counted)) (omega arith) h,
  λ f.
      let enough : t.total_chunks ≤ 0 + span t.received_ranges =
        covers_full 0 t.total_chunks t.received_ranges v.canonical v.within (λ i _ h. f i h) in
      ground (
        arith,
        v.counted,
        enough,
        span_bound 0 t.total_chunks t.received_ranges v.canonical v.within (omega arith),
      ),
)

pub within_covers : (n i : ℕ) (rs : List Range) → IsWithin n rs → n ≤ i → covers rs i ≡ false
within_covers n i [] w h = refl
within_covers n i (r ∷ rs) (w, ws) h = ground (arith, within_covers n i rs ws h)

-- A tracker is complete exactly when it covers every chunk of the transfer, and no other index.
pub is_complete_iff :
    (t : ChunkTracker)
    → IsTracker t
    → (is_complete t ≡ true) ↔ ((i : ℕ) → covers t.received_ranges i ≡ ltb i t.total_chunks)
is_complete_iff t v = (
  λ e i. elim (le_or_lt t.total_chunks i) [
    | inl h ↦ rw (within_covers t.total_chunks i t.received_ranges v.within h, le→ltb _ _ h) refl
    | inr h ↦ rw ((complete_covers t v).0 e i h, lt→ltb _ _ h) refl
  ],
  λ f. (complete_covers t v).1 (λ i h. f i ∙ lt→ltb _ _ h),
)

-- The count never passes the number of chunks.
pub received_count-le-total : (t : ChunkTracker) → IsTracker t → t.received_count ≤ t.total_chunks
received_count-le-total t v = omega (
  arith,
  v.counted,
  span_bound 0 t.total_chunks t.received_ranges v.canonical v.within (omega arith),
)
