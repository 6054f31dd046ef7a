-- ===== src/Tracker/Missing.antt =====
-- The missing ranges of a `ChunkTracker`, and a tracker rebuilt from recorded ranges.
use ssync.Prelude.{
  ℕ, suc, ◌≤◌, ◌<◌, ◌≡◌, ap, ◌∙◌, Bool, true, false, not, ◌&&◌, ◌||◌, ◌↔◌, List, [], ◌∷◌, ltb, leb,
  if◌then◌else◌, arith, lt→ltb, le→ltb, le→leb, lt→leb, min, max, le_or_lt, inl, inr,
}
use ssync.Ranges.{Range}
use ssync.Ranges.Cover.{
  contains, covers, covers_below, IsCanonicalFrom, IsCanonical, IsCanonicalFrom-mono,
  canonical_unique,
}
use ssync.Ranges.Indexes.{elem, elem-expand_ranges}
use ssync.Tracker.{
  ChunkTracker, is_complete, last_gap, gaps_loop, missing_ranges_between, missing_ranges,
  missing_ranges_upto, missing_indexes,
}
use ssync.Tracker.Invariant.{IsTracker, within_covers, is_complete_iff}

covers-last_gap : (a b i : ℕ) → covers (last_gap a b) i ≡ leb a i && ltb i b
unfolding last_gap
covers-last_gap a b i = ground arith

last_gap-IsCanonicalFrom : (a b : ℕ) → IsCanonicalFrom a (last_gap a b)
unfolding last_gap
last_gap-IsCanonicalFrom a b = ground arith

abbrev gap_at : ℕ → ℕ → List Range → ℕ → Bool
gap_at cursor stop rs i = (leb cursor i && ltb i stop) && not (covers rs i)

gaps_loop-IsCanonicalFrom :
    (lo cursor stop : ℕ) (rs : List Range)
    → IsCanonicalFrom lo rs
    → IsCanonicalFrom cursor (gaps_loop cursor stop rs)
unfolding gaps_loop
gaps_loop-IsCanonicalFrom lo cursor stop [] c = last_gap-IsCanonicalFrom cursor stop
gaps_loop-IsCanonicalFrom lo cursor stop (r ∷ rs) (a, b, c) =
    let next = max cursor (min r.1 stop) in
    ground (
      arith,
      last_gap-IsCanonicalFrom cursor stop,
      gaps_loop-IsCanonicalFrom (suc r.1) cursor stop rs c,
      IsCanonicalFrom-mono next cursor (last_gap next stop) (omega arith)
          (last_gap-IsCanonicalFrom next stop),
      IsCanonicalFrom-mono next cursor (gaps_loop next stop rs) (omega arith)
          (gaps_loop-IsCanonicalFrom (suc r.1) next stop rs c),
      λ (g : suc (min r.0 stop) ≤ next).
          IsCanonicalFrom-mono next (suc (min r.0 stop)) (last_gap next stop) g
            (last_gap-IsCanonicalFrom next stop),
      λ (g : suc (min r.0 stop) ≤ next).
          IsCanonicalFrom-mono next (suc (min r.0 stop)) (gaps_loop next stop rs) g
            (gaps_loop-IsCanonicalFrom (suc r.1) next stop rs c),
    )

-- What an index behind a gap, in front of one or between two ranges says of the gaps.
module _ (cursor stop i : ℕ) (r : Range) (rs : List Range) (b : r.0 < r.1)
    (below : i < suc r.1 → covers rs i ≡ false) where
  gap_skipped : r.1 ≤ cursor → gap_at cursor stop rs i ≡ gap_at cursor stop (r ∷ rs) i
  gap_skipped h = ground arith

  gap_last : stop ≤ r.0 → (leb cursor i && ltb i stop) ≡ gap_at cursor stop (r ∷ rs) i
  gap_last h = ground arith

  gap_after :
      cursor < r.1
      → r.0 ≤ cursor
      → gap_at (max cursor (min r.1 stop)) stop rs i ≡ gap_at cursor stop (r ∷ rs) i
  gap_after h k = ground arith

  gap_around :
      r.0 < stop
      → cursor < r.0
      → (contains (cursor, min r.0 stop) i || gap_at (max cursor (min r.1 stop)) stop rs i)
        ≡ gap_at cursor stop (r ∷ rs) i
  gap_around h k = ground arith

covers-following :
    (cursor stop i : ℕ) (rs : List Range)
    → covers (gaps_loop cursor stop rs) i ≡ gap_at cursor stop rs i
    → covers (if leb stop cursor then last_gap cursor stop else gaps_loop cursor stop rs) i
      ≡ gap_at cursor stop rs i
covers-following cursor stop i rs e = elim (le_or_lt stop cursor) [
  | inl h ↦ rw (le→leb _ _ h) (ground (arith, covers-last_gap cursor stop i))
  | inr h ↦ rw (lt→leb _ _ h) e
]

covers-gaps_loop :
    (lo cursor stop i : ℕ) (rs : List Range)
    → IsCanonicalFrom lo rs
    → covers (gaps_loop cursor stop rs) i ≡ gap_at cursor stop rs i
unfolding gaps_loop
covers-gaps_loop lo cursor stop i [] c = ground (arith, covers-last_gap cursor stop i)
covers-gaps_loop lo cursor stop i (r ∷ rs) (a, b, c) =
    let below = covers_below (suc r.1) i rs c in
    let next = max cursor (min r.1 stop) in
    let later = covers-following next stop i rs (covers-gaps_loop (suc r.1) next stop i rs c) in
    elim (le_or_lt r.1 cursor) [
      | inl h ↦
          rw (le→leb _ _ h) (
            covers-gaps_loop (suc r.1) cursor stop i rs c
            ∙ gap_skipped cursor stop i r rs b below h)
      | inr h ↦ elim (le_or_lt stop r.0) [
        | inl g ↦
            rw (lt→leb _ _ h, le→leb _ _ g)
              (covers-last_gap cursor stop i ∙ gap_last cursor stop i r rs b below g)
        | inr g ↦ elim (le_or_lt r.0 cursor) [
          | inl k ↦
              rw (lt→leb _ _ h, lt→leb _ _ g, le→ltb _ _ k)
                (later ∙ gap_after cursor stop i r rs b below h k)
          | inr k ↦
              rw (lt→leb _ _ h, lt→leb _ _ g, lt→ltb _ _ k)
                (ap (λ x. contains (cursor, min r.0 stop) i || x) later
                  ∙ gap_around cursor stop i r rs b below g k)
        ]
      ]
    ]

missing_between-IsCanonical :
    (a b : ℕ) (t : ChunkTracker) → IsTracker t → IsCanonical (missing_ranges_between a b t)
unfolding missing_ranges_between
missing_between-IsCanonical a b t v = ground (
  arith,
  IsCanonicalFrom-mono a 0 (gaps_loop a b t.received_ranges) (omega arith)
      (gaps_loop-IsCanonicalFrom 0 a b t.received_ranges v.canonical),
)

covers-missing_between :
    (a b : ℕ) (t : ChunkTracker)
    → IsTracker t
    → (i : ℕ) → covers (missing_ranges_between a b t) i ≡ gap_at a b t.received_ranges i
unfolding missing_ranges_between
covers-missing_between a b t v i =
    ground (arith, covers-gaps_loop 0 a b i t.received_ranges v.canonical)

-- `missing_ranges` returns, in canonical form, exactly the chunks of the transfer that the tracker
-- does not cover.
pub missing_ranges_correct :
    (t : ChunkTracker)
    → IsTracker t
    → IsCanonical (missing_ranges t)
      × ((i : ℕ)
          → covers (missing_ranges t) i
            ≡ (ltb i t.total_chunks && not (covers t.received_ranges i)))
unfolding missing_ranges
missing_ranges_correct t v = (
  missing_between-IsCanonical 0 t.total_chunks t v,
  λ i. ground (arith, covers-missing_between 0 t.total_chunks t v i),
)

-- `missing_ranges_upto` does so for the chunks below its bound.
pub missing_ranges_upto_correct :
    (n : ℕ) (t : ChunkTracker)
    → IsTracker t
    → IsCanonical (missing_ranges_upto n t)
      × ((i : ℕ) → covers (missing_ranges_upto n t) i ≡ (ltb i n && covers (missing_ranges t) i))
unfolding missing_ranges_upto missing_ranges
missing_ranges_upto_correct n t v = (
  missing_between-IsCanonical 0 (max 0 (min n t.total_chunks)) t v,
  λ i. ground (
    arith,
    covers-missing_between 0 (max 0 (min n t.total_chunks)) t v i,
    covers-missing_between 0 t.total_chunks t v i,
  ),
)

-- `missing_indexes` lists the same chunks one by one.
pub elem-missing_indexes :
    (t : ChunkTracker)
    → IsTracker t
    → (i : ℕ)
    → elem i (missing_indexes t) ≡ (ltb i t.total_chunks && not (covers t.received_ranges i))
unfolding missing_indexes
elem-missing_indexes t v i =
    elem-expand_ranges (missing_ranges t) i ∙ (missing_ranges_correct t v).1 i

no_gaps : (t : ChunkTracker) → IsTracker t → is_complete t ≡ true → missing_ranges t ≡ []
no_gaps t v e =
    let (canonical, covered) = missing_ranges_correct t v in
    canonical_unique 0 0 _ [] canonical tt
      (λ i. covered i ∙ ground (arith, (is_complete_iff t v).0 e i))

no_gaps→complete : (t : ChunkTracker) → IsTracker t → missing_ranges t ≡ [] → is_complete t ≡ true
no_gaps→complete t v e = (is_complete_iff t v).1 (λ i. ground (
  arith,
  (missing_ranges_correct t v).1 i,
  ap (λ rs. covers rs i) e,
  within_covers t.total_chunks i t.received_ranges v.within,
))

-- A tracker reports no missing range exactly when it is complete.
pub missing_ranges_empty_iff :
    (t : ChunkTracker) → IsTracker t → (missing_ranges t ≡ []) ↔ (is_complete t ≡ true)
missing_ranges_empty_iff t v = (no_gaps→complete t v, no_gaps t v)
