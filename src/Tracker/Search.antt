-- ===== src/Tracker/Search.antt =====
-- The binary search of `ChunkTracker` finds how many ranges start before an index.
use ssync.Prelude.{
  ap, inl, inr, le_or_lt, le→ltb, lt→ltb, ℕ, zero, suc, ◌+◌, ◌-◌, ◌/◌, ◌≤◌, ◌<◌, ◌≡◌, refl, some,
  List, [], ◌∷◌, ltb, if◌then◌else◌, arith, length, get_elem?,
}
use ssync.Ranges.{Range}
use ssync.Ranges.Cover.{IsCanonicalFrom, IsCanonical}
use ssync.Tracker.{find_loop, find_insert_at}

abbrev pub count_before : ℕ → List Range → ℕ
count_before i [] = 0
count_before i (r ∷ rs) = if ltb r.0 i then suc (count_before i rs) else 0

count_before-le-length : (i : ℕ) (rs : List Range) → count_before i rs ≤ length rs
count_before-le-length i [] = omega arith
count_before-le-length i (r ∷ rs) = ground (arith, count_before-le-length i rs)

get_elem?_in_range :
    (rs : List Range) (k : ℕ) → k < length rs → (r : Range) × (get_elem? rs k ≡ some r)
get_elem?_in_range [] k h = absurd (omega arith)
get_elem?_in_range (r ∷ rs) zero h = (r, refl)
get_elem?_in_range (r ∷ rs) (suc k) h = get_elem?_in_range rs k (omega arith)

starts_before :
    (i k : ℕ) (rs : List Range) (r : Range)
    → k < count_before i rs
    → get_elem? rs k ≡ some r
    → r.0 < i
starts_before i k [] r h e = absurd (omega arith)
starts_before i zero (x ∷ rs) r h e = ground arith
starts_before i (suc k) (x ∷ rs) r h e = ground (arith, starts_before i k rs r)

starts_from :
    (lo i k : ℕ) (rs : List Range) (r : Range)
    → IsCanonicalFrom lo rs
    → get_elem? rs k ≡ some r
    → lo ≤ r.0
starts_from lo i k [] r c e = ground arith
starts_from lo i zero (x ∷ rs) r (a, b, c) e = ground arith
starts_from lo i (suc k) (x ∷ rs) r (a, b, c) e = ground (arith, starts_from (suc x.1) i k rs r c e)

starts_after :
    (lo i k : ℕ) (rs : List Range) (r : Range)
    → IsCanonicalFrom lo rs
    → count_before i rs ≤ k
    → get_elem? rs k ≡ some r
    → i ≤ r.0
starts_after lo i k [] r c h e = ground arith
starts_after lo i zero (x ∷ rs) r (a, b, c) h e = ground arith
starts_after lo i (suc k) (x ∷ rs) r (a, b, c) h e =
    ground (arith, starts_after (suc x.1) i k rs r c, starts_from (suc x.1) i k rs r c e)

find_loop_lem :
    (fuel : ℕ) (rs : List Range) (i lo hi : ℕ)
    → IsCanonical rs
    → lo ≤ count_before i rs
    → count_before i rs ≤ hi
    → hi ≤ length rs
    → hi - lo < fuel
    → find_loop fuel rs i lo hi ≡ some (count_before i rs)
unfolding find_loop
find_loop_lem zero rs i lo hi c a b d f = absurd (omega arith)
find_loop_lem (suc fuel) rs i lo hi c a b d f = elim (le_or_lt hi lo) [
  | inl h ↦ rw (le→ltb lo hi h) (ap some (omega arith))
  | inr h ↦
      let mid = (lo + hi) / 2 in
      let (r, e) = get_elem?_in_range rs mid (omega arith) in
      rw (lt→ltb lo hi h, e)
        (elim (le_or_lt i r.0) [
          | inl g ↦ rw (le→ltb r.0 i g) (
              find_loop_lem fuel rs i lo mid c a (ground (arith, starts_before i mid rs r))
                (omega arith) (omega arith))
          | inr g ↦ rw (lt→ltb r.0 i g) (
              find_loop_lem fuel rs i (mid + 1) hi c (ground (arith, starts_after 0 i mid rs r c)) b
                d (omega arith))
        ])
]

-- On canonical ranges the search ends, and returns the number of ranges that start before the index.
pub find_insert_at_lem :
    (rs : List Range) (i : ℕ) → IsCanonical rs → find_insert_at rs i ≡ some (count_before i rs)
unfolding find_insert_at
find_insert_at_lem rs i c =
    find_loop_lem (suc (length rs)) rs i 0 (length rs) c (omega arith) (count_before-le-length i rs)
      (omega arith) (omega arith)
