-- ===== src/Ranges/Merge.antt =====
-- `merge_ranges` computes the canonical list of what its argument covers.
use ssync.Prelude.{
  ◌↔◌, ℕ, suc, ◌≤◌, ◌<◌, ◌≡◌, refl, sym, ap, ◌∙◌, max, ◌||◌, List, [], ◌∷◌, arith, All,
}
use ssync.Ranges.{Range, insert_by_start, sort_by_start, merge_loop, merge_ordered, merge_ranges}
use ssync.Ranges.Cover.{contains, covers, IsCanonicalFrom, IsCanonical, canonical_unique}

-- every range has a start below its end
abbrev pub IsProper : Range → Type 0
IsProper r = r.0 < r.1

abbrev IsSortedFrom : ℕ → List Range → Type 0
IsSortedFrom lo [] = Unit {0}
IsSortedFrom lo (r ∷ rs) = (lo ≤ r.0) × IsSortedFrom r.0 rs

insert-IsSortedFrom :
    (lo : ℕ) (r : Range) (rs : List Range)
    → lo ≤ r.0
    → IsSortedFrom lo rs
    → IsSortedFrom lo (insert_by_start r rs)
unfolding insert_by_start
insert-IsSortedFrom lo r [] h s = (h, tt)
insert-IsSortedFrom lo r (x ∷ rs) h (a, s) = ground (arith, insert-IsSortedFrom x.0 r rs)

sort-IsSortedFrom : (rs : List Range) → IsSortedFrom 0 (sort_by_start rs)
unfolding sort_by_start
sort-IsSortedFrom [] = tt
sort-IsSortedFrom (r ∷ rs) =
    insert-IsSortedFrom 0 r (sort_by_start rs) (omega arith) (sort-IsSortedFrom rs)

covers-insert :
    (r : Range) (rs : List Range) (i : ℕ) → covers (insert_by_start r rs) i ≡ covers (r ∷ rs) i
unfolding insert_by_start
covers-insert r [] i = refl
covers-insert r (x ∷ rs) i = ground (arith, covers-insert r rs i)

covers-sort : (rs : List Range) (i : ℕ) → covers (sort_by_start rs) i ≡ covers rs i
unfolding sort_by_start
covers-sort [] i = refl
covers-sort (r ∷ rs) i =
    covers-insert r (sort_by_start rs) i ∙ ap (λ b. contains r i || b) (covers-sort rs i)

insert-All :
    (r : Range) (rs : List Range)
    → IsProper r
    → All IsProper rs
    → All IsProper (insert_by_start r rs)
unfolding insert_by_start
insert-All r [] h a = (h, tt)
insert-All r (x ∷ rs) h a = ground (arith, insert-All r rs h a.1)

sort-All : (rs : List Range) → All IsProper rs → All IsProper (sort_by_start rs)
unfolding sort_by_start
sort-All [] a = tt
sort-All (r ∷ rs) a = insert-All r (sort_by_start rs) a.0 (sort-All rs a.1)

IsSortedFrom-mono :
    (lo lo' : ℕ) (rs : List Range) → lo' ≤ lo → IsSortedFrom lo rs → IsSortedFrom lo' rs
IsSortedFrom-mono lo lo' [] h s = tt
IsSortedFrom-mono lo lo' (r ∷ rs) h (a, s) = (omega arith, s)

covers-merge_loop :
    (cur : Range) (rs : List Range) (i : ℕ)
    → IsSortedFrom cur.0 rs
    → covers (merge_loop cur rs) i ≡ covers (cur ∷ rs) i
unfolding merge_loop
covers-merge_loop cur [] i s = refl
covers-merge_loop cur (r ∷ rs) i (a, s) = ground (
  arith,
  covers-merge_loop (cur.0, max cur.1 r.1) rs i (IsSortedFrom-mono r.0 cur.0 rs a s),
  covers-merge_loop r rs i s,
)

merge_loop-IsCanonicalFrom :
    (lo : ℕ) (cur : Range) (rs : List Range)
    → lo ≤ cur.0
    → IsProper cur
    → All IsProper rs
    → IsSortedFrom cur.0 rs
    → IsCanonicalFrom lo (merge_loop cur rs)
unfolding merge_loop
merge_loop-IsCanonicalFrom lo cur [] h p ps s = (h, p, tt)
merge_loop-IsCanonicalFrom lo cur (r ∷ rs) h p (pr, ps) (a, s) = ground (
  arith,
  merge_loop-IsCanonicalFrom lo (cur.0, max cur.1 r.1) rs h (omega arith) ps
      (IsSortedFrom-mono r.0 cur.0 rs a s),
  λ (g : suc cur.1 ≤ r.0). merge_loop-IsCanonicalFrom (suc cur.1) r rs g pr ps s,
)

covers-merge_ordered :
    (rs : List Range) (i : ℕ) → IsSortedFrom 0 rs → covers (merge_ordered rs) i ≡ covers rs i
unfolding merge_ordered
covers-merge_ordered [] i s = refl
covers-merge_ordered (r ∷ rs) i s = covers-merge_loop r rs i s.1

merge_ordered-IsCanonical :
    (rs : List Range) → All IsProper rs → IsSortedFrom 0 rs → IsCanonical (merge_ordered rs)
unfolding merge_ordered
merge_ordered-IsCanonical [] p s = tt
merge_ordered-IsCanonical (r ∷ rs) p s = merge_loop-IsCanonicalFrom 0 r rs (omega arith) p.0 p.1 s.1

-- `merge_ranges` covers exactly the indexes that its argument covers, empty and reversed ranges
-- included.
pub covers-merge_ranges : (rs : List Range) (i : ℕ) → covers (merge_ranges rs) i ≡ covers rs i
unfolding merge_ranges
covers-merge_ranges rs i =
    covers-merge_ordered (sort_by_start rs) i (sort-IsSortedFrom rs) ∙ covers-sort rs i

-- The result of `merge_ranges` on proper ranges is canonical: ascending, with a gap between any two
-- ranges.
pub merge_ranges-IsCanonical : (rs : List Range) → All IsProper rs → IsCanonical (merge_ranges rs)
unfolding merge_ranges
merge_ranges-IsCanonical rs p =
    merge_ordered-IsCanonical (sort_by_start rs) (sort-All rs p) (sort-IsSortedFrom rs)

-- `merge_ranges` is a normal form: for lists of proper ranges the results are the same list exactly
-- when the two lists cover the same indexes.
pub merge_ranges_normal_form :
    (xs ys : List Range)
    → All IsProper xs
    → All IsProper ys
    → (merge_ranges xs ≡ merge_ranges ys) ↔ ((i : ℕ) → covers xs i ≡ covers ys i)
merge_ranges_normal_form xs ys p q = (
  λ e i. sym (covers-merge_ranges xs i) ∙ ap (λ rs. covers rs i) e ∙ covers-merge_ranges ys i,
  λ h.
      canonical_unique 0 0 _ _ (merge_ranges-IsCanonical xs p) (merge_ranges-IsCanonical ys q)
        (λ i. covers-merge_ranges xs i ∙ h i ∙ sym (covers-merge_ranges ys i)),
)

pub canonical-All : (lo : ℕ) (rs : List Range) → IsCanonicalFrom lo rs → All IsProper rs
canonical-All lo [] c = tt
canonical-All lo (r ∷ rs) (a, b, c) = (b, canonical-All (suc r.1) rs c)

-- A canonical list is left as it is.
pub merge_ranges_of_canonical : (rs : List Range) → IsCanonical rs → merge_ranges rs ≡ rs
merge_ranges_of_canonical rs c =
    canonical_unique 0 0 _ _ (merge_ranges-IsCanonical rs (canonical-All 0 rs c)) c
      (covers-merge_ranges rs)

-- Ascending starts with a gap behind every end; a range may be empty or reversed.
abbrev pub IsSeparatedFrom : ℕ → List Range → Type 0
IsSeparatedFrom lo [] = Unit {0}
IsSeparatedFrom lo (r ∷ rs) = (lo ≤ r.0) × IsSeparatedFrom (max r.0 (suc r.1)) rs

merge_loop-IsSeparatedFrom :
    (lo : ℕ) (cur : Range) (rs : List Range)
    → lo ≤ cur.0
    → IsSortedFrom cur.0 rs
    → IsSeparatedFrom lo (merge_loop cur rs)
unfolding merge_loop
merge_loop-IsSeparatedFrom lo cur [] h s = (h, tt)
merge_loop-IsSeparatedFrom lo cur (r ∷ rs) h (a, s) = ground (
  arith,
  merge_loop-IsSeparatedFrom lo (cur.0, max cur.1 r.1) rs h (IsSortedFrom-mono r.0 cur.0 rs a s),
  λ (g : max cur.0 (suc cur.1) ≤ r.0). merge_loop-IsSeparatedFrom (max cur.0 (suc cur.1)) r rs g s,
)

merge_ordered-IsSeparated :
    (rs : List Range) → IsSortedFrom 0 rs → IsSeparatedFrom 0 (merge_ordered rs)
unfolding merge_ordered
merge_ordered-IsSeparated [] s = tt
merge_ordered-IsSeparated (r ∷ rs) s = merge_loop-IsSeparatedFrom 0 r rs (omega arith) s.1

pub merge_ranges-IsSeparated : (rs : List Range) → IsSeparatedFrom 0 (merge_ranges rs)
unfolding merge_ranges
merge_ranges-IsSeparated rs = merge_ordered-IsSeparated (sort_by_start rs) (sort-IsSortedFrom rs)
