-- ===== src/Ranges/Indexes.antt =====
-- `ranges_from_indexes` and `expand_ranges` convert between lists of indexes and canonical ranges.
use ssync.Prelude.{
  ℕ, zero, suc, ◌+◌, ◌-◌, ◌≤◌, ◌≡◌, refl, ap, ◌∙◌, Bool, false, ◌&&◌, ◌||◌, List, [], ◌∷◌, ◌++◌,
  ltb, leb, ◌==◌, arith,
}
use ssync.Ranges.{
  Range, insert_index, sort_indexes, runs_loop, runs, ranges_from_indexes, index_run, expand_ranges,
}
use ssync.Ranges.Cover.{covers, IsCanonicalFrom, IsCanonical, canonical_unique}

abbrev pub elem : ℕ → List ℕ → Bool
elem i [] = false
elem i (x ∷ xs) = i == x || elem i xs

-- Strictly ascending, from a bound on.
abbrev pub IsAscendingFrom : ℕ → List ℕ → Type 0
IsAscendingFrom lo [] = Unit {0}
IsAscendingFrom lo (x ∷ xs) = (lo ≤ x) × IsAscendingFrom (suc x) xs

insert-IsAscendingFrom :
    (lo i : ℕ) (xs : List ℕ)
    → lo ≤ i
    → IsAscendingFrom lo xs
    → IsAscendingFrom lo (insert_index i xs)
unfolding insert_index
insert-IsAscendingFrom lo i [] h a = (h, tt)
insert-IsAscendingFrom lo i (x ∷ xs) h (b, a) =
    ground (arith, λ (g : suc x ≤ i). insert-IsAscendingFrom (suc x) i xs g a)

sort-IsAscendingFrom : (xs : List ℕ) → IsAscendingFrom 0 (sort_indexes xs)
unfolding sort_indexes
sort-IsAscendingFrom [] = tt
sort-IsAscendingFrom (x ∷ xs) =
    insert-IsAscendingFrom 0 x (sort_indexes xs) (omega arith) (sort-IsAscendingFrom xs)

elem-insert : (i x : ℕ) (xs : List ℕ) → elem i (insert_index x xs) ≡ elem i (x ∷ xs)
unfolding insert_index
elem-insert i x [] = refl
elem-insert i x (y ∷ xs) = ground (arith, elem-insert i x xs)

elem-sort : (i : ℕ) (xs : List ℕ) → elem i (sort_indexes xs) ≡ elem i xs
unfolding sort_indexes
elem-sort i [] = refl
elem-sort i (x ∷ xs) = elem-insert i x (sort_indexes xs) ∙ ap (λ b. i == x || b) (elem-sort i xs)

covers-runs_loop :
    (start prev i : ℕ) (xs : List ℕ)
    → start ≤ prev
    → IsAscendingFrom (suc prev) xs
    → covers (runs_loop start prev xs) i ≡ (leb start i && leb i prev) || elem i xs
unfolding runs_loop
covers-runs_loop start prev i [] h a = ground arith
covers-runs_loop start prev i (x ∷ xs) h (b, a) =
    ground (arith, covers-runs_loop start x i xs, covers-runs_loop x x i xs (omega arith) a)

runs_loop-IsCanonicalFrom :
    (lo start prev : ℕ) (xs : List ℕ)
    → lo ≤ start
    → start ≤ prev
    → IsAscendingFrom (suc prev) xs
    → IsCanonicalFrom lo (runs_loop start prev xs)
unfolding runs_loop
runs_loop-IsCanonicalFrom lo start prev [] h k a = ground arith
runs_loop-IsCanonicalFrom lo start prev (x ∷ xs) h k (b, a) = ground (
  arith,
  runs_loop-IsCanonicalFrom lo start x xs h (omega arith) a,
  λ (g : suc (prev + 1) ≤ x). runs_loop-IsCanonicalFrom (suc (prev + 1)) x x xs g (omega arith) a,
)

covers-runs : (xs : List ℕ) (i : ℕ) → IsAscendingFrom 0 xs → covers (runs xs) i ≡ elem i xs
unfolding runs
covers-runs [] i a = refl
covers-runs (x ∷ xs) i a = ground (arith, covers-runs_loop x x i xs (omega arith) a.1)

runs-IsCanonical : (xs : List ℕ) → IsAscendingFrom 0 xs → IsCanonical (runs xs)
unfolding runs
runs-IsCanonical [] a = tt
runs-IsCanonical (x ∷ xs) a = runs_loop-IsCanonicalFrom 0 x x xs (omega arith) (omega arith) a.1

-- `ranges_from_indexes` returns the canonical ranges of exactly the given indexes, in whatever
-- order and however often they are given.
pub ranges_from_indexes_correct :
    (xs : List ℕ)
    → IsCanonical (ranges_from_indexes xs)
      × ((i : ℕ) → covers (ranges_from_indexes xs) i ≡ elem i xs)
unfolding ranges_from_indexes
ranges_from_indexes_correct xs = (
  runs-IsCanonical (sort_indexes xs) (sort-IsAscendingFrom xs),
  λ i. covers-runs (sort_indexes xs) i (sort-IsAscendingFrom xs) ∙ elem-sort i xs,
)

pub elem-append : (i : ℕ) (xs ys : List ℕ) → elem i (xs ++ ys) ≡ elem i xs || elem i ys
elem-append i [] ys = refl
elem-append i (x ∷ xs) ys = ground (arith, elem-append i xs ys)

pub elem-index_run : (i start n : ℕ) → elem i (index_run start n) ≡ leb start i && ltb i (start + n)
unfolding index_run
elem-index_run i start zero = ground arith
elem-index_run i start (suc n) = ground (arith, elem-index_run i (start + 1) n)

-- `expand_ranges` lists exactly the indexes that the ranges cover.
pub elem-expand_ranges : (rs : List Range) (i : ℕ) → elem i (expand_ranges rs) ≡ covers rs i
unfolding expand_ranges
elem-expand_ranges [] i = refl
elem-expand_ranges (r ∷ rs) i = ground (
  arith,
  elem-append i (index_run r.0 (r.1 - r.0)) (expand_ranges rs),
  elem-index_run i r.0 (r.1 - r.0),
  elem-expand_ranges rs i,
)

-- Canonical ranges survive the way through their indexes.
pub ranges_from_indexes-expand_ranges :
    (rs : List Range) → IsCanonical rs → ranges_from_indexes (expand_ranges rs) ≡ rs
ranges_from_indexes-expand_ranges rs c =
    let (canonical, same) = ranges_from_indexes_correct (expand_ranges rs) in
    canonical_unique 0 0 _ _ canonical c (λ i. same i ∙ elem-expand_ranges rs i)
