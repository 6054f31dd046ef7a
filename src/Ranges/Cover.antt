-- ===== src/Ranges/Cover.antt =====
-- What a list of ranges stands for: the set of the indexes that it covers. A canonical list has
-- ascending non-empty ranges with a gap between any two, and is the only one for its set.
use ssync.Prelude.{
  ℕ, suc, ◌+◌, ◌-◌, ◌≤◌, ◌<◌, ◌≡◌, refl, sym, Bool, false, ◌&&◌, ◌||◌, List, [], ◌∷◌, ltb, leb,
  arith,
}
use ssync.Ranges.{Range}

abbrev pub contains : Range → ℕ → Bool
contains r i = leb r.0 i && ltb i r.1

abbrev pub covers : List Range → ℕ → Bool
covers [] i = false
covers (r ∷ rs) i = contains r i || covers rs i

-- The number of indexes in the ranges, counted range by range.
abbrev pub span : List Range → ℕ
span [] = 0
span (r ∷ rs) = (r.1 - r.0) + span rs

abbrev pub IsCanonicalFrom : ℕ → List Range → Type 0
IsCanonicalFrom lo [] = Unit {0}
IsCanonicalFrom lo (r ∷ rs) = (lo ≤ r.0) × (r.0 < r.1) × IsCanonicalFrom (suc r.1) rs

abbrev pub IsCanonical : List Range → Type 0
IsCanonical rs = IsCanonicalFrom 0 rs

pub IsCanonicalFrom-mono :
    (lo lo' : ℕ) (rs : List Range) → lo' ≤ lo → IsCanonicalFrom lo rs → IsCanonicalFrom lo' rs
IsCanonicalFrom-mono lo lo' [] h c = tt
IsCanonicalFrom-mono lo lo' (r ∷ rs) h (a, b, c) = (omega arith, b, c)

-- Nothing below the bound is covered.
pub covers_below :
    (lo i : ℕ) (rs : List Range) → IsCanonicalFrom lo rs → i < lo → covers rs i ≡ false
covers_below lo i [] c h = refl
covers_below lo i (r ∷ rs) (a, b, c) h = ground (arith, covers_below (suc r.1) i rs c (omega arith))

-- The first range of a canonical list is fixed by what the list covers.
module _ (r s : Range) (xs ys : List Range) (lo lo' : ℕ) where
  first_start_le :
      IsCanonicalFrom lo (r ∷ xs)
      → IsCanonicalFrom lo' (s ∷ ys)
      → covers (r ∷ xs) r.0 ≡ covers (s ∷ ys) r.0
      → s.0 ≤ r.0
  first_start_le (a, b, c) (a', b', c') e = ground (arith, covers_below (suc s.1) r.0 ys c')

  first_end_le :
      IsCanonicalFrom lo (r ∷ xs)
      → IsCanonicalFrom lo' (s ∷ ys)
      → r.0 ≡ s.0
      → covers (r ∷ xs) r.1 ≡ covers (s ∷ ys) r.1
      → s.1 ≤ r.1
  first_end_le (a, b, c) (a', b', c') p e = ground (arith, covers_below (suc r.1) r.1 xs c)

  rest_agrees :
      IsCanonicalFrom lo (r ∷ xs)
      → IsCanonicalFrom lo' (s ∷ ys)
      → r.0 ≡ s.0
      → r.1 ≡ s.1
      → (i : ℕ) → covers (r ∷ xs) i ≡ covers (s ∷ ys) i
      → covers xs i ≡ covers ys i
  rest_agrees (a, b, c) (a', b', c') p q i e =
      ground (arith, covers_below (suc r.1) i xs c, covers_below (suc s.1) i ys c')

-- Two canonical lists that cover the same indexes are the same list.
pub canonical_unique :
    (lo lo' : ℕ) (xs ys : List Range)
    → IsCanonicalFrom lo xs
    → IsCanonicalFrom lo' ys
    → ((i : ℕ) → covers xs i ≡ covers ys i)
    → xs ≡ ys
canonical_unique lo lo' [] [] c d e = refl
canonical_unique lo lo' [] (s ∷ ys) c (a, b, d) e = ground (arith, e s.0)
canonical_unique lo lo' (r ∷ xs) [] (a, b, c) d e = ground (arith, e r.0)
canonical_unique lo lo' (r ∷ xs) (s ∷ ys) c d e =
    let starts : r.0 ≡ s.0 = omega (
      arith,
      first_start_le r s xs ys lo lo' c d (e r.0),
      first_start_le s r ys xs lo' lo d c (sym (e s.0)),
    ) in
    let ends : r.1 ≡ s.1 = omega (
      arith,
      first_end_le r s xs ys lo lo' c d starts (e r.1),
      first_end_le s r ys xs lo' lo d c (sym starts) (sym (e s.1)),
    ) in
    let rest : xs ≡ ys =
      canonical_unique (suc r.1) (suc s.1) xs ys c.2 d.2
        (λ i. rest_agrees r s xs ys lo lo' c d starts ends i (e i)) in
    λ i. (starts i, ends i) ∷ rest i
