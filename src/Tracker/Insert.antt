-- ===== src/Tracker/Insert.antt =====
-- What `add` does to the ranges, as one walk over them: the reference for the code's index
-- arithmetic.
use ssync.Prelude.{
  le→ltb, lt→ltb, ℕ, suc, ◌+◌, ◌≤◌, ◌<◌, ◌≡◌, refl, sym, ap, ◌∙◌, Option, none, some, List, [], ◌∷◌,
  ltb, ◌==◌, if◌then◌else◌, arith, le_or_lt, inl, inr,
}
use ssync.Ranges.{Range}
use ssync.Ranges.Cover.{IsCanonicalFrom}
use ssync.Tracker.{place}
use ssync.Tracker.Search.{count_before}

abbrev pub cons_some : Range → Option (List Range) → Option (List Range)
cons_some r none = none
cons_some r (some rs) = some (r ∷ rs)

-- The index joins the range that ends at it, and the next range where that starts right behind it.
abbrev pub join : ℕ → Range → List Range → List Range
join i r [] = (r.0, i + 1) ∷ []
join i r (s ∷ rest) = if s.0 == i + 1 then (r.0, s.1) ∷ rest else (r.0, i + 1) ∷ s ∷ rest

unfoldable pub insert_ref : ℕ → List Range → Option (List Range)
insert_ref i [] = some ((i, i + 1) ∷ [])
insert_ref i (r ∷ rest) =
    let later = cons_some r (insert_ref i rest) in
    if ltb i r.0
    then (if r.0 == i + 1 then some ((i, r.1) ∷ rest) else some ((i, i + 1) ∷ r ∷ rest))
    else if ltb i r.1
    then none
    else if r.1 == i
    then some (join i r rest)
    else later

place-cons :
    (i k : ℕ) (r : Range) (rs : List Range)
    → place i (suc (suc k)) (r ∷ rs) ≡ cons_some r (place i (suc k) rs)
unfolding place
place-cons i k r rs = ground arith

place_first :
    (i : ℕ) (r : Range) (rs : List Range)
    → r.0 < r.1
    → i ≤ r.0
    → place i 0 (r ∷ rs) ≡ insert_ref i (r ∷ rs)
unfolding place insert_ref
place_first i r rs p h = ground arith

place_last : (i : ℕ) (r : Range) → r.0 < i → place i 1 (r ∷ []) ≡ insert_ref i (r ∷ [])
unfolding place insert_ref
place_last i r h = ground arith

place_between :
    (i : ℕ) (r s : Range) (rs : List Range)
    → r.0 < i
    → r.1 < s.0
    → s.0 < s.1
    → i ≤ s.0
    → place i 1 (r ∷ s ∷ rs) ≡ insert_ref i (r ∷ s ∷ rs)
unfolding place insert_ref
place_between i r s rs h g q k = ground arith

-- Where an index stands to a range.
pub data Position (i : ℕ) (r : Range) : Type 0 where
  before : i < r.0 → Position i r
  inside : r.0 ≤ i → i < r.1 → Position i r
  at_end : r.1 ≡ i → Position i r
  behind : r.1 < i → Position i r

pub position : (i : ℕ) (r : Range) → Position i r
position i r = elim (le_or_lt r.0 i) [
  | inr h ↦ before h
  | inl h ↦ elim (le_or_lt r.1 i) [
    | inr g ↦ inside h g
    | inl g ↦ elim (le_or_lt i r.1) [ inl k ↦ at_end (omega arith) | inr k ↦ behind k ]
  ]
]

pub insert_ref_inside :
    (i : ℕ) (r : Range) (rs : List Range) → r.0 ≤ i → i < r.1 → insert_ref i (r ∷ rs) ≡ none
unfolding insert_ref
insert_ref_inside i r rs h g = ground arith

pub insert_ref_at_end :
    (i : ℕ) (r : Range) (rs : List Range)
    → r.0 < r.1
    → r.1 ≡ i
    → insert_ref i (r ∷ rs) ≡ some (join i r rs)
unfolding insert_ref
insert_ref_at_end i r rs p h = ground arith

pub insert_ref-cons :
    (i : ℕ) (r : Range) (rs : List Range)
    → r.0 < r.1
    → r.1 < i
    → insert_ref i (r ∷ rs) ≡ cons_some r (insert_ref i rs)
unfolding insert_ref
insert_ref-cons i r rs p h = ground arith

-- On canonical ranges the code's search by position does what the walk does.
pub place-count_before :
    (lo i : ℕ) (rs : List Range)
    → IsCanonicalFrom lo rs
    → place i (count_before i rs) rs ≡ insert_ref i rs
place-count_before lo i [] c = unfold place insert_ref in refl
place-count_before lo i (r ∷ []) (a, b, c) = elim (le_or_lt i r.0) [
  | inl h ↦ rw (le→ltb r.0 i h) (place_first i r [] b h)
  | inr h ↦ rw (lt→ltb r.0 i h) (place_last i r h)
]
place-count_before lo i (r ∷ s ∷ rs) (a, b, c) = elim (le_or_lt i r.0) [
  | inl h ↦ rw (le→ltb r.0 i h) (place_first i r (s ∷ rs) b h)
  | inr h ↦ elim (le_or_lt i s.0) [
    | inl g ↦ rw (lt→ltb r.0 i h, le→ltb s.0 i g) (place_between i r s rs h (omega arith) c.1 g)
    | inr g ↦
        let deeper : place i (suc (count_before i rs)) (s ∷ rs) ≡ insert_ref i (s ∷ rs) =
          rw (lt→ltb s.0 i g) at (place-count_before (suc r.1) i (s ∷ rs) c) in
        rw (lt→ltb r.0 i h, lt→ltb s.0 i g)
          (place-cons i (count_before i rs) r (s ∷ rs)
            ∙ ap (cons_some r) deeper
            ∙ sym (insert_ref-cons i r (s ∷ rs) b (omega arith)))
  ]
]
