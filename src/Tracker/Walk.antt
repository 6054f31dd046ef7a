-- ===== src/Tracker/Walk.antt =====
-- What the reference walk makes of canonical ranges: their order, their bound, their span and the
-- set that they cover.
use ssync.Prelude.{
  ℕ, suc, ◌+◌, ◌≤◌, ◌<◌, ◌≡◌, refl, ap, ◌∙◌, Bool, true, false, ◌||◌, Option, none, some, List, [],
  ◌∷◌, ◌==◌, arith, le_or_lt, inl, inr, All,
}
use ssync.Ranges.{Range}
use ssync.Ranges.Cover.{contains, covers, covers_below, span, IsCanonicalFrom}
use ssync.Tracker.Insert.{
  insert_ref, insert_ref-cons, insert_ref_inside, insert_ref_at_end, join, cons_some, position,
  before, inside, at_end, behind,
}

abbrev pub IsWithin : ℕ → List Range → Type 0
IsWithin n rs = All (λ r. r.1 ≤ n) rs

abbrev pub OnSome : (List Range → Type 0) → Option (List Range) → Type 0
OnSome P none = Unit {0}
OnSome P (some rs) = P rs

pub insert_ref-IsCanonicalFrom :
    (lo i : ℕ) (rs : List Range)
    → lo ≤ i
    → IsCanonicalFrom lo rs
    → OnSome (IsCanonicalFrom lo) (insert_ref i rs)
unfolding insert_ref
insert_ref-IsCanonicalFrom lo i [] h c = ground arith
insert_ref-IsCanonicalFrom lo i (r ∷ []) h (a, b, c) = ground arith
insert_ref-IsCanonicalFrom lo i (r ∷ s ∷ rs) h (a, b, c) =
    ground (arith, λ (g : suc r.1 ≤ i). insert_ref-IsCanonicalFrom (suc r.1) i (s ∷ rs) g c)

pub insert_ref-IsWithin :
    (n i : ℕ) (rs : List Range) → i < n → IsWithin n rs → OnSome (IsWithin n) (insert_ref i rs)
unfolding insert_ref
insert_ref-IsWithin n i [] h w = ground arith
insert_ref-IsWithin n i (r ∷ []) h w = ground arith
insert_ref-IsWithin n i (r ∷ s ∷ rs) h w = ground (arith, insert_ref-IsWithin n i (s ∷ rs) h w.1)

pub span-insert_ref :
    (lo i : ℕ) (rs : List Range)
    → IsCanonicalFrom lo rs
    → OnSome (λ rs'. span rs' ≡ suc (span rs)) (insert_ref i rs)
unfolding insert_ref
span-insert_ref lo i [] c = ground arith
span-insert_ref lo i (r ∷ []) (a, b, c) = ground arith
span-insert_ref lo i (r ∷ s ∷ rs) (a, b, c) = ground (arith, span-insert_ref (suc r.1) i (s ∷ rs) c)

covers-join :
    (i j : ℕ) (r : Range) (rs : List Range)
    → r.0 < r.1
    → IsCanonicalFrom (suc r.1) rs
    → r.1 ≡ i
    → covers (join i r rs) j ≡ (i == j) || covers (r ∷ rs) j
covers-join i j r [] b c e = ground arith
covers-join i j r (s ∷ rs) b c e = elim (le_or_lt s.0 (i + 1)) [
  | inl h ↦ ground arith
  | inr h ↦ ground arith
]

covers-insert_before :
    (i j : ℕ) (r : Range) (rs : List Range)
    → r.0 < r.1
    → i < r.0
    → OnSome (λ rs'. covers rs' j ≡ (i == j) || covers (r ∷ rs) j) (insert_ref i (r ∷ rs))
unfolding insert_ref
covers-insert_before i j r rs b h = elim (le_or_lt r.0 (i + 1)) [
  | inl g ↦ ground arith
  | inr g ↦ ground arith
]

or_swap : (a b c : Bool) → (a || (b || c)) ≡ (b || (a || c))
or_swap a b c = ground arith

OnSome-cons :
    (i j : ℕ) (r : Range) (rs : List Range) (o : Option (List Range))
    → OnSome (λ rs'. covers rs' j ≡ (i == j) || covers rs j) o
    → OnSome (λ rs'. covers rs' j ≡ (i == j) || covers (r ∷ rs) j) (cons_some r o)
OnSome-cons i j r rs none h = tt
OnSome-cons i j r rs (some rs') h =
    ap (λ b. contains r j || b) h ∙ or_swap (contains r j) (i == j) (covers rs j)

pub covers-insert_ref :
    (lo i j : ℕ) (rs : List Range)
    → IsCanonicalFrom lo rs
    → OnSome (λ rs'. covers rs' j ≡ (i == j) || covers rs j) (insert_ref i rs)
covers-insert_ref lo i j [] c = unfold insert_ref in ground arith
covers-insert_ref lo i j (r ∷ rs) (a, b, c) = elim (position i r) [
  | before h ↦ covers-insert_before i j r rs b h
  | inside h g ↦ rw (insert_ref_inside i r rs h g) tt
  | at_end h ↦ rw (insert_ref_at_end i r rs b h) (covers-join i j r rs b c h)
  | behind h ↦
      rw (insert_ref-cons i r rs b h)
        (OnSome-cons i j r rs (insert_ref i rs) (covers-insert_ref (suc r.1) i j rs c))
]

abbrev pub is_none : Option (List Range) → Bool
is_none none = true
is_none (some rs) = false

pub is_none-insert_ref :
    (lo i : ℕ) (rs : List Range) → IsCanonicalFrom lo rs → is_none (insert_ref i rs) ≡ covers rs i
unfolding insert_ref
is_none-insert_ref lo i [] c = refl
is_none-insert_ref lo i (r ∷ rs) (a, b, c) =
    ground (arith, is_none-insert_ref (suc r.1) i rs c, covers_below (suc r.1) i rs c)
