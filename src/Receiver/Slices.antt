-- ===== src/Receiver/Slices.antt =====
-- Lists by their elements, and what `write_at` leaves at each place of the part file.
use ssync.Prelude.{
  ℕ, zero, suc, ◌+◌, ◌-◌, ◌≤◌, ◌≡◌, refl, ap, ◌∙◌, ◌&&◌, none, some, List, [], ◌∷◌, ◌++◌, arith,
  ltb, leb, if◌then◌else◌, length, get_elem?, take, drop, length-append, length-take, length-drop,
}
use ssync.Struct.{Bytes}
use ssync.Receiver.{write_at}

module _ {ℓ} {A : Type ℓ} where
  pub get-append :
      (xs ys : List A) (j : ℕ)
      → get_elem? (xs ++ ys) j
        ≡ (if ltb j (length xs) then get_elem? xs j else get_elem? ys (j - length xs))
  get-append [] ys j = ground arith
  get-append (x ∷ xs) ys zero = ground arith
  get-append (x ∷ xs) ys (suc j) = ground (arith, get-append xs ys j)

  pub get-take :
      (n : ℕ) (xs : List A) (j : ℕ)
      → get_elem? (take n xs) j ≡ (if ltb j n then get_elem? xs j else none)
  get-take zero xs j = ground arith
  get-take (suc n) [] j = ground arith
  get-take (suc n) (x ∷ xs) zero = ground arith
  get-take (suc n) (x ∷ xs) (suc j) = ground (arith, get-take n xs j)

  pub get-drop : (n : ℕ) (xs : List A) (j : ℕ) → get_elem? (drop n xs) j ≡ get_elem? xs (n + j)
  get-drop zero xs j = ap (get_elem? xs) (omega arith)
  get-drop (suc n) [] j = ground arith
  get-drop (suc n) (x ∷ xs) j =
      let shifted : suc (n + j) ≡ suc n + j = omega arith in
      get-drop n xs j ∙ ap (get_elem? (x ∷ xs)) shifted

  pub get_behind : (xs : List A) (j : ℕ) → length xs ≤ j → get_elem? xs j ≡ none
  get_behind [] j h = refl
  get_behind (x ∷ xs) zero h = absurd (omega arith)
  get_behind (x ∷ xs) (suc j) h = get_behind xs j (omega arith)

  -- Lists with the same elements at the same places are the same.
  pub get_ext : (xs ys : List A) → ((j : ℕ) → get_elem? xs j ≡ get_elem? ys j) → xs ≡ ys
  get_ext [] [] h = refl
  get_ext [] (y ∷ ys) h = let differ : none ≡ some y = h 0 in absurd (cc)
  get_ext (x ∷ xs) [] h = let differ : some x ≡ none = h 0 in absurd (cc)
  get_ext (x ∷ xs) (y ∷ ys) h =
      let rest = get_ext xs ys (λ j. h (suc j)) in let first : some x ≡ some y = h 0 in cc

pub length-write_at :
    (offset : ℕ) (payload file : Bytes)
    → offset + length payload ≤ length file
    → length (write_at offset payload file) ≡ length file
unfolding write_at
length-write_at offset payload file h = omega (
  arith,
  length-append (take offset file) (payload ++ drop (offset + length payload) file),
  length-append payload (drop (offset + length payload) file),
  length-take offset file,
  length-drop (offset + length payload) file,
)

pub get-write_at :
    (offset : ℕ) (payload file : Bytes) (j : ℕ)
    → offset ≤ length file
    → get_elem? (write_at offset payload file) j ≡ (
        if leb offset j && ltb j (offset + length payload)
        then get_elem? payload (j - offset)
        else get_elem? file j)
unfolding write_at
get-write_at offset payload file j h = ground (
  arith,
  get-append (take offset file) (payload ++ drop (offset + length payload) file) j,
  get-append payload (drop (offset + length payload) file) (j - offset),
  get-take offset file j,
  get-drop (offset + length payload) file (j - offset - length payload),
  length-take offset file,
)
