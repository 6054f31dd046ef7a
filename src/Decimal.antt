-- ===== src/Decimal.antt =====
-- `str` of a natural number and `int` of a text: space round the number, a sign, and digits with single
-- underscores between them, in ASCII.
pub mod Laws
use ssync.Prelude.{
  ℕ, zero, suc, ◌+◌, ◌-◌, ◌*◌, ◌/◌, ◌%◌, Bool, true, false, ◌&&◌, Option, none, some, [], ◌∷◌, ltb,
  leb, ◌==◌, if◌then◌else◌,
}
use ssync.Utf8.{Str}
use ssync.Hex.{is_space}

-- The digits of a number before those that are there.
unfoldable pub push_digits : ℕ → ℕ → Str → Str
push_digits zero n digits = digits
push_digits (suc rounds) n digits =
    let longer = push_digits rounds (n / 10) ((48 + n % 10) ∷ digits) in
    if ltb n 10 then (48 + n) ∷ digits else longer

-- A number has fewer digits than its value and one.
unfoldable pub decimal : ℕ → Str
unfolding push_digits
decimal n = push_digits (n + 1) n []

-- A sign, and the absolute value.
abbrev pub Number : Type 0
Number = Bool × ℕ

abbrev pub is_digit : ℕ → Bool
is_digit c = leb 48 c && leb c 57

-- Where a reader is in its text: before the number, behind its sign, behind a digit, behind an
-- underscore, and behind the number.
pub data Place : Type 0 where
  before : Place
  signed : Bool → Place
  digits underscore behind : Number → Place

abbrev pub add_digit : Number → ℕ → Place
add_digit (negative, n) c = digits (negative, n * 10 + (c - 48))

pub step : Place → ℕ → Option Place
step before c =
    if is_space c
    then some before
    else if c == 45
    then some (signed true)
    else if c == 43
    then some (signed false)
    else if is_digit c
    then some (add_digit (false, 0) c)
    else none
step (signed negative) c = if is_digit c then some (add_digit (negative, 0) c) else none
step (digits n) c =
    if is_digit c
    then some (add_digit n c)
    else if c == 95
    then some (underscore n)
    else if is_space c
    then some (behind n)
    else none
step (underscore n) c = if is_digit c then some (add_digit n c) else none
step (behind n) c = if is_space c then some (behind n) else none

abbrev pub number_at : Place → Option Number
number_at (digits n) = some n
number_at (behind n) = some n
number_at place = none

pub read : Place → Str → Option Number
unfolding step
read place [] = number_at place
read place (c ∷ s) = elim (step place c) [ none ↦ none | some next ↦ read next s ]

-- `int(text)`
unfoldable pub int_of_str : Str → Option Number
unfolding read
int_of_str s = read before s
