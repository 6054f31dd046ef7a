-- ===== src/Decimal/Laws.antt =====
-- Numbers survive the way through their digits.
use ssync.Prelude.{
  ℕ, zero, suc, ◌+◌, ◌*◌, ◌/◌, ◌%◌, ◌<◌, ◌≡◌, ap, ◌∙◌, inl, inr, false, some, [], ◌∷◌, arith,
  lt→ltb, le→ltb, le_or_lt,
}
use ssync.Utf8.{Str}
use ssync.Decimal.{push_digits, decimal, before, digits, step, read, int_of_str}

read_first :
    (d : ℕ) (rest : Str) → d < 10 → read before ((48 + d) ∷ rest) ≡ read (digits (false, d)) rest
unfolding read step
read_first d rest h = ground arith

read_next :
    (n d : ℕ) (rest : Str)
    → d < 10
    → read (digits (false, n)) ((48 + d) ∷ rest) ≡ read (digits (false, n * 10 + d)) rest
unfolding read step
read_next n d rest h = ground arith

read-push_digits :
    (rounds n : ℕ) (rest : Str)
    → n < rounds
    → read before (push_digits rounds n rest) ≡ read (digits (false, n)) rest
unfolding push_digits
read-push_digits zero n rest h = absurd (omega arith)
read-push_digits (suc rounds) n rest h = elim (le_or_lt 10 n) [
  | inl big ↦ rw (le→ltb n 10 big) (
      read-push_digits rounds (n / 10) ((48 + n % 10) ∷ rest) (omega arith)
      ∙ read_next (n / 10) (n % 10) rest (omega arith)
      ∙ ap (λ k. read (digits (false, k)) rest) (omega arith))
  | inr small ↦ rw (lt→ltb n 10 small) (read_first n rest small)
]

-- Every natural number comes back from its decimal digits.
pub int_of_str-decimal : (n : ℕ) → int_of_str (decimal n) ≡ some (false, n)
unfolding int_of_str decimal read
int_of_str-decimal n = read-push_digits (n + 1) n [] (omega arith)
