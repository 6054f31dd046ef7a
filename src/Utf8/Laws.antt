-- ===== src/Utf8/Laws.antt =====
-- Decoding what was encoded.
use ssync.Prelude.{ℕ, ◌<◌, ◌≤◌, ◌≡◌, true, [], ◌∷◌, ◌++◌, arith, le_or_lt, inl, inr, Bool-cases}
use ssync.Result.{
  OnlyValueErrors, OnlyValueErrors-ok, OnlyValueErrors-unicode_error, OnlyValueErrors-bind, Result,
  Result-cases, ok, err, unicode_error, ◌>>=◌,
}
use ssync.Struct.{Bytes}
use ssync.Utf8.{
  Mode, Step, inside, emit, go, fail, step, Str, is_scalar, encode_char, encode_utf8, start,
  decode_loop, decode_utf8,
}

abbrev prepend : ℕ → Result Str → Result Str
prepend c r = do s ← r; ok (c ∷ s)

module _ (c : ℕ) (bs : Bytes) (scalar : is_scalar c ≡ true) where
  one_byte : c < 0x80 → decode_loop start (encode_char c ++ bs) ≡ prepend c (decode_loop start bs)
  unfolding decode_loop encode_char
  one_byte h = ground arith

  two_bytes :
      0x80 ≤ c
      → c < 0x800
      → decode_loop start (encode_char c ++ bs) ≡ prepend c (decode_loop start bs)
  unfolding decode_loop encode_char
  two_bytes h k = ground arith

  three_bytes :
      0x800 ≤ c
      → c < 0x10000
      → decode_loop start (encode_char c ++ bs) ≡ prepend c (decode_loop start bs)
  unfolding decode_loop encode_char
  three_bytes h k = ground arith

  four_bytes :
      0x10000 ≤ c → decode_loop start (encode_char c ++ bs) ≡ prepend c (decode_loop start bs)
  unfolding decode_loop encode_char
  four_bytes h = ground arith

  decode_char : decode_loop start (encode_char c ++ bs) ≡ prepend c (decode_loop start bs)
  decode_char = elim (le_or_lt 0x80 c) [
    | inr h ↦ one_byte h
    | inl h ↦ elim (le_or_lt 0x800 c) [
      | inr k ↦ two_bytes h k
      | inl k ↦ elim (le_or_lt 0x10000 c) [ inr g ↦ three_bytes k g | inl g ↦ four_bytes g ]
    ]
  ]

-- Whatever text can be encoded is decoded to itself.
pub decode-encode_utf8 : (s : Str) (bs : Bytes) → encode_utf8 s ≡ ok bs → decode_utf8 bs ≡ ok s
unfolding encode_utf8 decode_utf8
decode-encode_utf8 [] bs e = unfold decode_loop in ground arith
decode-encode_utf8 (c ∷ s) bs e = elim (Result-cases (encode_utf8 s)) [
  | inl (tail, t) ↦ elim (Bool-cases (is_scalar c)) [
    | inl scalar ↦
        let split : encode_char c ++ tail ≡ bs = ground arith in
        rw (← split, decode_char c tail scalar, decode-encode_utf8 s tail t)
    | inr other ↦ ground arith
  ]
  | inr (x, t) ↦ ground arith
]

after_step :
    (st : Step) (bs : Bytes)
    → ((mode : Mode) → OnlyValueErrors (decode_loop mode bs))
    → OnlyValueErrors {A = Str} (elim st [
      | emit c ↦ (do s ← decode_loop start bs; ok (c ∷ s))
      | go next ↦ decode_loop next bs
      | fail ↦ err unicode_error
    ])
after_step (emit c) bs h = OnlyValueErrors-bind _ _ (h start) (λ s. OnlyValueErrors-ok (c ∷ s))
after_step (go next) bs h = h next
after_step fail bs h = OnlyValueErrors-unicode_error

decode_loop_errors : (mode : Mode) (bs : Bytes) → OnlyValueErrors (decode_loop mode bs)
unfolding decode_loop
decode_loop_errors start [] = OnlyValueErrors-ok []
decode_loop_errors (inside k acc lo hi) [] = OnlyValueErrors-unicode_error
decode_loop_errors start (b ∷ bs) = after_step (step start b) bs (λ m. decode_loop_errors m bs)
decode_loop_errors (inside k acc lo hi) (b ∷ bs) =
    after_step (step (inside k acc lo hi) b) bs (λ m. decode_loop_errors m bs)

pub decode_utf8_errors : (bs : Bytes) → OnlyValueErrors (decode_utf8 bs)
unfolding decode_utf8
decode_utf8_errors bs = decode_loop_errors start bs
