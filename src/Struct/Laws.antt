-- ===== src/Struct/Laws.antt =====
-- `unpack` after `pack`, and the sizes.
use ssync.Prelude.{
  false, ℕ, zero, suc, ◌+◌, ◌-◌, ◌*◌, ◌/◌, ◌%◌, ◌^◌, ◌<◌, ◌≡◌, refl, ap, ◌∙◌, true, List, [], ◌∷◌,
  ◌++◌, ltb, arith, lt→ltb, le→ltb, length, take, drop, replicate, length-append, take-append,
  drop-append, take_all, length-take, length-replicate,
}
use mathlib.Core.List.{append_assoc, append-nil}
use native.Mathlib.Nat.{pow-suc}
use ssync.Result.{Result, ok, ◌>>=◌, OnlyValueErrors}
use ssync.Struct.{
  Bytes, Field, uint, raw, Value, Values, width, size, be_bytes, from_be, int_from_bytes, fits,
  field_bytes, layout, pack, field_value, field_values, unpack,
}

pub length-be_bytes : (n v : ℕ) → length (be_bytes n v) ≡ n
unfolding be_bytes
length-be_bytes zero v = refl
length-be_bytes (suc n) v =
    length-append (be_bytes n (v / 256)) (v % 256 ∷ []) ∙ omega (arith, length-be_bytes n (v / 256))

from_be-append : (acc b : ℕ) (bs : Bytes) → from_be acc (bs ++ b ∷ []) ≡ from_be acc bs * 256 + b
unfolding from_be
from_be-append acc b [] = refl
from_be-append acc b (x ∷ bs) = from_be-append (acc * 256 + x) b bs

pow_step : (n : ℕ) → 256 ^ suc n ≡ 256 ^ n * 256
pow_step n = pow-suc 256 n

pub from-be_bytes : (n v : ℕ) → v < 256 ^ n → int_from_bytes (be_bytes n v) ≡ v
unfolding int_from_bytes be_bytes
from-be_bytes zero v h = unfold from_be in omega arith
from-be_bytes (suc n) v h =
    from_be-append 0 (v % 256) (be_bytes n (v / 256))
    ∙ omega (arith, pow_step n, from-be_bytes n (v / 256) (omega (arith, pow_step n)))

-- A value that comes back as it is: an integer in range, a byte string of its size.
abbrev pub FieldExact : (f : Field) → Value f → Type 0
FieldExact (uint n) v = v < 256 ^ n
FieldExact (raw n) bs = length bs ≡ n

abbrev pub Exact : (fs : List Field) → Values fs → Type 0
Exact [] vs = Unit {0}
Exact (f ∷ fs) (v, vs) = FieldExact f v × Exact fs vs

length-field_bytes : (f : Field) (v : Value f) → length (field_bytes f v) ≡ width f
unfolding field_bytes
length-field_bytes (uint n) v = length-be_bytes n v
length-field_bytes (raw n) bs =
    length-append (take n bs) (replicate (n - length bs) 0)
    ∙ omega (arith, length-take n bs, length-replicate {A = ℕ} (n - length bs) 0)

pub length-layout : (fs : List Field) (vs : Values fs) → length (layout fs vs) ≡ size fs
unfolding layout
length-layout [] vs = refl
length-layout (f ∷ fs) (v, vs) =
    length-append (field_bytes f v) (layout fs vs)
    ∙ omega (arith, length-field_bytes f v, length-layout fs vs)

raw_bytes : (n : ℕ) (bs : Bytes) → length bs ≡ n → take n bs ++ replicate (n - length bs) 0 ≡ bs
raw_bytes n bs h =
    let none_missing : n - length bs ≡ 0 = omega arith in
    rw (take_all n bs (omega arith), none_missing) (append-nil bs)

field_bytes-value :
    (f : Field) (v : Value f) (rest : Bytes)
    → FieldExact f v
    → field_value f (field_bytes f v ++ rest) ≡ v
unfolding field_value field_bytes
field_bytes-value (uint n) v rest h =
    ap int_from_bytes (take-append n (be_bytes n v) rest (length-be_bytes n v))
    ∙ from-be_bytes n v h
field_bytes-value (raw n) bs rest h =
    ap (λ x. take n (x ++ rest)) (raw_bytes n bs h) ∙ take-append n bs rest h

values-layout :
    (fs : List Field) (vs : Values fs) (rest : Bytes)
    → Exact fs vs
    → field_values fs (layout fs vs ++ rest) ≡ vs
unfolding field_values layout
values-layout [] vs rest h = refl
values-layout (f ∷ fs) (v, vs) rest (h, hs) =
    let same : field_value f ((field_bytes f v ++ layout fs vs) ++ rest) ≡ v =
      rw append_assoc (field_bytes-value f v (layout fs vs ++ rest) h) in
    let others : field_values fs (drop (width f) ((field_bytes f v ++ layout fs vs) ++ rest)) ≡ vs =
      rw append_assoc (
        ap (field_values fs)
          (drop-append (width f) (field_bytes f v) (layout fs vs ++ rest) (length-field_bytes f v))
        ∙ values-layout fs vs rest hs) in
    λ i. (same i, others i)

fits-Exact : (fs : List Field) (vs : Values fs) → Exact fs vs → fits fs vs ≡ true
fits-Exact [] vs h = refl
fits-Exact (uint n ∷ fs) (v, vs) (h, hs) = rw (lt→ltb _ _ h, fits-Exact fs vs hs)
fits-Exact (raw n ∷ fs) (v, vs) (h, hs) = fits-Exact fs vs hs

pub pack-Exact : (fs : List Field) (vs : Values fs) → Exact fs vs → pack fs vs ≡ ok (layout fs vs)
unfolding pack
pack-Exact fs vs h = rw (fits-Exact fs vs h)

-- What a decoder meets behind a packed header: bytes enough, and the rest behind the header.
pub layout_long :
    (fs : List Field) (vs : Values fs) (rest : Bytes)
    → ltb (length (layout fs vs ++ rest)) (size fs) ≡ false
layout_long fs vs rest =
    le→ltb _ _ (omega (arith, length-append (layout fs vs) rest, length-layout fs vs))

-- `unpack` returns the values that were packed, whatever follows them.
pub unpack-layout :
    (fs : List Field) (vs : Values fs) (rest : Bytes)
    → Exact fs vs
    → unpack fs (layout fs vs ++ rest) ≡ ok vs
unfolding unpack
unpack-layout fs vs rest h =
    rw (layout_long fs vs rest, unpack) (ap ok (values-layout fs vs rest h))

-- Behind a test that there are bytes enough, `unpack` does not raise.
pub unpack_errors :
    {B : Type 0} (fs : List Field) (bs : Bytes) (k : Values fs → Result B)
    → ltb (length bs) (size fs) ≡ false
    → ((vs : Values fs) → OnlyValueErrors (k vs))
    → OnlyValueErrors (unpack fs bs >>= k)
unfolding unpack
unpack_errors fs bs k e h = rw (e, unpack) (h (field_values fs bs))

pub drop-layout :
    (fs : List Field) (vs : Values fs) (rest : Bytes) → drop (size fs) (layout fs vs ++ rest) ≡ rest
drop-layout fs vs rest = drop-append (size fs) (layout fs vs) rest (length-layout fs vs)
