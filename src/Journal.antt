-- ===== src/Journal.antt =====
-- src/ssync/space_sync/receiver.py: the values that the journal is made of, and how they are read,
-- `_coerce_optional_int` and `_coerce_optional_float`. The text of the JSON document is left out: what
-- `json.dumps` writes is what `json.loads` reads.
pub mod Save
pub mod Load
pub mod Restore
pub mod Pieces
pub mod RoundTrip
pub mod Signatures
pub mod Survivors
pub mod Restart
pub mod Clear
pub mod Cleared
use Prim.Native.Char.{code}
use ssync.Prelude.{
  ℕ, ◌*◌, ◌/◌, String, Bool, true, false, not, ◌&&◌, Option, none, some, List, [], ◌∷◌, ltb,
  if◌then◌else◌,
}
use ssync.Result.{Result, ok, err, value_error, outside}
use ssync.Utf8.{Str}
use ssync.Frames.{bytes_eq}
use ssync.Hex.{from_hex}
use ssync.Decimal.{Number, int_of_str}

-- The characters of a key.
unfoldable pub codes : String → Str
codes String.[] = []
codes (String.◌∷◌ c s) = code c ∷ codes s

-- What a JSON document holds. A `float` is a time, in milliseconds.
mutual
  pub data Json : Type 0 where
    null : Json
    bool : Bool → Json
    number : Number → Json
    seconds : ℕ → Json
    text : Str → Json
    array : Items → Json
    object : Fields → Json

  pub data Items : Type 0 where
    no_items : Items
    item : Json → Items → Items

  pub data Fields : Type 0 where
    no_fields : Fields
    field : Str → Json → Fields → Fields

abbrev pub natural : ℕ → Json
natural n = number (false, n)

-- An index that is -1 at first.
abbrev pub index : Option ℕ → Json
index none = number (true, 1)
index (some i) = number (false, i)

-- `raw.get(key)`
unfoldable pub get_field : Str → Fields → Option Json
get_field key no_fields = none
get_field key (field name value rest) = if bytes_eq name key then some value else get_field key rest

-- What a `try` block comes to whose `except` returns None: a value, or None, be it returned or for an
-- error that is caught. `negative` is where the model has no number.
pub data Attempt {ℓ} (A : Type ℓ) : Type ℓ where
  got : A → Attempt A
  refused negative : Attempt A

infixl 5 ◌>>=◌
abbrev pub ◌>>=◌ {ℓ κ} : {A : Type ℓ} {B : Type κ} → Attempt A → (A → Attempt B) → Attempt B
got a >>= f = f a
refused >>= f = refused
negative >>= f = negative

abbrev pub attempt {ℓ} : {A : Type ℓ} → Option A → Attempt A
attempt none = refused
attempt (some a) = got a

-- `raw[key]`
unfoldable pub required : Str → Fields → Attempt Json
unfolding get_field
required key fields = attempt (get_field key fields)

-- `int(value)`
unfoldable pub int_of : Json → Attempt Number
int_of null = refused
int_of (bool b) = got (false, if b then 1 else 0)
int_of (number n) = got n
int_of (seconds ms) = got (false, ms / 1000)
int_of (text s) = attempt (int_of_str s)
int_of (array elements) = refused
int_of (object entries) = refused

abbrev pub is_negative : Number → Bool
is_negative (sign, n) = sign && ltb 0 n

abbrev pub natural_of_number : Number → Attempt ℕ
natural_of_number n = if is_negative n then negative else got n.1

-- `int(value)`, where the model has natural numbers
unfoldable pub natural_of : Json → Attempt ℕ
unfolding int_of
natural_of value = int_of value >>= natural_of_number

-- `max(-1, n)`
abbrev pub index_of_number : Number → Option ℕ
index_of_number n = if is_negative n then none else some n.1

unfoldable pub coerce_optional_int : Json → Number → Attempt Number
coerce_optional_int null default = got default
coerce_optional_int (bool b) default = got default
coerce_optional_int (number n) default = got n
coerce_optional_int (seconds ms) default = got (false, ms / 1000)
coerce_optional_int (text s) default = attempt (int_of_str s)
coerce_optional_int (array elements) default = got default
coerce_optional_int (object entries) default = got default

-- `str` of a value that is no text, and `float` of a text, are parameters.
module _ (show : Json → Str) (float_of_str : Str → Option ℕ) where
  abbrev pub str_of : Json → Str
  str_of (text s) = s
  str_of value = show value

  unfoldable pub coerce_optional_float : Json → ℕ → Result ℕ
  coerce_optional_float null default = ok default
  coerce_optional_float (bool b) default = ok default
  coerce_optional_float (number n) default = if is_negative n then err outside else ok (n.1 * 1000)
  coerce_optional_float (seconds ms) default = ok ms
  coerce_optional_float (text s) default = elim (float_of_str s) [
    | none ↦ err (value_error "could not convert string to float")
    | some ms ↦ ok ms
  ]
  coerce_optional_float (array elements) default = ok default
  coerce_optional_float (object entries) default = ok default

  -- `bytes.fromhex(str(value))`
  unfoldable pub bytes_of : Json → Attempt (List ℕ)
  unfolding from_hex
  bytes_of value = attempt (from_hex (str_of value))
