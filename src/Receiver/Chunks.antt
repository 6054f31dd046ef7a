-- ===== src/Receiver/Chunks.antt =====
-- Which bytes of a file the chunks hold, and what `read_chunk` reads.
use ssync.Prelude.{
  ℕ, ◌+◌, ◌-◌, ◌*◌, ◌/◌, ◌%◌, ◌≤◌, ◌<◌, min, ◌≡◌, refl, sym, ap, ◌∙◌, inl, inr, true, ◌&&◌, arith,
  ltb, leb, if◌then◌else◌, lt→ltb, pos→ne_zero, le_or_lt, length, get_elem?, drop, length-take,
  length-drop,
}
use native.Mathlib.Nat.{mod-lt, mod-add-div, mul-le-mul_left}
use ssync.Struct.{Bytes}
use ssync.Types.{expected_total_chunks}
use ssync.Sender.{read_chunk}
use ssync.Receiver.{write_at}
use ssync.Receiver.Slices.{get-take, get-drop, get_behind, get-write_at}

module _ (size chunk_size : ℕ) (positive : 0 < chunk_size) where
  rounded_up :
      0 < size
      → (q : ℕ) → q ≡ (size + chunk_size - 1) / chunk_size
      → (size ≤ chunk_size * q) × (chunk_size * q < size + chunk_size)
  rounded_up h q e =
      let whole : (size + chunk_size - 1) % chunk_size + chunk_size * q ≡ size + chunk_size - 1 =
        rw e (mod-add-div (size + chunk_size - 1) chunk_size) in
      let part = mod-lt (size + chunk_size - 1) positive in
      (omega (arith, whole, part), omega (arith, whole, part))

  total_bounds :
      0 < size
      → (size ≤ chunk_size * expected_total_chunks size chunk_size)
        × (chunk_size * expected_total_chunks size chunk_size < size + chunk_size)
  total_bounds h =
      rounded_up h (expected_total_chunks size chunk_size) (rw (pos→ne_zero size 0 h) refl)

  -- A chunk begins inside the file.
  pub chunk_inside : (i : ℕ) → i < expected_total_chunks size chunk_size → i * chunk_size < size
  chunk_inside i h = elim (le_or_lt size 0) [
    | inl empty ↦ absurd (ground arith)
    | inr filled ↦ omega (arith, total_bounds filled, mul-le-mul_left chunk_size h)
  ]

  -- A byte that belongs to no chunk is behind the file.
  pub behind_chunks : (j : ℕ) → expected_total_chunks size chunk_size ≤ j / chunk_size → size ≤ j
  behind_chunks j h = elim (le_or_lt size 0) [
    | inl empty ↦ omega arith
    | inr filled ↦
        omega (arith, total_bounds filled, mul-le-mul_left chunk_size h, mod-add-div j chunk_size)
  ]

  pub chunk_window :
      (i j : ℕ) → j / chunk_size ≡ i → (i * chunk_size ≤ j) × (j < i * chunk_size + chunk_size)
  chunk_window i j e =
      let whole : j % chunk_size + chunk_size * i ≡ j = rw (sym e) (mod-add-div j chunk_size) in
      let part = mod-lt j positive in (omega (arith, whole, part), omega (arith, whole, part))

pub length-read_chunk :
    (raw : Bytes) (chunk_size i : ℕ)
    → length (read_chunk raw chunk_size i) ≡ min chunk_size (length raw - i * chunk_size)
unfolding read_chunk
length-read_chunk raw chunk_size i =
    length-take chunk_size (drop (i * chunk_size) raw)
    ∙ ap (min chunk_size) (length-drop (i * chunk_size) raw)

get-read_chunk :
    (raw : Bytes) (chunk_size i j : ℕ)
    → i * chunk_size ≤ j
    → j < i * chunk_size + chunk_size
    → get_elem? (read_chunk raw chunk_size i) (j - i * chunk_size) ≡ get_elem? raw j
unfolding read_chunk
get-read_chunk raw chunk_size i j h k =
    let inside : ltb (j - i * chunk_size) chunk_size ≡ true = lt→ltb _ _ (omega arith) in
    let same : i * chunk_size + (j - i * chunk_size) ≡ j = omega arith in
    get-take chunk_size (drop (i * chunk_size) raw) (j - i * chunk_size)
    ∙ rw inside (get-drop (i * chunk_size) raw (j - i * chunk_size))
    ∙ ap (get_elem? raw) same

-- Where a chunk of the file is written, the part file agrees with the file; elsewhere it stays.
pub get-write_chunk :
    (raw part : Bytes) (chunk_size i j : ℕ)
    → length part ≡ length raw
    → i * chunk_size ≤ length raw
    → get_elem? (write_at (i * chunk_size) (read_chunk raw chunk_size i) part) j ≡ (
        if leb (i * chunk_size) j && ltb j (i * chunk_size + chunk_size)
        then get_elem? raw j
        else get_elem? part j)
get-write_chunk raw part chunk_size i j e h = ground (
  arith,
  get-write_at (i * chunk_size) (read_chunk raw chunk_size i) part j (omega arith),
  length-read_chunk raw chunk_size i,
  get-read_chunk raw chunk_size i j,
  get_behind raw j,
  get_behind part j,
)
