-- ===== src/Frames/Equal.antt =====
-- The comparison of byte strings decides their equality.
use ssync.Prelude.{◌≡◌, refl, true, [], ◌∷◌, arith}
use ssync.Struct.{Bytes}
use ssync.Frames.{bytes_eq}

pub bytes_eq_refl : (a : Bytes) → bytes_eq a a ≡ true
bytes_eq_refl [] = refl
bytes_eq_refl (x ∷ a) = ground (arith, bytes_eq_refl a)

pub bytes_eq_sound : (a b : Bytes) → bytes_eq a b ≡ true → a ≡ b
bytes_eq_sound [] [] h = refl
bytes_eq_sound [] (y ∷ b) h = absurd (cc)
bytes_eq_sound (x ∷ a) [] h = absurd (cc)
bytes_eq_sound (x ∷ a) (y ∷ b) h = ground (arith, bytes_eq_sound a b)
