-- ===== src/Paths/Laws.antt =====
-- A destination path stays below the output directory, and which names lead to it.
use ssync.Prelude.{
  ℕ, ◌≡◌, refl, ap, ◌∙◌, inl, inr, Bool, true, false, not, ◌&&◌, ◌||◌, none, some, List, [], ◌∷◌,
  ◌++◌, arith, ◌==◌, if◌then◌else◌, Bool-cases, All, All-imp,
}
use ssync.Utf8.{Str}
use ssync.Frames.{bytes_eq}
use ssync.Receiver.{FilePath}
use ssync.Paths.{
  slash, dot_dot, push_char, split_slash, is_plain, filter_plain, is_absolute, parts_of,
  has_dot_dot, no_parts, safe_destination_path, join_from, path_text,
}

unfoldable pub has_slash : Str → Bool
has_slash [] = false
has_slash (c ∷ s) = (c == slash) || has_slash s

-- A part that names an entry of a directory: not empty, no slash in it, and no reference to the
-- directory or to its parent.
unfoldable pub is_entry : Str → Bool
is_entry part = is_plain part && not (has_slash part) && not (bytes_eq part dot_dot)

push-no_slash :
    (c : ℕ) (parts : List Str)
    → (c == slash) ≡ false
    → All (λ p. has_slash p ≡ false) parts
    → All (λ p. has_slash p ≡ false) (push_char c parts)
unfolding has_slash
push-no_slash c [] e h = (ground arith, tt)
push-no_slash c (p ∷ parts) e h = (ground (arith, h.0), h.1)

split-no_slash : (s : Str) → All (λ p. has_slash p ≡ false) (split_slash s)
unfolding split_slash has_slash
split-no_slash [] = (refl, tt)
split-no_slash (c ∷ s) = elim (Bool-cases (c == slash)) [
  | inl e ↦ rw e (refl, split-no_slash s)
  | inr e ↦ rw e (push-no_slash c (split_slash s) e (split-no_slash s))
]

filter-All :
    (P : Str → Type 0) (parts : List Str)
    → All P parts
    → All (λ p. P p × (is_plain p ≡ true)) (filter_plain parts)
unfolding filter_plain
filter-All P [] h = tt
filter-All P (p ∷ parts) h = elim (Bool-cases (is_plain p)) [
  | inl e ↦ rw e ((h.0, e), filter-All P parts h.1)
  | inr e ↦ rw e (filter-All P parts h.1)
]

filter_plain_same :
    (parts : List Str) → All (λ p. is_plain p ≡ true) parts → filter_plain parts ≡ parts
unfolding filter_plain
filter_plain_same [] h = refl
filter_plain_same (p ∷ parts) h = rw h.0 (ap (λ q. p ∷ q) (filter_plain_same parts h.1))

entries :
    (parts : List Str)
    → All (λ p. (has_slash p ≡ false) × (is_plain p ≡ true)) parts
    → has_dot_dot parts ≡ false
    → All (λ p. is_entry p ≡ true) parts
unfolding has_dot_dot is_entry
entries [] h e = tt
entries (p ∷ parts) h e = (ground (arith, h.0.0, h.0.1), entries parts h.1 (ground arith))

safe_path_cases :
    (file_name : Str) (path : FilePath) (parts : List Str)
    → (if is_absolute file_name
        then none
        else if no_parts parts
        then none
        else if has_dot_dot parts
        then none
        else some parts)
      ≡ some path
    → (path ≡ parts) × (no_parts parts ≡ false) × (has_dot_dot parts ≡ false)
safe_path_cases file_name path parts e = (ground arith, ground arith, ground arith)

-- A destination path that is accepted stays below the output directory: it has at least one part, and
-- each part is the name of an entry, not empty, without a slash, and neither "." nor "..".
pub safe_destination_path-IsBelow :
    (file_name : Str) (path : FilePath)
    → safe_destination_path file_name ≡ some path
    → (no_parts path ≡ false) × All (λ part. is_entry part ≡ true) path
unfolding safe_destination_path parts_of
safe_destination_path-IsBelow file_name path e =
    let kept = filter_plain (filter_plain (split_slash file_name)) in
    let (same, filled, inside) = safe_path_cases file_name path kept e in
    let good = filter-All _ _ (filter-All _ _ (split-no_slash file_name)) in
    (rw same filled, rw same (entries kept (All-imp (λ p h. (h.0.0, h.1)) kept good) inside))

split-slash_after :
    (p s : Str) → has_slash p ≡ false → split_slash (p ++ (slash ∷ s)) ≡ p ∷ split_slash s
unfolding split_slash has_slash
split-slash_after [] s h = refl
split-slash_after (c ∷ p) s h = ground (arith, split-slash_after p s)

split-one : (p : Str) → has_slash p ≡ false → split_slash p ≡ p ∷ []
unfolding split_slash has_slash
split-one [] h = refl
split-one (c ∷ p) h = ground (arith, split-one p)

split-join :
    (part : Str) (rest : List Str)
    → has_slash part ≡ false
    → All (λ p. has_slash p ≡ false) rest
    → split_slash (join_from part rest) ≡ part ∷ rest
unfolding join_from
split-join part [] h k = split-one part h
split-join part (next ∷ rest) h k =
    split-slash_after part (join_from next rest) h
    ∙ ap (λ q. part ∷ q) (split-join next rest k.0 k.1)

no_dot_dot : (parts : List Str) → All (λ p. is_entry p ≡ true) parts → has_dot_dot parts ≡ false
unfolding has_dot_dot is_entry
no_dot_dot [] h = refl
no_dot_dot (p ∷ parts) h = ground (arith, h.0, no_dot_dot parts h.1)

relative :
    (part : Str) (rest : List Str)
    → is_entry part ≡ true
    → is_absolute (join_from part rest) ≡ false
unfolding is_entry has_slash join_from
relative [] [] h = refl
relative [] (q ∷ rest) h = absurd (cc)
relative (c ∷ p) [] h = ground arith
relative (c ∷ p) (q ∷ rest) h = ground arith

-- Every path below the output directory whose parts are names of entries is the destination of the
-- name that joins them with slashes.
pub safe_destination_path-join :
    (part : Str) (rest : List Str)
    → is_entry part ≡ true
    → All (λ p. is_entry p ≡ true) rest
    → safe_destination_path (join_from part rest) ≡ some (part ∷ rest)
unfolding safe_destination_path parts_of
safe_destination_path-join part rest h k =
    let plain : All (λ p. is_plain p ≡ true) (part ∷ rest) =
      unfold is_entry in (ground arith, All-imp (λ p e. ground arith) rest k) in
    let split : split_slash (join_from part rest) ≡ part ∷ rest =
      unfold is_entry in
      split-join part rest (ground arith) (All-imp (λ p e. ground arith) rest k) in
    let same = filter_plain_same (part ∷ rest) plain in
    rw (split, same, same, relative part rest h, no_dot_dot (part ∷ rest) (h, k)) refl

-- A path of entries comes back from its text, which is relative and has no reference to a parent.
pub parts_of-path_text :
    (path : FilePath)
    → All (λ part. is_entry part ≡ true) path
    → (parts_of (path_text path) ≡ path)
      × (is_absolute (path_text path) ≡ false)
      × (has_dot_dot path ≡ false)
unfolding parts_of path_text has_dot_dot
parts_of-path_text [] h = (refl, refl, refl)
parts_of-path_text (part ∷ rest) h =
    let plain : All (λ p. is_plain p ≡ true) (part ∷ rest) =
      unfold is_entry in All-imp (λ p e. ground arith) (part ∷ rest) h in
    let split : split_slash (join_from part rest) ≡ part ∷ rest =
      unfold is_entry in
      split-join part rest (ground (arith, h.0)) (All-imp (λ p e. ground arith) rest h.1) in
    (
      ap filter_plain split ∙ filter_plain_same (part ∷ rest) plain,
      relative part rest h.0,
      no_dot_dot (part ∷ rest) h,
    )
