-- ===== src/Tests/Paths.antt =====
-- Names of files and where they lead.
use ssync.Prelude.{◌≡◌, refl, true, false, none, some, [], ◌∷◌, All}
use ssync.Utf8.{Str}
use ssync.Receiver.{FilePath}
use ssync.Paths.{no_parts, safe_destination_path, parts_of}
use ssync.Paths.Laws.{is_entry, safe_destination_path-IsBelow}

-- "a/./b//c"
abbrev dotted : Str
dotted = 97 ∷ 47 ∷ 46 ∷ 47 ∷ 98 ∷ 47 ∷ 47 ∷ 99 ∷ []

abbrev nested : FilePath
nested = (97 ∷ []) ∷ (98 ∷ []) ∷ (99 ∷ []) ∷ []

dotted_run : safe_destination_path dotted ≡ some nested
unfolding safe_destination_path parts_of
dotted_run = refl

-- "/a", "a/../b" and "./" are refused.
absolute_run : safe_destination_path (47 ∷ 97 ∷ []) ≡ none
unfolding safe_destination_path
absolute_run = refl

parent_run : safe_destination_path (97 ∷ 47 ∷ 46 ∷ 46 ∷ 47 ∷ 98 ∷ []) ≡ none
unfolding safe_destination_path parts_of
parent_run = refl

empty_run : safe_destination_path (46 ∷ 47 ∷ []) ≡ none
unfolding safe_destination_path parts_of
empty_run = refl

safe_destination_path-IsBelow_example :
    (no_parts nested ≡ false) × All (λ part. is_entry part ≡ true) nested
safe_destination_path-IsBelow_example = safe_destination_path-IsBelow dotted nested dotted_run
