-- ===== src/Paths.antt =====
-- src/ssync/space_sync/receiver.py: `_safe_destination_path`, with what it uses of `pathlib` for the
-- paths of POSIX: the parts of a path are what stands between its slashes, without the empty ones and
-- the single dots.
pub mod Laws
use ssync.Prelude.{
  ℕ, ◌+◌, Bool, true, false, not, ◌||◌, Option, none, some, List, [], ◌∷◌, ◌++◌, ◌==◌,
  if◌then◌else◌,
}
use ssync.Utf8.{Str}
use ssync.Frames.{bytes_eq}
use ssync.Receiver.{FilePath}

abbrev pub slash : ℕ
slash = 47

abbrev pub dot : Str
dot = 46 ∷ []

abbrev pub dot_dot : Str
dot_dot = 46 ∷ 46 ∷ []

abbrev pub push_char : ℕ → List Str → List Str
push_char c [] = (c ∷ []) ∷ []
push_char c (part ∷ parts) = (c ∷ part) ∷ parts

-- `s.split("/")`
pub split_slash : Str → List Str
split_slash [] = [] ∷ []
split_slash (c ∷ s) = if c == slash then [] ∷ split_slash s else push_char c (split_slash s)

-- `part not in ("", ".")`
abbrev pub is_plain : Str → Bool
is_plain part = not (bytes_eq part [] || bytes_eq part dot)

pub filter_plain : List Str → List Str
filter_plain [] = []
filter_plain (part ∷ parts) =
    let rest = filter_plain parts in if is_plain part then part ∷ rest else rest

abbrev pub is_absolute : Str → Bool
is_absolute [] = false
is_absolute (c ∷ s) = c == slash

-- `Path(file_name).parts` of a relative path
unfoldable pub parts_of : Str → List Str
unfolding split_slash filter_plain
parts_of file_name = filter_plain (split_slash file_name)

unfoldable pub has_dot_dot : List Str → Bool
has_dot_dot [] = false
has_dot_dot (part ∷ parts) = bytes_eq part dot_dot || has_dot_dot parts

abbrev pub no_parts : List Str → Bool
no_parts [] = true
no_parts (part ∷ parts) = false

unfoldable pub safe_destination_path : Str → Option FilePath
unfolding parts_of filter_plain has_dot_dot
safe_destination_path file_name =
    let filtered_parts = filter_plain (parts_of file_name) in
    if is_absolute file_name
    then none
    else if no_parts filtered_parts
    then none
    else if has_dot_dot filtered_parts
    then none
    else some filtered_parts

-- `"/".join(parts)`
pub join_from : Str → List Str → Str
join_from part [] = part
join_from part (next ∷ rest) = part ++ (slash ∷ join_from next rest)

-- `str(path)` of a relative path
unfoldable pub path_text : FilePath → Str
unfolding join_from
path_text [] = dot
path_text (part ∷ rest) = join_from part rest
