-- ===== src/Ranges/Quotient.antt =====
-- Lists of ranges up to what they cover, and the canonical lists.
use Prim.Native.Nat.{ℕ, suc}
use mathlib.Core.HLevel.{Σ_prop_path}
use mathlib.Core.Quot
use mathlib.Core.Quot.{Quot, Quot-set}
use native.Mathlib.Bridge.{le_prop}
use ssync.Prelude.{◌≡◌, List, [], ◌∷◌, All}
use ssync.Ranges.{Range, merge_ranges}
use ssync.Ranges.Cover.{covers, IsCanonicalFrom, IsCanonical}
use ssync.Ranges.Merge.{
  IsProper, covers-merge_ranges, merge_ranges-IsCanonical, merge_ranges_normal_form, canonical-All,
  merge_ranges_of_canonical,
}

abbrev pub ProperRanges : Type 0
ProperRanges = (rs : List Range) × All IsProper rs

abbrev pub CanonicalRanges : Type 0
CanonicalRanges = (rs : List Range) × IsCanonical rs

abbrev pub SameCover : ProperRanges → ProperRanges → Type 0
SameCover x y = (i : ℕ) → covers x.0 i ≡ covers y.0 i

-- A set of chunks: what a list covers, whatever its ranges are.
abbrev pub ChunkSet : Type 0
ChunkSet = Quot SameCover

canonical_prop : (lo : ℕ) (rs : List Range) → IsProp (IsCanonicalFrom lo rs)
canonical_prop lo [] = hlevel
canonical_prop lo (r ∷ rs) = hlevel (le_prop, canonical_prop (suc r.1) rs)

canonical_set : IsSet CanonicalRanges
canonical_set = hlevel (canonical_prop)

same : {c c' : CanonicalRanges} → c.0 ≡ c'.0 → c ≡ c'
same h = Σ_prop_path (λ rs. canonical_prop 0 rs) h

abbrev merged : ProperRanges → CanonicalRanges
merged x = (merge_ranges x.0, merge_ranges-IsCanonical x.0 x.1)

pub normal_form : ChunkSet → CanonicalRanges
normal_form =
    Quot.lift canonical_set merged (λ x y h. same ((merge_ranges_normal_form x.0 y.0 x.1 y.1).1 h))

abbrev pub chunk_set : CanonicalRanges → ChunkSet
chunk_set c = Quot.mk (c.0, canonical-All 0 c.0 c.1)

-- `merge_ranges` makes the sets of chunks and the canonical lists of ranges the same: a set is that of
-- its normal form, and a canonical list is the normal form of its set.
pub chunk_sets :
    ((x : ChunkSet) → chunk_set (normal_form x) ≡ x)
    × ((c : CanonicalRanges) → normal_form (chunk_set c) ≡ c)
unfolding normal_form
chunk_sets = (
  Quot.ind (λ x. Quot-set _ _) (λ x. Quot.sound (λ i. covers-merge_ranges x.0 i)),
  λ c. same (merge_ranges_of_canonical c.0 c.1),
)
