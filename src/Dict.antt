-- ===== src/Dict.antt =====
-- Python's `dict` as an association list in the order of insertion, over the equality of its keys.
pub mod Laws
pub mod Update
pub mod Cases
use ssync.Prelude.{◌≡◌, Bool, Option, none, some, List, [], ◌∷◌, if◌then◌else◌}

module _ {ℓ κ} {K : Type ℓ} {V : Type κ} (eq : K → K → Bool) where
  -- `d.get(k)`
  unfoldable pub get_item : K → List (K × V) → Option V
  get_item k [] = none
  get_item k ((j, v) ∷ d) = if eq j k then some v else get_item k d

  -- `d[k] = v`: a key that is there keeps its place.
  unfoldable pub set_item : K → V → List (K × V) → List (K × V)
  set_item k v [] = (k, v) ∷ []
  set_item k v ((j, w) ∷ d) = if eq j k then (j, v) ∷ d else (j, w) ∷ set_item k v d

  -- `d.pop(k, None)`, what is left
  unfoldable pub pop_item : K → List (K × V) → List (K × V)
  pop_item k [] = []
  pop_item k ((j, v) ∷ d) = if eq j k then d else (j, v) ∷ pop_item k d

  -- A change of the value object that `d[k]` refers to, where the key is there.
  unfoldable pub update_item : K → (V → V) → List (K × V) → List (K × V)
  update_item k f [] = []
  update_item k f ((j, v) ∷ d) = if eq j k then (j, f v) ∷ d else (j, v) ∷ update_item k f d

  -- No key twice.
  abbrev pub IsDict : List (K × V) → Type κ
  IsDict [] = Unit {κ}
  IsDict ((k, v) ∷ d) = (get_item k d ≡ none) × IsDict d
