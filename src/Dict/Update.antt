-- ===== src/Dict/Update.antt =====
-- What `get_item` sees after each update, and that an update keeps the keys apart, for a test that
-- decides the equality of the keys.
use ssync.Prelude.{◌≡◌, refl, Bool, true, none, some, List, [], ◌∷◌, arith, if◌then◌else◌}
use ssync.Dict.{get_item, set_item, pop_item, update_item, IsDict}

-- A change at a key that is not there changes nothing.
-- What is not there is not there after a removal.
pub pop_item-none {ℓ κ} :
    {K : Type ℓ} {V : Type κ} (eq : K → K → Bool) (k j : K) (d : List (K × V))
    → get_item eq j d ≡ none
    → get_item eq j (pop_item eq k d) ≡ none
unfolding get_item pop_item
pop_item-none eq k j [] h = refl
pop_item-none eq k j ((i, w) ∷ d) h = ground (arith, pop_item-none eq k j d)

pub update_item_absent {ℓ κ} :
    {K : Type ℓ} {V : Type κ} (eq : K → K → Bool) (k : K) (f : V → V) (d : List (K × V))
    → get_item eq k d ≡ none
    → update_item eq k f d ≡ d
unfolding get_item update_item
update_item_absent eq k f [] h = refl
update_item_absent eq k f ((i, w) ∷ d) h = ground (arith, update_item_absent eq k f d)

module _ {ℓ κ} {K : Type ℓ} {V : Type κ} (eq : K → K → Bool)
    (eq_sound : (a b : K) → eq a b ≡ true → a ≡ b) (eq_refl : (a : K) → eq a a ≡ true) where
  pub get_item-set_item :
      (k j : K) (v : V) (d : List (K × V))
      → get_item eq j (set_item eq k v d) ≡ (if eq k j then some v else get_item eq j d)
  unfolding get_item set_item
  get_item-set_item k j v [] = refl
  get_item-set_item k j v ((i, w) ∷ d) = ground (
    arith,
    eq_sound i k,
    eq_sound i j,
    eq_sound k j,
    eq_refl i,
    eq_refl j,
    get_item-set_item k j v d,
  )

  pub get_item-update_item :
      (k j : K) (f : V → V) (d : List (K × V))
      → get_item eq j (update_item eq k f d) ≡ (
          if eq k j
          then elim (get_item eq j d) [ none ↦ none | some v ↦ some (f v) ]
          else get_item eq j d)
  unfolding get_item update_item
  get_item-update_item k j f [] = ground arith
  get_item-update_item k j f ((i, w) ∷ d) = ground (
    arith,
    eq_sound i k,
    eq_sound i j,
    eq_sound k j,
    eq_refl i,
    eq_refl j,
    get_item-update_item k j f d,
  )

  pub get_item-pop_item :
      (k j : K) (d : List (K × V))
      → IsDict eq d
      → get_item eq j (pop_item eq k d) ≡ (if eq k j then none else get_item eq j d)
  unfolding get_item pop_item
  get_item-pop_item k j [] h = ground arith
  get_item-pop_item k j ((i, w) ∷ d) h = ground (
    arith,
    eq_sound i k,
    eq_sound i j,
    eq_sound k j,
    eq_refl i,
    eq_refl j,
    h.0,
    get_item-pop_item k j d h.1,
  )

  pub pop_item-IsDict : (k : K) (d : List (K × V)) → IsDict eq d → IsDict eq (pop_item eq k d)
  unfolding get_item pop_item
  pop_item-IsDict k [] h = tt
  pop_item-IsDict k ((i, w) ∷ d) h =
      ground (arith, get_item-pop_item k i d h.1, pop_item-IsDict k d h.1)

  pub update_item-IsDict :
      (k : K) (f : V → V) (d : List (K × V)) → IsDict eq d → IsDict eq (update_item eq k f d)
  unfolding get_item update_item
  update_item-IsDict k f [] h = tt
  update_item-IsDict k f ((i, w) ∷ d) h =
      ground (arith, get_item-update_item k i f d, update_item-IsDict k f d h.1)

  pub set_item-IsDict :
      (k : K) (v : V) (d : List (K × V)) → IsDict eq d → IsDict eq (set_item eq k v d)
  unfolding get_item set_item
  set_item-IsDict k v [] h = (refl, tt)
  set_item-IsDict k v ((i, w) ∷ d) h =
      ground (arith, eq_sound k i, eq_refl k, get_item-set_item k i v d, set_item-IsDict k v d h.1)
