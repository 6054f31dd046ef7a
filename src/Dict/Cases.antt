-- ===== src/Dict/Cases.antt =====
-- An entry of a changed dictionary: which it is, and where it comes from.
use ssync.Prelude.{
  ◌≡◌, sym, ap, ◌∙◌, ◌⊎◌, inl, inr, Bool, true, false, none, some, List, if◌then◌else◌, Bool-cases,
}
use ssync.Dict.{get_item, set_item, pop_item, IsDict}
use ssync.Dict.Update.{get_item-set_item, get_item-pop_item}

module _ {ℓ κ} {K : Type ℓ} {V : Type κ} (eq : K → K → Bool)
    (eq_sound : (a b : K) → eq a b ≡ true → a ≡ b) (eq_refl : (a : K) → eq a a ≡ true) where
  pub set_same : (k : K) (v : V) (d : List (K × V)) → get_item eq k (set_item eq k v d) ≡ some v
  set_same k v d =
      get_item-set_item eq eq_sound eq_refl k k v d
      ∙ ap (λ b. if b then some v else get_item eq k d) (eq_refl k)

  pub set_other :
      (k j : K) (v : V) (d : List (K × V))
      → eq k j ≡ false
      → get_item eq j (set_item eq k v d) ≡ get_item eq j d
  set_other k j v d e =
      get_item-set_item eq eq_sound eq_refl k j v d
      ∙ ap (λ b. if b then some v else get_item eq j d) e

  pub set_cases :
      (k j : K) (v w : V) (d : List (K × V))
      → get_item eq j (set_item eq k v d) ≡ some w
      → ((k ≡ j) × (v ≡ w)) ⊎ ((eq k j ≡ false) × (get_item eq j d ≡ some w))
  set_cases k j v w d e = elim (Bool-cases (eq k j)) [
    | inl h ↦
        let same : some v ≡ some w =
          sym (ap (λ b. if b then some v else get_item eq j d) h)
          ∙ sym (get_item-set_item eq eq_sound eq_refl k j v d)
          ∙ e in
        inl (eq_sound k j h, cc)
    | inr h ↦ inr (h, sym (set_other k j v d h) ∙ e)
  ]

  pub pop_other :
      (k j : K) (d : List (K × V))
      → IsDict eq d
      → eq k j ≡ false
      → get_item eq j (pop_item eq k d) ≡ get_item eq j d
  pop_other k j d u e =
      get_item-pop_item eq eq_sound eq_refl k j d u
      ∙ ap (λ b. if b then none else get_item eq j d) e

  pub pop_cases :
      (k j : K) (w : V) (d : List (K × V))
      → IsDict eq d
      → get_item eq j (pop_item eq k d) ≡ some w
      → (eq k j ≡ false) × (get_item eq j d ≡ some w)
  pop_cases k j w d u e = elim (Bool-cases (eq k j)) [
    | inl h ↦
        let clash : none ≡ some w =
          sym (ap (λ b. if b then none else get_item eq j d) h)
          ∙ sym (get_item-pop_item eq eq_sound eq_refl k j d u)
          ∙ e in
        absurd (cc)
    | inr h ↦ (h, sym (pop_other k j d u h) ∙ e)
  ]

pub differ {ℓ} :
    {K : Type ℓ} (eq : K → K → Bool) (eq_sound : (a b : K) → eq a b ≡ true → a ≡ b) (k j : K)
    → (k ≡ j → true ≡ false)
    → eq k j ≡ false
differ eq eq_sound k j h = elim (Bool-cases (eq k j)) [ inl e ↦ e ∙ h (eq_sound k j e) | inr e ↦ e ]

-- An equality that decides `≡` is symmetric.
pub symmetric {ℓ} :
    {K : Type ℓ} (eq : K → K → Bool)
    → ((a b : K) → eq a b ≡ true → a ≡ b)
    → ((a : K) → eq a a ≡ true)
    → (a b : K) → eq a b ≡ eq b a
symmetric eq eq_sound eq_refl a b = elim (Bool-cases (eq a b)) [
  | inl e ↦ e ∙ sym (ap (eq b) (eq_sound a b e) ∙ eq_refl b)
  | inr e ↦ e ∙ sym (differ eq eq_sound b a λ h. sym (ap (eq a) h ∙ eq_refl a) ∙ e)
]
