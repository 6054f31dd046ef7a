-- ===== src/Dict/Laws.antt =====
-- What `get_item` sees after `set_item` and `pop_item`, for an equality that decides `≡`.
use ssync.Prelude.{
  ◌≡◌, refl, sym, ap, ◌∙◌, inl, inr, Bool, false, none, List, [], ◌∷◌, ◌++◌, arith, Bool-cases,
}
use mathlib.Core.List.{append_assoc, append-nil}
use ssync.Dict.{get_item, set_item, IsDict}

module _ {ℓ κ} {K : Type ℓ} {V : Type κ} (eq : K → K → Bool) where
  -- the entries of the first dictionary stored one by one in the second
  unfoldable pub fold_set : List (K × V) → List (K × V) → List (K × V)
  unfolding set_item
  fold_set [] d = d
  fold_set ((k, v) ∷ e) d = fold_set e (set_item eq k v d)

  pub set_item_fresh :
      (k : K) (v : V) (d : List (K × V))
      → get_item eq k d ≡ none
      → set_item eq k v d ≡ d ++ ((k, v) ∷ [])
  unfolding get_item set_item
  set_item_fresh k v [] h = refl
  set_item_fresh k v ((j, w) ∷ d) h = elim (Bool-cases (eq j k)) [
    | inl e ↦ ground arith
    | inr e ↦ rw e (ap (◌∷◌ (j, w)) (set_item_fresh k v d (ground arith)))
  ]

  get_item-append_none :
      (k j : K) (v : V) (d : List (K × V))
      → get_item eq k d ≡ none
      → eq j k ≡ false
      → get_item eq k (d ++ ((j, v) ∷ [])) ≡ none
  unfolding get_item
  get_item-append_none k j v [] h e = rw e
  get_item-append_none k j v ((i, w) ∷ d) h e = ground (arith, get_item-append_none k j v d)

  abbrev Fresh : List (K × V) → List (K × V) → Type κ
  Fresh d [] = Unit {κ}
  Fresh d ((k, v) ∷ e) = (get_item eq k d ≡ none) × Fresh d e

  module _ (eq_sym : (a b : K) → eq a b ≡ eq b a) where
    Fresh-append :
        (k : K) (v : V) (d e : List (K × V))
        → Fresh d e
        → get_item eq k e ≡ none
        → Fresh (d ++ ((k, v) ∷ [])) e
    unfolding get_item
    Fresh-append k v d [] f h = tt
    Fresh-append k v d ((j, w) ∷ e) f h =
        let apart : eq j k ≡ false = ground arith in
        (
          get_item-append_none j k v d f.0 (eq_sym k j ∙ apart),
          Fresh-append k v d e f.1 (ground arith),
        )

    fold_set-Fresh : (e d : List (K × V)) → IsDict eq e → Fresh d e → fold_set e d ≡ d ++ e
    unfolding fold_set
    fold_set-Fresh [] d i f = sym (append-nil d)
    fold_set-Fresh ((k, v) ∷ e) d i f = rw (set_item_fresh k v d f.0) (
        fold_set-Fresh e (d ++ ((k, v) ∷ [])) i.1 (Fresh-append k v d e f.1 i.0)
        ∙ append_assoc d ((k, v) ∷ []) e)

    Fresh-nil : (e : List (K × V)) → Fresh [] e
    unfolding get_item
    Fresh-nil [] = tt
    Fresh-nil ((k, v) ∷ e) = (refl, Fresh-nil e)

    -- A dictionary stored entry by entry in an empty one is rebuilt in its order.
    pub fold_set-IsDict : (e : List (K × V)) → IsDict eq e → fold_set e [] ≡ e
    fold_set-IsDict e i = fold_set-Fresh e [] i (Fresh-nil e)
