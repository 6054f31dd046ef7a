-- ===== src/Journal/Signatures.antt =====
-- The index by signature of a table, listed from the table.
use ssync.Prelude.{
  ◌≡◌, refl, sym, ap, ◌∙◌, inl, inr, none, some, List, [], ◌∷◌, arith, Bool-cases, Option-cases,
}
use mathlib.Core.Path.{subst}
use ssync.Struct.{Bytes}
use ssync.Dict.{get_item, IsDict}
use ssync.Frames.{bytes_eq}
use ssync.Frames.Equal.{bytes_eq_refl, bytes_eq_sound}
use ssync.Receiver.{Transfer}
use ssync.Server.{Signature, signature_eq}
use ssync.Server.Table.{signature_eq_refl, signature_eq_sound, signature_of, IsTable}

abbrev pub Transfers : Type 0
Transfers = List (Bytes × Transfer)

unfoldable pub signatures : Transfers → List (Signature × Bytes)
signatures [] = []
signatures ((id, t) ∷ rest) = (signature_of t, id) ∷ signatures rest

-- A key that is not in the rest.
pub in_rest :
    (id j : Bytes) (t w : Transfer) (rest : Transfers)
    → get_item bytes_eq id rest ≡ none
    → get_item bytes_eq j rest ≡ some w
    → get_item bytes_eq j ((id, t) ∷ rest) ≡ some w
unfolding get_item
in_rest id j t w rest fresh e = elim (Bool-cases (bytes_eq id j)) [
  | inl h ↦
      let clash : none ≡ some w =
        sym fresh ∙ ap (λ x. get_item bytes_eq x rest) (bytes_eq_sound id j h) ∙ e in
      absurd (cc)
  | inr h ↦ rw h e
]

pointed_in :
    (transfers : Transfers) (g : Signature) (j : Bytes)
    → IsDict bytes_eq transfers
    → get_item signature_eq g (signatures transfers) ≡ some j
    → (w : Transfer) × (get_item bytes_eq j transfers ≡ some w) × (signature_of w ≡ g)
unfolding get_item signatures
pointed_in [] g j d e = absurd (cc)
pointed_in ((id, t) ∷ rest) g j d e = elim (Bool-cases (signature_eq (signature_of t) g)) [
  | inl h ↦
      let same : id ≡ j = ground arith in
      (
        t,
        subst (λ x. get_item bytes_eq x ((id, t) ∷ rest) ≡ some t) same
            (rw (bytes_eq_refl id) refl),
        signature_eq_sound (signature_of t) g h,
      )
  | inr h ↦
      let (w, at_j, signed) = pointed_in rest g j d.1 (ground arith) in
      (w, in_rest id j t w rest d.0 at_j, signed)
]

indexed_in :
    (transfers : Transfers) (j : Bytes) (w : Transfer)
    → IsDict signature_eq (signatures transfers)
    → get_item bytes_eq j transfers ≡ some w
    → get_item signature_eq (signature_of w) (signatures transfers) ≡ some j
unfolding get_item signatures
indexed_in [] j w d e = absurd (cc)
indexed_in ((id, t) ∷ rest) j w d e = elim (Bool-cases (bytes_eq id j)) [
  | inl h ↦
      let same : t ≡ w = ground arith in
      rw (← same) (rw (signature_eq_refl (signature_of t)) (ap some (bytes_eq_sound id j h)))
  | inr h ↦
      let there = indexed_in rest j w d.1 (ground arith) in
      elim (Bool-cases (signature_eq (signature_of t) (signature_of w))) [
        | inl k ↦
            let clash : none ≡ some j =
              sym d.0
              ∙ ap (λ g. get_item signature_eq g (signatures rest))
                  (signature_eq_sound (signature_of t) (signature_of w) k)
              ∙ there in
            absurd (cc)
        | inr k ↦ rw k there
      ]
]

-- Transfers of different ids have different signatures, as some index tells.
abbrev pub AreIndexed : List (Signature × Bytes) → Transfers → Type 0
AreIndexed index transfers =
    (j : Bytes) (w : Transfer)
    → get_item bytes_eq j transfers ≡ some w
    → get_item signature_eq (signature_of w) index ≡ some j

signatures-IsDict :
    (index : List (Signature × Bytes)) (transfers : Transfers)
    → IsDict bytes_eq transfers
    → AreIndexed index transfers
    → IsDict signature_eq (signatures transfers)
unfolding get_item signatures
signatures-IsDict index [] d f = tt
signatures-IsDict index ((id, t) ∷ rest) d f = (
  elim (Option-cases (get_item signature_eq (signature_of t) (signatures rest))) [
    | inl e ↦ e
    | inr (j, e) ↦
        let (w, at_j, signed) = pointed_in rest (signature_of t) j d.1 e in
        let both : some id ≡ some j =
          sym (f id t (rw (bytes_eq_refl id) refl))
          ∙ ap (λ g. get_item signature_eq g index) (sym signed)
          ∙ f j w (in_rest id j t w rest d.0 at_j) in
        let same : j ≡ id = cc in
        let clash : none ≡ some w =
          sym d.0 ∙ ap (λ x. get_item bytes_eq x rest) (sym same) ∙ at_j in
        absurd (cc)
  ],
  signatures-IsDict index rest d.1 (λ j w e. f j w (in_rest id j t w rest d.0 e)),
)

-- A table with its index is consistent if no two of its transfers have the same signature.
pub signatures-IsTable :
    (index : List (Signature × Bytes)) (transfers : Transfers)
    → IsDict bytes_eq transfers
    → AreIndexed index transfers
    → ((id : Bytes) (t : Transfer)
        → get_item bytes_eq id transfers ≡ some t
        → t.manifest.transfer_id ≡ id)
    → IsTable transfers (signatures transfers)
signatures-IsTable index transfers d f n =
    let s = signatures-IsDict index transfers d f in
    record {
      keys = d;
      signatures = s;
      named = n;
      indexed = λ id t e. indexed_in transfers id t s e;
      pointed = λ g id e. pointed_in transfers g id d e;
    }
