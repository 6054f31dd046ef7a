-- ===== src/Server/Table/Changes.antt =====
-- The three ways in which the table of transfers and its index change: a transfer changes but for its
-- manifest, a new one is added, and one is removed.
use ssync.Prelude.{◌≡◌, sym, ap, ◌∙◌, inl, inr, false, none, some, List, Bool-cases}
use ssync.Struct.{Bytes}
use ssync.Dict.{get_item, set_item, pop_item}
use ssync.Dict.Cases.{set_same, set_other, set_cases, pop_other, pop_cases, differ}
use ssync.Dict.Update.{set_item-IsDict, pop_item-IsDict}
use ssync.Frames.{bytes_eq}
use ssync.Frames.Equal.{bytes_eq_refl, bytes_eq_sound}
use ssync.Receiver.{Transfer}
use ssync.Server.{Signature, manifest_signature, signature_eq}
use ssync.Server.Table.{signature_eq_refl, signature_eq_sound, signature_of, IsTable}

module _ (transfers : List (Bytes × Transfer)) (index : List (Signature × Bytes))
    (v : IsTable transfers index) (id : Bytes) where
  -- The transfer that the index leads to.
  abbrev Leads : List (Bytes × Transfer) → Signature → Bytes → Type 0
  Leads d g j = (t : Transfer) × (get_item bytes_eq j d ≡ some t) × (signature_of t ≡ g)

  changed_pointed :
      (t t' : Transfer)
      → get_item bytes_eq id transfers ≡ some t
      → t'.manifest ≡ t.manifest
      → (g : Signature) (j : Bytes) → get_item signature_eq g index ≡ some j
      → Leads (set_item bytes_eq id t' transfers) g j
  changed_pointed t t' e m g j f =
      let (w, at_j, signed) = v.pointed g j f in
      elim (Bool-cases (bytes_eq id j)) [
        | inl h ↦
            let k : id ≡ j = bytes_eq_sound id j h in
            let both : some t ≡ some w = sym e ∙ ap (λ x. get_item bytes_eq x transfers) k ∙ at_j in
            let same : t ≡ w = cc in
            (
              t',
              ap (λ x. get_item bytes_eq x (set_item bytes_eq id t' transfers)) (sym k)
                  ∙ set_same bytes_eq bytes_eq_sound bytes_eq_refl id t' transfers,
              ap manifest_signature m ∙ ap signature_of same ∙ signed,
            )
        | inr h ↦
            (w, set_other bytes_eq bytes_eq_sound bytes_eq_refl id j t' transfers h ∙ at_j, signed)
      ]

  added_indexed :
      (t : Transfer)
      → get_item signature_eq (signature_of t) index ≡ none
      → (j : Bytes) (w : Transfer) → get_item bytes_eq j (set_item bytes_eq id t transfers) ≡ some w
      → get_item signature_eq (signature_of w) (set_item signature_eq (signature_of t) id index)
        ≡ some j
  added_indexed t f j w g =
      let index' = set_item signature_eq (signature_of t) id index in
      elim (set_cases bytes_eq bytes_eq_sound bytes_eq_refl id j t w transfers g) [
        | inl (k, same) ↦
            ap (λ u. get_item signature_eq (signature_of u) index') (sym same)
            ∙ set_same signature_eq signature_eq_sound signature_eq_refl (signature_of t) id index
            ∙ ap some k
        | inr (k, old) ↦
            let there = v.indexed j w old in
            let other : signature_eq (signature_of t) (signature_of w) ≡ false =
              differ signature_eq signature_eq_sound (signature_of t) (signature_of w) λ h.
                let clash : none ≡ some j =
                  sym f ∙ ap (λ x. get_item signature_eq x index) h ∙ there in
                absurd (cc) in
            set_other signature_eq signature_eq_sound signature_eq_refl (signature_of t)
              (signature_of w) id index other
            ∙ there
      ]

  added_pointed :
      (t : Transfer)
      → get_item bytes_eq id transfers ≡ none
      → (g : Signature) (j : Bytes)
      → get_item signature_eq g (set_item signature_eq (signature_of t) id index) ≡ some j
      → Leads (set_item bytes_eq id t transfers) g j
  added_pointed t e g j h =
      elim (set_cases signature_eq signature_eq_sound signature_eq_refl (signature_of t) g id j
        index h) [
          | inl (k, same) ↦ (
            t,
            ap (λ x. get_item bytes_eq x (set_item bytes_eq id t transfers)) (sym same)
                ∙ set_same bytes_eq bytes_eq_sound bytes_eq_refl id t transfers,
            k,
          )
          | inr (k, old) ↦
              let (w, at_j, signed) = v.pointed g j old in
              let other : bytes_eq id j ≡ false = differ bytes_eq bytes_eq_sound id j λ r.
                let clash : none ≡ some w =
                  sym e ∙ ap (λ x. get_item bytes_eq x transfers) r ∙ at_j in
                absurd (cc) in
              (
                w,
                set_other bytes_eq bytes_eq_sound bytes_eq_refl id j t transfers other ∙ at_j,
                signed,
              )
        ]

  -- A transfer that is there changes, but not its manifest.
  pub change-IsTable :
      (t t' : Transfer)
      → get_item bytes_eq id transfers ≡ some t
      → t'.manifest ≡ t.manifest
      → IsTable (set_item bytes_eq id t' transfers) index
  change-IsTable t t' e m = record {
    keys = set_item-IsDict bytes_eq bytes_eq_sound bytes_eq_refl id t' transfers v.keys;
    signatures = v.signatures;
    named = λ j w f. elim (set_cases bytes_eq bytes_eq_sound bytes_eq_refl id j t' w transfers f) [
      | inl (k, same) ↦
          ap (λ u. u.manifest.transfer_id) (sym same)
          ∙ ap (λ u. u.transfer_id) m
          ∙ v.named id t e
          ∙ k
      | inr (k, old) ↦ v.named j w old
    ];
    indexed = λ j w f.
        elim (set_cases bytes_eq bytes_eq_sound bytes_eq_refl id j t' w transfers f) [
          | inl (k, same) ↦
              ap (λ u. get_item signature_eq (signature_of u) index) (sym same)
              ∙ ap (λ u. get_item signature_eq (manifest_signature u) index) m
              ∙ v.indexed id t e
              ∙ ap some k
          | inr (k, old) ↦ v.indexed j w old
        ];
    pointed = λ g j f. changed_pointed t t' e m g j f;
  }

  -- A transfer with a new id and a new signature is added.
  pub add-IsTable :
      (t : Transfer)
      → t.manifest.transfer_id ≡ id
      → get_item bytes_eq id transfers ≡ none
      → get_item signature_eq (signature_of t) index ≡ none
      → IsTable (set_item bytes_eq id t transfers) (set_item signature_eq (signature_of t) id index)
  add-IsTable t m e f = record {
    keys = set_item-IsDict bytes_eq bytes_eq_sound bytes_eq_refl id t transfers v.keys;
    signatures =
        set_item-IsDict signature_eq signature_eq_sound signature_eq_refl (signature_of t) id index
          v.signatures;
    named = λ j w g. elim (set_cases bytes_eq bytes_eq_sound bytes_eq_refl id j t w transfers g) [
      | inl (k, same) ↦ ap (λ u. u.manifest.transfer_id) (sym same) ∙ m ∙ k
      | inr (k, old) ↦ v.named j w old
    ];
    indexed = λ j w g. added_indexed t f j w g;
    pointed = λ g j h. added_pointed t e g j h;
  }

  removed_indexed :
      (t : Transfer)
      → get_item bytes_eq id transfers ≡ some t
      → (j : Bytes) (w : Transfer) → get_item bytes_eq j (pop_item bytes_eq id transfers) ≡ some w
      → get_item signature_eq (signature_of w) (pop_item signature_eq (signature_of t) index)
        ≡ some j
  removed_indexed t e j w g =
      let (apart, old) =
        pop_cases bytes_eq bytes_eq_sound bytes_eq_refl id j w transfers v.keys g in
      let there = v.indexed j w old in
      let other : signature_eq (signature_of t) (signature_of w) ≡ false =
        differ signature_eq signature_eq_sound (signature_of t) (signature_of w) λ h.
          let both : some id ≡ some j =
            sym (v.indexed id t e) ∙ ap (λ x. get_item signature_eq x index) h ∙ there in
          let same : id ≡ j = cc in sym (ap (bytes_eq id) (sym same) ∙ bytes_eq_refl id) ∙ apart in
      pop_other signature_eq signature_eq_sound signature_eq_refl (signature_of t) (signature_of w)
        index v.signatures other
      ∙ there

  removed_pointed :
      (t : Transfer)
      → get_item bytes_eq id transfers ≡ some t
      → (g : Signature) (j : Bytes)
      → get_item signature_eq g (pop_item signature_eq (signature_of t) index) ≡ some j
      → Leads (pop_item bytes_eq id transfers) g j
  removed_pointed t e g j h =
      let (apart, old) =
        pop_cases signature_eq signature_eq_sound signature_eq_refl (signature_of t) g j index
          v.signatures h in
      let (w, at_j, signed) = v.pointed g j old in
      let other : bytes_eq id j ≡ false = differ bytes_eq bytes_eq_sound id j λ r.
        let both : some t ≡ some w = sym e ∙ ap (λ x. get_item bytes_eq x transfers) r ∙ at_j in
        let same : t ≡ w = cc in
        sym (
          ap (signature_eq (signature_of t)) (sym (ap signature_of same ∙ signed))
          ∙ signature_eq_refl (signature_of t))
        ∙ apart in
      (
        w,
        pop_other bytes_eq bytes_eq_sound bytes_eq_refl id j transfers v.keys other ∙ at_j,
        signed,
      )

  -- A transfer is removed with its signature.
  pub remove-IsTable :
      (t : Transfer)
      → get_item bytes_eq id transfers ≡ some t
      → IsTable (pop_item bytes_eq id transfers) (pop_item signature_eq (signature_of t) index)
  remove-IsTable t e = record {
    keys = pop_item-IsDict bytes_eq bytes_eq_sound bytes_eq_refl id transfers v.keys;
    signatures =
        pop_item-IsDict signature_eq signature_eq_sound signature_eq_refl (signature_of t) index
          v.signatures;
    named = λ j w g.
        v.named j w (pop_cases bytes_eq bytes_eq_sound bytes_eq_refl id j w transfers v.keys g).1;
    indexed = λ j w g. removed_indexed t e j w g;
    pointed = λ g j h. removed_pointed t e g j h;
  }
