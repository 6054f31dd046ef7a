-- ===== src/Journal/Survivors.antt =====
-- What of a table of transfers a restart keeps.
use ssync.Prelude.{
  ℕ, ◌≡◌, refl, ap, inl, inr, Bool, false, none, some, List, [], ◌∷◌, arith, if◌then◌else◌,
  Bool-cases, length, All,
}
use ssync.Struct.{Bytes}
use ssync.Dict.{get_item, IsDict}
use ssync.Frames.{bytes_eq}
use ssync.Receiver.{FilePath, Transfer}
use ssync.Server.{StoredFile, path_eq}
use ssync.Journal.RoundTrip.{IsSound, reloaded}
use ssync.Journal.Signatures.{Transfers, in_rest}

-- The part file is there, with the size of the file.
pub record HasPart (files : List (FilePath × StoredFile)) (t : Transfer) : Type 0 where
  pub file : StoredFile
  pub there : get_item path_eq t.part_path files ≡ some file
  pub filled : length file.contents ≡ t.manifest.file_size

-- What the table holds under an id: a transfer of that id, which can be restored unless it is finalized.
pub record IsEntry (files : List (FilePath × StoredFile)) (e : Bytes × Transfer) : Type 0 where
  pub named : e.1.manifest.transfer_id ≡ e.0
  pub sound : e.1.finalized ≡ false → IsSound e.1
  pub part : e.1.finalized ≡ false → HasPart files e.1

abbrev pub contents_at : List (FilePath × StoredFile) → FilePath → Bytes
contents_at files path = elim (get_item path_eq path files) [
  | none ↦ []
  | some file ↦ file.contents
]

module _ (now : ℕ) (mapped : Bool) (files : List (FilePath × StoredFile)) where
  -- The transfers that are not finalized, in their order, each with the contents of its part file.
  unfoldable pub survivors : Transfers → Transfers
  unfolding reloaded
  survivors [] = []
  survivors ((id, t) ∷ rest) =
      let later = survivors rest in
      if t.finalized
      then later
      else (id, reloaded now mapped (contents_at files t.part_path) t) ∷ later

module _ (now : ℕ) (mapped : Bool) (files : List (FilePath × StoredFile)) where
  pub survivors-named :
      (transfers : Transfers)
      → All (IsEntry files) transfers
      → All (λ e. e.1.manifest.transfer_id ≡ e.0) (survivors now mapped files transfers)
  unfolding survivors reloaded
  survivors-named [] h = tt
  survivors-named ((id, t) ∷ rest) h = elim (Bool-cases t.finalized) [
    | inl e ↦ rw e (survivors-named rest h.1)
    | inr e ↦ rw e (h.0.named, survivors-named rest h.1)
  ]

  survivors-none :
      (transfers : Transfers) (j : Bytes)
      → get_item bytes_eq j transfers ≡ none
      → get_item bytes_eq j (survivors now mapped files transfers) ≡ none
  unfolding survivors get_item
  survivors-none [] j h = refl
  survivors-none ((id, t) ∷ rest) j h = ground (arith, survivors-none rest j)

  pub survivors-IsDict :
      (transfers : Transfers)
      → IsDict bytes_eq transfers
      → IsDict bytes_eq (survivors now mapped files transfers)
  unfolding survivors
  survivors-IsDict [] d = tt
  survivors-IsDict ((id, t) ∷ rest) d = elim (Bool-cases t.finalized) [
    | inl e ↦ rw e (survivors-IsDict rest d.1)
    | inr e ↦ rw e (survivors-none rest id d.0, survivors-IsDict rest d.1)
  ]

  -- A survivor has the manifest of a transfer of the table.
  pub survivors-cases :
      (transfers : Transfers) (j : Bytes) (w : Transfer)
      → IsDict bytes_eq transfers
      → get_item bytes_eq j (survivors now mapped files transfers) ≡ some w
      → (t : Transfer) × (get_item bytes_eq j transfers ≡ some t) × (t.manifest ≡ w.manifest)
  unfolding survivors get_item reloaded
  survivors-cases [] j w d e = absurd (cc)
  survivors-cases ((id, t) ∷ rest) j w d e = elim (Bool-cases t.finalized) [
    | inl f ↦
        let (x, at_j, same) = survivors-cases rest j w d.1 (rw f at e) in
        (x, in_rest id j t x rest d.0 at_j, same)
    | inr f ↦
        let head : get_item bytes_eq j (
              (id, reloaded now mapped (contents_at files t.part_path) t)
              ∷ survivors now mapped files rest)
            ≡ some w =
          rw f at e in
        elim (Bool-cases (bytes_eq id j)) [
          | inl h ↦ (
            t,
            rw h refl,
            ap (λ o. elim o [ none ↦ t.manifest | some u ↦ u.manifest ]) (rw h at head),
          )
          | inr h ↦
              let (x, at_j, same) = survivors-cases rest j w d.1 (rw h at head) in
              (x, in_rest id j t x rest d.0 at_j, same)
        ]
  ]
