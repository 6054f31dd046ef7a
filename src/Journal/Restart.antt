-- ===== src/Journal/Restart.antt =====
-- A receiver that is started again goes on with the transfers of its journal.
use ssync.Prelude.{
  ℕ, ◌≡◌, refl, sym, ap, ◌∙◌, inl, inr, Bool, false, Option, none, some, List, [], ◌∷◌, Bool-cases,
  All,
}
use ssync.Result.{ok}
use ssync.Struct.{Bytes}
use ssync.Utf8.{Str}
use ssync.Dict.{get_item, set_item}
use ssync.Dict.Laws.{fold_set, fold_set-IsDict}
use ssync.Frames.{bytes_eq}
use ssync.Frames.Equal.{bytes_eq_refl, bytes_eq_sound}
use ssync.Dict.Cases.{symmetric}
use ssync.Receiver.{FilePath, Transfer, mark_journal_dirty, flush_journal}
use ssync.Server.{Signature, StoredFile, Server, manifest_signature, signature_eq}
use ssync.Server.Table.{signature_eq_refl, signature_eq_sound, signature_of, IsTable}
use ssync.Server.Consistency.{IsConsistent}
use ssync.Journal.{codes, Json, get_field}
use ssync.Journal.Save.{transfer_record, transfer_records, save_journal}
use ssync.Journal.Restore.{restore_transfer, put_restored, load_items, load_journal, flushed}
use ssync.Journal.RoundTrip.{reloaded, restore_transfer-record}
use ssync.Journal.Signatures.{Transfers, signatures, signatures-IsTable}
use ssync.Journal.Survivors.{
  IsEntry, contents_at, survivors, survivors-named, survivors-IsDict, survivors-cases,
}

rebuild : Transfers → Server → Server
rebuild [] s = s
rebuild ((id, t) ∷ rest) s = rebuild rest (put_restored t s)

module _ (show : Json → Str) (float_of_str : Str → Option ℕ) (now : ℕ) (mapped : Bool)
    (files : List (FilePath × StoredFile)) where
  restored_entry :
      (id : Bytes) (t : Transfer)
      → IsEntry files (id, t)
      → t.finalized ≡ false
      → restore_transfer show float_of_str now mapped files (transfer_record id t)
        ≡ ok (some (reloaded now mapped (contents_at files t.part_path) t))
  restored_entry id t e running =
      let p = e.part running in
      ap (λ x. restore_transfer show float_of_str now mapped files (transfer_record x t))
        (sym e.named)
      ∙ restore_transfer-record show float_of_str t (e.sound running) now mapped files p.file
          p.there p.filled
      ∙ ap
          (λ o.
            ok (some (reloaded now mapped (elim o [ none ↦ [] | some file ↦ file.contents ]) t)))
          (sym p.there)

  load-records :
      (transfers : Transfers) (s : Server)
      → All (IsEntry files) transfers
      → load_items show float_of_str now mapped files (transfer_records transfers) s
        ≡ ok (rebuild (survivors now mapped files transfers) s)
  unfolding load_items transfer_records survivors rebuild
  load-records [] s h = refl
  load-records ((id, t) ∷ rest) s h = elim (Bool-cases t.finalized) [
    | inl e ↦ rw e (load-records rest s h.1)
    | inr e ↦ rw e (rw (restored_entry id t h.0 e, load_items) (load-records rest _ h.1))
  ]

-- The loop stores the transfers and their signatures one by one.
rebuild-folds :
    (l : Transfers) (s : Server)
    → All (λ e. e.1.manifest.transfer_id ≡ e.0) l
    → ((rebuild l s).transfers ≡ fold_set bytes_eq l s.transfers)
      × ((rebuild l s).transfer_ids_by_signature
          ≡ fold_set signature_eq (signatures l) s.transfer_ids_by_signature)
unfolding rebuild fold_set signatures
rebuild-folds [] s h = (refl, refl)
rebuild-folds ((id, t) ∷ l) s h =
    let (first, second) = rebuild-folds l (put_restored t s) h.1 in
    (
      first ∙ ap (λ x. fold_set bytes_eq l (set_item bytes_eq x t s.transfers)) h.0,
      second
          ∙ ap
              (λ x.
                fold_set signature_eq (signatures l)
                  (set_item signature_eq (signature_of t) x s.transfer_ids_by_signature))
              h.0,
    )

module _ (show : Json → Str) (float_of_str : Str → Option ℕ) (now : ℕ) (mapped : Bool)
    (transfers : Transfers) (index : List (Signature × Bytes)) (s : Server)
    (v : IsTable transfers index) (h : All (IsEntry s.files) transfers)
    (no_transfers : s.transfers ≡ []) (no_index : s.transfer_ids_by_signature ≡ []) where
  abbrev kept : Transfers
  kept = survivors now mapped s.files transfers

  kept-IsTable : IsTable kept (signatures kept)
  kept-IsTable =
      signatures-IsTable index kept (survivors-IsDict now mapped s.files transfers v.keys)
        (λ j w e.
          let (t, at_j, same) = survivors-cases now mapped s.files transfers j w v.keys e in
          ap (λ m. get_item signature_eq (manifest_signature m) index) (sym same)
          ∙ v.indexed j t at_j)
        (λ j w e.
          let (t, at_j, same) = survivors-cases now mapped s.files transfers j w v.keys e in
          ap (λ m. m.transfer_id) (sym same) ∙ v.named j t at_j)

  -- A receiver that starts with an empty table, on the journal that was saved of a consistent table,
  -- comes to a consistent table of exactly the transfers that were not finalized, in their order, each
  -- with its manifest, its tracker, its indexes and the contents of its part file. What is asked of the
  -- table is that the ids, the paths, the hashes and the trackers of these transfers are sound, and that
  -- their part files are there with the size of the file.
  pub load-save :
      (s' : Server) × (load_journal show float_of_str now mapped (some (save_journal transfers)) s
        ≡ ok (s', mark_journal_dirty ∷ flush_journal ∷ []))
      × (s'.transfers ≡ survivors now mapped s.files transfers)
      × IsConsistent s'
  unfolding load_journal save_journal codes get_field
  load-save =
      let (table, listed) = rebuild-folds kept s (survivors-named now mapped s.files transfers h) in
      let same : (rebuild kept s).transfers ≡ kept =
        table
        ∙ ap (fold_set bytes_eq kept) no_transfers
        ∙ fold_set-IsDict bytes_eq (symmetric bytes_eq bytes_eq_sound bytes_eq_refl) kept
            kept-IsTable.keys in
      let same_index : (rebuild kept s).transfer_ids_by_signature ≡ signatures kept =
        listed
        ∙ ap (fold_set signature_eq (signatures kept)) no_index
        ∙ fold_set-IsDict signature_eq (symmetric signature_eq signature_eq_sound signature_eq_refl)
            (signatures kept) kept-IsTable.signatures in
      (
        rebuild kept s,
        ap flushed (load-records show float_of_str now mapped s.files transfers s h),
        same,
        rw (same, same_index) kept-IsTable,
      )
