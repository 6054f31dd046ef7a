-- ===== src/Server/Opened.antt =====
-- METADATA keep the table of transfers and its index consistent.
use ssync.Prelude.{
  ℕ, ◌≡◌, refl, sym, ap, ◌∙◌, inl, inr, Bool, true, false, not, Option, none, some, List, [], ◌==◌,
  if◌then◌else◌, Bool-cases, Option-cases,
}
use mathlib.Core.Path.{subst}
use ssync.Struct.{Bytes}
use ssync.Dict.{get_item, pop_item}
use ssync.Dict.Update.{get_item-pop_item}
use ssync.Types.{TransferManifest}
use ssync.Ranges.{Range}
use ssync.Frames.{bytes_eq}
use ssync.Frames.Equal.{bytes_eq_refl, bytes_eq_sound}
use ssync.Receiver.{FilePath, Addr, Transfer, Effect, queue_finalization, created_transfer}
use ssync.PreMetadata.{has_none}
use ssync.Paths.{safe_destination_path}
use ssync.Server.{
  ReceiverConfig, Server, manifest_signature, signature_eq, find_transfer_by_manifest,
  forget_signature, remove_transfer,
}
use ssync.Server.Completed.{HashCache, is_matching_completed_file}
use ssync.Server.Prepare.{
  refresh_transfer, resume_transfer, map_fails, put_created, add_transfer, queue_at, open_transfer,
  prepare_found, prepare_checked, prepare_transfer,
}
use ssync.Server.Table.{signature_eq_refl, signature_eq_sound, signature_of}
use ssync.Server.Table.Changes.{change-IsTable, add-IsTable, remove-IsTable}
use ssync.Server.Consistency.{IsConsistent, put-IsConsistent, manifest-queue, replay-IsConsistent}

pub kept_if :
    (b : Bool) (x y : Server × List Effect)
    → (b ≡ true → IsConsistent x.0)
    → (b ≡ false → IsConsistent y.0)
    → IsConsistent (if b then x else y).0
kept_if true x y h k = h refl
kept_if false x y h k = k refl

module _ (config : ReceiverConfig) (now : ℕ) (m : TransferManifest) (addr : Addr) where
  refresh-IsConsistent :
      (existing : Transfer) (s : Server)
      → IsConsistent s
      → get_item bytes_eq m.transfer_id s.transfers ≡ some existing
      → IsConsistent (refresh_transfer config now m addr existing s).0
  unfolding refresh_transfer
  refresh-IsConsistent existing s v e =
      kept_if (not (signature_eq (manifest_signature existing.manifest) (manifest_signature m)))
        (s, []) (_, _) (λ _. v) λ _. change-IsTable s.transfers _ v m.transfer_id existing _ e refl

  removed_lem :
      (id : Bytes) (t : Transfer) (s : Server)
      → IsConsistent s
      → get_item bytes_eq id s.transfers ≡ some t
      → remove_transfer id s ≡ record s {
        transfers = pop_item bytes_eq id s.transfers;
        transfer_ids_by_signature =
            pop_item signature_eq (signature_of t) s.transfer_ids_by_signature;
      }
  unfolding remove_transfer
  removed_lem id t s v e =
      rw (e, remove_transfer) (rw (v.indexed id t e, forget_signature) (rw (bytes_eq_refl id) refl))

  resume-IsConsistent :
      (previous_id : Bytes) (t : Transfer) (s : Server)
      → IsConsistent s
      → get_item bytes_eq m.transfer_id s.transfers ≡ none
      → get_item bytes_eq previous_id s.transfers ≡ some t
      → signature_of t ≡ manifest_signature m
      → IsConsistent (resume_transfer config now m addr previous_id t s).0
  unfolding resume_transfer
  resume-IsConsistent previous_id t s v fresh e signed =
      let apart : bytes_eq previous_id m.transfer_id ≡ false =
        elim (Bool-cases (bytes_eq previous_id m.transfer_id)) [
          | inl h ↦
              let clash : none ≡ some t =
                sym fresh
                ∙ ap (λ x. get_item bytes_eq x s.transfers)
                    (sym (bytes_eq_sound previous_id m.transfer_id h))
                ∙ e in
              absurd (cc)
          | inr h ↦ h
        ] in
      let removed = remove-IsTable s.transfers s.transfer_ids_by_signature v previous_id t e in
      let no_id =
        get_item-pop_item bytes_eq bytes_eq_sound bytes_eq_refl previous_id m.transfer_id
          s.transfers v.keys
        ∙ ap (λ b. if b then none else get_item bytes_eq m.transfer_id s.transfers) apart
        ∙ fresh in
      let no_signature =
        get_item-pop_item signature_eq signature_eq_sound signature_eq_refl (signature_of t)
          (manifest_signature m) s.transfer_ids_by_signature v.signatures
        ∙ ap
            (λ b.
              if b
              then none
              else get_item signature_eq (manifest_signature m) s.transfer_ids_by_signature)
            (ap (λ g. signature_eq g (manifest_signature m)) signed
              ∙ signature_eq_refl (manifest_signature m)) in
      rw (apart, resume_transfer)
        (rw (removed_lem previous_id t s v e) (
          add-IsTable (pop_item bytes_eq previous_id s.transfers)
            (pop_item signature_eq (signature_of t) s.transfer_ids_by_signature) removed
            m.transfer_id _ refl no_id no_signature))

  add-IsConsistent :
      (mapped : Bool) (path : FilePath) (s : Server)
      → IsConsistent s
      → get_item bytes_eq m.transfer_id s.transfers ≡ none
      → get_item signature_eq (manifest_signature m) s.transfer_ids_by_signature ≡ none
      → IsConsistent (add_transfer now mapped m path addr s).0
  unfolding add_transfer put_created created_transfer
  add-IsConsistent mapped path s v e f =
      add-IsTable s.transfers s.transfer_ids_by_signature v m.transfer_id _ refl e f

  put_created-IsConsistent :
      (path : FilePath) (s : Server)
      → IsConsistent s
      → get_item bytes_eq m.transfer_id s.transfers ≡ none
      → get_item signature_eq (manifest_signature m) s.transfer_ids_by_signature ≡ none
      → IsConsistent (put_created now false m path addr s)
  unfolding put_created created_transfer
  put_created-IsConsistent path s v e f =
      add-IsTable s.transfers s.transfer_ids_by_signature v m.transfer_id _ refl e f

  queue-IsConsistent :
      (missing : List Range) (id : Bytes) (s : Server)
      → IsConsistent s
      → IsConsistent (queue_at now id missing s).0
  queue-IsConsistent missing id s v = elim (Option-cases (get_item bytes_eq id s.transfers)) [
    | inl e ↦ rw (e, queue_at) v
    | inr (t, e) ↦
        rw (e, queue_at)
          (put-IsConsistent id t (queue_finalization now missing t) s v e
            (manifest-queue now missing t))
  ]

  open-IsConsistent :
      (sent mapped : Bool) (path : FilePath) (s : Server)
      → IsConsistent s
      → get_item bytes_eq m.transfer_id s.transfers ≡ none
      → get_item signature_eq (manifest_signature m) s.transfer_ids_by_signature ≡ none
      → IsConsistent (open_transfer config now sent mapped m path addr s).0
  unfolding open_transfer
  open-IsConsistent sent mapped path s v e f =
      let added = add_transfer now mapped m path addr s in
      let w = add-IsConsistent mapped path s v e f in
      kept_if (map_fails mapped m s) (_, _) _ (λ _. put_created-IsConsistent path s v e f)
        λ _.
          kept_if (m.total_chunks == 0) (_, _) _
            (λ _. queue-IsConsistent [] m.transfer_id added.0 w)
            λ _.
              kept_if (has_none added.1) (_, _) (_, _) (λ _. w)
                λ _. replay-IsConsistent config now sent m.transfer_id added.1 added.0 w

-- A search for the signature changes nothing, and finds what the index leads to.
data Search (m : TransferManifest) (s : Server) (r : Server × Option (Bytes × Transfer))
    : Type 0 where
  absent :
      r ≡ (s, none)
      → get_item signature_eq (manifest_signature m) s.transfer_ids_by_signature ≡ none
      → Search m s r
  present :
      (id : Bytes) (t : Transfer)
      → r ≡ (s, some (id, t))
      → get_item bytes_eq id s.transfers ≡ some t
      → signature_of t ≡ manifest_signature m
      → Search m s r

find-Search :
    (m : TransferManifest) (s : Server)
    → IsConsistent s
    → Search m s (find_transfer_by_manifest m s)
unfolding find_transfer_by_manifest
find-Search m s v =
    elim (Option-cases (get_item signature_eq (manifest_signature m) s.transfer_ids_by_signature)) [
      | inl e ↦ absent (rw (e, find_transfer_by_manifest) refl) e
      | inr (id, e) ↦
          let (t, found, signed) = v.pointed (manifest_signature m) id e in
          present id t (rw (e, find_transfer_by_manifest) (rw found refl)) found signed
    ]

module _ (config : ReceiverConfig) (now : ℕ) (sent mapped : Bool) (m : TransferManifest)
    (path : FilePath) (addr : Addr) where
  searched-IsConsistent :
      (s : Server) (r : Server × Option (Bytes × Transfer))
      → IsConsistent s
      → get_item bytes_eq m.transfer_id s.transfers ≡ none
      → Search m s r
      → IsConsistent (prepare_found config now sent mapped m path addr s r).0
  unfolding prepare_found
  searched-IsConsistent s r v e (absent f g) =
      subst (λ q. IsConsistent (prepare_found config now sent mapped m path addr s q).0) (sym f)
        (rw (e, prepare_found) (open-IsConsistent config now m addr sent mapped path s v e g))
  searched-IsConsistent s r v e (present id t f found signed) =
      subst (λ q. IsConsistent (prepare_found config now sent mapped m path addr s q).0) (sym f)
        (rw (e, prepare_found) (resume-IsConsistent config now m addr id t s v e found signed))

  found-IsConsistent :
      (s : Server)
      → IsConsistent s
      → IsConsistent
          (prepare_found config now sent mapped m path addr s (find_transfer_by_manifest m s)).0
  unfolding prepare_found
  found-IsConsistent s v = elim (Option-cases (get_item bytes_eq m.transfer_id s.transfers)) [
    | inl e ↦ searched-IsConsistent s (find_transfer_by_manifest m s) v e (find-Search m s v)
    | inr (t, e) ↦ rw (e, prepare_found) (refresh-IsConsistent config now m addr t s v e)
  ]

  checked-IsConsistent :
      (s : Server) (r : Bool × HashCache)
      → IsConsistent s
      → IsConsistent (prepare_checked config now sent mapped m path addr s r).0
  unfolding prepare_checked
  checked-IsConsistent s (matching, cache) v =
      kept_if matching (_, _) _ (λ _. v)
        λ _. found-IsConsistent (record s { completed_hash_cache = cache }) v

pub prepare-IsConsistent :
    (sha256 : Bytes → Bytes) (config : ReceiverConfig) (now : ℕ) (sent mapped : Bool)
    (m : TransferManifest) (addr : Addr) (s : Server)
    → IsConsistent s
    → IsConsistent (prepare_transfer sha256 config now sent mapped m addr s).0
unfolding prepare_transfer
prepare-IsConsistent sha256 config now sent mapped m addr s v =
    elim (Option-cases (safe_destination_path m.file_name)) [
      | inl e ↦ rw (e, prepare_transfer) v
      | inr (path, e) ↦
          rw (e, prepare_transfer)
            (checked-IsConsistent config now sent mapped m path addr s
              (is_matching_completed_file sha256 path m s) v)
    ]
