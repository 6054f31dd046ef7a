-- ===== src/Server/Opening.antt =====
-- METADATA of a file that the receiver has not seen.
use ssync.Prelude.{
  ℕ, ◌≡◌, refl, sym, ap, ◌∙◌, inl, inr, Bool, true, false, not, none, some, List, [], arith, ◌==◌,
  if◌then◌else◌, Bool-cases, replicate, length-replicate,
}
use mathlib.Core.Path.{subst}
use ssync.Struct.{Bytes}
use ssync.Dict.{get_item, set_item, pop_item}
use ssync.Dict.Update.{pop_item-none, get_item-set_item}
use ssync.Types.{TransferManifest}
use ssync.Frames.{bytes_eq}
use ssync.Frames.Equal.{bytes_eq_refl, bytes_eq_sound}
use ssync.Receiver.{FilePath, Addr, Transfer, queue_finalization, created_transfer, new_transfer}
use ssync.Receiver.Copy.{core, Holds}
use ssync.Receiver.Reassembly.{Describes, new_transfer-Holds, core-new_transfer}
use ssync.PreMetadata.{pop_buffer}
use ssync.Paths.{safe_destination_path}
use ssync.Server.{
  ReceiverConfig, Server, manifest_signature, signature_eq, path_eq, find_transfer_by_manifest,
  reply_addr_for, put_transfer,
}
use ssync.Server.Completed.{HashCache, is_matching_completed_file}
use ssync.Server.Prepare.{
  part_path_of, part_contents, map_fails, put_created, add_transfer, queue_at, open_transfer,
  prepare_found, prepare_checked, prepare_transfer,
}
use ssync.Server.Arrivals.{ended_entry, queued-queue, Serving}

-- The name leads to a path, and neither a file nor a transfer, an index entry, a buffer or a queue entry
-- is about it.
pub record Unseen (m : TransferManifest) (path : FilePath) (s : Server) : Type 0 where
  pub destination : safe_destination_path m.file_name ≡ some path
  pub no_final : get_item path_eq path s.files ≡ none
  pub no_part : get_item path_eq (part_path_of m.transfer_id) s.files ≡ none
  pub no_transfer : get_item bytes_eq m.transfer_id s.transfers ≡ none
  pub no_signature : get_item signature_eq (manifest_signature m) s.transfer_ids_by_signature ≡ none
  pub no_buffer : get_item bytes_eq m.transfer_id s.pre_metadata.pending ≡ none
  pub idle : s.finalize_queue ≡ []

-- The transfer that comes of it.
abbrev pub opened : ℕ → Bool → TransferManifest → FilePath → Addr → Transfer
opened now mapped m path addr =
    new_transfer now mapped m (part_path_of m.transfer_id) path addr (some (reply_addr_for m addr))
      (replicate m.file_size 0)

module _ (sha256 : Bytes → Bytes) (config : ReceiverConfig) (now : ℕ) (sent mapped : Bool)
    (m : TransferManifest) (path : FilePath) (addr : Addr) (s : Server) (u : Unseen m path s) where
  abbrev checked : Server
  checked = record s { completed_hash_cache = pop_item path_eq path s.completed_hash_cache }

  unmatched :
      is_matching_completed_file sha256 path m s
      ≡ (false, pop_item path_eq path s.completed_hash_cache)
  unfolding is_matching_completed_file
  unmatched = rw (u.no_final, is_matching_completed_file) refl

  unfound :
      (cache : HashCache)
      → find_transfer_by_manifest m (record s { completed_hash_cache = cache })
        ≡ (record s { completed_hash_cache = cache }, none)
  unfolding find_transfer_by_manifest
  unfound cache = rw (u.no_signature, find_transfer_by_manifest) refl

  found_none :
      prepare_found config now sent mapped m path addr checked (checked, none)
      ≡ open_transfer config now sent mapped m path addr checked
  unfolding prepare_found
  found_none = rw (u.no_transfer, prepare_found) refl

  checked_none :
      prepare_checked config now sent mapped m path addr s
        (false, pop_item path_eq path s.completed_hash_cache)
      ≡ open_transfer config now sent mapped m path addr checked
  unfolding prepare_checked
  checked_none =
      ap (prepare_found config now sent mapped m path addr checked)
        (unfound (pop_item path_eq path s.completed_hash_cache))
      ∙ found_none

  prepare_lem :
      prepare_transfer sha256 config now sent mapped m addr s
      ≡ open_transfer config now sent mapped m path addr checked
  unfolding prepare_transfer
  prepare_lem =
      rw (u.destination, prepare_transfer)
        (ap (prepare_checked config now sent mapped m path addr s) unmatched ∙ checked_none)

  abbrev part_path : FilePath
  part_path = part_path_of m.transfer_id

  abbrev created : Transfer
  created =
      created_transfer now mapped m part_path path addr (some (reply_addr_for m addr))
        (replicate m.file_size 0)

  abbrev added : Server × List (ℕ × Bytes)
  added = add_transfer now mapped m path addr checked

  nothing_buffered : added.1 ≡ []
  unfolding add_transfer put_created pop_buffer
  nothing_buffered = rw (u.no_buffer, add_transfer, pop_buffer) refl

  zeros : part_contents part_path m.file_size checked ≡ replicate m.file_size 0
  unfolding part_contents
  zeros = rw (u.no_part, part_contents) refl

  get_set :
      (d : List (Bytes × Transfer)) (t : Transfer)
      → get_item bytes_eq m.transfer_id (set_item bytes_eq m.transfer_id t d) ≡ some t
  get_set d t =
      get_item-set_item bytes_eq bytes_eq_sound bytes_eq_refl m.transfer_id m.transfer_id t d
      ∙ ap (λ b. if b then some t else get_item bytes_eq m.transfer_id d)
          (bytes_eq_refl m.transfer_id)

  added_transfer : get_item bytes_eq m.transfer_id added.0.transfers ≡ some created
  unfolding add_transfer put_created
  added_transfer =
      get_set s.transfers _
      ∙ ap
          (λ part.
            some (
              created_transfer now mapped m part_path path addr (some (reply_addr_for m addr))
                part))
          zeros

  added_queue : added.0.finalize_queue ≡ []
  unfolding add_transfer put_created
  added_queue = u.idle

  -- The part file that is made has the size of the file.
  maps : map_fails mapped m checked ≡ false
  unfolding map_fails
  maps = rw (zeros, map_fails) (rw (length-replicate {A = ℕ} m.file_size 0) (ground arith))

  open_lem :
      (open_transfer config now sent mapped m path addr checked).0
      ≡ (if m.total_chunks == 0 then (queue_at now m.transfer_id [] added.0).0 else added.0)
  unfolding open_transfer
  open_lem = elim (Bool-cases (m.total_chunks == 0)) [
    | inl e ↦ rw (maps, e, open_transfer) refl
    | inr e ↦ rw (maps, e, open_transfer) (rw nothing_buffered refl)
  ]

  abbrev start : Transfer
  start = opened now mapped m path addr

  start_empty : (m.total_chunks == 0) ≡ true → start ≡ (queue_finalization now [] created).0
  unfolding new_transfer
  start_empty e = rw e refl

  start_filled : (m.total_chunks == 0) ≡ false → start ≡ created
  unfolding new_transfer
  start_filled e = rw e refl

  queue_lem :
      queue_at now m.transfer_id [] added.0
      ≡ put_transfer m.transfer_id (queue_finalization now [] created) added.0
  queue_lem = rw (added_transfer, queue_at) refl

  added_final : get_item path_eq path added.0.files ≡ none
  unfolding add_transfer put_created
  added_final = pop_item-none path_eq part_path path s.files u.no_final

  queued_final : get_item path_eq path (queue_at now m.transfer_id [] added.0).0.files ≡ none
  unfolding put_transfer
  queued_final = ap (λ q. get_item path_eq path q.0.files) queue_lem ∙ added_final

  -- The file is not at its destination yet.
  pub prepare_final :
      get_item path_eq path (prepare_transfer sha256 config now sent mapped m addr s).0.files ≡ none
  prepare_final =
      ap (λ q. get_item path_eq path q.0.files) prepare_lem
      ∙ ap (λ q. get_item path_eq path q.files) open_lem
      ∙ elim (Bool-cases (m.total_chunks == 0)) [
        | inl e ↦ rw e queued_final
        | inr e ↦ rw e added_final
      ]

  module _ (raw : Bytes) (d : Describes m raw) where
    start-Holds : Holds raw (core start)
    start-Holds =
        new_transfer-Holds now mapped m raw part_path path addr (some (reply_addr_for m addr))
          (replicate m.file_size 0) d (length-replicate m.file_size 0 ∙ d.sized)

    start_finalized : start.finalized ≡ (m.total_chunks == 0)
    start_finalized =
        ap (λ c. c.finalized)
          (core-new_transfer now mapped m part_path path addr (some (reply_addr_for m addr))
            (replicate m.file_size 0))

    start_manifest : start.manifest ≡ m
    start_manifest =
        ap (λ c. c.manifest)
          (core-new_transfer now mapped m part_path path addr (some (reply_addr_for m addr))
            (replicate m.file_size 0))

    start_path : start.final_path ≡ path
    unfolding new_transfer created_transfer queue_finalization
    start_path = ground arith

    created_running : not created.finalized ≡ true
    unfolding created_transfer
    created_running = refl

    ended-Serving :
        (m.total_chunks == 0) ≡ true
        → Serving raw m path (queue_at now m.transfer_id [] added.0).0 start
    unfolding put_transfer
    ended-Serving e =
        subst (λ q. Serving raw m path q.0 start) (sym queue_lem)
          (record {
            found = get_set added.0.transfers _ ∙ ap some (sym (start_empty e));
            holds = start-Holds;
            same = start_manifest;
            destination = start_path;
            queue =
                rw (added_queue, queued-queue m.transfer_id now created)
                  (ap (ended_entry m.transfer_id) (created_running ∙ sym (start_finalized ∙ e)));
          })

    added-Serving : (m.total_chunks == 0) ≡ false → Serving raw m path added.0 start
    added-Serving e = record {
      found = added_transfer ∙ ap some (sym (start_filled e));
      holds = start-Holds;
      same = start_manifest;
      destination = start_path;
      queue = added_queue ∙ rw (start_finalized, e) refl;
    }

    pub prepare-Serving :
        Serving raw m path (prepare_transfer sha256 config now sent mapped m addr s).0 start
    prepare-Serving =
        subst (λ q. Serving raw m path q.0 start) (sym prepare_lem)
          (subst (λ q. Serving raw m path q start) (sym open_lem)
            (elim (Bool-cases (m.total_chunks == 0)) [
              | inl e ↦ rw e (ended-Serving e)
              | inr e ↦ rw e (added-Serving e)
            ]))
