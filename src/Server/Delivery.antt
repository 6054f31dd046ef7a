-- ===== src/Server/Delivery.antt =====
-- The way of a file through the receiver: its METADATA, its chunks, and the finalization.
use ssync.Prelude.{
  length, ℕ, ◌≡◌, refl, sym, ap, ◌∙◌, inl, inr, Bool, true, false, ◌||◌, some, List, [], ◌∷◌, ◌++◌,
  arith, leb, if◌then◌else◌, Bool-cases, drop, replicate, length-replicate,
}
use mathlib.Core.Path.{subst}
use ssync.Struct.{Bytes}
use ssync.Dict.{get_item, set_item}
use ssync.Dict.Update.{get_item-set_item}
use ssync.Types.{TransferManifest, complete}
use ssync.Frames.{bytes_eq}
use ssync.Frames.Equal.{bytes_eq_refl, bytes_eq_sound}
use ssync.Ranges.Indexes.{elem}
use ssync.Receiver.{
  FilePath, Addr, Transfer, Effect, send_frame, effective_reply_addr, mark_journal_dirty,
  flush_journal, publish_terminal,
}
use ssync.Receiver.Deliver.{Arrival, deliver, arrived}
use ssync.Receiver.Reassembly.{Describes, reassembles}
use ssync.Hex.{hex}
use ssync.Frames.Status.{encode_status}
use ssync.Result.{Result, ok}
use ssync.Frames.Status.Laws.{transfer_status, transfer_status_encoded}
use ssync.Server.{ReceiverConfig, StoredFile, ReceivedTransferInfo, Server, path_eq, reply_addr_for}
use ssync.Server.Prepare.{part_path_of, prepare_transfer}
use ssync.Server.Finalize.{final_mtime, final_state, final_files, finalize_transfer, finalize_next}
use ssync.Server.Arrivals.{ended_entry, Serving, accept_chunks, accept_chunks-Serving}
use ssync.Server.Opening.{Unseen, opened, prepare-Serving}

pub path_eq_refl : (p : FilePath) → path_eq p p ≡ true
path_eq_refl [] = refl
path_eq_refl (x ∷ p) = rw (bytes_eq_refl x) (path_eq_refl p)

pub path_eq_sound : (p q : FilePath) → path_eq p q ≡ true → p ≡ q
path_eq_sound [] [] e = refl
path_eq_sound [] (y ∷ q) e = absurd (cc)
path_eq_sound (x ∷ p) [] e = absurd (cc)
path_eq_sound (x ∷ p) (y ∷ q) e = elim (Bool-cases (bytes_eq x y)) [
  | inl h ↦ rw (bytes_eq_sound x y h) (ap (λ r. y ∷ r) (path_eq_sound p q (ground (arith, h))))
  | inr h ↦ let clash : false ≡ true = ground (arith, h) in absurd (cc)
]

stored_at :
    (p q : FilePath) (file : StoredFile) (d : List (FilePath × StoredFile))
    → p ≡ q
    → get_item path_eq q (set_item path_eq p file d) ≡ some file
stored_at p q file d e =
    get_item-set_item path_eq path_eq_sound path_eq_refl p q file d
    ∙ ap (λ b. if b then some file else get_item path_eq q d)
        (ap (path_eq p) (sym e) ∙ path_eq_refl p)

module _ (sha256 : Bytes → Bytes) (config : ReceiverConfig) (mtime : ℕ) (raw : Bytes)
    (m : TransferManifest) (path : FilePath) where
  -- The transfer is the manifest's. The file is at the path, with the time of the source if the manifest
  -- has it; the id and the name of the manifest are listed as completed at the end of the list; and, with
  -- feedback, as many frames as are configured are sent, the bytes of a status that says COMPLETE of this id.
  pub record Delivered (before : Server) (t : Transfer) (r : Server × List Effect) : Type 0 where
    pub file :
        get_item path_eq path r.0.files
        ≡ some (record { contents = raw; mtime_ns = final_mtime m mtime })
    pub same : t.manifest ≡ m
    pub listed :
        r.0.completed
        ≡ before.completed
          ++ (record {
            transfer_id_hex = hex m.transfer_id;
            file_name = m.file_name;
            completed = true;
            missing_ranges = [];
            hash_mismatch = false;
          }
              ∷ [])
    pub bytes : Bytes
    pub encoded : encode_status (transfer_status m.transfer_id complete []) ≡ ok bytes
    pub answered :
        r.1
        ≡ mark_journal_dirty
          ∷ flush_journal
          ∷ publish_terminal complete
          ∷ (if config.repair.enable_feedback
              then replicate config.status_repeat (send_frame (ok bytes) (effective_reply_addr t))
              else [])

  abbrev info_of : TransferManifest → ReceivedTransferInfo
  info_of k = record {
    transfer_id_hex = hex k.transfer_id;
    file_name = k.file_name;
    completed = true;
    missing_ranges = [];
    hash_mismatch = false;
  }

  abbrev told : Addr → Result Bytes → List Effect
  told addr frame =
      mark_journal_dirty
      ∷ flush_journal
      ∷ publish_terminal complete
      ∷ (if config.repair.enable_feedback
          then replicate config.status_repeat (send_frame frame addr)
          else [])

  abbrev stored : Bytes → ℕ → StoredFile
  stored contents mtime_ns = record { contents = contents; mtime_ns = mtime_ns }

  next_lem :
      (s : Server) (t : Transfer)
      → s.finalize_queue ≡ (m.transfer_id, []) ∷ []
      → get_item bytes_eq m.transfer_id s.transfers ≡ some t
      → finalize_next sha256 config mtime s
        ≡ finalize_transfer sha256 config mtime t [] (record s { finalize_queue = [] })
  unfolding finalize_next
  next_lem s t e f =
      rw (e, finalize_next)
        (rw f (
          ap
            (λ q.
              finalize_transfer sha256 config mtime t [] (record s { finalize_queue = drop 1 q }))
            e))

  complete_lem :
      (t : Transfer) → sha256 t.part ≡ t.manifest.sha256 → final_state sha256 t [] ≡ complete
  unfolding final_state
  complete_lem t e = rw (e, final_state) (rw (bytes_eq_refl t.manifest.sha256) refl)

  finalize_complete :
      (s : Server) (t : Transfer)
      → final_state sha256 t [] ≡ complete
      → t.part ≡ raw
      → t.manifest ≡ m
      → t.final_path ≡ path
      → length m.transfer_id ≡ 16
      → Delivered s t (finalize_transfer sha256 config mtime t [] s)
  unfolding finalize_transfer final_files
  finalize_complete s t e f g h id_size =
      let status = transfer_status_encoded m.transfer_id complete [] id_size tt tt (omega arith) in
      rw (e, finalize_transfer)
        (record {
          file =
              stored_at t.final_path path _ _ h
              ∙ ap (λ b. some (stored b (final_mtime t.manifest mtime))) f
              ∙ ap (λ k. some (stored raw (final_mtime k mtime))) g;
          same = g;
          listed = ap (λ k. s.completed ++ (info_of k ∷ [])) g;
          bytes = status.0;
          encoded = status.1;
          answered =
              ap
                (λ k.
                  told (effective_reply_addr t)
                    (encode_status (transfer_status k.transfer_id complete [])))
                g
              ∙ ap (told (effective_reply_addr t)) status.1;
        })

  pub finalize-Delivered :
      (s : Server) (t : Transfer)
      → Serving raw m path s t
      → t.part ≡ raw
      → t.finalized ≡ true
      → m.sha256 ≡ sha256 raw
      → length m.transfer_id ≡ 16
      → Delivered s t (finalize_next sha256 config mtime s)
  finalize-Delivered s t v e f h id_size =
      let only : s.finalize_queue ≡ (m.transfer_id, []) ∷ [] =
        v.queue ∙ ap (ended_entry m.transfer_id) f in
      let matching : sha256 t.part ≡ t.manifest.sha256 =
        ap sha256 e ∙ sym h ∙ ap (λ k. k.sha256) (sym v.same) in
      let done =
        finalize_complete (record s { finalize_queue = [] }) t (complete_lem t matching) e v.same
          v.destination id_size in
      subst (Delivered s t) (sym (next_lem s t only v.found)) (record {
        file = done.file;
        same = done.same;
        listed = done.listed;
        bytes = done.bytes;
        encoded = done.encoded;
        answered = done.answered;
      })

  -- A receiver that has not seen the file takes its METADATA, with its size, chunks and hash and a 16
  -- byte id in the manifest, and then chunks of the file in any order and with any repetitions, among them every chunk.
  -- The next step of the finalization worker puts the file at the destination path, lists the transfer
  -- as completed, and, with feedback, sends as many statuses as are configured, which say COMPLETE.
  pub receives_file :
      (now : ℕ) (sent mapped : Bool) (addr : Addr) (order : List Arrival) (s : Server)
      → Unseen m path s
      → Describes m raw
      → m.sha256 ≡ sha256 raw
      → length m.transfer_id ≡ 16
      → ((i : ℕ) → (leb m.total_chunks i || elem i (arrived order)) ≡ true)
      → Delivered
          (accept_chunks config raw m path order
            (prepare_transfer sha256 config now sent mapped m addr s).0)
          (deliver raw config.beacon_interval_s order (opened now mapped m path addr))
          (finalize_next sha256 config mtime (
            accept_chunks config raw m path order
              (prepare_transfer sha256 config now sent mapped m addr s).0))
  receives_file now sent mapped addr order s u d h id_size all =
      let begun = prepare-Serving sha256 config now sent mapped m path addr s u raw d in
      let (whole, ended) =
        reassembles now config.beacon_interval_s mapped m raw (part_path_of m.transfer_id) path addr
          (some (reply_addr_for m addr)) (replicate m.file_size 0) order d
          (length-replicate m.file_size 0 ∙ d.sized) all in
      finalize-Delivered _ _ (accept_chunks-Serving config raw m path order _ _ begun) whole ended h
        id_size
