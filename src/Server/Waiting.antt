-- ===== src/Server/Waiting.antt =====
-- What METADATA, DATA and BEACON frames do to a receiver that waits for the chunks of a file.
use ssync.Prelude.{
  ℕ, ◌≡◌, refl, sym, ap, ◌∙◌, Bool, true, false, Option, none, some, List, if◌then◌else◌,
}
use mathlib.Core.Path.{subst}
use ssync.Struct.{Bytes}
use ssync.Dict.{get_item, set_item, pop_item}
use ssync.Dict.Cases.{set_same}
use ssync.Types.{TransferManifest}
use ssync.Frames.{bytes_eq}
use ssync.Frames.Equal.{bytes_eq_refl, bytes_eq_sound}
use ssync.Sender.{read_chunk}
use ssync.Receiver.{FilePath, Addr, Transfer, Effect, accept_data}
use ssync.Receiver.Copy.{core, Holds}
use ssync.Paths.{safe_destination_path}
use ssync.Server.{
  ReceiverConfig, Server, path_eq, manifest_signature, signature_eq, put_transfer,
  find_transfer_by_manifest,
}
use ssync.Server.Table.{signature_eq_refl}
use ssync.Server.Accept.{accept_chunk}
use ssync.Server.Completed.{is_matching_completed_file}
use ssync.Server.Prepare.{
  set_addrs, refresh_transfer, prepare_found, prepare_checked, prepare_transfer,
}
use ssync.Server.Dispatch.{receive_beacon}
use ssync.Server.Arrivals.{ended_entry, Serving, accept_chunk-Serving, accept_chunk_known}

-- The transfer of the file is there, and the file is not at its destination.
pub record Waiting (raw : Bytes) (m : TransferManifest) (path : FilePath) (s : Server)
    (t : Transfer) : Type 0 where
  pub serving : Serving raw m path s t
  pub no_final : get_item path_eq path s.files ≡ none

module _ (sha256 : Bytes → Bytes) (config : ReceiverConfig) (raw : Bytes) (m : TransferManifest)
    (path : FilePath) (destination : safe_destination_path m.file_name ≡ some path) where
  -- The transfer is replaced by one that has received the same.
  replaced-Waiting :
      (s : Server) (t t' : Transfer)
      → Waiting raw m path s t
      → core t' ≡ core t
      → t'.final_path ≡ t.final_path
      → Waiting raw m path
          (record s { transfers = set_item bytes_eq m.transfer_id t' s.transfers })
          t'
  replaced-Waiting s t t' w c p = record {
    serving = record {
      found = set_same bytes_eq bytes_eq_sound bytes_eq_refl m.transfer_id t' s.transfers;
      holds = subst (Holds raw) (sym c) w.serving.holds;
      same = ap (λ x. x.manifest) c ∙ w.serving.same;
      destination = p ∙ w.serving.destination;
      queue = w.serving.queue ∙ ap (λ x. ended_entry m.transfer_id x.finalized) (sym c);
    };
    no_final = w.no_final;
  }

  -- The receiver still waits, with what it has received.
  abbrev pub Keeps : Server → Transfer → Type 0
  Keeps s t = (t' : Transfer) × Waiting raw m path s t' × (core t' ≡ core t)

  Keeps-if :
      (t : Transfer) (b : Bool) (x y : Server × List Effect)
      → Keeps x.0 t
      → Keeps y.0 t
      → Keeps (if b then x else y).0 t
  Keeps-if t true x y h k = h
  Keeps-if t false x y h k = k

  -- A beacon of the sender.
  pub beacon-Waiting :
      (now : ℕ) (addr : Addr) (age : ℕ) (s : Server) (t : Transfer)
      → Waiting raw m path s t
      → Keeps (receive_beacon now addr m.transfer_id age s).0 t
  unfolding receive_beacon
  beacon-Waiting now addr age s t w =
      rw (w.serving.found, receive_beacon)
        (Keeps-if t t.finalized _ _ (t, w, refl) (_, replaced-Waiting s t _ w refl refl, refl))

  -- METADATA again.
  module _ (now : ℕ) (sent mapped : Bool) (addr : Addr) where
    abbrev checked : Server → Server
    checked s = record s { completed_hash_cache = pop_item path_eq path s.completed_hash_cache }

    refreshed-Waiting :
        (s : Server) (t : Transfer)
        → Waiting raw m path s t
        → Keeps (refresh_transfer config now m addr t s).0 t
    unfolding refresh_transfer
    refreshed-Waiting s t w =
        let signed : signature_eq (manifest_signature t.manifest) (manifest_signature m) ≡ true =
          ap (λ x. signature_eq (manifest_signature x) (manifest_signature m)) w.serving.same
          ∙ signature_eq_refl (manifest_signature m) in
        rw signed (_, replaced-Waiting s t (set_addrs m addr t) w refl refl, refl)

    found_lem :
        (s : Server) (t : Transfer) (r : Server × Option (Bytes × Transfer))
        → Waiting raw m path s t
        → prepare_found config now sent mapped m path addr s r
          ≡ refresh_transfer config now m addr t s
    unfolding prepare_found
    found_lem s t r w = rw (w.serving.found, prepare_found) refl

    unmatched :
        (s : Server) (t : Transfer)
        → Waiting raw m path s t
        → is_matching_completed_file sha256 path m s
          ≡ (false, pop_item path_eq path s.completed_hash_cache)
    unfolding is_matching_completed_file
    unmatched s t w = rw (w.no_final, is_matching_completed_file) refl

    checked-Waiting :
        (s : Server) (t : Transfer) → Waiting raw m path s t → Waiting raw m path (checked s) t
    checked-Waiting s t w = record {
      serving = record {
        found = w.serving.found;
        holds = w.serving.holds;
        same = w.serving.same;
        destination = w.serving.destination;
        queue = w.serving.queue;
      };
      no_final = w.no_final;
    }

    prepare_lem :
        (s : Server) (t : Transfer)
        → Waiting raw m path s t
        → prepare_transfer sha256 config now sent mapped m addr s
          ≡ refresh_transfer config now m addr t (checked s)
    unfolding prepare_transfer prepare_checked
    prepare_lem s t w =
        rw (destination, prepare_transfer)
          (ap (prepare_checked config now sent mapped m path addr s) (unmatched s t w)
            ∙ found_lem (checked s) t (find_transfer_by_manifest m (checked s))
                (checked-Waiting s t w))

    pub metadata-Waiting :
        (s : Server) (t : Transfer)
        → Waiting raw m path s t
        → Keeps (prepare_transfer sha256 config now sent mapped m addr s).0 t
    metadata-Waiting s t w =
        subst (λ q. Keeps q.0 t) (sym (prepare_lem s t w))
          (refreshed-Waiting (checked s) t (checked-Waiting s t w))

  -- A chunk of the file.
  pub chunk-Waiting :
      (now : ℕ) (sent : Bool) (i : ℕ) (s : Server) (t : Transfer)
      → Waiting raw m path s t
      → Waiting raw m path
          (accept_chunk config now sent m.transfer_id i (read_chunk raw m.chunk_size i) s).0
          (accept_data config.beacon_interval_s now sent i
            (read_chunk raw t.manifest.chunk_size i)
            t).0
  unfolding put_transfer
  chunk-Waiting now sent i s t w = record {
    serving = accept_chunk-Serving config raw m path now sent i s t w.serving;
    no_final =
        ap (λ r. get_item path_eq path r.0.files)
          (accept_chunk_known config now sent m.transfer_id i (read_chunk raw m.chunk_size i) s t
            w.serving.found)
        ∙ w.no_final;
  }
