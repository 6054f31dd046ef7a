-- ===== src/Server/Arrivals.antt =====
-- Chunks of a file that come for a transfer the receiver knows: what is then in the table and in the
-- finalization queue.
use ssync.Prelude.{
  ℕ, ◌+◌, ◌*◌, ◌≡◌, refl, sym, ap, ◌∙◌, Bool, true, false, not, ◌&&◌, ◌||◌, some, List, [], ◌∷◌,
  ◌++◌, arith, ltb, leb, if◌then◌else◌, length,
}
use mathlib.Core.Path.{subst}
use ssync.Struct.{Bytes}
use ssync.Dict.{get_item}
use ssync.Dict.Update.{get_item-set_item}
use ssync.Types.{TransferManifest}
use ssync.Ranges.{Range}
use ssync.Tracker.{add}
use ssync.Frames.{bytes_eq}
use ssync.Frames.Equal.{bytes_eq_refl, bytes_eq_sound}
use ssync.Sender.{read_chunk}
use ssync.Receiver.{
  FilePath, Transfer, Effect, finalize, mark_journal_dirty, publish_update, maybe_send_beacon,
  queue_finalization, store_chunk, receive_chunk, accept_data,
}
use ssync.Receiver.Copy.{core, core-beacon, core-queue, Holds}
use ssync.Receiver.Deliver.{Arrival, deliver, accept_data-Holds, manifest-accept_data}
use ssync.Server.{ReceiverConfig, Server, queued, put_transfer}
use ssync.Server.Accept.{accept_chunk}

-- The entry of the queue for a transfer that has come to its end.
abbrev pub ended_entry : Bytes → Bool → List (Bytes × List Range)
ended_entry id true = (id, []) ∷ []
ended_entry id false = []

queued-append :
    (id : Bytes) (xs ys : List Effect) → queued id (xs ++ ys) ≡ queued id xs ++ queued id ys
unfolding queued
queued-append id [] ys = refl
queued-append id (finalize ranges ∷ xs) ys = ap (λ q. (id, ranges) ∷ q) (queued-append id xs ys)
queued-append id (x ∷ xs) ys = queued-append id xs ys

-- What no chunk changes.
final_path-accept_data :
    (interval now : ℕ) (sent : Bool) (i : ℕ) (payload : Bytes) (t : Transfer)
    → (accept_data interval now sent i payload t).0.final_path ≡ t.final_path
unfolding accept_data receive_chunk maybe_send_beacon queue_finalization
final_path-accept_data interval now sent i payload t = ground arith

queued-beacon :
    (id : Bytes) (interval now : ℕ) (sent : Bool) (t : Transfer)
    → queued id (maybe_send_beacon interval now sent t).1 ≡ []
unfolding maybe_send_beacon queued
queued-beacon id interval now sent t = ground arith

pub queued-queue :
    (id : Bytes) (now : ℕ) (t : Transfer)
    → queued id (queue_finalization now [] t).1 ≡ ended_entry id (not t.finalized)
unfolding queue_finalization queued
queued-queue id now t = ground arith

ended-if :
    (id : Bytes) (t : Transfer) (b : Bool) (x y : Transfer × List Effect)
    → queued id x.1 ≡ ended_entry id (not t.finalized && x.0.finalized)
    → queued id y.1 ≡ ended_entry id (not t.finalized && y.0.finalized)
    → queued id (if b then x else y).1
      ≡ ended_entry id (not t.finalized && (if b then x else y).0.finalized)
ended-if id t true x y e f = e
ended-if id t false x y e f = f

queued-after :
    (id : Bytes) (xs ys : List Effect) → queued id xs ≡ [] → queued id (xs ++ ys) ≡ queued id ys
queued-after id xs ys e = rw (queued-append id xs ys, e) refl

queued-change :
    (id : Bytes) (changed : Bool)
    → queued id (if changed then mark_journal_dirty ∷ publish_update ∷ [] else []) ≡ []
unfolding queued
queued-change id true = refl
queued-change id false = refl

queued-receive_chunk :
    (id : Bytes) (interval now : ℕ) (sent : Bool) (i : ℕ) (payload : Bytes) (t : Transfer)
    → queued id (receive_chunk interval now sent i payload t).1
      ≡ ended_entry id
          (not t.finalized && (receive_chunk interval now sent i payload t).0.finalized)
unfolding receive_chunk
queued-receive_chunk id interval now sent i payload t =
    let stored = store_chunk now i payload t in
    let (beaconed, effects) = maybe_send_beacon interval now sent stored in
    let changed = (add i t.tracker).0 in
    let silent = queued-beacon id interval now sent stored in
    let kept : beaconed.finalized ≡ t.finalized =
      ap (λ c. c.finalized) (core-beacon interval now sent stored) in
    let ends : (queue_finalization now [] beaconed).0.finalized ≡ true =
      ap (λ c. c.finalized) (core-queue now beaconed) in
    let changes : List Effect = if changed then mark_journal_dirty ∷ publish_update ∷ [] else [] in
    let quiet : queued id changes ≡ [] = queued-change id changed in
    ended-if id t _ (_, _) (_, _)
      (queued-after id effects _ silent
        ∙ queued-after id changes _ quiet
        ∙ queued-queue id now beaconed
        ∙ ground (arith, kept, ends))
      (queued-after id effects _ silent ∙ quiet ∙ ground (arith, kept))

nothing_queued : (id : Bytes) (b : Bool) → queued id [] ≡ ended_entry id (not b && b)
unfolding queued
nothing_queued id true = refl
nothing_queued id false = refl

queued-accept_data :
    (id : Bytes) (interval now : ℕ) (sent : Bool) (i : ℕ) (payload : Bytes) (t : Transfer)
    → queued id (accept_data interval now sent i payload t).1
      ≡ ended_entry id (not t.finalized && (accept_data interval now sent i payload t).0.finalized)
unfolding accept_data
queued-accept_data id interval now sent i payload t =
    let received = receive_chunk interval now sent i payload t in
    let none_queued = nothing_queued id t.finalized in
    ended-if id t (t.done || t.finalized) (t, []) _ none_queued
      (ended-if id t (leb t.manifest.total_chunks i) (t, []) _ none_queued
        (ended-if id t (ltb t.manifest.file_size (i * t.manifest.chunk_size + length payload))
          (t, []) received none_queued (queued-receive_chunk id interval now sent i payload t)))

finalized-accept_data :
    (interval now : ℕ) (sent : Bool) (i : ℕ) (payload : Bytes) (t : Transfer)
    → t.finalized ≡ true
    → (accept_data interval now sent i payload t).0.finalized ≡ true
unfolding accept_data
finalized-accept_data interval now sent i payload t e = ground (arith, e)

joined_entry :
    (id : Bytes) (before after : Bool)
    → (before ≡ true → after ≡ true)
    → ended_entry id before ++ ended_entry id (not before && after) ≡ ended_entry id after
joined_entry id true true h = refl
joined_entry id true false h = let clash : false ≡ true = h refl in absurd (cc)
joined_entry id false after h = refl

pub accept_chunk_known :
    (config : ReceiverConfig) (now : ℕ) (sent : Bool) (id : Bytes) (i : ℕ) (payload : Bytes)
    (s : Server) (t : Transfer)
    → get_item bytes_eq id s.transfers ≡ some t
    → accept_chunk config now sent id i payload s
      ≡ put_transfer id (accept_data config.beacon_interval_s now sent i payload t) s
unfolding accept_chunk
accept_chunk_known config now sent id i payload s t e = rw (e, accept_chunk) refl

-- The receiver has the transfer of the file under the id of the manifest; it will go to the path, and
-- the queue holds its entry alone, once it is finalized.
pub record Serving (raw : Bytes) (m : TransferManifest) (path : FilePath) (s : Server)
    (t : Transfer) : Type 0 where
  pub found : get_item bytes_eq m.transfer_id s.transfers ≡ some t
  pub holds : Holds raw (core t)
  pub same : t.manifest ≡ m
  pub destination : t.final_path ≡ path
  pub queue : s.finalize_queue ≡ ended_entry m.transfer_id t.finalized

module _ (config : ReceiverConfig) (raw : Bytes) (m : TransferManifest) (path : FilePath) where
  pub accept_chunk-Serving :
      (now : ℕ) (sent : Bool) (i : ℕ) (s : Server) (t : Transfer)
      → Serving raw m path s t
      → Serving raw m path
          (accept_chunk config now sent m.transfer_id i (read_chunk raw m.chunk_size i) s).0
          (accept_data config.beacon_interval_s now sent i
            (read_chunk raw t.manifest.chunk_size i)
            t).0
  unfolding put_transfer
  accept_chunk-Serving now sent i s t v =
      let id = m.transfer_id in
      let payload = read_chunk raw t.manifest.chunk_size i in
      let accepted = accept_data config.beacon_interval_s now sent i payload t in
      let cut : read_chunk raw m.chunk_size i ≡ payload =
        ap (λ k. read_chunk raw k.chunk_size i) (sym v.same) in
      let stored : Serving raw m path (put_transfer id accepted s).0 accepted.0 = record {
        found =
            get_item-set_item bytes_eq bytes_eq_sound bytes_eq_refl id id accepted.0 s.transfers
            ∙ ap (λ b. if b then some accepted.0 else get_item bytes_eq id s.transfers)
                (bytes_eq_refl id);
        holds = accept_data-Holds raw config.beacon_interval_s now sent i t v.holds;
        same = manifest-accept_data raw config.beacon_interval_s now sent i t v.holds ∙ v.same;
        destination =
            final_path-accept_data config.beacon_interval_s now sent i payload t ∙ v.destination;
        queue =
            rw (v.queue, queued-accept_data id config.beacon_interval_s now sent i payload t)
              (joined_entry id t.finalized accepted.0.finalized
                (finalized-accept_data config.beacon_interval_s now sent i payload t));
      } in
      subst (λ q. Serving raw m path q.0 accepted.0)
        (sym (
          ap (λ p. accept_chunk config now sent id i p s) cut
          ∙ accept_chunk_known config now sent id i payload s t v.found))
        stored

  -- The chunks that arrive, as the sender reads them from the file.
  unfoldable pub accept_chunks : List Arrival → Server → Server
  unfolding accept_chunk
  accept_chunks [] s = s
  accept_chunks (a ∷ rest) s =
      accept_chunks rest
        (accept_chunk config a.now a.sent m.transfer_id a.chunk_index
          (read_chunk raw m.chunk_size a.chunk_index) s).0

  pub accept_chunks-Serving :
      (order : List Arrival) (s : Server) (t : Transfer)
      → Serving raw m path s t
      → Serving raw m path (accept_chunks order s) (deliver raw config.beacon_interval_s order t)
  unfolding accept_chunks deliver
  accept_chunks-Serving [] s t v = v
  accept_chunks-Serving (a ∷ rest) s t v =
      accept_chunks-Serving rest _ _ (accept_chunk-Serving a.now a.sent a.chunk_index s t v)
