-- ===== src/Receiver/Reassembly.antt =====
-- The chunks of a file, in whatever order and however often they arrive, make the file.
use ssync.Prelude.{
  ℕ, ◌<◌, ◌≡◌, refl, sym, ap, ◌∙◌, Bool, true, false, ◌||◌, Option, List, arith, ltb, leb, ◌==◌,
  ==_sym, length,
}
use ssync.Struct.{Bytes}
use ssync.Types.{TransferManifest, expected_total_chunks}
use ssync.Ranges.Cover.{covers}
use ssync.Ranges.Indexes.{elem}
use ssync.Tracker.{fresh, is_complete}
use ssync.Tracker.Invariant.{fresh-IsTracker, is_complete_iff}
use ssync.Receiver.{Transfer, Addr, FilePath, queue_finalization, created_transfer, new_transfer}
use ssync.Receiver.Copy.{core, Holds, complete_part}
use ssync.Receiver.Deliver.{
  has, Arrival, deliver, arrived, deliver-Holds, has-deliver, manifest-deliver,
}

-- The manifest describes the file: its size, and the number of chunks for its chunk size.
pub record Describes (m : TransferManifest) (raw : Bytes) : Type 0 where
  pub sized : m.file_size ≡ length raw
  pub chunk_positive : 0 < m.chunk_size
  pub total : m.total_chunks ≡ expected_total_chunks (length raw) m.chunk_size

pub core-new_transfer :
    (now : ℕ) (mapped : Bool) (m : TransferManifest) (part_path final_path : FilePath)
    (source_addr : Addr) (reply_addr : Option Addr) (part : Bytes)
    → core (new_transfer now mapped m part_path final_path source_addr reply_addr part) ≡ record {
      manifest = m;
      part = part;
      tracker = fresh m.total_chunks;
      done = false;
      finalized = m.total_chunks == 0;
    }
unfolding new_transfer created_transfer queue_finalization
core-new_transfer now mapped m part_path final_path source_addr reply_addr part = ground arith

pub new_transfer-Holds :
    (now : ℕ) (mapped : Bool) (m : TransferManifest) (raw : Bytes) (part_path final_path : FilePath)
    (source_addr : Addr) (reply_addr : Option Addr) (part : Bytes)
    → Describes m raw
    → length part ≡ length raw
    → Holds raw (core (new_transfer now mapped m part_path final_path source_addr reply_addr part))
new_transfer-Holds now mapped m raw part_path final_path source_addr reply_addr part d e =
    rw (core-new_transfer now mapped m part_path final_path source_addr reply_addr part) (record {
      running = refl;
      sized = d.sized;
      chunk_positive = d.chunk_positive;
      total = d.total;
      tracked = refl;
      tracker = fresh-IsTracker m.total_chunks;
      part_size = e;
      agrees = λ j. refl;
      ended = unfold is_complete in ==_sym m.total_chunks 0;
    })

pub complete_when_covered :
    (raw : Bytes) (t : Transfer)
    → Holds raw (core t)
    → ((j : ℕ) → has t j ≡ ltb j t.manifest.total_chunks)
    → (t.part ≡ raw) × (t.finalized ≡ true)
complete_when_covered raw t h f =
    let complete : is_complete t.tracker ≡ true =
      (is_complete_iff t.tracker h.tracker).1 (λ j. f j ∙ ap (ltb j) (sym h.tracked)) in
    (complete_part raw (core t) h complete, h.ended ∙ complete)

-- A receiver that makes a transfer of a manifest that describes the file, with a part file of the
-- file's size and any contents, and then accepts chunks that the sender reads from the file, in any
-- order and with any repetitions, among them every chunk of the file, ends with a part file equal to
-- the file and with the transfer finalized.
pub reassembles :
    (now interval : ℕ) (mapped : Bool) (m : TransferManifest) (raw : Bytes)
    (part_path final_path : FilePath) (source_addr : Addr) (reply_addr : Option Addr) (part : Bytes)
    (order : List Arrival)
    → Describes m raw
    → length part ≡ length raw
    → ((i : ℕ) → (leb m.total_chunks i || elem i (arrived order)) ≡ true)
    → ((deliver raw interval order
          (new_transfer now mapped m part_path final_path source_addr reply_addr part)).part
        ≡ raw)
      × ((deliver raw interval order
            (new_transfer now mapped m part_path final_path source_addr reply_addr part)).finalized
          ≡ true)
reassembles now interval mapped m raw part_path final_path source_addr reply_addr part order d e
      all =
    let t = new_transfer now mapped m part_path final_path source_addr reply_addr part in
    let start : Holds raw (core t) =
      new_transfer-Holds now mapped m raw part_path final_path source_addr reply_addr part d e in
    let same : t.manifest ≡ m =
      ap (λ c. c.manifest)
        (core-new_transfer now mapped m part_path final_path source_addr reply_addr part) in
    let after = deliver-Holds raw interval order t start in
    complete_when_covered raw (deliver raw interval order t) after λ j.
      let none_yet : has t j ≡ false =
        ap (λ c. covers c.tracker.received_ranges j)
          (core-new_transfer now mapped m part_path final_path source_addr reply_addr part) in
      ground (
        arith,
        has-deliver raw interval order t j start,
        ap (λ x. x.total_chunks) (manifest-deliver raw interval order t start),
        ap (λ x. x.total_chunks) same,
        none_yet,
        all j,
      )
