-- ===== src/Tests/Receiver.antt =====
-- A file of ten bytes in chunks of four, which arrive out of order and one of them twice.
use ssync.Prelude.{ℕ, ◌≡◌, refl, true, none, ◌||◌, List, [], ◌∷◌, arith, leb, replicate}
use ssync.Struct.{Bytes}
use ssync.Types.{TransferManifest}
use ssync.Ranges.Indexes.{elem}
use ssync.Sender.{read_chunk}
use ssync.Receiver.{Addr, FilePath, Transfer, new_transfer}
use ssync.Receiver.Deliver.{Arrival, deliver, arrived}
use ssync.Receiver.Reassembly.{Describes, reassembles}

abbrev raw : Bytes
raw = 0 ∷ 1 ∷ 2 ∷ 3 ∷ 4 ∷ 5 ∷ 6 ∷ 7 ∷ 8 ∷ 9 ∷ []

abbrev zeros : Bytes
zeros = replicate 10 0

abbrev part_path : FilePath
part_path = (46 ∷ 112 ∷ []) ∷ []

abbrev final_path : FilePath
final_path = (97 ∷ []) ∷ []

abbrev peer : Addr
peer = (49 ∷ [], 9000)

abbrev manifest : TransferManifest
manifest = record {
  transfer_id = replicate 16 7;
  file_name = 97 ∷ [];
  file_size = 10;
  chunk_size = 4;
  total_chunks = 3;
  sha256 = replicate 32 0;
  metadata = [];
}

manifest-Describes : Describes manifest raw
manifest-Describes = record { sized = refl; chunk_positive = omega arith; total = refl }

abbrev arrival : ℕ → ℕ → Arrival
arrival now i = record { now = now; sent = true; chunk_index = i }

abbrev order : List Arrival
order = arrival 11 2 ∷ arrival 12 0 ∷ arrival 13 2 ∷ arrival 2500 1 ∷ []

last_chunk : read_chunk raw 4 2 ≡ 8 ∷ 9 ∷ []
unfolding read_chunk
last_chunk = refl

every_chunk : (i : ℕ) → (leb 3 i || elem i (arrived order)) ≡ true
unfolding arrived
every_chunk i = ground arith

abbrev begun : Transfer
begun = new_transfer 1 true manifest part_path final_path peer none zeros

reassembles_example :
    ((deliver raw 1000 order
        (new_transfer 1 true manifest part_path final_path peer none zeros)).part
      ≡ raw)
    × ((deliver raw 1000 order
          (new_transfer 1 true manifest part_path final_path peer none zeros)).finalized
        ≡ true)
reassembles_example =
    reassembles 1 1000 true manifest raw part_path final_path peer none zeros order
      manifest-Describes refl every_chunk
