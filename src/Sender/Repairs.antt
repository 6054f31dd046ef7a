-- ===== src/Sender/Repairs.antt =====
-- What arrives of the answer to a repair request.
use ssync.Prelude.{
  ℕ, ◌+◌, ◌^◌, ◌≤◌, ◌<◌, ◌≡◌, refl, ap, inl, inr, false, Option, some, List, [], ◌∷◌, arith, leb,
  if◌then◌else◌, le→leb, lt→leb, le_or_lt, length,
}
use ssync.Result.{Result, ok, ◌>>=◌, Result-cases}
use ssync.Struct.{Bytes}
use ssync.Types.{FrameType, data_frame, DataChunk, expected_total_chunks}
use ssync.Ranges.{Range, expand_ranges}
use ssync.Frames.Header.{read_frame}
use ssync.Frames.Data.{encode_data_chunk, decode_data_chunk, IsDataChunk, data_round_trip}
use ssync.Receiver.Chunks.{chunk_inside, length-read_chunk}
use ssync.Sender.{
  read_chunk, Repaired, repairs_loop, repair_indexes, send_requested_repairs, no_bytes,
}

-- The frames are decoded, one after the other.
unfoldable pub receive_all : List Bytes → Result (List (Option FrameType × DataChunk))
receive_all [] = ok []
receive_all (f ∷ rest) = do
  chunk ← read_frame decode_data_chunk f
  chunks ← receive_all rest
  ok (chunk ∷ chunks)

abbrev pub chunk_of : Bytes → Bytes → ℕ → ℕ → Option FrameType × DataChunk
chunk_of raw id chunk_size i = (
  some data_frame,
  record { transfer_id = id; chunk_index = i; payload = read_chunk raw chunk_size i },
)

-- The chunks of the transfer among the indexes.
unfoldable pub chunks_of : Bytes → Bytes → ℕ → ℕ → List ℕ → List (Option FrameType × DataChunk)
chunks_of raw id chunk_size total [] = []
chunks_of raw id chunk_size total (i ∷ rest) =
    let later = chunks_of raw id chunk_size total rest in
    if leb total i then later else chunk_of raw id chunk_size i ∷ later

-- The frames of the loop come over as these chunks, and are counted.
pub record Answers (chunks : List (Option FrameType × DataChunk)) (r : Result Repaired)
    : Type 0 where
  pub sent : Repaired
  pub returned : r ≡ ok sent
  pub received : receive_all sent.frames ≡ ok chunks
  pub counted : sent.repaired ≡ length chunks

encoded :
    (c : DataChunk)
    → IsDataChunk c
    → (f : Bytes) × (encode_data_chunk c.transfer_id c.chunk_index c.payload ≡ ok f)
      × (read_frame decode_data_chunk f ≡ ok (some data_frame, c))
encoded c v = elim (Result-cases (encode_data_chunk c.transfer_id c.chunk_index c.payload)) [
  | inl (f, e) ↦ (f, e, rw e at (data_round_trip c v))
  | inr (x, e) ↦ absurd (ground (arith, rw e at (data_round_trip c v)))
]

pub no_bytes-false : (bs : Bytes) → 0 < length bs → no_bytes bs ≡ false
no_bytes-false [] h = absurd (omega arith)
no_bytes-false (b ∷ bs) h = refl

module _ (raw id : Bytes) (chunk_size total : ℕ) (id_size : length id ≡ 16)
    (chunk_positive : 0 < chunk_size) (chunk_range : chunk_size ≤ 65535)
    (total_exact : total ≡ expected_total_chunks (length raw) chunk_size)
    (total_range : total ≤ 2 ^ 32) where
  abbrev reader : ℕ → Bytes
  reader i = read_chunk raw chunk_size i

  chunk-IsDataChunk : (i : ℕ) → i < total → IsDataChunk (chunk_of raw id chunk_size i).1
  chunk-IsDataChunk i h = record {
    id_size = id_size;
    index_range = omega arith;
    payload_range = omega (arith, length-read_chunk raw chunk_size i);
  }

  filled : (i : ℕ) → i < total → no_bytes (reader i) ≡ false
  filled i h = no_bytes-false (reader i) (
      omega (
        arith,
        length-read_chunk raw chunk_size i,
        chunk_inside (length raw) chunk_size chunk_positive i (omega arith),
      ))

  Answers-send :
      (i : ℕ) (chunks : List (Option FrameType × DataChunk)) (later : Result Repaired)
      → i < total
      → Answers chunks later
      → Answers (chunk_of raw id chunk_size i ∷ chunks) (do
        frame ← encode_data_chunk id i (reader i)
        sent ← later
        ok (record {
          frames = frame ∷ sent.frames;
          repaired = 1 + sent.repaired;
          paced_data_bytes = sent.paced_data_bytes;
        }))
  unfolding receive_all
  Answers-send i chunks later h a =
      let (f, packed, read) = encoded (chunk_of raw id chunk_size i).1 (chunk-IsDataChunk i h) in
      record {
        sent = record {
          frames = f ∷ a.sent.frames;
          repaired = 1 + a.sent.repaired;
          paced_data_bytes = a.sent.paced_data_bytes;
        };
        returned = rw (packed, a.returned) refl;
        received = rw (read, a.received) refl;
        counted = omega (arith, a.counted);
      }

  pub loop-Answers :
      (is : List ℕ) (paced : ℕ)
      → Answers (chunks_of raw id chunk_size total is) (repairs_loop id total reader is paced)
  unfolding repairs_loop chunks_of receive_all
  loop-Answers [] paced = record {
    sent = record { frames = []; repaired = 0; paced_data_bytes = paced };
    returned = refl;
    received = refl;
    counted = refl;
  }
  loop-Answers (i ∷ rest) paced = elim (le_or_lt total i) [
    | inl behind ↦ rw (le→leb total i behind) (loop-Answers rest _)
    | inr inside ↦
        rw (lt→leb total i inside, filled i inside)
          (Answers-send i (chunks_of raw id chunk_size total rest) _ inside (loop-Answers rest _))
  ]

  repair_indexes_lem :
      (is : List ℕ) (paced : ℕ)
      → ((do r ← repair_indexes id total reader is paced; receive_all r.0.frames)
          ≡ ok (chunks_of raw id chunk_size total is))
        × ((do r ← repair_indexes id total reader is paced; ok r.0.repaired)
            ≡ ok (length (chunks_of raw id chunk_size total is)))
  unfolding repair_indexes receive_all chunks_of
  repair_indexes_lem [] paced = (refl, refl)
  repair_indexes_lem (i ∷ rest) paced =
      let a = loop-Answers (i ∷ rest) paced in
      (rw a.returned a.received, rw a.returned (ap ok a.counted))

  -- The frames that answer a repair request come over as the file's chunks with the requested indexes
  -- below the number of chunks, in the order of the request and no others, and their number is
  -- returned: for a file with a 16 byte transfer id, chunks of 1 to 65535 bytes and at most 2^32
  -- chunks.
  pub resent :
      (missing_ranges : List Range) (paced : ℕ)
      → ((do
        r ← send_requested_repairs id total reader missing_ranges paced
        receive_all r.0.frames)
          ≡ ok (chunks_of raw id chunk_size total (expand_ranges missing_ranges)))
        × ((do r ← send_requested_repairs id total reader missing_ranges paced; ok r.0.repaired)
            ≡ ok (length (chunks_of raw id chunk_size total (expand_ranges missing_ranges))))
  unfolding send_requested_repairs
  resent missing_ranges paced = repair_indexes_lem (expand_ranges missing_ranges) paced
