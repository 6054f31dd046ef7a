-- ===== src/Sender.antt =====
-- src/ssync/space_sync/sender.py: what the sender reads for a chunk of the file, and how it answers a
-- repair request: `_read_chunk`, `_send_requested_repairs` and `_apply_rate_limit`.
--
-- The frames that are sent are part of the result, in order. A datagram that would block is tried
-- again until it is sent, so each counts once; the sleeps between them are left out.
pub mod Repairs
pub mod Drain
pub mod OpenLoop
pub mod Query
use ssync.Prelude.{
  ℕ, ◌+◌, ◌*◌, Bool, true, false, ◌||◌, List, [], ◌∷◌, leb, if◌then◌else◌, length, take, drop,
}
use ssync.Result.{Result, ok, ◌>>=◌, ◌>>◌}
use ssync.Struct.{Bytes}
use ssync.Types.{TransferManifest}
use ssync.Ranges.{Range, expand_ranges}
use ssync.Frames.Data.{encode_data_chunk}

unfoldable pub read_chunk : Bytes → ℕ → ℕ → Bytes
read_chunk file_stream chunk_size chunk_index =
    take chunk_size (drop (chunk_index * chunk_size) file_stream)

-- The frames, the number of repaired chunks, and the bytes that count for the rate.
pub record Repaired : Type 0 where
  pub frames : List Bytes
  pub repaired : ℕ
  pub paced_data_bytes : ℕ

abbrev pub no_bytes : Bytes → Bool
no_bytes [] = true
no_bytes (b ∷ bs) = false

-- `_apply_rate_limit` returns the new total.
abbrev pub apply_rate_limit : ℕ → ℕ → ℕ
apply_rate_limit paced_data_bytes just_sent_bytes = paced_data_bytes + just_sent_bytes

module _ (transfer_id : Bytes) (total_chunks : ℕ) (chunk_reader : ℕ → Bytes) where
  -- The loop over the indexes.
  unfoldable pub repairs_loop : List ℕ → ℕ → Result Repaired
  repairs_loop [] paced = ok (record { frames = []; repaired = 0; paced_data_bytes = paced })
  repairs_loop (chunk_index ∷ rest) paced =
      let chunk_payload = chunk_reader chunk_index in
      let skipped = leb total_chunks chunk_index || no_bytes chunk_payload in
      let paced' = if skipped then paced else apply_rate_limit paced (length chunk_payload) in
      let later = repairs_loop rest paced' in
      if skipped then later else (do
        frame ← encode_data_chunk transfer_id chunk_index chunk_payload
        sent ← later
        ok (record {
          frames = frame ∷ sent.frames;
          repaired = 1 + sent.repaired;
          paced_data_bytes = sent.paced_data_bytes;
        }))

  -- What `_send_requested_repairs` returns for the expanded ranges, with the Boolean that says that
  -- there was nothing to repair.
  unfoldable pub repair_indexes : List ℕ → ℕ → Result (Repaired × Bool)
  unfolding repairs_loop
  repair_indexes [] paced =
      let nothing : Repaired × Bool =
        (record { frames = []; repaired = 0; paced_data_bytes = paced }, true) in
      ok nothing
  repair_indexes (first ∷ rest) paced = do
    sent ← repairs_loop (first ∷ rest) paced
    let done : Repaired × Bool = (sent, false)
    ok done

  unfoldable pub send_requested_repairs : List Range → ℕ → Result (Repaired × Bool)
  unfolding repair_indexes
  send_requested_repairs missing_ranges paced_data_bytes =
      repair_indexes (expand_ranges missing_ranges) paced_data_bytes
