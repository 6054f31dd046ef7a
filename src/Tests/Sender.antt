-- ===== src/Tests/Sender.antt =====
-- The answer to a request for the chunks 1, 2 and 3 of a file of ten bytes in chunks of four, which
-- has no chunk 3.
use ssync.Prelude.{ap, ℕ, ◌++◌, true, false, ◌≡◌, refl, [], ◌∷◌, arith, length, replicate}
use ssync.Result.{ok, ◌>>=◌}
use ssync.Struct.{Bytes, pack, unpack, field_values}
use ssync.Frames.{decode_frame, encode_frame}
use ssync.Frames.Data.{encode_data_chunk}
use ssync.Frames.Status.{decode_status}
use ssync.Ranges.Wire.{decode_ranges}
use ssync.Ranges.{merge_ranges, expand_ranges, limit_ranges_to_chunk_budget}
use ssync.Sender.{read_chunk, send_requested_repairs}
use ssync.Sender.Drain.{Drained, drain_repair_requests}
use ssync.Sender.Drain.Limits.{IsWithin, drain-IsWithin}
use ssync.Ranges.Indexes.{elem}
use ssync.Sender.OpenLoop.{SenderConfig}
use ssync.Sender.OpenLoop.Send.{send_open_loop, send_result}
use ssync.Sender.OpenLoop.Steps.{chunk_indexes}
use ssync.Sender.OpenLoop.Coverage.{completed_covers}
use ssync.Sender.OpenLoop.Undisturbed.{IsUndisturbed, undisturbed_completed}
use ssync.Sender.OpenLoop.Send.{is_completed}
use ssync.Prelude.{◌<◌}
use ssync.Tests.Server.{manifest-IsManifest, manifest, manifest-Describes}
use ssync.Tests.EndToEnd.{sender_config, calm_world, sent_run}
use ssync.Sender.Repairs.{receive_all, chunk_of, chunks_of, resent}

abbrev raw : Bytes
raw = 0 ∷ 1 ∷ 2 ∷ 3 ∷ 4 ∷ 5 ∷ 6 ∷ 7 ∷ 8 ∷ 9 ∷ []

abbrev id : Bytes
id = replicate 16 7

chunks_run :
    chunks_of raw id 4 3 (expand_ranges ((1, 4) ∷ []))
    ≡ chunk_of raw id 4 1 ∷ chunk_of raw id 4 2 ∷ []
unfolding chunks_of expand_ranges
chunks_run = refl

resent_example :
    ((do
      r ← send_requested_repairs id 3 (λ i. read_chunk raw 4 i) ((1, 4) ∷ []) 100
      receive_all r.0.frames)
      ≡ ok (chunks_of raw id 4 3 (expand_ranges ((1, 4) ∷ []))))
    × ((do
      r ← send_requested_repairs id 3 (λ i. read_chunk raw 4 i) ((1, 4) ∷ []) 100
      ok r.0.repaired)
        ≡ ok (length (chunks_of raw id 4 3 (expand_ranges ((1, 4) ∷ [])))))
resent_example =
    resent raw id 4 3 refl (omega arith) (omega arith) refl (omega arith) ((1, 4) ∷ []) 100

-- A request for the chunks 1 and 2, as it arrives.
abbrev request : Bytes
request =
    0x53 ∷ 0x53 ∷ 1 ∷ 4 ∷ 0 ∷ 0 ∷ 0 ∷ 0 ∷ 0 ∷ 28 ∷ []
    ++ (id ++ (0 ∷ 0 ∷ 0 ∷ 1 ∷ [] ++ (0 ∷ 0 ∷ 0 ∷ 1 ∷ 0 ∷ 0 ∷ 0 ∷ 3 ∷ [])))

abbrev reader : ℕ → Bytes
reader i = read_chunk raw 4 i

-- The frame of chunk 1.
abbrev answer : Bytes
answer =
    0x53 ∷ 0x53 ∷ 1 ∷ 2 ∷ 0 ∷ 0 ∷ 0 ∷ 0 ∷ 0 ∷ 26 ∷ []
    ++ (id ++ (0 ∷ 0 ∷ 0 ∷ 1 ∷ 0 ∷ 4 ∷ 4 ∷ 5 ∷ 6 ∷ 7 ∷ []))

abbrev drained : Drained
drained = record {
  frames = answer ∷ [];
  repaired_chunks = 1;
  repair_rounds = 1;
  paced_data_bytes = 104;
  completed = false;
  saw_uplink = true;
}

-- Noise, the request, and the request again, with a limit of one chunk.
drained_result :
    drain_repair_requests id 3 reader 2 1 ((9 ∷ []) ∷ request ∷ request ∷ []) 100 ≡ ok drained
unfolding drain_repair_requests decode_frame unpack field_values decode_status decode_ranges
    merge_ranges send_requested_repairs expand_ranges limit_ranges_to_chunk_budget read_chunk
    encode_data_chunk pack encode_frame
drained_result = refl

drain-IsWithin_example : IsWithin 2 1 drained
drain-IsWithin_example =
    drain-IsWithin id 3 reader 2 1 ((9 ∷ []) ∷ request ∷ request ∷ []) 100 drained drained_result

completed_covers_example :
    elem 2 (chunk_indexes (send_open_loop sender_config manifest raw calm_world true).0) ≡ true
unfolding send_result
completed_covers_example =
    completed_covers sender_config manifest raw calm_world manifest-Describes
      (ap (λ r. is_completed r.1) sent_run) 2 (omega arith)

abbrev undropping : SenderConfig
undropping = record sender_config { drop_every_nth_data = 0 }

calm-IsUndisturbed : IsUndisturbed undropping calm_world
calm-IsUndisturbed = record {
  unstopped = λ n. refl;
  announced = λ n. refl;
  announced_beacon = λ n. refl;
  running = λ i. refl;
  undropped = λ i. refl;
  sent = λ i. refl;
  sent_beacon = λ i. refl;
  sent_metadata = λ i. refl;
  resent = λ i. refl;
}

undisturbed_completed_example :
    (is_completed (send_open_loop undropping manifest raw calm_world true).1 ≡ true)
    × ((j : ℕ)
        → j < 3
        → elem j (chunk_indexes (send_open_loop undropping manifest raw calm_world true).0) ≡ true)
undisturbed_completed_example =
    undisturbed_completed undropping manifest raw calm_world calm-IsUndisturbed (97 ∷ [])
      manifest-IsManifest (omega arith) manifest-Describes
