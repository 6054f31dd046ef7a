-- ===== src/Sender/Drain/Limits.antt =====
-- How much one drain of repair requests sends.
use ssync.Prelude.{
  ℕ, zero, suc, ◌-◌, ◌≤◌, ◌<◌, min, ◌≡◌, refl, ◌∙◌, ◌⊎◌, inl, inr, true, false, not, List, [], ◌∷◌,
  arith, leb, if◌then◌else◌, lt→leb, length, length-append,
}
use ssync.Result.{ok, is_value_error, Result-cases, Ensures, Ensures-ok, Ensures-err, Ensures-bind}
use ssync.Struct.{Bytes}
use ssync.Types.{TransferStatus}
use ssync.Ranges.{Range, expand_ranges, limit_ranges_to_chunk_budget}
use ssync.Ranges.Cover.{IsCanonical}
use ssync.Ranges.Merge.{canonical-All}
use ssync.Ranges.Budget.{length-expand_ranges, span-limit_ranges_to_chunk_budget}
use ssync.Frames.{ParsedFrame, bytes_eq, decode_frame}
use ssync.Frames.Status.{decode_status}
use ssync.Frames.Errors.{decode_status-IsCanonical}
use ssync.Sender.{send_requested_repairs}
use ssync.Sender.Drain.{
  Drained, Round, continue_with, break_with, is_reached, answer_request, answer_status,
  answer_frame, answer_datagram, drain_loop, drain_repair_requests, is_transfer, is_complete_status,
  asks_repair, is_status,
}
use ssync.Sender.Drain.Counts.{Ensures-if, requested-IsSent}

-- One frame has been sent for each repaired chunk, and neither limit is passed.
pub record IsWithin (max_rounds max_chunks : ℕ) (st : Drained) : Type 0 where
  pub counted : length st.frames ≡ st.repaired_chunks
  pub chunks : (max_chunks ≡ 0) ⊎ (st.repaired_chunks ≤ max_chunks)
  pub rounds : (max_rounds ≡ 0) ⊎ (st.repair_rounds ≤ max_rounds)

module _ (transfer_id : Bytes) (total_chunks : ℕ) (chunk_reader : ℕ → Bytes)
    (max_rounds max_chunks : ℕ) where
  abbrev Ends : Round → Type 0
  Ends (continue_with st) = IsWithin max_rounds max_chunks st
  Ends (break_with st) = IsWithin max_rounds max_chunks st

  abbrev Below : ℕ → ℕ → Type 0
  Below limit count = (limit ≡ 0) ⊎ (count < limit)

  not_reached : (limit count : ℕ) → is_reached limit count ≡ false → Below limit count
  not_reached zero count h = inl refl
  not_reached (suc limit) count h = inr (ground arith)

  answer_request-Ends :
      (ranges : List Range) (st : Drained)
      → IsCanonical ranges
      → Below max_chunks st.repaired_chunks
      → Below max_rounds st.repair_rounds
      → IsWithin max_rounds max_chunks st
      → Ensures Ends
          (answer_request transfer_id total_chunks chunk_reader max_rounds max_chunks ranges st)
  unfolding answer_request
  answer_request-Ends ranges st c chunks rounds w =
      let limited = limit_ranges_to_chunk_budget ranges (max_chunks - st.repaired_chunks) in
      let size : length (expand_ranges limited) ≡ min (max_chunks - st.repaired_chunks) _ =
        length-expand_ranges limited
        ∙ span-limit_ranges_to_chunk_budget ranges (max_chunks - st.repaired_chunks)
            (canonical-All 0 ranges c) in
      Ensures-bind
        (send_requested_repairs transfer_id total_chunks chunk_reader
          (if leb max_chunks 0 then ranges else limited) st.paced_data_bytes)
        _
        λ sent e.
          let q =
            (requested-IsSent transfer_id total_chunks chunk_reader
                (if leb max_chunks 0 then ranges else limited) st.paced_data_bytes).at
              sent e in
          Ensures-ok _ (record {
            counted = omega (arith, length-append st.frames sent.0.frames, q.counted, w.counted);
            chunks = elim chunks [
              | inl unlimited ↦ inl unlimited
              | inr fewer ↦
                  let limits : leb max_chunks 0 ≡ false = lt→leb max_chunks 0 (omega arith) in
                  inr (omega (arith, rw limits at q.bounded, size))
            ];
            rounds = elim rounds [ inl unlimited ↦ inl unlimited | inr fewer ↦ inr (omega arith) ];
          })

  answer_status-Ends :
      (s : TransferStatus) (st : Drained)
      → IsCanonical s.missing_ranges
      → Below max_rounds st.repair_rounds
      → IsWithin max_rounds max_chunks st
      → Ensures Ends
          (answer_status transfer_id total_chunks chunk_reader max_rounds max_chunks s st)
  unfolding answer_status
  answer_status-Ends s st c rounds w =
      Ensures-if (not (is_transfer s.kind)) _ _ (λ _. Ensures-ok _ w)
        λ _.
          Ensures-if (not (bytes_eq s.transfer_id transfer_id)) _ _ (λ _. Ensures-ok _ w)
            λ _.
              Ensures-if (is_complete_status s.state) _ _
                (λ _.
                  Ensures-ok _
                    (record { counted = w.counted; chunks = w.chunks; rounds = w.rounds }))
                λ _.
                  Ensures-if (not (asks_repair s.state s.missing_ranges)) _ _ (λ _. Ensures-ok _ w)
                    λ _.
                      Ensures-if (is_reached max_chunks st.repaired_chunks) _ _
                        (λ _. Ensures-ok _ w)
                        λ more.
                          answer_request-Ends s.missing_ranges st c
                            (not_reached max_chunks st.repaired_chunks more) rounds w

  answer_frame-Ends :
      (parsed : ParsedFrame) (st : Drained)
      → Below max_rounds st.repair_rounds
      → IsWithin max_rounds max_chunks st
      → Ensures Ends
          (answer_frame transfer_id total_chunks chunk_reader max_rounds max_chunks parsed st)
  unfolding answer_frame
  answer_frame-Ends parsed st rounds w =
      Ensures-if (is_status parsed.frame_type) _ _
        (λ _.
          Ensures-bind (decode_status parsed.payload) _
            λ s e. answer_status-Ends s st (decode_status-IsCanonical parsed.payload s e) rounds w)
        λ _. Ensures-ok _ w

  answer_datagram-Ends :
      (raw : Bytes) (st : Drained)
      → Below max_rounds st.repair_rounds
      → IsWithin max_rounds max_chunks st
      → Ensures Ends
          (answer_datagram transfer_id total_chunks chunk_reader max_rounds max_chunks raw st)
  unfolding answer_datagram
  answer_datagram-Ends raw st rounds w =
      let seen : Drained = record st { saw_uplink = true } in
      let within : IsWithin max_rounds max_chunks seen = record {
        counted = w.counted;
        chunks = w.chunks;
        rounds = w.rounds;
      } in
      elim (Result-cases (decode_frame raw)) [
        | inl (parsed, e) ↦ rw (e, answer_datagram) (answer_frame-Ends parsed seen rounds within)
        | inr (x, e) ↦
            rw (e, answer_datagram)
              (Ensures-if (is_value_error x) _ _ (λ _. Ensures-ok _ within) λ _. Ensures-err x)
      ]

  goes_on :
      (rest : List Bytes)
      → ((next : Drained)
          → IsWithin max_rounds max_chunks next
          → Ensures
              (IsWithin max_rounds max_chunks)
              (drain_loop transfer_id total_chunks chunk_reader max_rounds max_chunks rest next))
      → (round : Round) → Ends round
      → Ensures (IsWithin max_rounds max_chunks) (elim round [
        | break_with final ↦ ok final
        | continue_with next ↦
            drain_loop transfer_id total_chunks chunk_reader max_rounds max_chunks rest next
      ])
  goes_on rest later (break_with final) v = Ensures-ok _ v
  goes_on rest later (continue_with next) v = later next v

  drain_loop-IsWithin :
      (incoming : List Bytes) (st : Drained)
      → IsWithin max_rounds max_chunks st
      → Ensures
          (IsWithin max_rounds max_chunks)
          (drain_loop transfer_id total_chunks chunk_reader max_rounds max_chunks incoming st)
  unfolding drain_loop
  drain_loop-IsWithin [] st w = Ensures-ok _ w
  drain_loop-IsWithin (raw ∷ rest) st w =
      Ensures-if (is_reached max_rounds st.repair_rounds) _ _ (λ _. Ensures-ok _ w)
        λ more.
          Ensures-if (is_reached max_chunks st.repaired_chunks) _ _ (λ _. Ensures-ok _ w)
            λ _.
              let ends =
                answer_datagram-Ends raw st (not_reached max_rounds st.repair_rounds more) w in
              elim (Result-cases (
                answer_datagram transfer_id total_chunks chunk_reader max_rounds max_chunks raw
                  st)) [
                    | inl (round, e) ↦
                        rw e (goes_on rest (drain_loop-IsWithin rest) round (ends.at round e))
                    | inr (x, e) ↦ rw e (Ensures-err x)
                  ]

  -- Whatever datagrams have come in, a drain that returns has sent one frame for each chunk that it
  -- counts as repaired, and repaired no more chunks and answered no more requests than its limits,
  -- where these are positive.
  pub drain-IsWithin :
      (incoming : List Bytes) (paced_data_bytes : ℕ) (st : Drained)
      → drain_repair_requests transfer_id total_chunks chunk_reader max_rounds max_chunks incoming
          paced_data_bytes
        ≡ ok st
      → IsWithin max_rounds max_chunks st
  unfolding drain_repair_requests
  drain-IsWithin incoming paced_data_bytes st e =
      (drain_loop-IsWithin incoming _
          (record { counted = refl; chunks = inr (omega arith); rounds = inr (omega arith) })).at
        st e
