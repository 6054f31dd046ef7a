-- ===== src/Sender/Drain/Counts.antt =====
-- How many frames the answer to one request has.
use ssync.Prelude.{
  ℕ, ◌≤◌, ◌≡◌, refl, Bool, true, false, ◌||◌, List, [], ◌∷◌, arith, leb, if◌then◌else◌, length,
}
use ssync.Result.{Result, Ensures, Ensures-ok, Ensures-bind}
use ssync.Struct.{Bytes}
use ssync.Ranges.{Range, expand_ranges}
use ssync.Frames.Data.{encode_data_chunk}
use ssync.Sender.{Repaired, no_bytes, repairs_loop, repair_indexes, send_requested_repairs}

-- One frame for each chunk that is counted, and at most so many.
pub record IsSent (most : ℕ) (r : Repaired) : Type 0 where
  pub counted : length r.frames ≡ r.repaired
  pub bounded : r.repaired ≤ most

pub Ensures-if :
    {A : Type 0} {P : A → Type 0} (b : Bool) (x y : Result A)
    → (b ≡ true → Ensures P x)
    → (b ≡ false → Ensures P y)
    → Ensures P (if b then x else y)
Ensures-if true x y h k = h refl
Ensures-if false x y h k = k refl

module _ (transfer_id : Bytes) (total_chunks : ℕ) (chunk_reader : ℕ → Bytes) where
  loop-IsSent :
      (indexes : List ℕ) (paced : ℕ)
      → Ensures
          (IsSent (length indexes))
          (repairs_loop transfer_id total_chunks chunk_reader indexes paced)
  unfolding repairs_loop
  loop-IsSent [] paced = Ensures-ok _ (record { counted = refl; bounded = omega arith })
  loop-IsSent (i ∷ rest) paced =
      let chunk = chunk_reader i in
      Ensures-if (leb total_chunks i || no_bytes chunk) _ _
        (λ skipped. record {
          at = λ r e.
              let q = (loop-IsSent rest _).at r e in
              record { counted = q.counted; bounded = omega (arith, q.bounded) };
        })
        (λ sent. Ensures-bind (encode_data_chunk transfer_id i chunk) _ λ frame _.
          Ensures-bind (repairs_loop transfer_id total_chunks chunk_reader rest _) _ λ r e.
            let q = (loop-IsSent rest _).at r e in
            Ensures-ok _
              (record { counted = omega (arith, q.counted); bounded = omega (arith, q.bounded) }))

  indexes-IsSent :
      (indexes : List ℕ) (paced : ℕ)
      → Ensures
          (λ r. IsSent (length indexes) r.0)
          (repair_indexes transfer_id total_chunks chunk_reader indexes paced)
  unfolding repair_indexes
  indexes-IsSent [] paced = Ensures-ok _ (record { counted = refl; bounded = omega arith })
  indexes-IsSent (i ∷ rest) paced =
      Ensures-bind (repairs_loop transfer_id total_chunks chunk_reader (i ∷ rest) paced) _
        λ r e. Ensures-ok _ ((loop-IsSent (i ∷ rest) paced).at r e)

  pub requested-IsSent :
      (ranges : List Range) (paced : ℕ)
      → Ensures
          (λ r. IsSent (length (expand_ranges ranges)) r.0)
          (send_requested_repairs transfer_id total_chunks chunk_reader ranges paced)
  unfolding send_requested_repairs
  requested-IsSent ranges paced = indexes-IsSent (expand_ranges ranges) paced
