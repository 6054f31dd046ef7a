-- ===== src/Server/Consistency.antt =====
-- Every operation keeps the table of transfers and its index consistent.
use ssync.Prelude.{ℕ, ◌≡◌, ap, ◌∙◌, inl, inr, Bool, some, List, [], ◌∷◌, arith, Option-cases}
use ssync.Struct.{Bytes}
use ssync.Dict.{get_item}
use ssync.Ranges.{Range}
use ssync.Frames.{bytes_eq}
use ssync.Frames.Equal.{bytes_eq_refl}
use ssync.Receiver.{Transfer, Effect, accept_data, queue_finalization}
use ssync.Receiver.Copy.{core-accept_data}
use ssync.Server.{ReceiverConfig, Server, forget_signature, remove_transfer, put_transfer}
use ssync.Server.Accept.{accept_chunk, replay}
use ssync.Server.Table.{IsTable}
use ssync.Server.Table.Changes.{change-IsTable, remove-IsTable}

abbrev pub IsConsistent : Server → Type 0
IsConsistent s = IsTable s.transfers s.transfer_ids_by_signature

pub put-IsConsistent :
    (id : Bytes) (t : Transfer) (r : Transfer × List Effect) (s : Server)
    → IsConsistent s
    → get_item bytes_eq id s.transfers ≡ some t
    → r.0.manifest ≡ t.manifest
    → IsConsistent (put_transfer id r s).0
unfolding put_transfer
put-IsConsistent id t r s v e m = change-IsTable s.transfers _ v id t r.0 e m

manifest-accept :
    (interval now : ℕ) (sent : Bool) (i : ℕ) (payload : Bytes) (t : Transfer)
    → (accept_data interval now sent i payload t).0.manifest ≡ t.manifest
manifest-accept interval now sent i payload t =
    ap (λ c. c.manifest) (core-accept_data interval now sent i payload t) ∙ ground arith

pub manifest-queue :
    (now : ℕ) (missing : List Range) (t : Transfer)
    → (queue_finalization now missing t).0.manifest ≡ t.manifest
unfolding queue_finalization
manifest-queue now missing t = ground arith

module _ (config : ReceiverConfig) (now : ℕ) where
  pub accept-IsConsistent :
      (sent : Bool) (id : Bytes) (i : ℕ) (payload : Bytes) (s : Server)
      → IsConsistent s
      → IsConsistent (accept_chunk config now sent id i payload s).0
  unfolding accept_chunk
  accept-IsConsistent sent id i payload s v =
      elim (Option-cases (get_item bytes_eq id s.transfers)) [
        | inl e ↦ rw (e, accept_chunk) v
        | inr (t, e) ↦
            rw (e, accept_chunk)
              (put-IsConsistent id t (accept_data config.beacon_interval_s now sent i payload t) s v
                e (manifest-accept config.beacon_interval_s now sent i payload t))
      ]

  pub replay-IsConsistent :
      (sent : Bool) (id : Bytes) (chunks : List (ℕ × Bytes)) (s : Server)
      → IsConsistent s
      → IsConsistent (replay config now sent id chunks s).0
  unfolding replay
  replay-IsConsistent sent id [] s v = v
  replay-IsConsistent sent id ((i, payload) ∷ rest) s v =
      replay-IsConsistent sent id rest _ (accept-IsConsistent sent id i payload s v)

pub remove-IsConsistent :
    (id : Bytes) (s : Server) → IsConsistent s → IsConsistent (remove_transfer id s)
unfolding remove_transfer
remove-IsConsistent id s v = elim (Option-cases (get_item bytes_eq id s.transfers)) [
  | inl e ↦ rw (e, remove_transfer) v
  | inr (t, e) ↦
      rw (e, remove_transfer)
        (rw (v.indexed id t e, forget_signature)
          (rw (bytes_eq_refl id) (remove-IsTable s.transfers s.transfer_ids_by_signature v id t e)))
]
