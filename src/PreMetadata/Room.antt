-- ===== src/PreMetadata/Room.antt =====
-- What the loop that makes room for a payload leaves.
use ssync.Prelude.{
  ℕ, zero, suc, ◌≤◌, ◌≡◌, refl, sym, ◌⊎◌, inl, inr, Bool, true, false, not, ◌&&◌, Option, none,
  some, List, [], ◌∷◌, arith, ltb, ◌==◌, if◌then◌else◌, ltb→lt, Bool-cases, Option-cases, length,
}
use ssync.Struct.{Bytes}
use ssync.Dict.{get_item}
use ssync.Frames.{bytes_eq}
use ssync.PreMetadata.{
  PreMetadataConfig, Pending, PreMetadata, has_none, evict, evict_oldest, oldest_id, projected,
  fit_bytes,
}
use ssync.PreMetadata.Sums.{weigh-get_item}
use ssync.PreMetadata.Evictions.{
  IsBuffered, evict_oldest-IsBuffered, get_item-evict, length-evict_oldest,
}

module _ (config : PreMetadataConfig) (id : Bytes) (size previous : ℕ) (pending : Pending)
    (part : previous ≤ pending.buffered_bytes) where
  abbrev limit : ℕ
  limit = config.pre_metadata_max_pending_bytes

  -- The buffer of the transfer is there, or it was evicted to make room for a larger payload.
  abbrev pub Held : PreMetadata → Type 0
  Held p =
      (get_item bytes_eq id p.pending ≡ some pending)
      ⊎ ((get_item bytes_eq id p.pending ≡ none) × (previous ≤ size))

  abbrev pub Fitted : PreMetadata × Option ℕ → Type 0
  Fitted (p, none) = IsBuffered config p
  Fitted (p, some total) =
      IsBuffered config p
      × Held p
      × (total ≡ projected size previous p)
      × ((total ≤ limit) ⊎ (has_none p.pending ≡ true))

  -- The payload is larger than the one that it replaces, where it does not fit.
  grows :
      (p : PreMetadata)
      → IsBuffered config p
      → get_item bytes_eq id p.pending ≡ some pending
      → ltb limit (projected size previous p) ≡ true
      → previous ≤ size
  grows p h e over =
      let inside = weigh-get_item bytes_eq (λ q. q.buffered_bytes) id pending p.pending e in
      elim h.bounded [
        | inl fits ↦ omega (arith, ltb→lt _ _ over)
        | inr empty ↦ omega (arith, inside)
      ]

  Held-evict :
      (k : Bytes) (p : PreMetadata)
      → IsBuffered config p
      → ltb limit (projected size previous p) ≡ true
      → Held p
      → Held (evict k p)
  Held-evict k p h over (inr (e, g)) = inr (rw (get_item-evict k id p h.keys) (ground arith), g)
  Held-evict k p h over (inl e) = elim (Bool-cases (bytes_eq k id)) [
    | inl same ↦ inr (rw (get_item-evict k id p h.keys) (rw same), grows p h e over)
    | inr other ↦ inl (rw (get_item-evict k id p h.keys) (rw other e))
  ]

  Held-evict_oldest :
      (p : PreMetadata)
      → IsBuffered config p
      → ltb limit (projected size previous p) ≡ true
      → Held p
      → Held (evict_oldest p)
  unfolding evict_oldest
  Held-evict_oldest p h over held = elim (Option-cases (oldest_id p.pending)) [
    | inl e ↦ rw (e, evict_oldest) held
    | inr (k, e) ↦ rw (e, evict_oldest) (Held-evict k p h over held)
  ]

  nothing_left : (d : List (Bytes × Pending)) → length d ≤ 0 → has_none d ≡ true
  nothing_left [] h = refl
  nothing_left (q ∷ d) h = absurd (omega arith)

  Fitted-round :
      (p : PreMetadata) (fewer : PreMetadata × Option ℕ) (over empty : Bool)
      → (o : Option Pending) → over ≡ ltb limit (projected size previous p)
      → empty ≡ has_none p.pending
      → IsBuffered config p
      → Held p
      → (over ≡ true → empty ≡ false → Fitted fewer)
      → Fitted (
          if not (over && not empty) then (p, some (projected size previous p)) else elim o [
            | none ↦ fewer
            | some q ↦ if length p.pending == 1 then (p, none) else fewer
          ])
  Fitted-round p fewer false empty o a b h held k = (h, held, refl, inl (ground arith))
  Fitted-round p fewer true true o a b h held k = (h, held, refl, inr (sym b))
  Fitted-round p fewer true false none a b h held k = k refl refl
  Fitted-round p fewer true false (some q) a b h held k =
      elim (Bool-cases (length p.pending == 1)) [
        | inl one ↦ rw one h
        | inr more ↦ rw more (k refl refl)
      ]

  pub fit_bytes-Fitted :
      (rounds : ℕ) (p : PreMetadata)
      → length p.pending ≤ rounds
      → IsBuffered config p
      → Held p
      → Fitted (fit_bytes rounds limit id size previous p)
  unfolding fit_bytes
  fit_bytes-Fitted zero p enough h held = (h, held, refl, inr (nothing_left p.pending enough))
  fit_bytes-Fitted (suc rounds) p enough h held =
      Fitted-round p _ (ltb limit (projected size previous p)) (has_none p.pending)
        (get_item bytes_eq id p.pending) refl refl h held
        (λ over filled.
          fit_bytes-Fitted rounds (evict_oldest p) (omega (arith, length-evict_oldest p filled))
            (evict_oldest-IsBuffered config p h) (Held-evict_oldest p h over held))
