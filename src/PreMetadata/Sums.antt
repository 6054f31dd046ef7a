-- ===== src/PreMetadata/Sums.antt =====
-- The bytes in the buffers, under each update of a dictionary.
use ssync.Prelude.{
  ℕ, ◌+◌, ◌≤◌, ◌≡◌, inl, inr, Bool, none, some, List, [], ◌∷◌, arith, ◌==◌, Bool-cases, length, All,
}
use mathlib.Core.Path.{subst}
use ssync.Struct.{Bytes}
use ssync.Dict.{get_item, set_item, pop_item, update_item}
use ssync.PreMetadata.{previous_size}

-- The bytes of the payloads of one buffer.
abbrev pub payload_bytes : List (ℕ × Bytes) → ℕ
payload_bytes [] = 0
payload_bytes (c ∷ rest) = length c.1 + payload_bytes rest

pub payload_bytes-set_item :
    (i : ℕ) (payload : Bytes) (chunks : List (ℕ × Bytes))
    → payload_bytes (set_item ◌==◌ i payload chunks) + previous_size i chunks
      ≡ payload_bytes chunks + length payload
unfolding set_item get_item previous_size
payload_bytes-set_item i payload [] = omega arith
payload_bytes-set_item i payload (c ∷ rest) = ground (arith, payload_bytes-set_item i payload rest)

pub previous_size-le :
    (i : ℕ) (chunks : List (ℕ × Bytes)) → previous_size i chunks ≤ payload_bytes chunks
unfolding get_item previous_size
previous_size-le i [] = omega arith
previous_size-le i (c ∷ rest) = ground (arith, previous_size-le i rest)

module _ {K : Type 0} (eq : K → K → Bool) {V : Type 0} (weight : V → ℕ) where
  abbrev pub weigh : List (K × V) → ℕ
  weigh [] = 0
  weigh (q ∷ rest) = weight q.1 + weigh rest

  pub weigh-pop_item :
      (k : K) (e : V) (d : List (K × V))
      → get_item eq k d ≡ some e
      → weigh (pop_item eq k d) + weight e ≡ weigh d
  unfolding get_item pop_item
  weigh-pop_item k e [] h = absurd (cc)
  weigh-pop_item k e (q ∷ rest) h = ground (arith, weigh-pop_item k e rest)

  pub weigh-update_item :
      (k : K) (f : V → V) (e : V) (d : List (K × V))
      → get_item eq k d ≡ some e
      → weigh (update_item eq k f d) + weight e ≡ weigh d + weight (f e)
  unfolding get_item update_item
  weigh-update_item k f e [] h = absurd (cc)
  weigh-update_item k f e (q ∷ rest) h = ground (arith, weigh-update_item k f e rest)

  pub weigh-set_item_new :
      (k : K) (v : V) (d : List (K × V))
      → get_item eq k d ≡ none
      → weigh (set_item eq k v d) ≡ weigh d + weight v
  unfolding get_item set_item
  weigh-set_item_new k v [] h = omega arith
  weigh-set_item_new k v (q ∷ rest) h = ground (arith, weigh-set_item_new k v rest)

  pub weigh-get_item :
      (k : K) (e : V) (d : List (K × V)) → get_item eq k d ≡ some e → weight e ≤ weigh d
  unfolding get_item
  weigh-get_item k e [] h = absurd (cc)
  weigh-get_item k e (q ∷ rest) h = ground (arith, weigh-get_item k e rest)

-- A predicate on the values, under the same updates.
module _ {K : Type 0} (eq : K → K → Bool) {V : Type 0} (P : V → Type 0) where
  abbrev pub Values : List (K × V) → Type 0
  Values d = All (λ q. P q.1) d

  pub Values-pop_item : (k : K) (d : List (K × V)) → Values d → Values (pop_item eq k d)
  unfolding pop_item
  Values-pop_item k [] h = tt
  Values-pop_item k (q ∷ rest) h = ground (arith, Values-pop_item k rest h.1)

  pub Values-get_item :
      (k : K) (e : V) (d : List (K × V)) → Values d → get_item eq k d ≡ some e → P e
  unfolding get_item
  Values-get_item k e [] h g = absurd (cc)
  Values-get_item k e (q ∷ rest) h g = elim (Bool-cases (eq q.0 k)) [
    | inl same ↦ subst P (ground arith) h.0
    | inr other ↦ Values-get_item k e rest h.1 (ground arith)
  ]

  pub Values-set_item :
      (k : K) (v : V) (d : List (K × V)) → P v → Values d → Values (set_item eq k v d)
  unfolding set_item
  Values-set_item k v [] p h = (p, tt)
  Values-set_item k v (q ∷ rest) p h = ground (arith, Values-set_item k v rest p h.1)

  pub Values-update_item :
      (k : K) (f : V → V) (d : List (K × V))
      → ((e : V) → get_item eq k d ≡ some e → P (f e))
      → Values d
      → Values (update_item eq k f d)
  unfolding get_item update_item
  Values-update_item k f [] g h = tt
  Values-update_item k f (q ∷ rest) g h = elim (Bool-cases (eq q.0 k)) [
    | inl same ↦ ground (arith, g q.1)
    | inr other ↦ ground (arith, Values-update_item k f rest (λ e x. g e (ground arith)) h.1)
  ]
