-- ===== src/Server/Table.antt =====
-- The table of transfers and its index by signature.
pub mod Changes
use ssync.Prelude.{◌≡◌, refl, true, some, List, [], arith}
use ssync.Struct.{Bytes}
use ssync.Dict.{get_item, set_item, pop_item, IsDict}
use ssync.Dict.Cases.{set_same, set_other, set_cases, pop_other, pop_cases, differ}
use ssync.Dict.Update.{set_item-IsDict, pop_item-IsDict}
use ssync.Frames.{bytes_eq}
use ssync.Frames.Equal.{bytes_eq_refl, bytes_eq_sound}
use ssync.Receiver.{Transfer}
use ssync.Server.{Signature, manifest_signature, signature_eq}

pub signature_eq_refl : (g : Signature) → signature_eq g g ≡ true
signature_eq_refl (size, chunk_size, hash, name) =
    ground (arith, bytes_eq_refl hash, bytes_eq_refl name)

pub signature_eq_sound : (g h : Signature) → signature_eq g h ≡ true → g ≡ h
signature_eq_sound (a, b, c, d) (a', b', c', d') e =
    let first : a ≡ a' = ground (arith, e) in
    let second : b ≡ b' = ground (arith, e) in
    let third : c ≡ c' = bytes_eq_sound c c' (ground (arith, e)) in
    let fourth : d ≡ d' = bytes_eq_sound d d' (ground (arith, e)) in
    rw (first, second, third, fourth) refl

abbrev pub signature_of : Transfer → Signature
signature_of t = manifest_signature t.manifest

-- No key is there twice, each transfer stands under the id of its manifest, and the index leads from
-- the signature of each transfer to it, and from no other signature to anything.
pub record IsTable (transfers : List (Bytes × Transfer)) (index : List (Signature × Bytes))
    : Type 0 where
  pub keys : IsDict bytes_eq transfers
  pub signatures : IsDict signature_eq index
  pub named :
      (id : Bytes) (t : Transfer)
      → get_item bytes_eq id transfers ≡ some t
      → t.manifest.transfer_id ≡ id
  pub indexed :
      (id : Bytes) (t : Transfer)
      → get_item bytes_eq id transfers ≡ some t
      → get_item signature_eq (signature_of t) index ≡ some id
  pub pointed :
      (g : Signature) (id : Bytes)
      → get_item signature_eq g index ≡ some id
      → (t : Transfer) × (get_item bytes_eq id transfers ≡ some t) × (signature_of t ≡ g)

pub empty-IsTable : IsTable [] []
unfolding get_item
empty-IsTable = record {
  keys = tt;
  signatures = tt;
  named = λ id t e. absurd (cc);
  indexed = λ id t e. absurd (cc);
  pointed = λ g id e. absurd (cc);
}
