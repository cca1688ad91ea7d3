-- ===== src/State/Wire.antt =====
-- common/src/state.rs: what a state and a summary are on the wire. A state is the bare sequence of
-- its records; a summary is packed into one byte string of 64-byte entries.
use adjourn.Prelude.{
  ℕ, zero, suc, ◌*◌, ◌/◌, ◌%◌, ◌≡◌, refl, ap, List, [], ◌∷◌, ◌++◌, map, Option, none, some, nat_eq,
  if◌then◌else◌, arith, Option-cases, inl, inr, ◌>>=◌,
}
use mathlib.Core.List.{append_assoc}
use adjourn.Prelude.Lists.{length, take, drop, length-append, take-append, drop-append}
use adjourn.Prelude.Order.{nat_ord, list_ord}
use adjourn.BTree.{IsSorted, values}
use adjourn.BTree.Distinct.{
  collect_new, collect_new-sorted, collect_new-IsSorted, length-collect_new,
}
use adjourn.Types.{Bytes, RecordId, Record, GameParams}
use adjourn.Types.Crypto.{Crypto, id_of}
use adjourn.State.{Records, GameState}
use adjourn.State.Holds.{Holds}
use adjourn.State.Summary.{SigDigest, Summary}

module _ ⦃c : Crypto⦄ where
  -- `serialize` collects `records.values()`
  unfoldable pub to_sequence : GameState → List Record
  to_sequence s = values s.records

  abbrev pub keyed : Record → RecordId × Record
  keyed r = (id_of r, r)

  -- `deserialize`: a repeated id is an error
  unfoldable pub from_sequence : List Record → Option GameState
  from_sequence records = do
    out ← collect_new [] (map keyed records)
    some (record { records = out })

  keyed-values : (p : GameParams) (s : Records) → Holds p s → map keyed (values s) ≡ s
  keyed-values p [] h = refl
  keyed-values p ((k, r) ∷ s) h = let ih = keyed-values p s h.2 in ground arith

  -- A state of verified records under their own ids, in key order, is read back from its wire form
  -- as it was.
  pub from_sequence-to_sequence :
      (p : GameParams) (s : GameState)
      → IsSorted s.records
      → Holds p s.records
      → from_sequence (to_sequence s) ≡ some s
  unfolding from_sequence to_sequence
  from_sequence-to_sequence p s o h =
      rw (keyed-values p s.records h, collect_new-sorted s.records o)

  length-map : {A B : Type 0} (f : A → B) (xs : List A) → length (map f xs) ≡ length xs
  length-map f [] = refl
  length-map f (x ∷ xs) = ap suc (length-map f xs)

  -- A sequence of records that is decoded is decoded whole: the state has as many records as the
  -- sequence, in key order.
  pub from_sequence_whole :
      (records : List Record) (s : GameState)
      → from_sequence records ≡ some s
      → (length s.records ≡ length records) × IsSorted s.records
  unfolding from_sequence
  from_sequence_whole records s e = elim (Option-cases (collect_new [] (map keyed records))) [
    | inl f ↦ absurd (ground arith)
    | inr (out, f) ↦
        let q : out ≡ s.records = ground arith in
        rw (← q) (
          omega (arith, length-collect_new [] (map keyed records) f, length-map keyed records),
          collect_new-IsSorted [] (map keyed records) tt f,
        )
  ]

-- `for (id, digest) in &self.0 { buf.extend(id); buf.extend(digest) }`
unfoldable pub pack : Summary → Bytes
pack [] = []
pack ((id, digest) ∷ s) = id ++ (digest ++ pack s)

-- `buf.chunks_exact(64)`, each split at 32; the first argument counts the chunks
unfoldable pub chunks : ℕ → Bytes → List (RecordId × SigDigest)
chunks zero buf = []
chunks (suc n) buf = (take 32 (take 64 buf), drop 32 (take 64 buf)) ∷ chunks n (drop 64 buf)

unfoldable pub unpack : Bytes → Option Summary
unpack buf =
    if nat_eq (length buf % 64) 0 then collect_new [] (chunks (length buf / 64) buf) else none

-- Every id and every digest has its 32 bytes.
abbrev pub IsWide : Summary → Type 0
IsWide [] = Unit
IsWide ((id, digest) ∷ s) = (length id ≡ 32) × (length digest ≡ 32) × IsWide s

-- Exactly 64 bytes a record.
pub length-pack : (s : Summary) → IsWide s → length (pack s) ≡ 64 * length s
unfolding pack
length-pack [] h = omega arith
length-pack ((id, digest) ∷ s) h =
    omega
      (arith, length-append id (digest ++ pack s), length-append digest (pack s), length-pack s h.2)

chunks-pack : (s : Summary) → IsWide s → chunks (length s) (pack s) ≡ s
unfolding pack chunks
chunks-pack [] h = refl
chunks-pack ((id, digest) ∷ s) h =
    let wide : length (id ++ digest) ≡ 64 = omega (arith, length-append id digest) in
    rw (
      ← append_assoc id digest (pack s),
      take-append 64 (id ++ digest) (pack s) wide,
      drop-append 64 (id ++ digest) (pack s) wide,
      take-append 32 id digest h.0,
      drop-append 32 id digest h.0,
      chunks-pack s h.2,
    )

-- A summary in key order survives the packing.
pub unpack-pack : (s : Summary) → IsSorted s → IsWide s → unpack (pack s) ≡ some s
unfolding unpack
unpack-pack s o h =
    let n = length-pack s h in
    let q : length (pack s) / 64 ≡ length s = omega arith in
    let z : length (pack s) % 64 ≡ 0 = omega arith in
    ground (arith, chunks-pack s h, collect_new-sorted s o)
