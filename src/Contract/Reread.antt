-- ===== src/Contract/Reread.antt =====
-- contracts/adjourn-contract/src/lib.rs and common/src/state.rs: any state that decodes, verified or
-- not, survives being encoded again.
use adjourn.Prelude.{
  ◌≡◌, ◌≢◌, refl, ap, ◌∙◌, List, [], ◌∷◌, map, some, arith, Option-cases, inl, inr,
}
use adjourn.Prelude.Order.{nat_ord, list_ord}
use adjourn.BTree.{IsSorted, insert, values}
use adjourn.BTree.Distinct.{insert_new, collect_new, collect_new-IsSorted, collect_new-sorted}
use adjourn.Types.{Bytes, Record}
use adjourn.Types.Crypto.{Crypto, id_of}
use adjourn.State.{Records, GameState, empty}
use adjourn.State.Wire.{keyed, to_sequence, from_sequence}
use adjourn.Contract.{ok, or_deser, read_state, decode_state, encode_state}
use adjourn.Contract.Cbor.{Codec, IsCodec}

module _ ⦃c : Crypto⦄ where
  -- Every record is under its own id.
  abbrev pub Filed : Records → Type 0
  Filed [] = Unit
  Filed ((k, r) ∷ s) = (id_of r ≡ k) × Filed s

  insert-Filed : (r : Record) (s : Records) → Filed s → Filed (insert (id_of r) r s)
  unfolding insert
  insert-Filed r [] h = (refl, tt)
  insert-Filed r ((j, w) ∷ s) h = ground (arith, insert-Filed r s h.1)

  collect_new-Filed :
      (m : Records) (records : List Record) (s : Records)
      → Filed m
      → collect_new m (map keyed records) ≡ some s
      → Filed s
  unfolding collect_new insert_new
  collect_new-Filed m [] s h e = let q : m ≡ s = ground arith in rw (← q) h
  collect_new-Filed m (r ∷ records) s h e =
      collect_new-Filed (insert (id_of r) r m) records s (insert-Filed r m h) (ground arith)

  keyed-values : (s : Records) → Filed s → map keyed (values s) ≡ s
  keyed-values [] h = refl
  keyed-values ((k, r) ∷ s) h = let ih = keyed-values s h.1 in ground arith

  pub from_sequence-Filed :
      (records : List Record) (s : GameState)
      → from_sequence records ≡ some s
      → Filed s.records × IsSorted s.records
  unfolding from_sequence
  from_sequence-Filed records s e = elim (Option-cases (collect_new [] (map keyed records))) [
    | inl f ↦ absurd (ground arith)
    | inr (out, f) ↦
        let q : out ≡ s.records = ground arith in
        rw (← q)
          (collect_new-Filed [] records out tt f, collect_new-IsSorted [] (map keyed records) tt f)
  ]

  pub from_sequence-refiled :
      (s : GameState)
      → Filed s.records
      → IsSorted s.records
      → from_sequence (to_sequence s) ≡ some s
  unfolding from_sequence to_sequence
  from_sequence-refiled s h o = rw (keyed-values s.records h, collect_new-sorted s.records o)

module _ ⦃c : Crypto⦄ ⦃codec : Codec⦄ where
  read_state-Filed :
      (bytes : Bytes) (s : GameState)
      → read_state bytes ≡ some s
      → Filed s.records × IsSorted s.records
  read_state-Filed bytes s e = elim (Option-cases (codec.read_records bytes)) [
    | inl f ↦ absurd (ground arith)
    | inr (records, f) ↦ from_sequence-Filed records s (ground arith)
  ]

  pub decode_state-Filed :
      (bytes : Bytes) (s : GameState)
      → decode_state bytes ≡ ok s
      → Filed s.records × IsSorted s.records
  unfolding decode_state
  decode_state-Filed [] s e = let q : empty ≡ s = ground arith in rw (← q) (tt, tt)
  decode_state-Filed (b ∷ bytes) s e = elim (Option-cases (read_state (b ∷ bytes))) [
    | inl f ↦ absurd (ground arith)
    | inr (t, f) ↦ read_state-Filed (b ∷ bytes) s (ground arith)
  ]

  decode_state-nonempty :
      (bytes : Bytes) (records : List Record)
      → bytes ≢ []
      → codec.read_records bytes ≡ some records
      → decode_state bytes ≡ or_deser (from_sequence records)
  unfolding decode_state
  decode_state-nonempty [] records h e = absurd (h refl)
  decode_state-nonempty (b ∷ bytes) records h e =
      let read : read_state (b ∷ bytes) ≡ from_sequence records = ground arith in ap or_deser read

  pub decode_state-refiled :
      (laws : IsCodec codec) (s : GameState)
      → Filed s.records × IsSorted s.records
      → decode_state (encode_state s) ≡ ok s
  decode_state-refiled laws s h =
      decode_state-nonempty (encode_state s) (to_sequence s) (laws.records_nonempty (to_sequence s))
        (laws.read_write_records (to_sequence s))
      ∙ ap or_deser (from_sequence-refiled s h.0 h.1)
