-- ===== src/Contract/Sync.antt =====
-- contracts/adjourn-contract/src/lib.rs: one round of `summarize_state`, `get_state_delta` and
-- `update_state`, bytes to bytes.
use adjourn.Prelude.{◌≡◌, ◌≢◌, refl, sym, ap, subst, ◌∙◌, true, List, [], ◌∷◌, some, or_else-none}
use adjourn.Prelude.Lists.{length, all, retain}
use adjourn.Prelude.Order.{nat_ord, list_ord}
use adjourn.BTree.{get, IsSorted}
use adjourn.BTree.Laws.{map_ext}
use adjourn.BTree.Scan.{collect, collect-IsSorted, get-collect, map_values, map_values-IsSorted}
use adjourn.Types.{Bytes, GameParams, Record}
use adjourn.Types.Crypto.{IsWideHash, Crypto, verify, id_of, sig_digest}
use adjourn.State.{GameState, Records, absorb_all, merge, apply_delta}
use adjourn.State.Holds.{Holds}
use adjourn.State.Union.{IsCollisionFree}
use adjourn.State.Merge.{IsValid, filter_valid_self, state_path}
use adjourn.State.Summary.{
  Summary, summarize, delta_against, IsDigestFree, retain-Holds, is_news, apply_delta-delta_against,
  delta_against_self,
}
use adjourn.State.Wire.{pack, unpack, IsWide, unpack-pack}
use adjourn.Contract.Cbor.{Codec, IsCodec}
use adjourn.Contract.{
  ok, or_deser, UpdateData, decode_params, encode_state, encode_delta, absorb_delta, absorb_update,
  absorb_updates, update_state, summarize_state, decode_summary, get_state_delta,
}
use adjourn.Contract.Update.{decode_state-encode_state, values-verify}

module _ ⦃c : Crypto⦄ where
  -- A summary is the map of the digests, without the collecting.
  summarize-map_values :
      (s : GameState) → IsSorted s.records → summarize s ≡ map_values sig_digest s.records
  unfolding summarize get
  summarize-map_values s h =
      let digests = map_values sig_digest s.records in
      let o = map_values-IsSorted sig_digest s.records h in
      map_ext (collect [] digests) digests (collect-IsSorted [] digests tt) o
        (λ k. get-collect k [] digests o ∙ or_else-none (get k digests))

  map_values-IsWide :
      (p : GameParams) (s : Records) → IsWideHash → Holds p s → IsWide (map_values sig_digest s)
  unfolding id_of sig_digest
  map_values-IsWide p [] wide h = tt
  map_values-IsWide p ((k, r) ∷ s) wide h =
      (subst (λ i. length i ≡ 32) h.0 (wide _), wide _, map_values-IsWide p s wide h.2)

module _ ⦃c : Crypto⦄ ⦃codec : Codec⦄ (laws : IsCodec codec) where
  summarize_state-encode_state :
      (p : GameParams) (parameters : Bytes) (s : GameState)
      → decode_params parameters ≡ ok p
      → IsValid p s
      → summarize_state parameters (encode_state s) ≡ ok (codec.write_bytes (pack (summarize s)))
  unfolding summarize_state
  summarize_state-encode_state p parameters s d v =
      rw (d, decode_state-encode_state laws p s v, filter_valid_self p s v) refl

  decode_summary-nonempty :
      (b packed : Bytes)
      → b ≢ []
      → codec.read_bytes b ≡ some packed
      → decode_summary b ≡ or_deser (unpack packed)
  unfolding decode_summary
  decode_summary-nonempty [] packed h e = absurd (h refl)
  decode_summary-nonempty (n ∷ b) packed h e = rw e refl

  -- The summary of a valid state is read back as it was.
  decode_summary-summarize :
      (p : GameParams) (s : GameState)
      → IsWideHash
      → IsValid p s
      → decode_summary (codec.write_bytes (pack (summarize s))) ≡ ok (summarize s)
  decode_summary-summarize p s wide v =
      let o = map_values-IsSorted sig_digest s.records v.sorted in
      let packed =
        unpack-pack (map_values sig_digest s.records) o
          (map_values-IsWide p s.records wide v.holds) in
      rw (summarize-map_values s v.sorted) (
        decode_summary-nonempty _ _ (laws.bytes_nonempty _) (laws.read_write_bytes _)
        ∙ ap or_deser packed)

  get_state_delta-encode_state :
      (p : GameParams) (parameters summary : Bytes) (s : GameState) (known : Summary)
      → decode_params parameters ≡ ok p
      → IsValid p s
      → decode_summary summary ≡ ok known
      → get_state_delta parameters (encode_state s) summary
        ≡ ok (encode_delta (delta_against s known))
  unfolding get_state_delta
  get_state_delta-encode_state p parameters summary s known d v e =
      rw (d, decode_state-encode_state laws p s v, e, filter_valid_self p s v) refl

  absorb_delta-nonempty :
      (p : GameParams) (game : GameState) (b : Bytes) (recs : List Record)
      → b ≢ []
      → codec.read_records b ≡ some recs
      → all (verify p) recs ≡ true
      → absorb_delta p game b ≡ ok (apply_delta p game recs)
  unfolding absorb_delta
  absorb_delta-nonempty p game [] recs h e good = absurd (h refl)
  absorb_delta-nonempty p game (n ∷ b) recs h e good = rw (e, good) refl

  -- A delta of verified records is applied whole, the empty one included.
  absorb_delta-encode_delta :
      (p : GameParams) (game : GameState) (recs : List Record)
      → IsValid p game
      → all (verify p) recs ≡ true
      → absorb_delta p game (encode_delta recs) ≡ ok (apply_delta p game recs)
  unfolding absorb_delta apply_delta absorb_all
  absorb_delta-encode_delta p game [] v good = ap ok (state_path (sym v.bounded))
  absorb_delta-encode_delta p game (r ∷ recs) v good =
      absorb_delta-nonempty p game (codec.write_records (r ∷ recs)) (r ∷ recs)
        (laws.records_nonempty (r ∷ recs)) (laws.read_write_records (r ∷ recs)) good

  -- An update by a delta of verified records returns the state with the delta applied.
  pub update_state-delta :
      (p : GameParams) (parameters : Bytes) (game : GameState) (recs : List Record)
      → decode_params parameters ≡ ok p
      → IsValid p game
      → all (verify p) recs ≡ true
      → update_state parameters (encode_state game) (UpdateData.delta (encode_delta recs) ∷ [])
        ≡ ok (encode_state (apply_delta p game recs))
  unfolding update_state absorb_updates absorb_update
  update_state-delta p parameters game recs d v good =
      rw
        (
          d,
          decode_state-encode_state laws p game v,
          filter_valid_self p game v,
          absorb_delta-encode_delta p game recs v good,
        )
        refl

  -- One round from bytes to bytes, between two valid states, ours and a peer's: our summary, the
  -- peer's delta against it, our update by that delta. None of the three fails, and the update
  -- returns the encoding of the merge of the two states. CBOR reads back what it wrote, hashes have
  -- 32 bytes, and among verified records neither ids nor signature digests collide.
  pub sync_round :
      (p : GameParams) (parameters : Bytes) (ours theirs : GameState)
      → IsWideHash
      → IsCollisionFree p
      → IsDigestFree p
      → decode_params parameters ≡ ok p
      → IsValid p ours
      → IsValid p theirs
      → (summary : Bytes) × (delta : Bytes) × (summarize_state parameters (encode_state ours)
          ≡ ok summary)
        × (get_state_delta parameters (encode_state theirs) summary ≡ ok delta)
        × (update_state parameters (encode_state ours) (UpdateData.delta delta ∷ [])
            ≡ ok (encode_state (merge p ours theirs)))
  unfolding delta_against
  sync_round p parameters ours theirs wide free digest_free d v w =
      let recs = delta_against theirs (summarize ours) in
      let good =
        values-verify p (retain (is_news (summarize ours)) theirs.records)
          (retain-Holds p (is_news (summarize ours)) theirs.records w.holds) in
      let applied = apply_delta-delta_against p free digest_free ours theirs v w in
      (
        codec.write_bytes (pack (summarize ours)),
        encode_delta recs,
        summarize_state-encode_state p parameters ours d v,
        get_state_delta-encode_state p parameters _ theirs (summarize ours) d w
            (decode_summary-summarize p ours wide v),
        update_state-delta p parameters ours recs d v good ∙ ap (λ s. ok (encode_state s)) applied,
      )

  -- The delta of a valid state against the summary of the same state is zero bytes, and neither
  -- call fails. CBOR reads back what it wrote, and hashes have 32 bytes.
  pub get_state_delta_self :
      (p : GameParams) (parameters : Bytes) (s : GameState)
      → IsWideHash
      → decode_params parameters ≡ ok p
      → IsValid p s
      → (summary : Bytes) × (summarize_state parameters (encode_state s) ≡ ok summary)
        × (get_state_delta parameters (encode_state s) summary ≡ ok [])
  get_state_delta_self p parameters s wide d v = (
    codec.write_bytes (pack (summarize s)),
    summarize_state-encode_state p parameters s d v,
    get_state_delta-encode_state p parameters _ s (summarize s) d v
          (decode_summary-summarize p s wide v)
        ∙ ap (λ recs. ok (encode_delta recs)) (delta_against_self s v.sorted),
  )
