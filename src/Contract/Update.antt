-- ===== src/Contract/Update.antt =====
-- contracts/adjourn-contract/src/lib.rs: `update_state` and `validate_state` on the states that
-- they decode.
use adjourn.Prelude.{◌≡◌, ◌≢◌, refl, sym, subst, ◌∙◌, true, List, [], ◌∷◌, if◌then◌else◌, arith}
use adjourn.Prelude.Lists.{all}
use adjourn.Prelude.Order.{nat_ord, list_ord}
use adjourn.BTree.{values}
use adjourn.Types.{Bytes, GameParams}
use adjourn.Types.Crypto.{Crypto, verify}
use adjourn.State.{GameState, Records, empty, merge, filter_valid, all_valid, apply_delta}
use adjourn.State.Holds.{Holds}
use adjourn.State.Merge.{IsValid, merge-IsValid, apply_delta-IsValid, filter_valid-IsValid}
use adjourn.State.Wire.{to_sequence, from_sequence-to_sequence}
use adjourn.Contract.Cbor.{Codec, IsCodec}
use adjourn.Contract.{
  Result, ok, err, ◌>>=◌, or_deser, ValidateResult, UpdateData, decode_state, decode_params,
  encode_state, read_state, check_valid, validate_state, absorb_state, absorb_delta, check_delta,
  absorb_update, absorb_updates, update_state,
}

-- Inversion of a successful bind.
pub bind-ok {ℓ κ} :
    {T : Type ℓ} {U : Type κ} {u : U} (first : Result T) (next : T → Result U)
    → (first >>= next) ≡ ok u
    → (t : T) × (first ≡ ok t) × (next t ≡ ok u)
bind-ok (err _) next e = absurd (ground arith)
bind-ok (ok t) next e = (t, refl, e)

module _ ⦃c : Crypto⦄ ⦃codec : Codec⦄ where
  absorb_state-IsValid :
      (p : GameParams) (game next : GameState) (bytes : Bytes)
      → IsValid p game
      → absorb_state p game bytes ≡ ok next
      → IsValid p next
  unfolding absorb_state
  absorb_state-IsValid p game next bytes v e =
      let (incoming, _, rest) = bind-ok (decode_state bytes) _ e in
      let (_, _, last) = bind-ok (check_valid incoming p) _ rest in
      let q : merge p game incoming ≡ next = ground arith in
      rw (← q) (merge-IsValid p game incoming v)

  absorb_delta-IsValid :
      (p : GameParams) (game next : GameState) (bytes : Bytes)
      → IsValid p game
      → absorb_delta p game bytes ≡ ok next
      → IsValid p next
  unfolding absorb_delta
  absorb_delta-IsValid p game next [] v e =
      let q : game ≡ next = ground arith in subst (IsValid p) q v
  absorb_delta-IsValid p game next (b ∷ bytes) v e =
      let (recs, _, rest) = bind-ok (or_deser (codec.read_records (b ∷ bytes))) _ e in
      let (_, _, last) = bind-ok (check_delta p recs) _ rest in
      let q : apply_delta p game recs ≡ next = ground arith in
      subst (IsValid p) q (apply_delta-IsValid p game recs v)

  absorb_update-IsValid :
      (p : GameParams) (game next : GameState) (update : UpdateData)
      → IsValid p game
      → absorb_update p game update ≡ ok next
      → IsValid p next
  unfolding absorb_update
  absorb_update-IsValid p game next (UpdateData.state bytes) v e =
      absorb_state-IsValid p game next bytes v e
  absorb_update-IsValid p game next (UpdateData.delta bytes) v e =
      absorb_delta-IsValid p game next bytes v e
  absorb_update-IsValid p game next (UpdateData.state_and_delta bytes recs) v e =
      let (game', first, rest) = bind-ok (absorb_state p game bytes) _ e in
      absorb_delta-IsValid p game' next recs (absorb_state-IsValid p game game' bytes v first) rest
  absorb_update-IsValid p game next UpdateData.related_state v e =
      let q : game ≡ next = ground arith in subst (IsValid p) q v
  absorb_update-IsValid p game next UpdateData.related_delta v e =
      let q : game ≡ next = ground arith in subst (IsValid p) q v
  absorb_update-IsValid p game next UpdateData.related_state_and_delta v e =
      let q : game ≡ next = ground arith in subst (IsValid p) q v
  absorb_update-IsValid p game next UpdateData.unknown v e = absurd (ground arith)

  pub absorb_updates-IsValid :
      (p : GameParams) (game next : GameState) (updates : List UpdateData)
      → IsValid p game
      → absorb_updates p game updates ≡ ok next
      → IsValid p next
  unfolding absorb_updates
  absorb_updates-IsValid p game next [] v e =
      let q : game ≡ next = ground arith in subst (IsValid p) q v
  absorb_updates-IsValid p game next (update ∷ updates) v e =
      let (game', first, rest) = bind-ok (absorb_update p game update) _ e in
      absorb_updates-IsValid p game' next updates
        (absorb_update-IsValid p game game' update v first) rest

  pub values-verify : (p : GameParams) (s : Records) → Holds p s → all (verify p) (values s) ≡ true
  unfolding all
  values-verify p [] h = refl
  values-verify p ((k, r) ∷ s) h = let ih = values-verify p s h.2 in ground arith

  decode_state-read_state :
      (bytes : Bytes) → bytes ≢ [] → decode_state bytes ≡ or_deser (read_state bytes)
  unfolding decode_state
  decode_state-read_state [] h = absurd (h refl)
  decode_state-read_state (b ∷ bytes) h = refl

  -- Of bytes that decode, `validate_state` says whether every record verifies.
  pub validate_state-decode_state :
      (p : GameParams) (s : GameState) (parameters bytes : Bytes)
      → decode_params parameters ≡ ok p
      → decode_state bytes ≡ ok s
      → validate_state parameters bytes
        ≡ ok (if all_valid p s then ValidateResult.valid else ValidateResult.invalid)
  unfolding validate_state decode_state all_valid all
  validate_state-decode_state p s parameters [] d e =
      let q : empty ≡ s = ground arith in rw (← q) refl
  validate_state-decode_state p s parameters (b ∷ bytes) d e = rw (d, e) refl

  module _ (laws : IsCodec codec) where
    -- A valid state survives `encode` and `decode_state`.
    pub decode_state-encode_state :
        (p : GameParams) (s : GameState) → IsValid p s → decode_state (encode_state s) ≡ ok s
    decode_state-encode_state p s v =
        let written = laws.records_nonempty (to_sequence s) in
        let read = laws.read_write_records (to_sequence s) in
        let back = from_sequence-to_sequence p s v.sorted v.holds in
        decode_state-read_state (encode_state s) written ∙ ground arith

    -- If the parameters decode and `update_state` returns bytes, then, whatever the stored bytes
    -- and the updates are, the bytes are the encoding of a valid state, and `validate_state`
    -- accepts them. CBOR reads back what it wrote.
    pub update_state-IsValid :
        (p : GameParams) (parameters bytes out : Bytes) (updates : List UpdateData)
        → decode_params parameters ≡ ok p
        → update_state parameters bytes updates ≡ ok out
        → ((game : GameState) × IsValid p game × (out ≡ encode_state game))
          × (validate_state parameters out ≡ ok ValidateResult.valid)
    unfolding update_state all_valid
    update_state-IsValid p parameters bytes out updates d e =
        let (q, read, rest) = bind-ok (decode_params parameters) _ e in
        let same : q ≡ p = ground arith in
        let (base, _, rest) = bind-ok (decode_state bytes) _ rest in
        let (game, run, last) = bind-ok (absorb_updates q (filter_valid q base) updates) _ rest in
        let run : absorb_updates p (filter_valid p base) updates ≡ ok game = rw (← same) run in
        let v = absorb_updates-IsValid p _ game updates (filter_valid-IsValid p base) run in
        let written : encode_state game ≡ out = ground arith in
        let back : decode_state out ≡ ok game =
          rw (← written) (decode_state-encode_state p game v) in
        let good = values-verify p game.records v.holds in
        (
          (game, v, sym written),
          validate_state-decode_state p game parameters out d back ∙ ground arith,
        )
