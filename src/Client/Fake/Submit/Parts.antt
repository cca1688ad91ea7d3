-- ===== src/Client/Fake/Submit/Parts.antt =====
-- client/src/fake.rs: an update by one record, and what a call to sign does to a node in memory.
use adjourn.Prelude.{
  ◌≡◌, refl, sym, ap, ◌∙◌, true, List, [], ◌∷◌, Option, none, some, arith, Bool-cases, inl, inr,
}
use adjourn.Prelude.Lists.{all}
use adjourn.Prelude.Order.{nat_ord, list_ord}
use adjourn.Types.{Bytes, Body, Record, GameParams}
use adjourn.Types.Crypto.{Crypto, sign, verify}
use adjourn.State.{GameState, filter_valid, apply_delta}
use adjourn.Project.Board.{Chess}
use adjourn.Contract.{
  ok, UpdateData, decode_params, decode_state, encode_state, or_deser, check_delta, absorb_delta,
  absorb_update, absorb_updates, update_state,
}
use adjourn.Contract.Cbor.{Codec, IsCodec}
use adjourn.Contract.Update.{bind-ok}
use adjourn.Policy.{GameRecord, SignDecision, decide_sign}
use adjourn.Delegate.{
  handle_sign, sign_loaded, sign_seeded, sign_decided, locally_known_to_be_illegal,
}
use adjourn.Delegate.Api.{Response}
use adjourn.Delegate.Secrets.{SecretCodec, store_game, load_game, load_seed}
use adjourn.Client.Fake.{WorldBackedStore, world_backed_store, fake_node}

module _ ⦃c : Crypto⦄ ⦃codec : Codec⦄ where
  absorb_delta-one :
      (laws : IsCodec codec) (p : GameParams) (s game : GameState) (bytes : Bytes) (r : Record)
      → codec.write_records (r ∷ []) ≡ bytes
      → absorb_delta p s bytes ≡ ok game
      → (verify p r ≡ true) × (apply_delta p s (r ∷ []) ≡ game)
  unfolding absorb_delta all
  absorb_delta-one laws p s game [] r q e = absurd (laws.records_nonempty (r ∷ []) q)
  absorb_delta-one laws p s game (b ∷ bytes) r q e =
      let read : codec.read_records (b ∷ bytes) ≡ some (r ∷ []) =
        ap codec.read_records (sym q) ∙ laws.read_write_records (r ∷ []) in
      let (recs, got, e) = bind-ok (or_deser (codec.read_records (b ∷ bytes))) _ e in
      let same : recs ≡ r ∷ [] = ground arith in
      let (_, checked, e) = bind-ok (check_delta p recs) _ e in
      (checked_one recs same checked, ap (apply_delta p s) (sym same) ∙ ground arith)
    where
      checked_one :
          (recs : List Record) → recs ≡ r ∷ [] → check_delta p recs ≡ ok tt → verify p r ≡ true
      checked_one recs same f = let f = rw same at f in ground arith

  -- An update by one record, inverted.
  pub update_state-one :
      (laws : IsCodec codec) (p : GameParams) (parameters bytes out : Bytes) (r : Record)
      → decode_params parameters ≡ ok p
      → update_state parameters bytes (UpdateData.delta (codec.write_records (r ∷ [])) ∷ [])
        ≡ ok out
      → (base : GameState) × (decode_state bytes ≡ ok base)
        × (verify p r ≡ true)
        × (out ≡ encode_state (apply_delta p (filter_valid p base) (r ∷ [])))
  unfolding update_state absorb_updates absorb_update
  update_state-one laws p parameters bytes out r d e =
      let delta = codec.write_records (r ∷ []) in
      let e = rw d at e in
      let (base, reads, e) = bind-ok (decode_state bytes) _ e in
      let (game, step, e) =
        bind-ok (absorb_updates p (filter_valid p base) (UpdateData.delta delta ∷ [])) _ e in
      let (next, step, last) = bind-ok (absorb_delta p (filter_valid p base) delta) _ step in
      let (verified, added) =
        absorb_delta-one laws p (filter_valid p base) next delta r refl step in
      (base, reads, verified, ground arith)

module _ ⦃c : Crypto⦄ ⦃chess : Chess⦄ ⦃codec : Codec⦄ ⦃secrets : SecretCodec⦄ where
  -- What a call to `handle_sign` leaves: the same world, and a record only if it is signed with the
  -- key of the game's label.
  abbrev Signs : WorldBackedStore → Bytes → Body → WorldBackedStore × Response → Type 0
  Signs s id body out =
      (out.0.world ≡ s.world)
      × ((r : Record)
          → out.1 ≡ Response.signed r
          → (rec : GameRecord) × (seed : Bytes) × (load_game s id ≡ some rec)
            × (load_seed s rec.label ≡ some seed)
            × (r ≡ sign seed rec.params body))

  decided-Signs :
      (s : WorldBackedStore) (id : Bytes) (body : Body) (rec : GameRecord) (seed : Bytes)
      (d : SignDecision)
      → load_game s id ≡ some rec
      → load_seed s rec.label ≡ some seed
      → Signs s id body (sign_decided s seed rec body d)
  unfolding store_game
  decided-Signs s id body rec seed (SignDecision.refuse refusal) there key =
      (refl, λ r e. absurd (ground arith))
  decided-Signs s id body rec seed (SignDecision.sign updated) there key =
      (refl, λ r e. (rec, seed, there, key, ground arith))

  seeded-Signs :
      (s : WorldBackedStore) (id : Bytes) (body : Body) (rec : GameRecord) (seed : Option Bytes)
      → load_game s id ≡ some rec
      → load_seed s rec.label ≡ seed
      → Signs s id body (sign_seeded s none body rec seed)
  seeded-Signs s id body rec none there key = (refl, λ r e. absurd (ground arith))
  seeded-Signs s id body rec (some seed) there key =
      elim (Bool-cases (locally_known_to_be_illegal s rec body)) [
        | inl e ↦ rw e (refl, λ r e. absurd (ground arith))
        | inr e ↦ rw e (decided-Signs s id body rec seed (decide_sign rec body none) there key)
      ]

  loaded-Signs :
      (s : WorldBackedStore) (id : Bytes) (body : Body) (o : Option GameRecord)
      → load_game s id ≡ o
      → Signs s id body (sign_loaded s none body o)
  loaded-Signs s id body none there = (refl, λ r e. absurd (ground arith))
  loaded-Signs s id body (some rec) there =
      seeded-Signs s id body rec (load_seed s rec.label) there refl

  pub handle_sign-Signs :
      (s : WorldBackedStore) (id : Bytes) (body : Body)
      → Signs s id body (handle_sign s none id body)
  unfolding handle_sign
  handle_sign-Signs s id body = loaded-Signs s id body (load_game s id) refl
