-- ===== src/Delegate/Signing.antt =====
-- delegates/adjourn-delegate/src/lib.rs: what `handle_sign` and `handle` do to the store, and when a
-- signature is handed out.
use adjourn.Prelude.{
  ◌≡◌, refl, sym, ap, subst, ◌∙◌, Bool, true, false, Option, none, some, if◌then◌else◌, arith,
  Bool-cases, inl, inr,
}
use adjourn.Prelude.Order.{◌==◌, nat_ord, list_ord, eq_of_==}
use adjourn.Types.{Bytes, Body}
use adjourn.Types.Crypto.{Crypto, game_id, IsWideHash, sign}
use adjourn.Project.Board.{Chess}
use adjourn.Contract.Cbor.{Codec}
use adjourn.Policy.{Refusal, GameRecord, SignDecision, decide_sign}
use adjourn.Policy.Guard.{decide_sign-kept}
use adjourn.Delegate.{
  handle, handle_sign, handle_list_games, sign_loaded, sign_seeded, sign_decided, signed_with,
  refuse_with, locally_known_to_be_illegal,
}
use adjourn.Delegate.Api.{Request, Response}
use adjourn.Delegate.Secrets.{SecretStore, SecretCodec, load_game, load_seed, store_game}
use adjourn.Delegate.Laws.{IsStore, IsSecretCodec, store_game-Stored}
use adjourn.Delegate.Guards.{IsKeyed, Guards, Stored-Guards}
use adjourn.Delegate.Steps.{Step, SameGames-self, sign-Write}
use adjourn.Delegate.Handlers.{
  handle_create_game_key-Step, handle_bind_game-Step, handle_rebind_game-Step,
}

abbrev pub body_in : Response → Option Body
body_in (Response.signed r) = some r.body
body_in (Response.game_key _ _ _) = none
body_in (Response.bound _) = none
body_in (Response.games _) = none
body_in (Response.refused _) = none

-- The body that a response to a request hands out a signature of, for one game.
abbrev pub released : Bytes → Request → Response → Option Body
released id (Request.sign game body) response = if game == id then body_in response else none
released id (Request.create_game_key _ _) response = none
released id (Request.bind_game _ _ _) response = none
released id (Request.rebind _ _) response = none
released id Request.list_games response = none

module _ ⦃c : Crypto⦄ ⦃chess : Chess⦄ ⦃codec : Codec⦄ ⦃secrets : SecretCodec⦄ {S : Type 0}
    ⦃store : SecretStore S⦄ where
  module _ (laws : IsStore store) (codec_laws : IsSecretCodec secrets) (wide : IsWideHash) where
    signed_with-first :
        (seed : Bytes) (rec : GameRecord) (body : Body) (out : S × Bool)
        → (signed_with seed rec body out).0 ≡ out.0
    signed_with-first seed rec body (t, false) = refl
    signed_with-first seed rec body (t, true) = refl

    signed_with-body :
        (seed : Bytes) (rec : GameRecord) (body b : Body) (out : S × Bool)
        → body_in (signed_with seed rec body out).1 ≡ some b
        → (b ≡ body) × (out.1 ≡ true)
    unfolding sign
    signed_with-body seed rec body b (t, false) e = absurd (ground arith)
    signed_with-body seed rec body b (t, true) e = (ground arith, refl)

    -- A signature is handed out for a record that is there, after a decision to sign, and when
    -- the updated record guards the game.
    abbrev pub Released : S → Bytes → Option Bytes → Body → S → Type 0
    Released s id origin b t =
        (rec : GameRecord) × (updated : GameRecord) × (load_game s id ≡ some rec)
        × (decide_sign rec b origin ≡ SignDecision.sign updated)
        × Guards t id updated

    module _ (s : S) (keyed : IsKeyed s) (origin : Option Bytes) (id : Bytes) (body : Body) where
      decided :
          (rec : GameRecord)
          → load_game s id ≡ some rec
          → (seed : Bytes) (d : SignDecision) → decide_sign rec body origin ≡ d
          → Step s (sign_decided s seed rec body d).0
            × ((b : Body)
                → body_in (sign_decided s seed rec body d).1 ≡ some b
                → Released s id origin b (sign_decided s seed rec body d).0)
      decided rec there seed (SignDecision.refuse refusal) e =
          (Step.quiet (SameGames-self s), λ b f. absurd (ground arith))
      decided rec there seed (SignDecision.sign updated) e =
          let (w, format) = sign-Write s id rec body origin updated keyed there e in
          let stored = store_game-Stored laws codec_laws wide s updated format in
          let (_, same_params, _) = decide_sign-kept rec body origin updated e in
          let at : game_id updated.params ≡ id = ap game_id same_params ∙ keyed id rec there in
          let first = signed_with-first seed rec body (store_game s updated) in
          (
            Step.wrote updated (store_game s updated) w stored (sym first),
            λ b f.
                let (same, ok) = signed_with-body seed rec body b (store_game s updated) f in
                (
                  rec,
                  updated,
                  there,
                  rw same e,
                  subst (λ t. Guards t id updated) (sym first)
                      (subst (λ j. Guards (store_game s updated).0 j updated) at
                        (Stored-Guards s updated (store_game s updated) stored ok)),
                ),
          )

      -- What a step of `handle_sign` does, for the response that it gives.
      abbrev Signing : S × Response → Type 0
      Signing out =
          Step s out.0 × ((b : Body) → body_in out.1 ≡ some b → Released s id origin b out.0)

      refused-Signing : (refusal : Refusal) → Signing (refuse_with s refusal)
      refused-Signing refusal = (Step.quiet (SameGames-self s), λ b f. absurd (ground arith))

      seeded :
          (rec : GameRecord)
          → load_game s id ≡ some rec
          → (seed : Option Bytes) → Signing (sign_seeded s origin body rec seed)
      seeded rec there none = refused-Signing Refusal.unknown_label
      seeded rec there (some seed) = elim (Bool-cases (locally_known_to_be_illegal s rec body)) [
        | inl e ↦ rw e (refused-Signing Refusal.illegal_move)
        | inr e ↦ rw e (decided rec there seed (decide_sign rec body origin) refl)
      ]

      loaded : (o : Option GameRecord) → load_game s id ≡ o → Signing (sign_loaded s origin body o)
      loaded none e = refused-Signing Refusal.unknown_game
      loaded (some rec) e = seeded rec e (load_seed s rec.label)

      handle_sign-Signing : Signing (handle_sign s origin id body)
      unfolding handle_sign
      handle_sign-Signing = loaded (load_game s id) refl

    pub handle-Step :
        (s : S) (entropy : Bytes × Bytes) (origin : Option Bytes) (request : Request)
        → IsKeyed s
        → Step s (handle entropy s origin request).0
    unfolding handle handle_list_games
    handle-Step s entropy origin (Request.create_game_key label caller) keyed =
        handle_create_game_key-Step laws codec_laws wide entropy s origin label caller
    handle-Step s entropy origin (Request.bind_game label params contract) keyed =
        handle_bind_game-Step laws codec_laws wide s origin label params contract keyed
    handle-Step s entropy origin (Request.rebind label contract) keyed =
        handle_rebind_game-Step laws codec_laws wide s origin label contract keyed
    handle-Step s entropy origin (Request.sign id body) keyed =
        (handle_sign-Signing s keyed origin id body).0
    handle-Step s entropy origin Request.list_games keyed = Step.quiet (SameGames-self s)

    -- If a call hands out a signature of a body for a game, the record of the game was in the
    -- store, `decide_sign` signs the body for the caller, and after the call the store has the
    -- updated record under the game's id, with its label bound to a game that is there. Before the
    -- call each record is stored under the id of its own game; the store keeps its law, records are
    -- read back as they were written, and hashes have 32 bytes.
    pub handle-Released :
        (s : S) (entropy : Bytes × Bytes) (origin : Option Bytes) (request : Request) (id : Bytes)
        (b : Body)
        → IsKeyed s
        → released id request (handle entropy s origin request).1 ≡ some b
        → Released s id origin b (handle entropy s origin request).0
    unfolding handle
    handle-Released s entropy origin (Request.sign game body) id b keyed e =
        elim (Bool-cases (game == id)) [
          | inl f ↦
              subst (λ j. Released s j origin b (handle_sign s origin game body).0)
                (eq_of_== game id f)
                ((handle_sign-Signing s keyed origin game body).1 b (ground arith))
          | inr f ↦ absurd (ground arith)
        ]
    handle-Released s entropy origin (Request.create_game_key _ _) id b keyed e =
        absurd (ground arith)
    handle-Released s entropy origin (Request.bind_game _ _ _) id b keyed e = absurd (ground arith)
    handle-Released s entropy origin (Request.rebind _ _) id b keyed e = absurd (ground arith)
    handle-Released s entropy origin Request.list_games id b keyed e = absurd (ground arith)
