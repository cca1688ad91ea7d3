-- ===== src/Client/Fake/Joining/Binds.antt =====
-- client/src/session.rs on client/src/fake.rs: what a bind of a label without a game has written.
use adjourn.Prelude.{
  ◌≡◌, refl, sym, ap, subst, ◌∙◌, Option, none, some, arith, Bool-cases, Option-cases, inl, inr,
}
use adjourn.Prelude.Order.{nat_ord, list_ord}
use adjourn.Types.{Bytes, KeyBytes, GameParams, color_of}
use adjourn.Types.Crypto.{Crypto, game_id, IsWideHash}
use adjourn.Project.Board.{Chess}
use adjourn.Contract.Cbor.{Codec}
use adjourn.Policy.{GameRecord, EntropyQuality, BindDecision, decide_bind, opt_eq}
use adjourn.Policy.Bind.{decide_bind_new}
use adjourn.Delegate.{
  handle, handle_create_game_key, handle_bind_game, bind_seeded, bind_decided, held_by_other,
  or_degraded,
}
use adjourn.Delegate
use adjourn.Delegate.Api.{Response}
use adjourn.Delegate.Laws.{IsSecretCodec, SameGames}
use adjourn.Delegate.Secrets.{
  SecretStore, SecretCodec, store_game, load_seed, load_owner, load_quality, load_game,
  load_bound_game_id,
}
use adjourn.Client.{done}
use adjourn.Client.Node.{Freenet}
use adjourn.Client.Setup.{expect_bound, key_in, bind_to}
use adjourn.Client.Fake.{FakeNode, world_backed_store, Host, contracts, ask_delegate, fake_node}
use adjourn.Client.Fake.Migrating.Steps.{rebound_game, store_game-contracts}

pub key_in-same :
    {N : Type 0} (response : Response) (n n' : N) (key : KeyBytes)
    → key_in response n ≡ (n', done key)
    → n ≡ n'
key_in-same (Response.game_key label public_key quality) n n' key e = ap (λ o. o.0) e
key_in-same (Response.refused r) n n' key e = absurd (ground arith)
key_in-same (Response.bound id) n n' key e = absurd (ground arith)
key_in-same (Response.signed r) n n' key e = absurd (ground arith)
key_in-same (Response.games gs) n n' key e = absurd (ground arith)

module _ ⦃c : Crypto⦄ ⦃secrets : SecretCodec⦄ {S : Type 0} ⦃store : SecretStore S⦄ where
  pub SameGames-bound_game :
      (s t : S) (label : Bytes)
      → SameGames s t
      → Delegate.bound_game t label ≡ Delegate.bound_game s label
  SameGames-bound_game s t label same = elim (Option-cases (load_bound_game_id s label)) [
    | inl e ↦ let q = same.index label ∙ e in rw (e, q) refl
    | inr (id, e) ↦ let q = same.index label ∙ e in rw (e, q) (same.games id)
  ]

module _ ⦃c : Crypto⦄ where
  decide_bind-contract :
      (label : Bytes) (key : KeyBytes) (params : GameParams) (contract : Bytes)
      (entropy : EntropyQuality) (origin : Option Bytes) (made : GameRecord)
      → decide_bind none label key params contract entropy origin ≡ BindDecision.bind made
      → made.contract ≡ contract
  unfolding decide_bind
  decide_bind-contract label key params contract entropy origin made e =
      elim (Option-cases (color_of params key)) [
        | inl f ↦ absurd (ground arith)
        | inr (color, f) ↦ ground arith
      ]

module _ ⦃c : Crypto⦄ ⦃chess : Chess⦄ ⦃codec : Codec⦄ ⦃secrets : SecretCodec⦄ ⦃host : Host⦄
    ⦃freenet : Freenet⦄ where
  -- The delegate has the label bound to the game, at this contract, and has signed nothing for it.
  pub record IsBound (label : Bytes) (params : GameParams) (contract : Bytes) (n : FakeNode)
      : Type 0 where
    pub rec : GameRecord
    pub bound : Delegate.bound_game n.store label ≡ some rec
    pub same_params : rec.params ≡ params
    pub same_contract : rec.contract ≡ contract
    pub unsigned : rec.last_signed_ply ≡ 0

  bind_decided-done :
      (n n' : FakeNode) (d : BindDecision)
      → let out = bind_decided n.store d in
        expect_bound out.1 (record n { store = out.0 }) ≡ (n', done tt)
        → (made : GameRecord) × (d ≡ BindDecision.bind made)
          × (record n { store = (store_game n.store made).0 } ≡ n')
  unfolding store_game
  bind_decided-done n n' (BindDecision.refuse refusal) e = absurd (ground arith)
  bind_decided-done n n' (BindDecision.bind made) e = (made, refl, ground arith)

  -- What a bind has written, of a label without a game.
  abbrev Binds : Bytes → GameParams → Bytes → FakeNode → FakeNode → Type 0
  Binds label params contract n n' =
      (key : KeyBytes) × (entropy : EntropyQuality) × (made : GameRecord) × (decide_bind
          (Delegate.bound_game n.store label) label key params contract entropy none
        ≡ BindDecision.bind made)
      × (record n { store = (store_game n.store made).0 } ≡ n')

  bind_seeded-done :
      (label : Bytes) (params : GameParams) (contract : Bytes) (n n' : FakeNode) (o : Option Bytes)
      → let out = bind_seeded n.store none label params contract o in
        expect_bound out.1 (record n { store = out.0 }) ≡ (n', done tt)
        → Binds label params contract n n'
  bind_seeded-done label params contract n n' none e = absurd (ground arith)
  bind_seeded-done label params contract n n' (some seed) e =
      elim (Bool-cases (opt_eq (load_owner n.store label) none)) [
        | inr f ↦ absurd (let e' = rw f at e in ground arith)
        | inl f ↦
            elim (Bool-cases (
              held_by_other (Delegate.bound_game n.store label) (load_game n.store (game_id params))
                label)) [
                  | inl g ↦ absurd (let e' = rw (f, g) at e in ground arith)
                  | inr g ↦
                      let key = c.public_key seed in
                      let entropy = or_degraded (load_quality n.store label) in
                      let (made, decision, stored) =
                        bind_decided-done n n'
                          (decide_bind (Delegate.bound_game n.store label) label key params contract
                            entropy none)
                          (rw (f, g) at e) in
                      (key, entropy, made, decision, stored)
                ]
      ]

  bind_to-done :
      (label : Bytes) (params : GameParams) (contract : Bytes) (n n' : FakeNode)
      → bind_to label params contract n ≡ (n', done tt)
      → Binds label params contract n n'
  unfolding bind_to ask_delegate handle handle_bind_game
  bind_to-done label params contract n n' e =
      bind_seeded-done label params contract n n' (load_seed n.store label) e

  module _ (codec_laws : IsSecretCodec secrets) (wide : IsWideHash) where
    pub bind_to-IsBound :
        (label : Bytes) (params : GameParams) (contract : Bytes) (n n' : FakeNode)
        → Delegate.bound_game n.store label ≡ none
        → bind_to label params contract n ≡ (n', done tt)
        → IsBound label params contract n' × (contracts n' ≡ contracts n)
    bind_to-IsBound label params contract n n' free e =
        let (key, entropy, made, decision, stored) = bind_to-done label params contract n n' e in
        let decision : decide_bind none label key params contract entropy none
            ≡ BindDecision.bind made =
          ap (λ o. decide_bind o label key params contract entropy none) (sym free) ∙ decision in
        let (_, _, _, same_params, _, same_label, unsigned, format) =
          decide_bind_new label key params contract entropy none made decision in
        (
          record {
            rec = made;
            bound =
                ap (λ k. Delegate.bound_game k.store label) (sym stored)
                ∙ subst (λ l. Delegate.bound_game (store_game n.store made).0 l ≡ some made)
                    same_label (rebound_game codec_laws wide n.store made format);
            same_params = same_params;
            same_contract =
                decide_bind-contract label key params contract entropy none made decision;
            unsigned = unsigned;
          },
          ap contracts (sym stored) ∙ store_game-contracts n made,
        )
