-- ===== src/Client/Fake/Joining.antt =====
-- client/src/session.rs on client/src/fake.rs: an invite that is accepted, and its answer, which the
-- inviter binds.
pub mod Binds
use adjourn.Prelude.{
  ◌≡◌, ◌⊎◌, refl, sym, ap, subst, ◌∙◌, [], Option, none, some, arith, Bool-cases, Option-cases, inl,
  inr,
}
use adjourn.Prelude.Order.{◌==◌, nat_ord, list_ord, ==_self, eq_of_==}
use adjourn.BTree.{get}
use adjourn.Types.{Bytes, KeyBytes, GameParams, color_of}
use adjourn.Types.Crypto.{Crypto, game_id, IsWideHash}
use adjourn.Project.Board.{Chess}
use adjourn.Contract.Cbor.{Codec}
use adjourn.Policy.{GameRecord, EntropyQuality, BindDecision, decide_bind, opt_eq}
use adjourn.Policy.Bind.{decide_bind_new}
use adjourn.Delegate.{
  handle, handle_create_game_key, handle_bind_game, bind_seeded, bind_decided, held_by_other,
  or_degraded,
}
use adjourn.Delegate
use adjourn.Delegate.Api.{Request, Response}
use adjourn.Delegate.Handlers.{handle_create_game_key-SameGames}
use adjourn.Delegate.Laws.{IsSecretCodec, SameGames}
use adjourn.Delegate.Secrets.{
  SecretStore, SecretCodec, store_game, load_seed, load_owner, load_quality, load_game,
  load_bound_game_id,
}
use adjourn.Client.{done, bind-done}
use adjourn.Client.Invite.{Invite, GameOffer, new_offer}
use adjourn.Client.Node.{Freenet, ContractContainer, contract_container, container_id}
use adjourn.Client.Setup.{
  expect_bound, key_in, params_of, create_key, bind_to, accept_as, invite_accept, join_game,
  game_bind,
}
use adjourn.Client.Setup.Agree.{Answers, params_of-Answers, accept_as-offer}
use adjourn.Client.Fake.{
  FakeNode, world_backed_store, Broadcast, Host, contracts, state_of, ask_delegate, fake_node,
  get_from, put_to,
}
use adjourn.Client.Fake.Audit.{world_backed_store-IsStore}
use adjourn.Client.Fake.Migrating.Steps.{
  rebound_game, put_to-done, write_world-bound_game, write_world-state, store_game-contracts,
}
use adjourn.Client.Fake.Joining.Binds.{key_in-same, SameGames-bound_game, IsBound, bind_to-IsBound}

-- a contract that is there, by the state that is there
state_of-entry :
    (o : Option (Bytes × Bytes)) (b : Bytes)
    → state_of o ≡ some b
    → (entry : Bytes × Bytes) × (o ≡ some entry)
state_of-entry none b e = absurd (ground arith)
state_of-entry (some entry) b e = (entry, refl)

state_of-none : (o : Option (Bytes × Bytes)) → state_of o ≡ none → o ≡ none
state_of-none none e = refl
state_of-none (some entry) e = absurd (ground arith)

module _ ⦃c : Crypto⦄ ⦃chess : Chess⦄ ⦃codec : Codec⦄ ⦃secrets : SecretCodec⦄ ⦃host : Host⦄
    ⦃freenet : Freenet⦄ where
  -- A contract that was not there has been put with its parameters and no state; one that was there
  -- is as it was.
  abbrev pub Placed : Bytes → GameParams → FakeNode → FakeNode → Type 0
  Placed id params n n' =
      ((get id (contracts n) ≡ none)
        × (get id (contracts n') ≡ some (codec.write_params params, [])))
      ⊎ ((entry : Bytes × Bytes) × (get id (contracts n) ≡ some entry)
          × (get id (contracts n') ≡ some entry))

  module _ (codec_laws : IsSecretCodec secrets) (wide : IsWideHash) where
    -- What a PUT of zero bytes and a bind do.
    put_and_bind :
        (label : Bytes) (params : GameParams) (container : ContractContainer) (id : Bytes)
        (n n₁ n' : FakeNode)
        → container.params ≡ codec.write_params params
        → container_id container ≡ id
        → Delegate.bound_game n.store label ≡ none
        → put_to container [] n ≡ (n₁, done tt)
        → bind_to label params id n₁ ≡ (n', done tt)
        → IsBound label params id n'
          × (get id (contracts n') ≡ some (codec.write_params params, []))
    put_and_bind label params container id n n₁ n' same_params same_id free put bound =
        let entry : Bytes × Bytes = (container.params, []) in
        let wrote = put_to-done container [] n n₁ put in
        let free₁ =
          ap (λ k. Delegate.bound_game k.store label) (sym wrote)
          ∙ (write_world-bound_game (container_id container) entry (Broadcast.state []) n label
              ∙ free) in
        let (is_bound, world) = bind_to-IsBound codec_laws wide label params id n₁ n' free₁ bound in
        let there =
          write_world-state (container_id container) entry (Broadcast.state []) n
            (container_id container) in
        let self = ==_self (container_id container) in
        let there : get (container_id container) (contracts n₁) ≡ some entry =
          ap (λ k. get (container_id container) (contracts k)) (sym wrote) ∙ ground arith in
        (
          is_bound,
          ap (get id) world
              ∙ (subst (λ k. get k (contracts n₁) ≡ some entry) same_id there
                  ∙ ap (λ b. some (b, [])) same_params),
        )

    create_key-bound_game :
        (label entropy other : Bytes) (n n' : FakeNode) (key : KeyBytes)
        → create_key label entropy n ≡ (n', done key)
        → Delegate.bound_game n'.store other ≡ Delegate.bound_game n.store other
    unfolding create_key ask_delegate handle
    create_key-bound_game label entropy other n n' key e =
        let request = Request.create_game_key label (some entropy) in
        let (n₁, response, step, e) = bind-done (ask_delegate request) key_in n n' key e in
        let same = key_in-same response n₁ n' key e in
        ap (λ k. Delegate.bound_game k.store other) (sym same)
        ∙ (ap (λ out. Delegate.bound_game out.0.store other) (sym step)
            ∙ SameGames-bound_game n.store _ other (
                handle_create_game_key-SameGames world_backed_store-IsStore codec_laws wide
                  host.draws n.store none label (some entropy)))

    accept_as-done :
        (label wasm : Bytes) (invite : Invite) (ours : KeyBytes) (n n' : FakeNode)
        (offer : GameOffer)
        → Delegate.bound_game n.store label ≡ none
        → accept_as label wasm invite ours n ≡ (n', done offer)
        → let params = params_of invite ours in
          let id = (contract_container wasm params).1 in
          IsBound label params id n'
          × (get id (contracts n') ≡ some (codec.write_params params, []))
    unfolding accept_as contract_container
    accept_as-done label wasm invite ours n n' offer free e =
        let params = params_of invite ours in
        let (container, id) = contract_container wasm params in
        let (n₁, _, put, e) = bind-done (put_to container []) _ n n' offer e in
        let (n₂, _, bound, e) = bind-done (bind_to label params id) _ n₁ n' offer e in
        put_and_bind label params container id n n₁ n' refl refl free put
          (bound ∙ ap (λ k. (k, done tt)) (ap (λ o. o.0) e))

    join_game-done :
        (label : Bytes) (params : GameParams) (container : ContractContainer) (id got : Bytes)
        (m m' : FakeNode)
        → container.params ≡ codec.write_params params
        → container_id container ≡ id
        → Delegate.bound_game m.store label ≡ none
        → join_game label params container id m ≡ (m', done got)
        → IsBound label params id m' × (got ≡ id) × Placed id params m m'
    unfolding join_game get_from
    join_game-done label params container id got m m' same_params same_id free e =
        elim (Option-cases (state_of (get id (contracts m)))) [
          | inl vacant ↦
              let e = rw vacant at e in
              let (m₁, _, put, e) = bind-done (put_to container []) _ m m' got e in
              let (m₂, _, bound, e) = bind-done (bind_to label params id) _ m₁ m' got e in
              let (is_bound, there) =
                put_and_bind label params container id m m₁ m' same_params same_id free put
                  (bound ∙ ap (λ k. (k, done tt)) (ap (λ o. o.0) e)) in
              (is_bound, ground arith, inl (state_of-none (get id (contracts m)) vacant, there))
          | inr (bytes, held) ↦
              let e = rw held at e in
              let (m₂, _, bound, e) = bind-done (bind_to label params id) _ m m' got e in
              let (entry, there) = state_of-entry (get id (contracts m)) bytes held in
              let (is_bound, world) =
                bind_to-IsBound codec_laws wide label params id m m' free
                  (bound ∙ ap (λ k. (k, done tt)) (ap (λ o. o.0) e)) in
              (is_bound, ground arith, inr (entry, there, ap (get id) world ∙ there))
        ]

    game_bind-done :
        (label wasm : Bytes) (offer : GameOffer) (got : Bytes) (m m' : FakeNode)
        → Delegate.bound_game m.store label ≡ none
        → game_bind label offer wasm m ≡ (m', done got)
        → (got ≡ offer.contract)
          × IsBound label offer.params offer.contract m'
          × Placed offer.contract offer.params m m'
    unfolding game_bind contract_container
    game_bind-done label wasm offer got m m' free e =
        let (container, id) = contract_container wasm offer.params in
        elim (Bool-cases (id == offer.contract)) [
          | inr f ↦ absurd (let e' = rw f at e in ground arith)
          | inl f ↦
              let same = eq_of_== id offer.contract f in
              let (is_bound, named, placed) =
                join_game-done label offer.params container id got m m' refl refl free
                  (rw f at e) in
              (
                named ∙ same,
                subst (λ k. IsBound label offer.params k m') same is_bound,
                subst (λ k. Placed k offer.params m m') same placed,
              )
        ]

    -- On nodes in memory, of one world or of two, with labels that are not bound to a game: an invite
    -- that is accepted, and the offer that this returns bound by the inviter. The offer is of format
    -- 1, and has the inviter's key on the invite's side and the invite's nonce. Either delegate has its
    -- label bound to the offer's parameters at the offer's contract, and has signed nothing for it;
    -- the inviter is told this contract; the accepter's world has the contract, with its parameters and
    -- no state; in the inviter's world it has been put so if it was not there, and is as it was if it
    -- was. Records are read back as they were written, and hashes have 32 bytes.
    pub invite_accept-game_bind :
        (label : Bytes) (invite : Invite) (wasm entropy : Bytes) (n n' : FakeNode)
        (offer : GameOffer) (their_label their_wasm id : Bytes) (m m' : FakeNode)
        → Delegate.bound_game n.store label ≡ none
        → Delegate.bound_game m.store their_label ≡ none
        → invite_accept label invite wasm entropy n ≡ (n', done offer)
        → game_bind their_label offer their_wasm m ≡ (m', done id)
        → Answers invite offer
          × IsBound label offer.params offer.contract n'
          × (get offer.contract (contracts n') ≡ some (codec.write_params offer.params, []))
          × (id ≡ offer.contract)
          × IsBound their_label offer.params offer.contract m'
          × Placed offer.contract offer.params m m'
    unfolding invite_accept new_offer
    invite_accept-game_bind label invite wasm entropy n n' offer their_label their_wasm id m m' free
          their_free e their_e =
        let (n₁, ours, created, e) = bind-done (create_key label entropy) _ n n' offer e in
        let same = accept_as-offer label wasm invite ours n₁ n' offer e in
        let free₁ = create_key-bound_game label entropy label n n₁ ours created ∙ free in
        let (is_bound, there) = accept_as-done label wasm invite ours n₁ n' offer free₁ e in
        let (named, theirs, placed) =
          game_bind-done their_label their_wasm offer id m m' their_free their_e in
        (
          subst (Answers invite) same (params_of-Answers invite ours _),
          subst (λ o. IsBound label o.params o.contract n') same is_bound,
          subst (λ o. get o.contract (contracts n') ≡ some (codec.write_params o.params, [])) same
              there,
          named,
          theirs,
          placed,
        )
