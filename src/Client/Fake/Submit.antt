-- ===== src/Client/Fake/Submit.antt =====
-- client/src/session.rs on client/src/fake.rs: a body that is signed and submitted.
pub mod Parts
pub mod Inverted
use adjourn.Prelude.{
  ◌≡◌, refl, sym, ap, subst, ◌∙◌, Bool, true, false, List, [], ◌∷◌, ◌++◌, Option, none, some, arith,
  Bool-cases, Option-cases, inl, inr, if◌then◌else◌,
}
use adjourn.Prelude.Lists.{all}
use adjourn.Prelude.Order.{◌==◌, nat_ord, list_ord, ==_self}
use adjourn.BTree.{get, insert}
use adjourn.BTree.Laws.{get-insert}
use adjourn.Types.{Bytes, Body, Record, GameParams}
use adjourn.Types.Crypto.{Crypto, sign, verify}
use adjourn.State.{GameState, filter_valid, apply_delta}
use adjourn.State.Merge.{IsValid, apply_delta-IsValid, filter_valid-IsValid}
use adjourn.Project.{Status, project}
use adjourn.Project.Board.{Chess}
use adjourn.Contract.{
  Result, err, ok, UpdateData, decode_params, decode_state, encode_state, or_deser, check_delta,
  absorb_delta, absorb_update, absorb_updates, update_state,
}
use adjourn.Contract.Cbor.{Codec, IsCodec}
use adjourn.Contract.Update.{bind-ok, decode_state-encode_state}
use adjourn.Policy.{GameRecord, SignDecision, decide_sign}
use adjourn.Delegate.{
  handle, handle_sign, sign_loaded, sign_seeded, sign_decided, signed_with,
  locally_known_to_be_illegal,
}
use adjourn.Delegate.Api.{Request, Response}
use adjourn.Delegate.Secrets.{SecretStore, SecretCodec, store_game, load_game, load_seed}
use adjourn.Client.{
  Failure, failed, done, Reply, Session, or_fail, ◌>>=◌, continue, bind-done, Reply-inj,
}
use adjourn.Client.Node.{Freenet, ContractContainer, NodeClient, container_id}
use adjourn.Client.Open.{
  record_in, or_empty, decode_fetched, fetch_state, projected, submit, sign_and_submit,
}
use adjourn.Client.Fake.{
  FakeNode, WorldBackedStore, world_backed_store, Broadcast, Host, contracts, log, state_of,
  write_world, ask_delegate, fake_node, get_from, update_entry, store_update, update_to,
}
use adjourn.Client.Fake.Migrating.Steps.{or_fail-done, decode_fetched-done}
use adjourn.Client.Fake.Submit.Parts.{update_state-one, handle_sign-Signs}
use adjourn.Client.Fake.Submit.Inverted.{
  entry-inj, ok-inj, record_in-done, Updated, update_entry-done,
}

module _ ⦃c : Crypto⦄ ⦃chess : Chess⦄ ⦃codec : Codec⦄ ⦃secrets : SecretCodec⦄ ⦃host : Host⦄
    ⦃freenet : Freenet⦄ where
  -- What is left by a body that is submitted for a game under a contract.
  pub record HasSubmitted (id contract : Bytes) (body : Body) (p : GameParams) (n n' : FakeNode)
      (parameters bytes : Bytes) (status : Status) : Type 0 where
    -- the record, signed with the key of the label that the delegate has the game under
    pub rec : GameRecord
    pub seed : Bytes
    pub known : load_game n.store id ≡ some rec
    pub key : load_seed n.store rec.label ≡ some seed
    pub signed : Record
    pub is_signed : signed ≡ sign seed rec.params body
    pub verified : verify p signed ≡ true
    -- the state of the contract
    pub base : GameState
    pub reads : decode_state bytes ≡ ok base
    pub state : GameState
    pub added : state ≡ apply_delta p (filter_valid p base) (signed ∷ [])
    pub valid : IsValid p state
    pub held : get contract (contracts n') ≡ some (parameters, encode_state state)
    pub reads_again : decode_state (encode_state state) ≡ ok state
    -- what subscribers are told, and the player
    pub told :
        log n' ≡ log n ++ (contract, Broadcast.delta (codec.write_records (signed ∷ []))) ∷ []
    pub shown : project state p ≡ some status

  ask_delegate-contracts :
      (id : Bytes) (body : Body) (n n' : FakeNode) (response : Response)
      → ask_delegate (Request.sign id body) n ≡ (n', done response)
      → ((handle_sign n.store none id body).1 ≡ response)
        × (contracts n' ≡ contracts n)
        × (log n' ≡ log n)
  unfolding ask_delegate handle
  ask_delegate-contracts id body n n' response e =
      let (same, _) = handle_sign-Signs n.store id body in
      let q = ap (λ o. o.0.store.world) e in
      (
        Reply-inj (ap (λ o. o.1) e),
        ap (λ w. w.contracts) (sym q ∙ same),
        ap (λ w. w.log) (sym q ∙ same),
      )

  write_world-log :
      (id : Bytes) (entry : Bytes × Bytes) (broadcast : Broadcast) (n : FakeNode)
      → log (write_world id entry broadcast n) ≡ log n ++ (id, broadcast) ∷ []
  unfolding write_world
  write_world-log id entry broadcast n = refl

  write_world-entry :
      (id : Bytes) (entry : Bytes × Bytes) (broadcast : Broadcast) (n : FakeNode)
      → get id (contracts (write_world id entry broadcast n)) ≡ some entry
  unfolding write_world
  write_world-entry id entry broadcast n =
      let q = get-insert id id entry (contracts n) in let self = ==_self id in ground arith

  -- What is fetched, and projected.
  fetched :
      (contract parameters out : Bytes) (p : GameParams) (n n' : FakeNode) (state : GameState)
      (status : Status)
      → get contract (contracts n) ≡ some (parameters, out)
      → decode_state out ≡ ok state
      → (fetch_state contract >>= λ s. projected s p) n ≡ (n', done status)
      → (n ≡ n') × (project state p ≡ some status)
  unfolding fetch_state get_from
  fetched contract parameters out p n n' state status held reads e =
      let (n₁, s, step, e) = bind-done (fetch_state contract) _ n n' status e in
      let bytes = or_empty (state_of (get contract (contracts n))) in
      let (same, read) = decode_fetched-done bytes n n₁ s step in
      let (same', shown) = or_fail-done (project s p) Failure.unfinished n₁ n' status e in
      let b : bytes ≡ out = ap (λ o. or_empty (state_of o)) held in
      let q : s ≡ state = ok-inj (sym read ∙ (ap decode_state b ∙ reads)) in
      (same ∙ same', ap (λ t. project t p) (sym q) ∙ shown)

  module _ (laws : IsCodec codec) (id contract : Bytes) (p : GameParams) (parameters bytes : Bytes)
      (d : decode_params parameters ≡ ok p) where
    -- The facts of the steps, put together.
    submitted :
        (body : Body) (container : ContractContainer) (n m n' : FakeNode) (r : Record)
        (status : Status)
        → container_id container ≡ contract
        → get contract (contracts n) ≡ some (parameters, bytes)
        → (handle_sign n.store none id body).1 ≡ Response.signed r
        → contracts m ≡ contracts n
        → log m ≡ log n
        → submit container p contract r m ≡ (n', done status)
        → HasSubmitted id contract body p n n' parameters bytes status
    unfolding submit update_to Updated
    submitted body container n m n' r status placed there response same_contracts same_log e =
        let (rec, seed, known, key, signed) = (handle_sign-Signs n.store id body).1 r response in
        let delta = codec.write_records (r ∷ []) in
        let address = container_id container in
        let (m₁, _, step, e) = bind-done (update_to address delta) _ m n' status e in
        let (params, current, out, entry, updated, wrote) =
          update_entry-done address delta m m₁ (get address (contracts m)) step in
        let entry : some (params, current) ≡ some (parameters, bytes) =
          sym entry
          ∙ (ap (λ k. get k (contracts m)) placed ∙ (ap (get contract) same_contracts ∙ there)) in
        let (same_params, same_bytes) = entry-inj entry in
        let (base, reads, verified, written) =
          update_state-one laws p params current out r (ap decode_params same_params ∙ d) updated in
        let state = apply_delta p (filter_valid p base) (r ∷ []) in
        let valid =
          apply_delta-IsValid p (filter_valid p base) (r ∷ []) (filter_valid-IsValid p base) in
        let reads_again = decode_state-encode_state laws p state valid in
        let held : get contract (contracts m₁) ≡ some (parameters, encode_state state) =
          ap (λ k. get contract (contracts k)) (sym wrote)
          ∙ (ap
                (λ k.
                  get contract (contracts (write_world k (params, out) (Broadcast.delta delta) m)))
                placed
              ∙ (write_world-entry contract (params, out) (Broadcast.delta delta) m
                  ∙ (ap (λ k. some (k, out)) same_params
                      ∙ ap (λ o. some (parameters, o)) written))) in
        let (same, shown) =
          fetched contract parameters (encode_state state) p m₁ n' state status held reads_again
            e in
        record {
          rec = rec;
          seed = seed;
          known = known;
          key = key;
          signed = r;
          is_signed = signed;
          verified = verified;
          base = base;
          reads = ap decode_state (sym same_bytes) ∙ reads;
          state = state;
          added = refl;
          valid = valid;
          held = ap (λ k. get contract (contracts k)) (sym same) ∙ held;
          reads_again = reads_again;
          told =
              ap log (sym same ∙ sym wrote)
              ∙ (write_world-log address (params, out) (Broadcast.delta delta) m
                  ∙ (ap (λ l. l ++ (address, Broadcast.delta delta) ∷ []) same_log
                      ∙ ap (λ k. log n ++ (k, Broadcast.delta delta) ∷ []) placed));
          shown = shown;
        }

    -- A body that is submitted with success, on a node in memory that has the game's contract. The
    -- record that went out is the body, signed with the key of the label that the delegate has the
    -- game under, and it verifies; the contract has the valid records that it had and this one, with
    -- each group cut to its limit, in bytes that decode to them; the log has the record as a delta;
    -- and the status returned is the projection of that state. The container derives the contract's
    -- id, the parameters stored with the contract are the game's, and CBOR is read back as it was
    -- written.
    pub sign_and_submit-HasSubmitted :
        (body : Body) (container : ContractContainer) (n n' : FakeNode) (status : Status)
        → container_id container ≡ contract
        → get contract (contracts n) ≡ some (parameters, bytes)
        → sign_and_submit id container p contract body n ≡ (n', done status)
        → HasSubmitted id contract body p n n' parameters bytes status
    unfolding sign_and_submit
    sign_and_submit-HasSubmitted body container n n' status placed there e =
        let (m, response, step, e) =
          bind-done (ask_delegate (Request.sign id body)) _ n n' status e in
        let (given, same_contracts, same_log) = ask_delegate-contracts id body n m response step in
        let (m₁, r, step, e) = bind-done (record_in response) _ m n' status e in
        let (same, is_record) = record_in-done response m m₁ r step in
        submitted body container n m₁ n' r status placed there (given ∙ is_record)
          (ap contracts (sym same) ∙ same_contracts) (ap log (sym same) ∙ same_log) e
