-- ===== src/Client/Fake/Migrating/Moved.antt =====
-- client/src/session.rs on client/src/fake.rs: what a migration that succeeds has done.
use adjourn.Prelude.{
  ℕ, ◌≡◌, ◌≢◌, ◌⊎◌, refl, sym, ap, subst, ◌∙◌, false, none, some, arith, Bool-cases, inl, inr,
  if◌then◌else◌,
}
use adjourn.Prelude.Lists.{length, some-inj}
use adjourn.Prelude.Order.{◌==◌, nat_ord, list_ord, ==_self}
use adjourn.BTree.{get}
use adjourn.Types.{Bytes}
use adjourn.Types.Crypto.{Crypto, IsWideHash}
use adjourn.State.{GameState}
use adjourn.Project.Board.{Chess}
use adjourn.Contract.{ok, decode_state}
use adjourn.Contract.Cbor.{Codec, IsCodec}
use adjourn.Policy.{GameRecord, RebindDecision, decide_rebind}
use adjourn.Policy.Bind.{SameGuard, decide_rebind-SameGuard, decide_rebind-format}
use adjourn.Delegate.{handle, handle_rebind_game, rebind_decided, bound_to}
use adjourn.Delegate
use adjourn.Delegate.Laws.{IsSecretCodec}
use adjourn.Delegate.Secrets.{SecretCodec, store_game}
use adjourn.Client.{Failure, done, Reply, Session, or_fail, return, bind-done}
use adjourn.Client.Node.{Freenet, contract_container}
use adjourn.Client.Open.{BoundGame, bound_game, decode_fetched}
use adjourn.Client.Migrate.{MigrateOutcome, put_bytes, rebind_to, move_game, migrate_label}
use adjourn.Client.Fake.{
  FakeNode, world_backed_store, Broadcast, Host, contracts, state_of, write_world, fake_node,
  get_from, put_to,
}
use adjourn.Client.Fake.Bound.{bound_game-record, game_of}
use adjourn.Client.Fake.Migrating.Steps.{
  rebound_game, ==_of_eq, ==_flip, or_fail-done, moved_from-else, decode_fetched-done,
  decode_state-put_bytes, put_to-done, rebind_to-done, write_world-bound_game, write_world-state,
  store_game-contracts,
}

module _ ⦃c : Crypto⦄ ⦃chess : Chess⦄ ⦃codec : Codec⦄ ⦃secrets : SecretCodec⦄ ⦃host : Host⦄
    ⦃freenet : Freenet⦄ where
  -- A PUT of the state of one contract to another, which replaces what is there, loses nothing:
  -- nothing is there, or bytes that decode as those of the first do, as an earlier PUT has left them.
  abbrev pub LosesNothing : FakeNode → Bytes → Bytes → Type 0
  LosesNothing n from to =
      (get to (contracts n) ≡ none)
      ⊎ ((raw there : Bytes) × (state_of (get from (contracts n)) ≡ some raw)
          × (state_of (get to (contracts n)) ≡ some there)
          × (decode_state there ≡ decode_state raw))

  -- Nothing was at the new id, or what decodes to this state.
  abbrev pub NothingLost : FakeNode → Bytes → GameState → Type 0
  NothingLost n to state =
      (get to (contracts n) ≡ none)
      ⊎ ((there : Bytes) × (state_of (get to (contracts n)) ≡ some there)
          × (decode_state there ≡ ok state))

  -- What a migration that reports `migrated` has done.
  pub record HasMoved (label wasm : Bytes) (n n' : FakeNode) (from to : Bytes) (count : ℕ)
      : Type 0 where
    -- the delegate's record before, and after
    pub rec : GameRecord
    pub updated : GameRecord
    pub was : Delegate.bound_game n.store label ≡ some rec
    pub now : Delegate.bound_game n'.store label ≡ some updated
    pub same_guard : SameGuard rec updated
    pub was_at : rec.contract ≡ from
    pub now_at : updated.contract ≡ to
    pub remembers : updated.previous ≡ some from
    -- the contract of this build, which is another
    pub derived : (contract_container wasm rec.params).1 ≡ to
    pub other : to ≢ from
    -- the state, and the bytes at the two ids
    pub state : GameState
    pub raw : Bytes
    pub copy : Bytes
    pub held : state_of (get from (contracts n)) ≡ some raw
    pub reads : decode_state raw ≡ ok state
    pub counted : count ≡ length state.records
    pub copied : state_of (get to (contracts n')) ≡ some copy
    pub reads_again : decode_state copy ≡ ok state
    pub kept : get from (contracts n') ≡ get from (contracts n)

  abbrev chosen : Bytes → Bytes → BoundGame → Session FakeNode MigrateOutcome
  chosen label wasm game =
      let (container, id) = contract_container wasm game.params in
      if id == game.contract
      then return (MigrateOutcome.already_current game.contract)
      else move_game label game container id

  module _ (laws : IsCodec codec) (codec_laws : IsSecretCodec secrets) (wide : IsWideHash) where
    -- The facts of the steps, put together.
    assembled :
        (label wasm : Bytes) (n m n' : FakeNode) (rec updated : GameRecord) (id params raw : Bytes)
        (state : GameState) (from to : Bytes) (count : ℕ)
        → Delegate.bound_game n.store label ≡ some rec
        → (contract_container wasm rec.params).1 ≡ id
        → (id == rec.contract) ≡ false
        → state_of (get rec.contract (contracts n)) ≡ some raw
        → decode_state raw ≡ ok state
        → write_world id
            (params, put_bytes state state.records)
            (Broadcast.state (put_bytes state state.records))
            n
          ≡ m
        → decide_rebind (Delegate.bound_game m.store label) label id none
          ≡ RebindDecision.rebind updated
        → record m { store = (store_game m.store updated).0 } ≡ n'
        → rec.contract ≡ from
        → id ≡ to
        → length state.records ≡ count
        → HasMoved label wasm n n' from to count
    assembled label wasm n m n' rec updated id params raw state from to count was derived differs
          held reads wrote decision stored from_eq to_eq count_eq =
        let bytes = put_bytes state state.records in
        let entry : Bytes × Bytes = (params, bytes) in
        let kept_record : Delegate.bound_game m.store label ≡ some rec =
          ap (λ k. Delegate.bound_game k.store label) (sym wrote)
          ∙ (write_world-bound_game id entry (Broadcast.state bytes) n label ∙ was) in
        let decision : decide_rebind (some rec) label id none ≡ RebindDecision.rebind updated =
          ap (λ o. decide_rebind o label id none) (sym kept_record) ∙ decision in
        let (guard, _, own_label, at, previous) =
          decide_rebind-SameGuard rec updated label id none decision in
        let format = decide_rebind-format (some rec) updated label id none decision in
        let named : updated.label ≡ label = guard.label ∙ own_label in
        let now : Delegate.bound_game n'.store updated.label ≡ some updated =
          ap (λ k. Delegate.bound_game k.store updated.label) (sym stored)
          ∙ rebound_game codec_laws wide m.store updated format in
        let world : contracts n' ≡ contracts m =
          ap contracts (sym stored) ∙ store_game-contracts m updated in
        let world : (other : Bytes)
            → get other (contracts n')
              ≡ (if other == id then some entry else get other (contracts n)) =
          λ other.
            ap (get other) world
            ∙ (ap (λ k. get other (contracts k)) (sym wrote)
                ∙ write_world-state id entry (Broadcast.state bytes) n other) in
        let self = ==_self id in
        let flipped : (rec.contract == id) ≡ false = ==_flip rec.contract id differs in
        record {
          rec = rec;
          updated = updated;
          was = was;
          now = subst (λ l. Delegate.bound_game n'.store l ≡ some updated) named now;
          same_guard = guard;
          was_at = from_eq;
          now_at = at ∙ to_eq;
          remembers = previous ∙ moved_from-else rec id from flipped from_eq;
          derived = derived ∙ to_eq;
          other = λ q. absurd (
              let same = to_eq ∙ (q ∙ sym from_eq) in
              ground (arith, ==_of_eq id rec.contract same));
          state = state;
          raw = raw;
          copy = bytes;
          held = ap (λ k. state_of (get k (contracts n))) (sym from_eq) ∙ held;
          reads = reads;
          counted = sym count_eq;
          copied =
              let w = world id in
              let g : get id (contracts n') ≡ some entry = ground arith in
              ap (λ k. state_of (get k (contracts n'))) (sym to_eq) ∙ ap state_of g;
          reads_again = decode_state-put_bytes laws raw state reads;
          kept =
              subst (λ k. get k (contracts n') ≡ get k (contracts n)) from_eq
                (let w = world rec.contract in ground arith);
        }

    moved_game :
        (label wasm : Bytes) (n n' : FakeNode) (rec : GameRecord) (from to : Bytes) (count : ℕ)
        → Delegate.bound_game n.store label ≡ some rec
        → let (container, id) = contract_container wasm rec.params in
          (id == rec.contract) ≡ false
          → move_game label (game_of label rec) container id n
            ≡ (n', done (MigrateOutcome.migrated from to count))
          → HasMoved label wasm n n' from to count
    unfolding move_game get_from contract_container
    moved_game label wasm n n' rec from to count was differs e =
        let (container, id) = contract_container wasm rec.params in
        let found = state_of (get rec.contract (contracts n)) in
        let (n₁, raw, step, e) = bind-done (or_fail found _) _ n n' _ e in
        let (same₁, held) = or_fail-done found (Failure.gone rec.contract) n n₁ raw step in
        let (n₂, state, step, e) = bind-done (decode_fetched raw) _ n₁ n' _ e in
        let (same₂, reads) = decode_fetched-done raw n₁ n₂ state step in
        let bytes = put_bytes state state.records in
        let (n₃, _, step, e) = bind-done (put_to container bytes) _ n₂ n' _ e in
        let wrote = put_to-done container bytes n₂ n₃ step in
        let (n₄, _, step, e) = bind-done (rebind_to label id) _ n₃ n' _ e in
        let (updated, decision, stored) = rebind_to-done label id n₃ n₄ step in
        assembled label wasm n n₃ n' rec updated id container.params raw state from to count was
          refl differs held reads
          (ap (write_world id (container.params, bytes) (Broadcast.state bytes)) (same₁ ∙ same₂)
            ∙ wrote)
          decision (stored ∙ ap (λ out. out.0) e) (ground arith) (ground arith) (ground arith)

    has_moved :
        (label wasm : Bytes) (n n' : FakeNode) (from to : Bytes) (count : ℕ)
        → migrate_label label wasm n ≡ (n', done (MigrateOutcome.migrated from to count))
        → HasMoved label wasm n n' from to count
    unfolding migrate_label
    has_moved label wasm n n' from to count e =
        let (m, game, step, e) = bind-done (bound_game label) _ n n' _ e in
        let (same, (rec, was, shape)) = bound_game-record label n m game step in
        let outcome : Reply MigrateOutcome = done (MigrateOutcome.migrated from to count) in
        let e : chosen label wasm (game_of label rec) n ≡ (n', outcome) =
          subst (λ k. chosen label wasm (game_of label rec) k ≡ (n', outcome)) same
            (subst (λ g. chosen label wasm g m ≡ (n', outcome)) shape e) in
        elim (Bool-cases ((contract_container wasm rec.params).1 == rec.contract)) [
          | inl f ↦ absurd (let e' = rw f at e in ground arith)
          | inr f ↦ moved_game label wasm n n' rec from to count was f (rw f at e)
        ]

    nothing_lost :
        (n : FakeNode) (from to raw : Bytes) (state : GameState)
        → state_of (get from (contracts n)) ≡ some raw
        → decode_state raw ≡ ok state
        → LosesNothing n from to
        → NothingLost n to state
    nothing_lost n from to raw state held reads (inl vacant) = inl vacant
    nothing_lost n from to raw state held reads (inr (other, there, at, found, same)) =
        let same_bytes : other ≡ raw = some-inj (sym at ∙ held) in
        inr (there, found, same ∙ (ap decode_state same_bytes ∙ reads))

    -- On a node in memory, whose PUT replaces what is at an id: a migration that reports `migrated`, to
    -- an id where nothing is, or what an earlier migration has PUT there of the same state, has moved
    -- the game whole. On the world, the bytes at the new id, which is the one that this build derives
    -- and another than the old, decode to the state that the bytes at the old id decode to, verified or
    -- not, with the reported number of records; if bytes were at the new id, they decode to this state
    -- too, so that none of their records is lost; the old contract is as it was. In the delegate, the
    -- label's record has the new contract, remembers the old one, and has kept the parameters, the
    -- side, the owner and the guard. CBOR and records are read back as they were written, and hashes
    -- have 32 bytes.
    pub migrate_label-HasMoved :
        (label wasm : Bytes) (n n' : FakeNode) (from to : Bytes) (count : ℕ)
        → LosesNothing n from to
        → migrate_label label wasm n ≡ (n', done (MigrateOutcome.migrated from to count))
        → (h : HasMoved label wasm n n' from to count) × NothingLost n to h.state
    migrate_label-HasMoved label wasm n n' from to count loses e =
        let h = has_moved label wasm n n' from to count e in
        (h, nothing_lost n from to h.raw h.state h.held h.reads loses)
