-- ===== src/Client/Fake/Migrating/Steps.antt =====
-- client/src/session.rs on client/src/fake.rs: the steps that a session takes on a node in memory.
use adjourn.Prelude.{
  ◌≡◌, refl, sym, ap, ◌∙◌, true, false, [], ◌∷◌, Option, none, some, arith, Bool-cases, inl, inr,
  if◌then◌else◌,
}
use adjourn.Prelude.Order.{◌==◌, nat_ord, list_ord, eq_of_==, ==_self}
use adjourn.BTree.{get}
use adjourn.BTree.Laws.{get-insert}
use adjourn.Types.{Bytes}
use adjourn.Types.Crypto.{Crypto, game_id, IsWideHash}
use adjourn.State.{GameState, Records}
use adjourn.State.Merge.{state_path}
use adjourn.Project.Board.{Chess}
use adjourn.Contract.{ok, decode_state, read_state}
use adjourn.Contract.Cbor.{Codec, IsCodec}
use adjourn.Contract.Reread.{decode_state-Filed, decode_state-refiled}
use adjourn.Policy.{GameRecord, RebindDecision, decide_rebind, moved_from}
use adjourn.Delegate.{handle, handle_rebind_game, rebind_decided, bound_to}
use adjourn.Delegate
use adjourn.Delegate.Laws.{IsSecretCodec, store_game-Stored}
use adjourn.Client.Fake.Audit.{world_backed_store-IsStore}
use adjourn.Delegate.Secrets.{SecretCodec, store_game, load_game, load_bound_game_id}
use adjourn.Client.{Failure, done, or_fail}
use adjourn.Client.Node.{Freenet, ContractContainer, container_id}
use adjourn.Client.Setup.{expect_bound}
use adjourn.Client.Open.{decode_fetched}
use adjourn.Client.Migrate.{put_bytes, rebind_to}
use adjourn.Client.Fake.{
  FakeNode, WorldBackedStore, world_backed_store, Broadcast, Host, contracts, write_world,
  ask_delegate, fake_node, put_to,
}

pub or_fail-done :
    {N A : Type 0} (o : Option A) (f : Failure) (n n' : N) (a : A)
    → or_fail o f n ≡ (n', done a)
    → (n ≡ n') × (o ≡ some a)
or_fail-done none f n n' a e = absurd (ground arith)
or_fail-done (some b) f n n' a e = (ground arith, ground arith)

pub ==_of_eq : (a b : Bytes) → a ≡ b → (a == b) ≡ true
==_of_eq a b e = ap (λ k. a == k) (sym e) ∙ ==_self a

pub ==_flip : (a b : Bytes) → (b == a) ≡ false → (a == b) ≡ false
==_flip a b h = elim (Bool-cases (a == b)) [
  | inl e ↦ absurd (let q = ==_of_eq b a (sym (eq_of_== a b e)) in ground arith)
  | inr e ↦ e
]

pub moved_from-else :
    (rec : GameRecord) (id from : Bytes)
    → (rec.contract == id) ≡ false
    → rec.contract ≡ from
    → moved_from rec id ≡ some from
moved_from-else rec id from h e = rw h (ap some e)

module _ ⦃c : Crypto⦄ ⦃codec : Codec⦄ where
  pub decode_fetched-done :
      {N : Type 0} (raw : Bytes) (n n' : N) (state : GameState)
      → decode_fetched raw n ≡ (n', done state)
      → (n ≡ n') × (decode_state raw ≡ ok state)
  unfolding decode_state
  decode_fetched-done [] n n' state e = (ground arith, ground arith)
  decode_fetched-done (b ∷ raw) n n' state e =
      let (same, read) = or_fail-done (read_state (b ∷ raw)) Failure.undecodable n n' state e in
      (same, rw read refl)

  -- What is PUT decodes to the state that it was made from.
  pub decode_state-put_bytes :
      (laws : IsCodec codec) (raw : Bytes) (state : GameState)
      → decode_state raw ≡ ok state
      → decode_state (put_bytes state state.records) ≡ ok state
  unfolding decode_state
  decode_state-put_bytes laws raw state e = by_records state.records refl
    where
      by_records :
          (records : Records)
          → state.records ≡ records
          → decode_state (put_bytes state records) ≡ ok state
      by_records [] q = ap ok (state_path (sym q))
      by_records (r ∷ records) q = decode_state-refiled laws state (decode_state-Filed raw state e)

pub put_to-done :
    ⦃freenet : Freenet⦄ (container : ContractContainer) (bytes : Bytes) (n n' : FakeNode)
    → put_to container bytes n ≡ (n', done tt)
    → write_world (container_id container) (container.params, bytes) (Broadcast.state bytes) n ≡ n'
unfolding put_to
put_to-done container bytes n n' e = elim (Bool-cases n.fails_next_put) [
  | inl f ↦ absurd (let e' = rw f at e in ground arith)
  | inr f ↦ let e' = rw f at e in ground arith
]

module _ ⦃c : Crypto⦄ ⦃chess : Chess⦄ ⦃codec : Codec⦄ ⦃secrets : SecretCodec⦄ ⦃host : Host⦄
    ⦃freenet : Freenet⦄ where
  pub rebind_decided-done :
      (n n' : FakeNode) (d : RebindDecision)
      → let out = rebind_decided n.store d in
        expect_bound out.1 (record n { store = out.0 }) ≡ (n', done tt)
        → (updated : GameRecord) × (d ≡ RebindDecision.rebind updated)
          × (record n { store = (store_game n.store updated).0 } ≡ n')
  unfolding store_game
  rebind_decided-done n n' (RebindDecision.refuse refusal) e = absurd (ground arith)
  rebind_decided-done n n' (RebindDecision.rebind updated) e = (updated, refl, ground arith)

  pub rebind_to-done :
      (label contract : Bytes) (n n' : FakeNode)
      → rebind_to label contract n ≡ (n', done tt)
      → (updated : GameRecord) × (decide_rebind
            (Delegate.bound_game n.store label)
            label
            contract
            none
          ≡ RebindDecision.rebind updated)
        × (record n { store = (store_game n.store updated).0 } ≡ n')
  unfolding rebind_to ask_delegate handle handle_rebind_game
  rebind_to-done label contract n n' e =
      rebind_decided-done n n'
        (decide_rebind (Delegate.bound_game n.store label) label contract none) e

  pub write_world-bound_game :
      (id : Bytes) (entry : Bytes × Bytes) (broadcast : Broadcast) (n : FakeNode) (label : Bytes)
      → Delegate.bound_game (write_world id entry broadcast n).store label
        ≡ Delegate.bound_game n.store label
  unfolding write_world load_game load_bound_game_id
  write_world-bound_game id entry broadcast n label = refl

  pub write_world-state :
      (id : Bytes) (entry : Bytes × Bytes) (broadcast : Broadcast) (n : FakeNode) (other : Bytes)
      → get other (contracts (write_world id entry broadcast n))
        ≡ (if other == id then some entry else get other (contracts n))
  unfolding write_world
  write_world-state id entry broadcast n other = get-insert other id entry (contracts n)

  pub store_game-contracts :
      (n : FakeNode) (r : GameRecord)
      → contracts (record n { store = (store_game n.store r).0 }) ≡ contracts n
  unfolding store_game
  store_game-contracts n r = refl

  module _ (codec_laws : IsSecretCodec secrets) (wide : IsWideHash) where
    -- A record that is stored is what its label is bound to.
    pub rebound_game :
        (s : WorldBackedStore) (r : GameRecord)
        → r.format ≡ 3
        → Delegate.bound_game (store_game s r).0 r.label ≡ some r
    unfolding store_game
    rebound_game s r format =
        let stored = store_game-Stored world_backed_store-IsStore codec_laws wide s r format in
        let games = stored.games (game_id r.params) in
        let index = stored.index r.label in
        let done_index = stored.success in
        let done_game = stored.in_order (sym done_index) in
        let same_id = ==_self (game_id r.params) in let same_label = ==_self r.label in ground arith
