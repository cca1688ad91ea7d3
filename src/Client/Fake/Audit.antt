-- ===== src/Client/Fake/Audit.antt =====
-- client/src/fake.rs: a `FakeNode` beside the bodies of one game that its delegate hands out
-- signatures of, and which calls leave its secrets.
pub mod Guarded
use adjourn.Prelude.{
  ◌≡◌, ◌⊎◌, refl, sym, ap, subst, Bool, List, [], ◌∷◌, Option, none, some, arith, Option-cases,
  Bool-cases, true, false, inl, inr,
}
use adjourn.Prelude.Order.{nat_ord, list_ord}
use adjourn.Types.{Bytes, Body}
use adjourn.Types.Crypto.{Crypto, IsWideHash}
use adjourn.Project.Board.{Chess}
use adjourn.BTree.Laws.{get-insert}
use adjourn.Contract.{Result, err, ok, update_state, UpdateData}
use adjourn.Contract.Cbor.{Codec}
use adjourn.Policy.{GameRecord, SignDecision, decide_sign}
use adjourn.Policy.Guard.{
  All, All-map, Later, Later-first, Later-rest, Agree, Agree-first, NoClash, Advances,
  decide_sign-Signs,
}
use adjourn.Delegate.{handle}
use adjourn.Delegate.Api.{Request, Response}
use adjourn.Delegate.Secrets.{SecretStore, SecretCodec, load_game, load_bound_game_id}
use adjourn.Delegate.Laws.{IsStore, IsSecretCodec, SameGames}
use adjourn.Delegate.Guards.{IsKeyed, Guards, SameGames-IsKeyed, SameGames-Guarded}
use adjourn.Delegate.Signing.{released, handle-Step, handle-Released}
use adjourn.Delegate.History.{push_body, handle-IsKeyed, Step-Guarded}
use adjourn.Client.{failed, done, Reply}
use adjourn.Client.Node.{Freenet, ContractContainer, NodeClient}
use adjourn.Client.Keeps.{Keeps, KeepsCalls}
use adjourn.Client.Fake.{
  FakeNode, WorldBackedStore, world_backed_store, Host, write_world, subscribe_to, get_from, put_to,
  store_update, update_entry, update_to, next_from, ask_delegate, fake_node,
}

-- A fake node, and the bodies signed so far, the latest first.
pub record Audited : Type 0 where
  pub node : FakeNode
  pub signed : List Body

abbrev pub audit : FakeNode → Audited
audit n = record { node = n; signed = [] }

-- The secrets are the same.
abbrev pub SameSecrets : FakeNode → FakeNode → Type 0
SameSecrets n m = m.store.secrets ≡ n.store.secrets

-- A call that is no request to the delegate.
abbrev pub unsigned : {A : Type 0} → (FakeNode → FakeNode × Reply A) → Audited → Audited × Reply A
unsigned call n = let (m, reply) = call n.node in (record n { node = m }, reply)

pub world_backed_store-IsStore : IsStore world_backed_store
world_backed_store-IsStore = record { get_set = λ s k v j. get-insert j k v s.secrets }

module _ ⦃c : Crypto⦄ ⦃chess : Chess⦄ ⦃codec : Codec⦄ ⦃secrets : SecretCodec⦄ ⦃host : Host⦄
    ⦃freenet : Freenet⦄ where
  -- the body that a response releases
  abbrev pub note : Bytes → Request → Reply Response → List Body → List Body
  note id request (failed f) signed = signed
  note id request (done response) signed = push_body (released id request response) signed

  abbrev pub ask_audited : Bytes → Request → Audited → Audited × Reply Response
  ask_audited id request n =
      let (m, reply) = ask_delegate request n.node in
      (record { node = m; signed = note id request reply n.signed }, reply)

  abbrev pub audited : Bytes → NodeClient Audited
  audited id = record {
    get = λ key subscribe. unsigned (get_from key subscribe);
    put = λ container bytes. unsigned (put_to container bytes);
    update = λ key delta. unsigned (update_to key delta);
    delegate = ask_audited id;
    next_update = unsigned next_from;
  }

  -- The calls that are no requests leave the secrets.
  pub get_from-SameSecrets :
      (key : Bytes) (subscribe : Bool) (n : FakeNode) → SameSecrets n (get_from key subscribe n).0
  unfolding get_from subscribe_to
  get_from-SameSecrets key true n = refl
  get_from-SameSecrets key false n = refl

  pub put_to-SameSecrets :
      (container : ContractContainer) (bytes : Bytes) (n : FakeNode)
      → SameSecrets n (put_to container bytes n).0
  unfolding put_to write_world
  put_to-SameSecrets container bytes n = elim (Bool-cases n.fails_next_put) [
    | inl e ↦ rw e refl
    | inr e ↦ rw e refl
  ]

  store_update-SameSecrets :
      (key params payload : Bytes) (n : FakeNode) (r : Result Bytes)
      → SameSecrets n (store_update key params payload n r).0
  unfolding write_world
  store_update-SameSecrets key params payload n (err e) = refl
  store_update-SameSecrets key params payload n (ok state) = refl

  update_entry-SameSecrets :
      (key payload : Bytes) (n : FakeNode) (entry : Option (Bytes × Bytes))
      → SameSecrets n (update_entry key payload n entry).0
  update_entry-SameSecrets key payload n none = refl
  update_entry-SameSecrets key payload n (some (params, current)) =
      store_update-SameSecrets key params payload n _

  pub update_to-SameSecrets :
      (key payload : Bytes) (n : FakeNode) → SameSecrets n (update_to key payload n).0
  unfolding update_to
  update_to-SameSecrets key payload n = update_entry-SameSecrets key payload n _

  pub next_from-SameSecrets : (n : FakeNode) → SameSecrets n (next_from n).0
  unfolding next_from
  next_from-SameSecrets n = refl
