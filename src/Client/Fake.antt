-- ===== src/Client/Fake.antt =====
-- client/src/fake.rs: `FakeNode`, the node in memory that runs the contract and the delegate. Of the
-- world that fakes share, each call takes the value that the call before it has left.
pub mod Audit
pub mod Bound
pub mod Migrating
pub mod Joining
pub mod Submit
pub mod Ends
use adjourn.Prelude.{
  ℕ, suc, ◌+◌, ◌≡◌, Bool, true, false, List, [], ◌∷◌, ◌++◌, Option, none, some, leb, map_some,
  if◌then◌else◌,
}
use adjourn.Prelude.Lists.{length, drop}
use adjourn.Prelude.Order.{nat_ord, list_ord}
use adjourn.BTree.{Map, get, insert}
use adjourn.Types.{Bytes}
use adjourn.Types.Crypto.{Crypto}
use adjourn.Project.Board.{Chess}
use adjourn.Contract.{Result, err, ok, UpdateData, update_state}
use adjourn.Contract.Cbor.{Codec}
use adjourn.Delegate.{handle}
use adjourn.Delegate.Api.{Request, Response}
use adjourn.Delegate.Secrets.{SecretStore, SecretCodec}
use adjourn.Delegate.Memory.{MemoryStore, keys_with}
use adjourn.Client.{failed, done, NodeError, Failure, Reply}
use adjourn.Client.Node.{Freenet, ContractContainer, NodeClient, container_id}

pub data Broadcast : Type 0 where
  state delta : Bytes → Broadcast

-- Parameters and state of each contract, and the log of the writes.
pub record World : Type 0 where
  pub contracts : Map Bytes (Bytes × Bytes)
  pub log : List (Bytes × Broadcast)

-- `shared_world`
abbrev pub shared_world : World
shared_world = record { contracts = []; log = [] }

pub record WorldBackedStore : Type 0 where
  pub secrets : MemoryStore
  pub world : World

abbrev pub state_of : Option (Bytes × Bytes) → Option Bytes
state_of entry = map_some (λ e. e.1) entry

instance abbrev pub world_backed_store : SecretStore WorldBackedStore
world_backed_store = record {
  get = λ s key. get key s.secrets;
  set = λ s key value. (record s { secrets = insert key value s.secrets }, true);
  list = λ s prefix. keys_with prefix s.secrets;
  contract_state = λ s id. state_of (get id s.world.contracts);
}

-- The world of `store` is the world of the node.
pub record FakeNode : Type 0 where
  pub store : WorldBackedStore
  pub cursor : ℕ
  pub subscribed : Map Bytes ℕ
  pub fails_next_put : Bool

abbrev pub contracts : FakeNode → Map Bytes (Bytes × Bytes)
contracts n = n.store.world.contracts

abbrev pub log : FakeNode → List (Bytes × Broadcast)
log n = n.store.world.log

unfoldable pub new : World → FakeNode
new world = record {
  store = record { secrets = []; world = world };
  cursor = 0;
  subscribed = [];
  fails_next_put = false;
}

unfoldable pub fail_next_put : FakeNode → FakeNode
fail_next_put n = record n { fails_next_put = true }

-- A write to the shared world: an entry of the map, and of the log.
unfoldable pub write_world : Bytes → Bytes × Bytes → Broadcast → FakeNode → FakeNode
write_world id entry broadcast n = record n {
  store = record n.store {
    world = record {
      contracts = insert id entry (contracts n);
      log = log n ++ (id, broadcast) ∷ [];
    };
  };
}

-- Raw bytes for an id, with no parameters and no entry of the log.
unfoldable pub put_raw : Bytes → Bytes → FakeNode → FakeNode
put_raw id bytes n = record n {
  store = record n.store {
    world = record n.store.world { contracts = insert id ([], bytes) (contracts n) };
  };
}

-- `entry(id).or_insert(now)`
abbrev pub subscribed_at : Option ℕ → ℕ → ℕ
subscribed_at none now = now
subscribed_at (some from) now = from

unfoldable pub subscribe_to : Bytes → FakeNode → FakeNode
subscribe_to id n = record n {
  subscribed = insert id (subscribed_at (get id n.subscribed) (length (log n))) n.subscribed;
}

unfoldable pub get_from : Bytes → Bool → FakeNode → FakeNode × Reply (Option Bytes)
get_from id subscribe n =
    (if subscribe then subscribe_to id n else n, done (state_of (get id (contracts n))))

-- `Some(from) if at >= *from`
abbrev pub is_due : Option ℕ → ℕ → Bool
is_due none at = false
is_due (some from) at = leb from at

abbrev pub update_of : Broadcast → UpdateData
update_of (Broadcast.state bytes) = UpdateData.state bytes
update_of (Broadcast.delta bytes) = UpdateData.delta bytes

-- The loop of `next_update` over the rest of the log: the cursor after it, and the entry.
unfoldable pub scan_log :
    Map Bytes ℕ → ℕ → List (Bytes × Broadcast) → ℕ × Option (Bytes × UpdateData)
scan_log subscribed at [] = (at, none)
scan_log subscribed at ((id, broadcast) ∷ rest) =
    let later = scan_log subscribed (at + 1) rest in
    if is_due (get id subscribed) at then (at + 1, some (id, update_of broadcast)) else later

unfoldable pub next_from : FakeNode → FakeNode × Reply (Option (Bytes × UpdateData))
next_from n =
    let (cursor, update) = scan_log n.subscribed n.cursor (drop n.cursor (log n)) in
    (record n { cursor = cursor }, done update)

module _ ⦃freenet : Freenet⦄ where
  unfoldable pub put_to : ContractContainer → Bytes → FakeNode → FakeNode × Reply (Unit {0})
  put_to container bytes n =
      if n.fails_next_put
      then (record n { fails_next_put = false }, failed (Failure.node NodeError.plain))
      else (
        write_world (container_id container) (container.params, bytes) (Broadcast.state bytes) n,
        done tt,
      )

module _ ⦃c : Crypto⦄ ⦃codec : Codec⦄ where
  -- the contract's answer, written
  abbrev pub store_update :
      Bytes → Bytes → Bytes → FakeNode → Result Bytes → FakeNode × Reply (Unit {0})
  store_update id params payload n (err e) = (n, failed (Failure.node NodeError.plain))
  store_update id params payload n (ok new_state) =
      (write_world id (params, new_state) (Broadcast.delta payload) n, done tt)

  abbrev pub update_entry :
      Bytes → Bytes → FakeNode → Option (Bytes × Bytes) → FakeNode × Reply (Unit {0})
  update_entry id payload n none = (n, failed (Failure.node NodeError.plain))
  update_entry id payload n (some (params, current)) =
      store_update id params payload n (update_state params current (UpdateData.delta payload ∷ []))

  unfoldable pub update_to : Bytes → Bytes → FakeNode → FakeNode × Reply (Unit {0})
  update_to id payload n = update_entry id payload n (get id (contracts n))

-- The two draws of the host's randomness that a new key is made from; off wasm they are constant.
pub record Host : Type 0 where
  pub draws : Bytes × Bytes

module _ ⦃c : Crypto⦄ ⦃chess : Chess⦄ ⦃codec : Codec⦄ ⦃secrets : SecretCodec⦄ ⦃host : Host⦄ where
  unfoldable pub ask_delegate : Request → FakeNode → FakeNode × Reply Response
  ask_delegate request n =
      let (store, response) = handle host.draws n.store none request in
      (record n { store = store }, done response)

  module _ ⦃freenet : Freenet⦄ where
    instance abbrev pub fake_node : NodeClient FakeNode
    fake_node = record {
      get = get_from;
      put = put_to;
      update = update_to;
      delegate = ask_delegate;
      next_update = next_from;
    }
