-- ===== src/Client/Migrate.antt =====
-- client/src/session.rs: `migrate_label`, which moves a game onto the contract of this build.
use adjourn.Prelude.{ℕ, false, [], ◌∷◌, if◌then◌else◌}
use adjourn.Prelude.Lists.{length}
use adjourn.Prelude.Order.{◌==◌, nat_ord, list_ord}
use adjourn.Types.{Bytes}
use adjourn.Types.Crypto.{Crypto}
use adjourn.State.{GameState, Records}
use adjourn.Contract.{encode_state}
use adjourn.Contract.Cbor.{Codec}
use adjourn.Delegate.Api.{Request}
use adjourn.Client.{Failure, Session, return, or_fail, ◌>>=◌, ◌>>◌}
use adjourn.Client.Node.{Freenet, ContractContainer, NodeClient, contract_container}
use adjourn.Client.Setup.{expect_bound}
use adjourn.Client.Open.{BoundGame, bound_game, decode_fetched}

pub data MigrateOutcome : Type 0 where
  already_current : Bytes → MigrateOutcome
  -- from, to, and the number of records
  migrated : Bytes → Bytes → ℕ → MigrateOutcome

module _ ⦃c : Crypto⦄ ⦃codec : Codec⦄ where
  -- The empty state is PUT as zero bytes.
  abbrev pub put_bytes : GameState → Records → Bytes
  put_bytes state [] = []
  put_bytes state (_ ∷ _) = encode_state state

  module _ ⦃freenet : Freenet⦄ {N : Type 0} ⦃client : NodeClient N⦄ where
    -- `Rebind`, and whether the answer is `Bound`
    unfoldable pub rebind_to : Bytes → Bytes → Session N (Unit {0})
    rebind_to label contract = do
      response ← client.delegate (Request.rebind label contract)
      expect_bound response

    unfoldable pub move_game :
        Bytes → BoundGame → ContractContainer → Bytes → Session N MigrateOutcome
    move_game label game container new_id = do
      found ← client.get game.contract false
      raw ← or_fail found (Failure.gone game.contract)
      state ← decode_fetched raw
      client.put container (put_bytes state state.records)
      rebind_to label new_id
      return (MigrateOutcome.migrated game.contract new_id (length state.records))

    unfoldable pub migrate_label : Bytes → Bytes → Session N MigrateOutcome
    migrate_label label contract_wasm = do
      game ← bound_game label
      let (container, new_id) = contract_container contract_wasm game.params
      (if new_id == game.contract
          then return (MigrateOutcome.already_current game.contract)
          else move_game label game container new_id)
