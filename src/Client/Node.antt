-- ===== src/Client/Node.antt =====
-- client/src/node.rs: what the session asks of a node, and the id of a contract.
use adjourn.Prelude.{Bool, true, false, Option}
use adjourn.Types.{Bytes, GameParams}
use adjourn.Contract.{UpdateData}
use adjourn.Contract.Cbor.{Codec}
use adjourn.Delegate.Api.{Request, Response}
use adjourn.Client.{Session}

-- `ContractInstanceId::from_params_and_code` of freenet_stdlib: parameters, then code.
pub record Freenet : Type 0 where
  pub instance_id : Bytes → Bytes → Bytes

-- `ContractContainer`: the parameters and the code of a contract.
pub record ContractContainer : Type 0 where
  pub params : Bytes
  pub code : Bytes

-- `trait NodeClient`
pub record NodeClient (N : Type 0) : Type 0 where
  -- an id, and whether to subscribe to it
  pub get : Bytes → Bool → Session N (Option Bytes)
  pub put : ContractContainer → Bytes → Session N (Unit {0})
  -- the key of a contract, by its id, and a delta
  pub update : Bytes → Bytes → Session N (Unit {0})
  pub delegate : Request → Session N Response
  pub next_update : Session N (Option (Bytes × UpdateData))

-- The errors of the node that `is_missing_contract` tells apart, of freenet_stdlib's `ErrorKind`.
pub data ErrorKind : Type 0 where
  missing_contract : Bytes → ErrorKind
  other_contract_error : ErrorKind
  other_request_error : ErrorKind
  other : ErrorKind

unfoldable pub is_missing_contract : ErrorKind → Bool
is_missing_contract (ErrorKind.missing_contract key) = true
is_missing_contract ErrorKind.other_contract_error = false
is_missing_contract ErrorKind.other_request_error = false
is_missing_contract ErrorKind.other = false

module _ ⦃freenet : Freenet⦄ where
  -- `container.id()`
  abbrev pub container_id : ContractContainer → Bytes
  container_id container = freenet.instance_id container.params container.code

  module _ ⦃codec : Codec⦄ where
    unfoldable pub contract_container : Bytes → GameParams → ContractContainer × Bytes
    contract_container wasm params =
        let container : ContractContainer = record {
          params = codec.write_params params;
          code = wasm;
        } in
        (container, container_id container)
