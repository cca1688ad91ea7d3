-- ===== src/Client/Setup.antt =====
-- client/src/session.rs: the three setup flows, invite, accept and bind.
pub mod Agree
use adjourn.Prelude.{false, not, [], Option, none, some, is_some, if◌then◌else◌}
use adjourn.Prelude.Order.{◌==◌, nat_ord, list_ord}
use adjourn.Types.{Bytes, KeyBytes, GameParams}
use adjourn.Policy.{Side}
use adjourn.Contract.Cbor.{Codec}
use adjourn.Delegate.Api.{Request, Response}
use adjourn.Client.{Failure, Session, return, bail, bail_if, ◌>>=◌, ◌>>◌}
use adjourn.Client.Invite.{Invite, GameOffer, new_invite, new_offer}
use adjourn.Client.Node.{Freenet, ContractContainer, NodeClient, contract_container}

-- `Response::GameKey { public_key, .. }`, or the error
abbrev pub key_in : {N : Type 0} → Response → Session N KeyBytes
key_in (Response.game_key label public_key quality) = return public_key
key_in (Response.refused r) = bail (Failure.refused r)
key_in (Response.bound id) = bail (Failure.unexpected (Response.bound id))
key_in (Response.signed r) = bail (Failure.unexpected (Response.signed r))
key_in (Response.games gs) = bail (Failure.unexpected (Response.games gs))

-- `Response::Bound { .. }`, or the error
abbrev pub expect_bound : {N : Type 0} → Response → Session N (Unit {0})
expect_bound (Response.bound id) = return tt
expect_bound (Response.refused r) = bail (Failure.refused r)
expect_bound (Response.game_key label key quality) =
    bail (Failure.unexpected (Response.game_key label key quality))
expect_bound (Response.signed r) = bail (Failure.unexpected (Response.signed r))
expect_bound (Response.games gs) = bail (Failure.unexpected (Response.games gs))

-- The invite's side names the inviter's colour; we take the other.
unfoldable pub params_of : Invite → KeyBytes → GameParams
params_of invite ours = elim invite.side [
  | Side.white ↦ record { white = invite.public_key; black = ours; nonce = invite.nonce }
  | Side.black ↦ record { white = ours; black = invite.public_key; nonce = invite.nonce }
]

module _ {N : Type 0} ⦃client : NodeClient N⦄ where
  -- `CreateGameKey`, and the public key of the answer
  unfoldable pub create_key : Bytes → Bytes → Session N KeyBytes
  create_key label entropy = do
    response ← client.delegate (Request.create_game_key label (some entropy))
    key_in response

  unfoldable pub invite_new : Bytes → Side → Bytes → Bytes → Session N Invite
  invite_new label side entropy nonce = do
    public_key ← create_key label entropy
    return (new_invite side public_key nonce)

  -- `BindGame`, and whether the answer is `Bound`
  unfoldable pub bind_to : Bytes → GameParams → Bytes → Session N (Unit {0})
  bind_to label params contract = do
    response ← client.delegate (Request.bind_game label params contract)
    expect_bound response

  module _ ⦃codec : Codec⦄ ⦃freenet : Freenet⦄ where
    unfoldable pub accept_as : Bytes → Bytes → Invite → KeyBytes → Session N GameOffer
    accept_as label contract_wasm invite ours = do
      let params = params_of invite ours
      let (container, id) = contract_container contract_wasm params
      client.put container []
      bind_to label params id
      return (new_offer params id)

    unfoldable pub invite_accept : Bytes → Invite → Bytes → Bytes → Session N GameOffer
    invite_accept label invite contract_wasm entropy = do
      ours ← create_key label entropy
      accept_as label contract_wasm invite ours

    -- PUT the contract if the node has none, and bind.
    unfoldable pub join_game : Bytes → GameParams → ContractContainer → Bytes → Session N Bytes
    join_game label params container id = do
      held ← client.get id false
      (if is_some held then return tt else client.put container [])
      bind_to label params id
      return id

    unfoldable pub game_bind : Bytes → GameOffer → Bytes → Session N Bytes
    game_bind label offer contract_wasm = do
      let (container, id) = contract_container contract_wasm offer.params
      bail_if (not (id == offer.contract)) (Failure.build_mismatch id offer.contract)
      join_game label offer.params container id
