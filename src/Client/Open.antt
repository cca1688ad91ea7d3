-- ===== src/Client/Open.antt =====
-- client/src/session.rs: from a label to the game that the delegate recorded for it, its contract's
-- state and its projection; and the one path on which a body is signed and submitted.
pub mod Moves
use adjourn.Prelude.{
  ℕ, Bool, true, false, not, ◌&&◌, List, [], ◌∷◌, Option, none, some, is_some, if◌then◌else◌,
}
use adjourn.Prelude.Order.{◌==◌, nat_ord, list_ord}
use adjourn.BTree.{get}
use adjourn.Types.{Bytes, RecordId, GameParams, Body, Record}
use adjourn.Types.Crypto.{Crypto, genesis}
use adjourn.State.{GameState, empty}
use adjourn.Policy.{Side}
use adjourn.Project.{Status, project}
use adjourn.Project.Board.{Chess}
use adjourn.Contract.{read_state}
use adjourn.Contract.Cbor.{Codec}
use adjourn.Delegate.Api.{Request, Response, GameSummary}
use adjourn.Client.{Failure, Session, return, bail, bail_if, or_fail, ◌>>=◌, ◌>>◌}
use adjourn.Client.Node.{Freenet, ContractContainer, NodeClient, container_id, contract_container}

-- A summary with the four fields that `bound_game` checks.
pub record BoundGame : Type 0 where
  pub label : Bytes
  pub game_id : Bytes
  pub side : Side
  pub params : GameParams
  pub contract : Bytes
  pub previous : Option Bytes

-- `games.into_iter().find(|g| g.label == label)`
unfoldable pub find_label : Bytes → List GameSummary → Option GameSummary
find_label label [] = none
find_label label (g ∷ games) = if g.label == label then some g else find_label label games

abbrev pub all_fields :
    GameSummary → Option Bytes → Option Side → Option GameParams → Option Bytes → Option BoundGame
all_fields g (some game_id) (some side) (some params) (some contract) = some (record {
  label = g.label;
  game_id = game_id;
  side = side;
  params = params;
  contract = contract;
  previous = g.previous;
})
all_fields g _ _ _ _ = none

abbrev pub games_in : {N : Type 0} → Response → Session N (List GameSummary)
games_in (Response.games games) = return games
games_in (Response.refused r) = bail (Failure.refused r)
games_in (Response.game_key label key quality) =
    bail (Failure.unexpected (Response.game_key label key quality))
games_in (Response.bound id) = bail (Failure.unexpected (Response.bound id))
games_in (Response.signed r) = bail (Failure.unexpected (Response.signed r))

abbrev pub record_in : {N : Type 0} → Response → Session N Record
record_in (Response.signed r) = return r
record_in (Response.refused r) = bail (Failure.refused r)
record_in (Response.game_key label key quality) =
    bail (Failure.unexpected (Response.game_key label key quality))
record_in (Response.bound id) = bail (Failure.unexpected (Response.bound id))
record_in (Response.games gs) = bail (Failure.unexpected (Response.games gs))

-- `unwrap_or_default`
abbrev pub or_empty : Option Bytes → Bytes
or_empty none = []
or_empty (some b) = b

module _ ⦃codec : Codec⦄ ⦃freenet : Freenet⦄ where
  unfoldable pub expected_container :
      {N : Type 0} → Bytes → GameParams → Bytes → Session N ContractContainer
  expected_container contract_wasm params bound_contract = do
    let (container, id) = contract_container contract_wasm params
    bail_if (not (id == bound_contract)) (Failure.build_mismatch id bound_contract)
    return container

module _ {N : Type 0} ⦃client : NodeClient N⦄ where
  unfoldable pub bound_game : Bytes → Session N BoundGame
  bound_game label = do
    response ← client.delegate Request.list_games
    games ← games_in response
    summary ← or_fail (find_label label games) (Failure.no_key label)
    or_fail (all_fields summary summary.game_id summary.side summary.params summary.contract)
        (Failure.not_bound label)

module _ ⦃c : Crypto⦄ ⦃codec : Codec⦄ where
  -- Zero bytes are the empty state.
  abbrev pub decode_fetched : {N : Type 0} → Bytes → Session N GameState
  decode_fetched [] = return empty
  decode_fetched (b ∷ bytes) = or_fail (read_state (b ∷ bytes)) Failure.undecodable

  unfoldable pub fetch_state : {N : Type 0} ⦃client : NodeClient N⦄ → Bytes → Session N GameState
  fetch_state ⦃client = client⦄ contract = do
    bytes ← client.get contract false
    decode_fetched (or_empty bytes)

pub record GameView : Type 0 where
  pub label : Bytes
  pub side : Side
  pub params : GameParams
  pub game_id : Bytes
  pub contract : Bytes
  pub previous : Option Bytes
  pub state : GameState
  pub status : Status

pub record OpenGame : Type 0 where
  pub view : GameView
  pub container : ContractContainer

abbrev pub view_of : BoundGame → GameState → Status → GameView
view_of game state status = record {
  label = game.label;
  side = game.side;
  params = game.params;
  game_id = game.game_id;
  contract = game.contract;
  previous = game.previous;
  state = state;
  status = status;
}

-- `Body::Move { uci, .. } => Some(uci.clone())`
abbrev pub uci_in : Option Record → List Bytes → List Bytes
uci_in none rest = rest
uci_in (some r) rest = elim r.body [
  | Body.move ply parent uci ↦ uci ∷ rest
  | Body.resign ↦ rest
  | Body.draw_offer _ _ ↦ rest
  | Body.draw_accept _ _ ↦ rest
  | Body.draw_claim _ _ ↦ rest
]

-- `filter_map` over the chain
unfoldable pub ucis_of : GameState → List RecordId → List Bytes
ucis_of state [] = []
ucis_of state (id ∷ chain) = uci_in (get id state.records) (ucis_of state chain)

unfoldable pub moves_in_order : GameView → List Bytes
moves_in_order view = ucis_of view.state view.status.chain

module _ ⦃c : Crypto⦄ ⦃chess : Chess⦄ where
  abbrev pub projected : {N : Type 0} → GameState → GameParams → Session N Status
  projected state params = or_fail (project state params) Failure.unfinished

module _ ⦃c : Crypto⦄ ⦃chess : Chess⦄ ⦃codec : Codec⦄ ⦃freenet : Freenet⦄ {N : Type 0}
    ⦃client : NodeClient N⦄ where
  unfoldable pub open_game : Bytes → Bytes → Session N OpenGame
  open_game label contract_wasm = do
    game ← bound_game label
    container ← expected_container contract_wasm game.params game.contract
    state ← fetch_state game.contract
    status ← projected state game.params
    return (record { view = view_of game state status; container = container })

  unfoldable pub open_game_view : Bytes → Bytes → Session N GameView
  open_game_view label contract_wasm = do g ← open_game label contract_wasm; return g.view

  -- The record is submitted as a delta of one.
  unfoldable pub submit : ContractContainer → GameParams → Bytes → Record → Session N Status
  submit container params contract record_ = do
    client.update (container_id container) (codec.write_records (record_ ∷ []))
    state ← fetch_state contract
    projected state params

  unfoldable pub sign_and_submit :
      Bytes → ContractContainer → GameParams → Bytes → Body → Session N Status
  sign_and_submit game_id container params contract body = do
    response ← client.delegate (Request.sign game_id body)
    signed ← record_in response
    submit container params contract signed

  unfoldable pub show_label : Bytes → Bytes → Session N Status
  show_label label contract_wasm = do g ← open_game label contract_wasm; return g.view.status
