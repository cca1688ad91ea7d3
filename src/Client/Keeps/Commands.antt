-- ===== src/Client/Keeps/Commands.antt =====
-- client/src/session.rs: what each command of the session keeps.
use adjourn.Prelude.{ℕ, Bool}
use adjourn.Prelude.Order.{nat_ord, list_ord}
use adjourn.Types.{Bytes, KeyBytes, GameParams, Body, Record}
use adjourn.Types.Crypto.{Crypto}
use adjourn.Policy.{Side}
use adjourn.Project.Board.{Chess}
use adjourn.Contract.Cbor.{Codec}
use adjourn.Delegate.Api.{Request}
use adjourn.Client.Invite.{Invite, GameOffer}
use adjourn.Client.Node.{Freenet, ContractContainer, NodeClient}
use adjourn.Client.Setup.{
  create_key, invite_new, bind_to, accept_as, invite_accept, join_game, game_bind,
}
use adjourn.Client.Open.{
  BoundGame, GameView, expected_container, bound_game, fetch_state, open_game, submit,
  sign_and_submit, show_label,
}
use adjourn.Client.Migrate.{rebind_to, move_game, migrate_label}
use adjourn.Client.Play.{
  check_move, play_move, resign, draw_offer, draw_accept, check_claim, draw_claim, sign_move_at_ply,
}
use adjourn.Client.Keeps.{Keeps, KeepsCalls, keeps_rules, bound_game_Keeps, decode_fetched-Keeps}

-- What only reads.
module _ ⦃c : Crypto⦄ ⦃codec : Codec⦄ {N : Type 0} ⦃client : NodeClient N⦄ {P : N → Type 0}
    (gets : (id : Bytes) (subscribe : Bool) → Keeps P (client.get id subscribe)) where
  expected_container-Keeps :
      ⦃freenet : Freenet⦄ (wasm : Bytes) (params : GameParams) (contract : Bytes)
      → Keeps {N = N} P (expected_container wasm params contract)
  unfolding expected_container
  expected_container-Keeps wasm params contract = search keeps_rules

  fetch_state_Keeps : (contract : Bytes) → Keeps P (fetch_state contract)
  unfolding fetch_state
  fetch_state_Keeps contract = search (keeps_rules, gets, decode_fetched-Keeps)

  pub open_game_Keeps :
      ⦃freenet : Freenet⦄ ⦃chess : Chess⦄
      → Keeps P (client.delegate Request.list_games)
      → (label wasm : Bytes) → Keeps P (open_game label wasm)
  unfolding open_game
  open_game_Keeps listing label wasm =
      search (keeps_rules, bound_game_Keeps listing, expected_container-Keeps, fetch_state_Keeps)

module _ ⦃c : Crypto⦄ ⦃chess : Chess⦄ ⦃codec : Codec⦄ ⦃freenet : Freenet⦄ {N : Type 0}
    ⦃client : NodeClient N⦄ {P : N → Type 0} (calls : KeepsCalls client P) where
  pub create_key-Keeps : (label entropy : Bytes) → Keeps P (create_key label entropy)
  unfolding create_key
  create_key-Keeps label entropy = search (keeps_rules, calls.delegate)

  pub invite_new-Keeps :
      (label : Bytes) (side : Side) (entropy nonce : Bytes)
      → Keeps P (invite_new label side entropy nonce)
  unfolding invite_new
  invite_new-Keeps label side entropy nonce = search (keeps_rules, create_key-Keeps)

  bind_to-Keeps :
      (label : Bytes) (params : GameParams) (contract : Bytes)
      → Keeps P (bind_to label params contract)
  unfolding bind_to
  bind_to-Keeps label params contract = search (keeps_rules, calls.delegate)

  accept_as-Keeps :
      (label wasm : Bytes) (invite : Invite) (ours : KeyBytes)
      → Keeps P (accept_as label wasm invite ours)
  unfolding accept_as
  accept_as-Keeps label wasm invite ours = search (keeps_rules, calls.put, bind_to-Keeps)

  pub invite_accept-Keeps :
      (label : Bytes) (invite : Invite) (wasm entropy : Bytes)
      → Keeps P (invite_accept label invite wasm entropy)
  unfolding invite_accept
  invite_accept-Keeps label invite wasm entropy =
      search (keeps_rules, create_key-Keeps, accept_as-Keeps)

  join_game-Keeps :
      (label : Bytes) (params : GameParams) (container : ContractContainer) (id : Bytes)
      → Keeps P (join_game label params container id)
  unfolding join_game
  join_game-Keeps label params container id =
      search (keeps_rules, calls.get, calls.put, bind_to-Keeps)

  pub game_bind-Keeps :
      (label : Bytes) (offer : GameOffer) (wasm : Bytes) → Keeps P (game_bind label offer wasm)
  unfolding game_bind
  game_bind-Keeps label offer wasm = search (keeps_rules, join_game-Keeps)

  pub bound_game-Keeps : (label : Bytes) → Keeps P (bound_game label)
  bound_game-Keeps label = bound_game_Keeps (calls.delegate Request.list_games) label

  fetch_state-Keeps : (contract : Bytes) → Keeps P (fetch_state contract)
  fetch_state-Keeps contract = fetch_state_Keeps calls.get contract

  pub open_game-Keeps : (label wasm : Bytes) → Keeps P (open_game label wasm)
  open_game-Keeps label wasm =
      open_game_Keeps calls.get (calls.delegate Request.list_games) label wasm

  submit-Keeps :
      (container : ContractContainer) (params : GameParams) (contract : Bytes) (r : Record)
      → Keeps P (submit container params contract r)
  unfolding submit
  submit-Keeps container params contract r = search (keeps_rules, calls.update, fetch_state-Keeps)

  sign_and_submit-Keeps :
      (game_id : Bytes) (container : ContractContainer) (params : GameParams) (contract : Bytes)
      (body : Body)
      → Keeps P (sign_and_submit game_id container params contract body)
  unfolding sign_and_submit
  sign_and_submit-Keeps game_id container params contract body =
      search (keeps_rules, calls.delegate, submit-Keeps)

  pub show_label-Keeps : (label wasm : Bytes) → Keeps P (show_label label wasm)
  unfolding show_label
  show_label-Keeps label wasm = search (keeps_rules, open_game-Keeps)

  rebind_to-Keeps : (label contract : Bytes) → Keeps P (rebind_to label contract)
  unfolding rebind_to
  rebind_to-Keeps label contract = search (keeps_rules, calls.delegate)

  move_game-Keeps :
      (label : Bytes) (game : BoundGame) (container : ContractContainer) (id : Bytes)
      → Keeps P (move_game label game container id)
  unfolding move_game
  move_game-Keeps label game container id =
      search (keeps_rules, calls.get, calls.put, decode_fetched-Keeps, rebind_to-Keeps) depth 12

  pub migrate_label-Keeps : (label wasm : Bytes) → Keeps P (migrate_label label wasm)
  unfolding migrate_label
  migrate_label-Keeps label wasm = search (keeps_rules, bound_game-Keeps, move_game-Keeps)

  check_move-Keeps : (view : GameView) (uci : Bytes) → Keeps P (check_move view uci)
  unfolding check_move
  check_move-Keeps view uci = search keeps_rules

  pub play_move-Keeps : (label uci wasm : Bytes) → Keeps P (play_move label uci wasm)
  unfolding play_move
  play_move-Keeps label uci wasm =
      search (keeps_rules, open_game-Keeps, check_move-Keeps, sign_and_submit-Keeps)

  pub resign-Keeps : (label wasm : Bytes) → Keeps P (resign label wasm)
  unfolding resign
  resign-Keeps label wasm = search (keeps_rules, open_game-Keeps, sign_and_submit-Keeps)

  pub draw_offer-Keeps : (label wasm : Bytes) → Keeps P (draw_offer label wasm)
  unfolding draw_offer
  draw_offer-Keeps label wasm = search (keeps_rules, open_game-Keeps, sign_and_submit-Keeps)

  pub draw_accept-Keeps : (label wasm : Bytes) → Keeps P (draw_accept label wasm)
  unfolding draw_accept
  draw_accept-Keeps label wasm = search (keeps_rules, open_game-Keeps, sign_and_submit-Keeps)

  check_claim-Keeps : (view : GameView) → Keeps P (check_claim view)
  unfolding check_claim
  check_claim-Keeps view = search keeps_rules

  pub draw_claim-Keeps : (label wasm : Bytes) → Keeps P (draw_claim label wasm)
  unfolding draw_claim
  draw_claim-Keeps label wasm =
      search (keeps_rules, open_game-Keeps, check_claim-Keeps, sign_and_submit-Keeps)

  pub sign_move_at_ply-Keeps :
      (label : Bytes) (ply : ℕ) (uci wasm : Bytes) → Keeps P (sign_move_at_ply label ply uci wasm)
  unfolding sign_move_at_ply
  sign_move_at_ply-Keeps label ply uci wasm =
      search (keeps_rules, open_game-Keeps, sign_and_submit-Keeps)
