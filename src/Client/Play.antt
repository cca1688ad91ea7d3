-- ===== src/Client/Play.antt =====
-- client/src/session.rs: the commands of the move flow, each with its checks.
use adjourn.Prelude.{
  ℕ, ◌+◌, ◌-◌, ◌%◌, ◌^◌, Bool, false, not, ◌&&◌, List, [], ◌∷◌, Option, none, some, ltb, leb,
  if◌then◌else◌,
}
use adjourn.Prelude.Lists.{any, get_last, drop}
use adjourn.Prelude.Order.{◌==◌, nat_ord, list_ord}
use adjourn.Types.{Bytes, RecordId, Color, other, color_eq, GameParams, Body, Record}
use adjourn.Types.Crypto.{Crypto, genesis, record_color}
use adjourn.State.{Records}
use adjourn.Policy.{side_of, color_of_side, side_eq}
use adjourn.Project.{Status, is_over, head_or, legal_moves}
use adjourn.Project.Board.{Chess}
use adjourn.Contract.Cbor.{Codec}
use adjourn.Client.{Failure, Session, return, bail_if, or_fail, ◌>>=◌, ◌>>◌}
use adjourn.Client.Node.{Freenet, NodeClient}
use adjourn.Client.Open.{GameView, OpenGame, open_game, sign_and_submit}

module _ ⦃c : Crypto⦄ where
  -- the last record of the chain, or genesis
  abbrev pub head_id : GameView → RecordId
  head_id view = head_or (get_last view.status.chain) (genesis view.params)

  -- A draw offer at the head by the other player.
  abbrev pub is_live_offer : GameParams → RecordId → Color → Record → Bool
  is_live_offer params head ours r = elim r.body [
    | Body.draw_offer ply at ↦
        at == head
        && elim (record_color params r) [ none ↦ false | some color ↦ color_eq color (other ours) ]
    | Body.move _ _ _ ↦ false
    | Body.resign ↦ false
    | Body.draw_accept _ _ ↦ false
    | Body.draw_claim _ _ ↦ false
  ]

  -- `records.iter().find(..).map(|(id, _)| *id)`
  unfoldable pub find_offer : GameParams → RecordId → Color → Records → Option RecordId
  find_offer params head ours [] = none
  find_offer params head ours ((id, r) ∷ records) =
      if is_live_offer params head ours r then some id else find_offer params head ours records

-- `chain.get(i)`
abbrev pub nth : List RecordId → ℕ → Option RecordId
nth chain i = elim (drop i chain) [ [] ↦ none | id ∷ _ ↦ some id ]

module _ ⦃c : Crypto⦄ ⦃chess : Chess⦄ ⦃codec : Codec⦄ ⦃freenet : Freenet⦄ {N : Type 0}
    ⦃client : NodeClient N⦄ where
  -- `sign_and_submit` with what the open game knows
  abbrev pub submit_in : OpenGame → Body → Session N Status
  submit_in g body = sign_and_submit g.view.game_id g.container g.view.params g.view.contract body

  -- `bail!("the game is already over")`
  abbrev pub check_live : GameView → Session N (Unit {0})
  check_live view = bail_if (is_over view.status) Failure.game_over

  abbrev pub check_legal : GameView → Bytes → Session N (Unit {0})
  check_legal view uci = do
    moves ← or_fail (legal_moves view.state view.params) Failure.unfinished
    bail_if (not (any (λ m. m == uci) moves)) (Failure.not_legal uci)

  -- The checks of `play_move`, in their order.
  unfoldable pub check_move : GameView → Bytes → Session N (Unit {0})
  check_move view uci = do
    check_live view
    bail_if (not (side_eq (side_of view.status.turn) view.side)) Failure.not_your_turn
    check_legal view uci

  unfoldable pub play_move : Bytes → Bytes → Bytes → Session N Status
  play_move label uci contract_wasm = do
    g ← open_game label contract_wasm
    check_move g.view uci
    submit_in g (Body.move ((g.view.status.ply + 1) % 2 ^ 16) (head_id g.view) uci)

  unfoldable pub resign : Bytes → Bytes → Session N Status
  resign label contract_wasm = do
    g ← open_game label contract_wasm
    check_live g.view
    submit_in g Body.resign

  unfoldable pub draw_offer : Bytes → Bytes → Session N Status
  draw_offer label contract_wasm = do
    g ← open_game label contract_wasm
    check_live g.view
    submit_in g (Body.draw_offer g.view.status.ply (head_id g.view))

  unfoldable pub draw_accept : Bytes → Bytes → Session N Status
  draw_accept label contract_wasm = do
    g ← open_game label contract_wasm
    check_live g.view
    offer ←
        or_fail
          (find_offer g.view.params (head_id g.view) (color_of_side g.view.side)
            g.view.state.records)
          Failure.no_offer
    submit_in g (Body.draw_accept g.view.status.ply offer)

  -- The checks of `draw_claim`.
  unfoldable pub check_claim : GameView → Session N (Unit {0})
  check_claim view = do
    check_live view
    bail_if (not (color_eq view.status.turn (color_of_side view.side))) Failure.not_to_move
    bail_if (ltb view.status.repetitions 3 && ltb view.status.halfmove_clock 100)
        (Failure.no_claim view.status.repetitions view.status.halfmove_clock)

  unfoldable pub draw_claim : Bytes → Bytes → Session N Status
  draw_claim label contract_wasm = do
    g ← open_game label contract_wasm
    check_claim g.view
    submit_in g (Body.draw_claim g.view.status.ply (head_id g.view))

  -- The parent of a ply: genesis, or the record before it in the chain.
  abbrev pub parent_at : GameView → ℕ → Session N RecordId
  parent_at view ply =
      if leb ply 1
      then return (genesis view.params)
      else or_fail (nth view.status.chain (ply - 2)) (Failure.no_parent ply)

  unfoldable pub sign_move_at_ply : Bytes → ℕ → Bytes → Bytes → Session N Status
  sign_move_at_ply label ply uci contract_wasm = do
    g ← open_game label contract_wasm
    parent ← parent_at g.view ply
    submit_in g (Body.move ply parent uci)
