-- ===== src/Project.antt =====
-- common/src/project.rs: from a record set to a position and an outcome.
pub mod Board
pub mod DoubleSign
pub mod Chain
pub mod Claims
pub mod Statements
pub mod Outcome
pub mod Moves
use adjourn.Prelude.{
  ℕ, ◌+◌, ◌%◌, ◌^◌, ◌≡◌, Bool, true, false, not, ◌&&◌, List, [], ◌∷◌, ◌++◌, Option, none, some,
  nat_eq, ltb, leb, or_else, map_some, ◌>>=◌, is_some, if◌then◌else◌,
}
use adjourn.Prelude.Lists.{length, has, retain, get_last}
use adjourn.Prelude.Order.{◌==◌, nat_ord, list_ord}
use adjourn.BTree.{get}
use adjourn.Types.{
  Bytes, RecordId, KeyBytes, Color, color_eq, other, GameParams, Body, Record, max_ply, color_of,
}
use adjourn.Types.Crypto.{Crypto, genesis, sign}
use adjourn.State.{Records, GameState}
use Board.{Chess}
use DoubleSign.{Fraud, double_signed}
use Chain.{Walk, walk}
use Claims.{Reason, draw_claimed, draw_agreed, resigned}

pub record Decision : Type 0 where
  -- `none` means a draw
  pub winner : Option Color
  pub reason : Reason

pub record Status : Type 0 where
  pub decision : Option Decision
  pub ply : ℕ
  pub turn : Color
  pub fen : Bytes
  pub chain : List RecordId
  pub ignored : ℕ
  pub repetitions : ℕ
  pub halfmove_clock : ℕ

abbrev pub is_over : Status → Bool
is_over s = is_some s.decision

abbrev pub draw : Reason → Decision
draw reason = record { winner = none; reason = reason }

abbrev pub win : Color → Reason → Decision
win color reason = record { winner = some color; reason = reason }

-- `unwrap_or_else`
abbrev pub head_or : Option RecordId → RecordId → RecordId
head_or none id = id
head_or (some id) _ = id

abbrev pub is_move : Body → Bool
is_move (Body.move _ _ _) = true
is_move Body.resign = false
is_move (Body.draw_offer _ _) = false
is_move (Body.draw_accept _ _) = false
is_move (Body.draw_claim _ _) = false

module _ ⦃c : Crypto⦄ ⦃chess : Chess⦄ where
  unfoldable pub board_result : Walk → Option Decision
  board_result w =
      if chess.is_checkmate w.pos
      then some (win (other (chess.turn w.pos)) Reason.checkmate)
      else if chess.is_stalemate w.pos
      then some (draw Reason.stalemate)
      else if chess.is_insufficient_material w.pos
      then some (draw Reason.insufficient_material)
      else if w.auto_draw
      then some (draw Reason.automatic_draw)
      else none

  -- the last record of the accepted chain, or the genesis id
  abbrev pub head_of : GameParams → Walk → RecordId
  head_of params w = head_or (get_last w.chain) (genesis params)

  -- the claim at the head, then the agreement at the head
  unfoldable pub draw_result : GameState → GameParams → Walk → Option Decision
  draw_result state params w =
      or_else
        (map_some draw (
          draw_claimed state.records params (head_of params w) (chess.turn w.pos) w.repetitions
            (chess.halfmoves w.pos)))
        (if draw_agreed state.records params (head_of params w)
          then some (draw Reason.draw_agreement)
          else none)

  abbrev pub resigned_result : GameState → GameParams → Walk → Bool × Bool → Option Decision
  resigned_result state params w (true, true) = some (draw Reason.mutual_resignation)
  resigned_result state params w (true, false) = some (win Color.black Reason.resignation)
  resigned_result state params w (false, true) = some (win Color.white Reason.resignation)
  resigned_result state params w (false, false) =
      or_else (board_result w) (draw_result state params w)

  abbrev pub decision_of : GameState → GameParams → Walk → Option Fraud → Option Decision
  decision_of state params w (some fraud) =
      some (record { winner = fraud.winner; reason = Reason.double_sign_forfeit })
  decision_of state params w none = resigned_result state params w (resigned state.records params)

  unfoldable pub ignored_in : Records → List RecordId → ℕ
  ignored_in records chain = length (retain (λ e. is_move e.1.body && not (has e.0 chain)) records)

  -- `project` after the walk
  unfoldable pub status_of : GameState → GameParams → Option Fraud → Walk → Status
  status_of state params fraud w = record {
    decision = decision_of state params w fraud;
    ply = length w.chain % 2 ^ 16;
    turn = chess.turn w.pos;
    fen = chess.fen w.pos;
    chain = w.chain;
    ignored = ignored_in state.records w.chain;
    repetitions = w.repetitions;
    halfmove_clock = chess.halfmoves w.pos;
  }

  -- `none`: the walk ran out of its rounds, which it does on no state of the contract.
  unfoldable pub project : GameState → GameParams → Option Status
  project state params =
      let fraud = double_signed state.records params in
      map_some (status_of state params fraud)
        (walk state.records params (map_some (λ f. f.first_ply) fraud))

  -- `status.ply.checked_add(1)` and the cap
  abbrev pub next_ply : ℕ → Option ℕ
  next_ply ply =
      if leb (2 ^ 16) (ply + 1)
      then none
      else if ltb max_ply (ply + 1)
      then none
      else some (ply + 1)

  abbrev pub when : Bool → Option (Unit {0})
  when true = some tt
  when false = none

  unfoldable pub make_move_at : Status → GameParams → Bytes → Bytes → Option Record
  make_move_at status params key uci = do
    _ ← when (not (is_over status))
    color ← color_of params (c.public_key key)
    _ ← when (color_eq color status.turn)
    pos ← chess.parse_fen status.fen
    parsed ← chess.from_ascii uci
    mv ← chess.to_move parsed pos
    ply ← next_ply status.ply
    some (
        sign key params
          (Body.move ply (head_or (get_last status.chain) (genesis params)) (chess.uci_of mv)))

  unfoldable pub make_move : GameState → GameParams → Bytes → Bytes → Option Record
  make_move state params key uci = do
    status ← project state params
    make_move_at status params key uci

  abbrev pub legal_at : Option chess.Pos → List Bytes
  legal_at none = []
  legal_at (some pos) = chess.legal_moves pos

  unfoldable pub legal_moves : GameState → GameParams → Option (List Bytes)
  legal_moves state params = do
    status ← project state params
    some (if is_over status then [] else legal_at (chess.parse_fen status.fen))
