-- ===== src/Project/Board.antt =====
-- What common/src/project.rs calls of shakmaty: positions, moves and their notations.
use adjourn.Prelude.{ℕ, Bool, List, Option}
use adjourn.Types.{Bytes, Color}

pub record Chess : Type 1 where
  pub Pos : Type 0
  pub Move : Type 0
  pub Uci : Type 0
  -- `Chess::default()`
  pub start : Pos
  -- `UciMove::from_ascii` and `UciMove::to_move`
  pub from_ascii : Bytes → Option Uci
  pub to_move : Uci → Pos → Option Move
  -- `Position::play` of a move that `to_move` validated
  pub play : Pos → Move → Pos
  pub turn : Pos → Color
  pub halfmoves : Pos → ℕ
  pub is_checkmate : Pos → Bool
  pub is_stalemate : Pos → Bool
  pub is_insufficient_material : Pos → Bool
  -- `Epd::from_position(pos, EnPassantMode::Legal).to_string()`
  pub epd : Pos → Bytes
  -- `Fen::from_position(..).to_string()`, and parsing one into a position
  pub fen : Pos → Bytes
  pub parse_fen : Bytes → Option Pos
  -- `UciMove::from_move(mv, CastlingMode::Standard).to_string()`
  pub uci_of : Move → Bytes
  -- `pos.legal_moves()`, each through `uci_of`
  pub legal_moves : Pos → List Bytes
