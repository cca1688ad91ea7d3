-- ===== src/Tests/Board.antt =====
-- A game of plies without a board, for the examples: every non-empty notation is a legal move, and
-- the side to move is mated after the fourth.
use adjourn.Prelude.{ℕ, ◌+◌, ◌%◌, false, [], ◌∷◌, Option, none, some, nat_eq, if◌then◌else◌}
use adjourn.Types.{Bytes, Color}
use adjourn.Project.Board.{Chess}

abbrev read_uci : Bytes → Option Bytes
read_uci [] = none
read_uci (x ∷ b) = some (x ∷ b)

abbrev read_fen : Bytes → Option ℕ
read_fen [] = none
read_fen (n ∷ b) = some n

instance abbrev pub plies : Chess
plies = record {
  Pos = ℕ;
  Move = Bytes;
  Uci = Bytes;
  start = 0;
  from_ascii = read_uci;
  to_move = λ u pos. some u;
  play = λ pos mv. pos + 1;
  turn = λ pos. if nat_eq (pos % 2) 0 then Color.white else Color.black;
  halfmoves = λ pos. pos;
  is_checkmate = λ pos. nat_eq pos 4;
  is_stalemate = λ pos. false;
  is_insufficient_material = λ pos. false;
  epd = λ pos. pos ∷ [];
  fen = λ pos. pos ∷ [];
  parse_fen = read_fen;
  uci_of = λ mv. mv;
  legal_moves = λ pos. (1 ∷ []) ∷ [];
}
