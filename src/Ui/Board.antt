-- ===== src/Ui/Board.antt =====
-- ui/src/board.rs: the board as a function of a status. Strings are ASCII, and so are bytes.
pub mod Marks
use adjourn.Prelude.{
  ℕ, zero, suc, ◌+◌, ◌-◌, ◌%◌, Bool, true, false, not, ◌&&◌, List, [], ◌∷◌, ◌++◌, Option, none,
  some, nat_eq, leb, if◌then◌else◌,
}
use adjourn.Prelude.Lists.{drop, any}
use adjourn.Prelude.Order.{◌==◌, nat_ord, list_ord}
use adjourn.Types.{Bytes, Color}
use adjourn.Delegate.Memory.{starts_with}
use adjourn.Project.{Status, is_over}
use adjourn.Project.Board.{Chess}

pub data Shade : Type 0 where
  light dark : Shade

pub data Marker : Type 0 where
  none_ selected legal_target : Marker

-- shakmaty's `Role`
pub data Role : Type 0 where
  pawn knight bishop rook queen king : Role

pub record Square : Type 0 where
  pub file : ℕ
  pub rank : ℕ
  pub shade : Shade
  pub piece : Option (Color × Role)
  pub marker : Marker

-- What is called of shakmaty's `Square::from_ascii` and `board().piece_at`: the piece on a square
-- that is given by its name.
pub record Pieces ⦃chess : Chess⦄ : Type 0 where
  pub piece_at : chess.Pos → Bytes → Option (Option (Color × Role))

-- `format!("{file}{rank}")`, of a rank from 1 to 8
abbrev pub square_name : ℕ → ℕ → Bytes
square_name file rank = file ∷ (48 + rank) ∷ []

-- `char::to_digit(10)`
abbrev pub to_digit : ℕ → Option ℕ
to_digit ch = if leb 48 ch && leb ch 57 then some (ch - 48) else none

-- The third and the fourth character of a move.
abbrev pub target_in : Bytes → Option (ℕ × ℕ)
target_in (file ∷ rank ∷ _) = elim (to_digit rank) [ none ↦ none | some r ↦ some (file, r) ]
target_in _ = none

abbrev pub push_target : Option (ℕ × ℕ) → List (ℕ × ℕ) → List (ℕ × ℕ)
push_target none targets = targets
push_target (some t) targets = t ∷ targets

-- `filter(..).filter_map(..)`
unfoldable pub targets_of : Bytes → List Bytes → List (ℕ × ℕ)
targets_of from [] = []
targets_of from (m ∷ moves) =
    let rest = targets_of from moves in
    if starts_with from m then push_target (target_in (drop 2 m)) rest else rest

abbrev pub same_square : ℕ × ℕ → ℕ × ℕ → Bool
same_square (f, r) (g, s) = nat_eq f g && nat_eq r s

abbrev pub is_selected : Option (ℕ × ℕ) → ℕ × ℕ → Bool
is_selected none sq = false
is_selected (some s) sq = same_square s sq

-- a1 is dark
abbrev pub shade_of : ℕ → ℕ → Shade
shade_of file rank = if nat_eq ((file - 97 + rank) % 2) 1 then Shade.dark else Shade.light

unfoldable pub marker_of : Option (ℕ × ℕ) → List (ℕ × ℕ) → ℕ × ℕ → Marker
marker_of chosen targets sq =
    if is_selected chosen sq
    then Marker.selected
    else if any (same_square sq) targets
    then Marker.legal_target
    else Marker.none_

abbrev files : List ℕ
files = 97 ∷ 98 ∷ 99 ∷ 100 ∷ 101 ∷ 102 ∷ 103 ∷ 104 ∷ []

abbrev files_back : List ℕ
files_back = 104 ∷ 103 ∷ 102 ∷ 101 ∷ 100 ∷ 99 ∷ 98 ∷ 97 ∷ []

abbrev pub row_of : Color → List ℕ
row_of Color.white = files
row_of Color.black = files_back

abbrev pub ranks_of : Color → List ℕ
ranks_of Color.white = 8 ∷ 7 ∷ 6 ∷ 5 ∷ 4 ∷ 3 ∷ 2 ∷ 1 ∷ []
ranks_of Color.black = 1 ∷ 2 ∷ 3 ∷ 4 ∷ 5 ∷ 6 ∷ 7 ∷ 8 ∷ []

abbrev pub piece_in : Option (Option (Color × Role)) → Option (Color × Role)
piece_in none = none
piece_in (some piece) = piece

module _ ⦃chess : Chess⦄ where
  abbrev pub position_of : Status → Option chess.Pos
  position_of status = chess.parse_fen status.fen

  abbrev pub moves_at : Option chess.Pos → List Bytes
  moves_at none = []
  moves_at (some pos) = chess.legal_moves pos

  unfoldable pub legal_moves_for : Status → List Bytes
  legal_moves_for status = moves_at (position_of status)

  -- The targets of the chosen square, unless the game is over.
  abbrev pub targets : Status → Option (ℕ × ℕ) → List (ℕ × ℕ)
  targets status none = []
  targets status (some (f, r)) =
      if is_over status then [] else targets_of (square_name f r) (legal_moves_for status)

  module _ ⦃pieces : Pieces⦄ where
    abbrev pub piece_on : Option chess.Pos → Bytes → Option (Color × Role)
    piece_on none name = none
    piece_on (some pos) name = piece_in (pieces.piece_at pos name)

    abbrev pub square_at : Status → Option (ℕ × ℕ) → ℕ → ℕ → Square
    square_at status chosen rank file = record {
      file = file;
      rank = rank;
      shade = shade_of file rank;
      piece = piece_on (position_of status) (square_name file rank);
      marker = marker_of chosen (targets status chosen) (file, rank);
    }

    -- the inner loop, over the files of a rank, and the outer
    unfoldable pub row : Status → Option (ℕ × ℕ) → ℕ → List ℕ → List Square
    row status chosen rank [] = []
    row status chosen rank (file ∷ line) =
        square_at status chosen rank file ∷ row status chosen rank line

    unfoldable pub rows : Status → Option (ℕ × ℕ) → List ℕ → List ℕ → List Square
    rows status chosen [] line = []
    rows status chosen (rank ∷ ranks) line =
        row status chosen rank line ++ rows status chosen ranks line

    unfoldable pub squares : Status → Color → Option (ℕ × ℕ) → List Square
    squares status orientation chosen =
        rows status chosen (ranks_of orientation) (row_of orientation)

    -- `matches!((piece.color, to.1), ..)` of a pawn
    abbrev pub promotes : Option (Color × Role) → ℕ → Bool
    promotes (some (Color.white, Role.pawn)) rank = nat_eq rank 8
    promotes (some (Color.black, Role.pawn)) rank = nat_eq rank 1
    promotes _ rank = false

    unfoldable pub is_promotion : Status → ℕ × ℕ → ℕ × ℕ → Bool
    is_promotion status (f, r) (g, s) = promotes (piece_on (position_of status) (square_name f r)) s
