-- ===== src/Ui/Board/Marks.antt =====
-- ui/src/board.rs: the squares, for either player, and the marks on them.
use adjourn.Prelude.{
  ℕ, ◌≡◌, refl, ap, ◌∙◌, Bool, true, false, ◌&&◌, List, [], ◌∷◌, Option, none, some, if◌then◌else◌,
  Bool-cases, Option-cases, inl, inr, ◌>>=◌,
}
use adjourn.Prelude.Lists.{some-inj, length, drop, any}
use mathlib.Core.List.{reverse}
use adjourn.Policy.Guard.{All, All-append}
use adjourn.Types.{Bytes, Color, GameParams}
use adjourn.Types.Crypto.{Crypto}
use adjourn.State.{GameState}
use adjourn.Project.{Status, is_over, project, legal_moves, legal_at}
use adjourn.Project.Board.{Chess}
use adjourn.Delegate.Memory.{starts_with}
use adjourn.Ui.Board.{
  Marker, Role, Square, Pieces, piece_on, square_name, target_in, push_target, targets_of,
  same_square, marker_of, targets, legal_moves_for, position_of, moves_at, square_at, row, rows,
  squares, row_of, ranks_of,
}

-- Does the move go from a square of this name to this square?
abbrev pub leads : Bytes → ℕ × ℕ → Bytes → Bool
leads from sq m =
    starts_with from m && (elim (target_in (drop 2 m)) [ none ↦ false | some t ↦ same_square sq t ])

any-push_target :
    (sq : ℕ × ℕ) (o : Option (ℕ × ℕ)) (rest : List (ℕ × ℕ))
    → any (same_square sq) (push_target o rest) ≡ (
        if (elim o [ none ↦ false | some t ↦ same_square sq t ])
        then true
        else any (same_square sq) rest)
unfolding any
any-push_target sq none rest = refl
any-push_target sq (some t) rest = refl

any-targets_of :
    (from : Bytes) (sq : ℕ × ℕ) (moves : List Bytes)
    → any (same_square sq) (targets_of from moves) ≡ any (leads from sq) moves
unfolding targets_of any
any-targets_of from sq [] = refl
any-targets_of from sq (m ∷ moves) = elim (Bool-cases (starts_with from m)) [
  | inl e ↦ rw e (
      any-push_target sq (target_in (drop 2 m)) (targets_of from moves)
      ∙ ap
          (λ b.
            if (elim (target_in (drop 2 m)) [ none ↦ false | some t ↦ same_square sq t ])
            then true
            else b)
          (any-targets_of from sq moves))
  | inr e ↦ rw e (any-targets_of from sq moves)
]

-- The hand copy, and what it copies.
same_moves : ⦃c : Crypto⦄ ⦃chess : Chess⦄ (o : Option chess.Pos) → moves_at o ≡ legal_at o
same_moves none = refl
same_moves (some pos) = refl

-- What stands on the square of this name, in the position that a FEN is read as.
abbrev pub found_in :
    ⦃chess : Chess⦄ ⦃pieces : Pieces⦄ → Option chess.Pos → Bytes → Option (Color × Role)
found_in ⦃pieces = pieces⦄ o name = do pos ← o; piece ← pieces.piece_at pos name; piece

piece_on-found :
    ⦃chess : Chess⦄ ⦃pieces : Pieces⦄ (o : Option chess.Pos) (name : Bytes)
    → piece_on o name ≡ found_in o name
piece_on-found none name = refl
piece_on-found ⦃pieces = pieces⦄ (some pos) name = elim (Option-cases (pieces.piece_at pos name)) [
  | inl e ↦ rw e refl
  | inr (piece, e) ↦ rw e refl
]

module _ ⦃chess : Chess⦄ ⦃pieces : Pieces⦄ (status : Status) (chosen : Option (ℕ × ℕ))
    (P : Square → Type 0) (each : (rank file : ℕ) → P (square_at status chosen rank file)) where
  All-row : (rank : ℕ) (line : List ℕ) → All P (row status chosen rank line)
  unfolding row
  All-row rank [] = tt
  All-row rank (file ∷ line) = (each rank file, All-row rank line)

  All-rows : (ranks line : List ℕ) → All P (rows status chosen ranks line)
  unfolding rows
  All-rows [] line = tt
  All-rows (rank ∷ ranks) line =
      All-append P (row status chosen rank line) (rows status chosen ranks line) (All-row rank line)
        (All-rows ranks line)

module _ ⦃c : Crypto⦄ ⦃chess : Chess⦄ (s : GameState) (p : GameParams) (status : Status)
    (moves : List Bytes) where
  -- The targets are those of the projection's legal moves.
  any-targets :
      (f r : ℕ) (sq : ℕ × ℕ)
      → project s p ≡ some status
      → legal_moves s p ≡ some moves
      → any (same_square sq) (targets status (some (f, r))) ≡ any (leads (square_name f r) sq) moves
  unfolding legal_moves legal_moves_for any
  any-targets f r sq e l = elim (Bool-cases (is_over status)) [
    | inl o ↦ let q = rw (e, o) at l in rw o (ap (any (leads (square_name f r) sq)) (some-inj q))
    | inr o ↦
        let q = rw (e, o) at l in
        rw o (
          any-targets_of (square_name f r) sq (legal_moves_for status)
          ∙ ap (any (leads (square_name f r) sq)) (same_moves (position_of status) ∙ some-inj q))
  ]

  marked :
      (f r : ℕ)
      → project s p ≡ some status
      → legal_moves s p ≡ some moves
      → (sq : ℕ × ℕ)
      → marker_of (some (f, r)) (targets status (some (f, r))) sq ≡ (
          if same_square (f, r) sq
          then Marker.selected
          else if any (leads (square_name f r) sq) moves
          then Marker.legal_target
          else Marker.none_)
  unfolding marker_of
  marked f r e l sq =
      ap
        (λ b.
          if same_square (f, r) sq
          then Marker.selected
          else if b
          then Marker.legal_target
          else Marker.none_)
        (any-targets f r sq e l)

  -- The mark that a square should have.
  abbrev pub mark_at : ℕ × ℕ → Square → Marker
  mark_at (f, r) sq =
      if same_square (f, r) (sq.file, sq.rank)
      then Marker.selected
      else if any (leads (square_name f r) (sq.file, sq.rank)) moves
      then Marker.legal_target
      else Marker.none_

  -- A square with the mark that it should have, and with what is found there.
  abbrev pub Marked : ⦃pieces : Pieces⦄ → ℕ × ℕ → Square → Type 0
  Marked from sq =
      (sq.marker ≡ mark_at from sq)
      × (sq.piece ≡ found_in (chess.parse_fen status.fen) (square_name sq.file sq.rank))

  each_square :
      ⦃pieces : Pieces⦄ (f r : ℕ)
      → project s p ≡ some status
      → legal_moves s p ≡ some moves
      → (rank file : ℕ) → Marked (f, r) (square_at status (some (f, r)) rank file)
  each_square f r e l rank file = (
    marked f r e l (file, rank),
    piece_on-found (chess.parse_fen status.fen) (square_name file rank),
  )

  -- The board of a projected status has 64 squares; the two players see the same squares, each in the
  -- other's order from the end; and with a square selected, that square is marked as selected, the
  -- squares that a legal move of the projection leads to from there are marked as its targets, and
  -- no other square is marked, so that none is when the game is over. Each square has the piece that
  -- shakmaty finds under the square's name in the position of the status's FEN, or none if the FEN
  -- is not read or nothing is there.
  pub squares-Marked :
      ⦃pieces : Pieces⦄ (orientation : Color) (from : ℕ × ℕ)
      → project s p ≡ some status
      → legal_moves s p ≡ some moves
      → (length (squares status orientation (some from)) ≡ 64)
        × (squares status Color.black (some from)
            ≡ reverse (squares status Color.white (some from)))
        × All (Marked from) (squares status orientation (some from))
  unfolding squares rows row marker_of
  squares-Marked Color.white (f, r) e l = (
    refl,
    refl,
    All-rows status (some (f, r)) (Marked (f, r)) (each_square f r e l) (ranks_of Color.white)
        (row_of Color.white),
  )
  squares-Marked Color.black (f, r) e l = (
    refl,
    refl,
    All-rows status (some (f, r)) (Marked (f, r)) (each_square f r e l) (ranks_of Color.black)
        (row_of Color.black),
  )
