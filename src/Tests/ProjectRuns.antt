-- ===== src/Tests/ProjectRuns.antt =====
-- The theorems on the projection, at the games of the examples.
use adjourn.Prelude.{ℕ, ◌≡◌, ◌≤◌, ◌↔◌, ◌⊎◌, refl, [], ◌∷◌, none, some, true, false, arith}
use adjourn.Prelude.Lists.{any}
use adjourn.Prelude.Order.{nat_ord, list_ord, pair_ord}
use adjourn.BTree.{values}
use adjourn.Types.{Record, Body, Bytes, RecordId, Color}
use adjourn.Types.Crypto.{id_of, genesis, sign, verify}
use adjourn.State.{evict, merge}
use adjourn.State.Members.{members}
use adjourn.Project.Moves.{Minted, make_move-verify, make_move-some}
use adjourn.Project.{
  make_move, make_move_at, Status, board_result, draw_result, ignored_in, status_of, project, win,
  draw,
}
use adjourn.Project.DoubleSign.{Fraud, seat_of, count_seat, count_moves, tally, double_signed}
use adjourn.Project.DoubleSign.Counts.{double_signed-evict}
use adjourn.Project.DoubleSign.Guilt.{
  Guilty, Guilty-double_signed, double_signed-Guilty, double_signed-merge,
}
use adjourn.Project.Chain.{Walk, candidate, candidates, advance, round, walk_from, walk_start, walk}
use adjourn.Project.Chain.Steps.{Plays}
use adjourn.Project.Chain.Legal.{walk-Plays, walk_total}
use adjourn.Project.Claims.{Reason, accepts, draw_agreed, claims, first_claim, resigned_from}
use adjourn.Project.Outcome.{project-forfeit_iff, project_resigned}
use adjourn.Project.Statements.{Agreed, draw_agreed_iff, resigns}
use adjourn.Tests.Toy.{toy-IsSigning, black_key, toy, game, white_key, game-IsCollisionFree}
use adjourn.Tests.Board.{plies}
use adjourn.Tests.Games.{
  root, program, opened, cheated, given_up, opened-IsValid, cheated-IsValid, white_resigns,
  first_move,
}

-- What a run of the projection unfolds.
unfoldable pub projection : Unit {0}
unfolding program seat_of count_seat count_moves tally double_signed candidate candidates advance
    round walk_from walk_start walk accepts draw_agreed claims first_claim resigned_from
    board_result draw_result ignored_in status_of project
projection = tt

abbrev cheat : Fraud
cheat = record { winner = some Color.black; first_ply = 1 }

cheated_double_signed : double_signed cheated.records game ≡ some cheat
unfolding projection
cheated_double_signed = refl

double_signed-evict_example :
    double_signed (evict cheated.records) game ≡ double_signed cheated.records game
double_signed-evict_example = double_signed-evict cheated.records game cheated-IsValid.sorted

double_signed-merge_example :
    (g : Fraud) × (double_signed (merge game cheated opened).records game ≡ some g)
double_signed-merge_example =
    double_signed-merge game game-IsCollisionFree cheated opened cheat cheated-IsValid
      opened-IsValid cheated_double_signed

double_signed-Guilty_example : (ply : ℕ) × Guilty game cheated.records ply
double_signed-Guilty_example = double_signed-Guilty game cheated.records cheat cheated_double_signed

white-Guilty : Guilty game cheated.records 1
unfolding projection members
white-Guilty = record {
  signer = white_key;
  color = Color.white;
  player = refl;
  twice = omega arith;
}

Guilty-double_signed_example :
    (f : Fraud) × (double_signed cheated.records game ≡ some f) × (f.first_ply ≤ 1)
Guilty-double_signed_example = Guilty-double_signed game cheated.records 1 white-Guilty

abbrev one_move : Walk
one_move = record { pos = 1; chain = id_of first_move ∷ []; auto_draw = false; repetitions = 1 }

walk-Plays_example :
    (parent : RecordId) × (ply : ℕ) × Plays opened.records game
      (genesis game)
      one_move.chain
      parent
      ply
      one_move.pos
unfolding projection
walk-Plays_example =
    walk-Plays opened.records game opened-IsValid.sorted opened-IsValid.holds none one_move refl

walk_total_example : (r : Walk) × (walk opened.records game (some 1) ≡ some r)
walk_total_example =
    walk_total opened.records game opened-IsValid.sorted opened-IsValid.holds (some 1)

abbrev forfeited : Status
forfeited = record {
  decision = some (record { winner = some Color.black; reason = Reason.double_sign_forfeit });
  ply = 0;
  turn = Color.white;
  fen = 0 ∷ [];
  chain = [];
  ignored = 2;
  repetitions = 1;
  halfmove_clock = 0;
}

project-forfeit_iff_example :
    (forfeited.decision
      ≡ some (record { winner = some Color.black; reason = Reason.double_sign_forfeit }))
    ↔ ((f : Fraud) × (double_signed cheated.records game ≡ some f) × (f.winner ≡ some Color.black))
unfolding projection
project-forfeit_iff_example = project-forfeit_iff cheated game forfeited (some Color.black) refl

abbrev surrendered : Status
surrendered = record {
  decision = some (win Color.black Reason.resignation);
  ply = 1;
  turn = Color.black;
  fen = 1 ∷ [];
  chain = id_of first_move ∷ [];
  ignored = 0;
  repetitions = 1;
  halfmove_clock = 1;
}

project_resigned_example :
    (surrendered.decision ≡ some (win Color.black Reason.resignation))
    ⊎ ((surrendered.decision ≡ some (draw Reason.mutual_resignation))
        × (any (resigns game Color.black) (values given_up.records) ≡ true))
unfolding projection
project_resigned_example =
    project_resigned given_up game surrendered (id_of white_resigns) white_resigns Color.white refl
      refl refl refl refl

draw_agreed_iff_example :
    (draw_agreed opened.records game root ≡ true) ↔ Agreed opened.records game root
draw_agreed_iff_example = draw_agreed_iff opened.records game root opened-IsValid.sorted

abbrev reply : Record
reply = sign black_key game (Body.move 2 (id_of first_move) (8 ∷ []))

make_move-verify_example :
    (st : Status) × (pos : ℕ) × (parsed : Bytes) × (mv : Bytes) × (project opened game ≡ some st)
    × Minted game (8 ∷ []) st pos parsed mv reply
unfolding projection make_move make_move_at
make_move-verify_example = make_move-verify toy-IsSigning opened game black_key (8 ∷ []) reply refl

abbrev open_status : Status
open_status = record {
  decision = none;
  ply = 1;
  turn = Color.black;
  fen = 1 ∷ [];
  chain = id_of first_move ∷ [];
  ignored = 0;
  repetitions = 1;
  halfmove_clock = 1;
}

make_move-some_example :
    (r : Record) × (make_move opened game black_key (8 ∷ []) ≡ some r) × (verify game r ≡ true)
unfolding projection
make_move-some_example =
    make_move-some toy-IsSigning opened game black_key (8 ∷ []) open_status 1 (8 ∷ []) (8 ∷ []) refl
      refl refl refl refl refl (omega arith)
