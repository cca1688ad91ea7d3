-- ===== src/Tests/UiRuns.antt =====
-- The theorems on the actor of the browser and on the board, at a game of the examples.
use adjourn.Prelude.{◌≡◌, refl, false, List, [], ◌∷◌, none, some, if◌then◌else◌}
use adjourn.Prelude.Lists.{length}
use adjourn.Prelude.Order.{◌==◌, nat_ord, list_ord}
use mathlib.Core.List.{reverse}
use adjourn.Policy.Guard.{All}
use adjourn.Types.{Bytes, Color}
use adjourn.Contract.{encode_state}
use adjourn.Project.{Status, legal_moves}
use adjourn.Project.Outcome.{project_total}
use adjourn.Client.{done}
use adjourn.Client.Fake.{FakeNode, fake_node}
use adjourn.Ui.Conn.{Cmd, Browser, Latch, Actor, steps_of}
use adjourn.Ui.Conn.Steady.{Steady, steps_of-Steady}
use adjourn.Ui.Board.{Pieces, Role, Marker, squares, marker_of, targets_of, square_name}
use adjourn.Delegate.Memory.{starts_with}
use adjourn.Ui.Board.Marks.{Marked, squares-Marked}
use adjourn.Project.Board.{Chess}
use adjourn.Tests.Board
use adjourn.Tests.Cbor.{framed}
use adjourn.Tests.Games.{opened, opened-IsValid}
use adjourn.Tests.ProjectRuns.{projection}
use adjourn.Tests.Session.{spelled, invites, offers, by_code, silent, wasm, seated}
use adjourn.Tests.Toy.{toy, game}
use adjourn.Tests.Vault.{vault, own_label}

-- e2e4 is the one legal move.
abbrev e2e4 : Bytes
e2e4 = 101 ∷ 50 ∷ 101 ∷ 52 ∷ []

instance abbrev pawns : Chess
pawns = record Board.plies { legal_moves = λ pos. e2e4 ∷ [] }

-- A connection that stays open.
instance abbrev open_latch : Latch FakeNode
open_latch = record { is_disconnected = λ n. false }

abbrev browser : Browser FakeNode
browser = record {
  fresh = done (seated (encode_state opened));
  entropy = done (6 ∷ []);
  nonce = done (9 ∷ []);
}

abbrev idle : Actor FakeNode
idle = record {
  client = none;
  wires = record {
    games = [];
    view = none;
    invite_blob = none;
    offer_blob = none;
    error = none;
    watch_error = none;
    mismatch = none;
    busy = false;
    connected = false;
    sent = [];
  };
}

abbrev history : List (Browser FakeNode × Cmd)
history =
    (browser, Cmd.list_games)
    ∷ (browser, Cmd.open_ own_label)
    ∷ (browser, Cmd.reconnect)
    ∷ (browser, Cmd.resign own_label)
    ∷ []

steps_of-Steady_example : Steady (steps_of wasm history idle)
steps_of-Steady_example =
    steps_of-Steady wasm history idle (record { idle = refl; linked = refl; shown = tt })

-- A board with a pawn on e2, and no other piece.
instance abbrev one_pawn : Pieces
one_pawn = record {
  piece_at =
      λ pos name. some (if name == square_name 101 2 then some (Color.white, Role.pawn) else none);
}

abbrev status : Status
status = (project_total game opened opened-IsValid).0

-- e4 is marked for the selected square e2.
marker_run :
    marker_of (some (101, 2)) (targets_of (square_name 101 2) (e2e4 ∷ [])) (101, 4)
    ≡ Marker.legal_target
unfolding marker_of targets_of starts_with projection
marker_run = refl

squares-Marked_example :
    (length (squares status Color.black (some (101, 2))) ≡ 64)
    × (squares status Color.black (some (101, 2))
        ≡ reverse (squares status Color.white (some (101, 2))))
    × All
        (Marked opened game status (e2e4 ∷ []) (101, 2))
        (squares status Color.black (some (101, 2)))
unfolding projection legal_moves
squares-Marked_example =
    squares-Marked opened game status (e2e4 ∷ []) Color.black (101, 2)
      (project_total game opened opened-IsValid).1 refl
