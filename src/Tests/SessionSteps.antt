-- ===== src/Tests/SessionSteps.antt =====
-- The theorems on updates in any order, on a submitted body, on the end of a watch and on the list of
-- moves.
use adjourn.Prelude.{ℕ, ◌≡◌, ◌≢◌, ◌≤◌, ◌⊎◌, refl, false, List, [], ◌∷◌, none, some, arith}
use adjourn.Prelude.Lists.{length}
use adjourn.Prelude.Order.{nat_ord, list_ord}
use adjourn.BTree.{insert}
use adjourn.Types.{Bytes, Body, Color}
use adjourn.Types.Crypto.{game_id, id_of, sign}
use adjourn.State.{empty}
use adjourn.State.Batches.{Reorder}
use adjourn.State.Merge.{empty-IsValid}
use adjourn.Project.{Status}
use adjourn.Project.Outcome.{project_total}
use adjourn.Contract.{UpdateData, encode_state, update_state}
use adjourn.Contract.Orders.{ok_of, update_state-Reorder}
use adjourn.Policy.{Side}
use adjourn.Client.Node.{ContractContainer, contract_container}
use adjourn.Client.Setup.{bind_to}
use adjourn.Client.Open.{GameView, sign_and_submit, moves_in_order}
use adjourn.Client.Open.Moves.{replay, moves_in_order-replay}
use adjourn.Client.Fake.{FakeNode, Broadcast, fake_node, world_backed_store}
use adjourn.Client.Fake.Ends.{watch_label-ends}
use adjourn.Client.Fake.Submit.{HasSubmitted, sign_and_submit-HasSubmitted}
use adjourn.Client.Watch.{Ended, Watcher, take_in, decode_state_payload, decode_delta_payload}
use adjourn.Client.Watch.Loop.{watch_label, watch_loop, wake, wake_current}
use adjourn.Client.Watch.Order.{IsOver, Broke, watch_loop-Reorder}
use adjourn.Tests.Toy.{toy, game, white_key, game-IsCollisionFree}
use adjourn.Tests.Board.{plies}
use adjourn.Tests.Cbor.{framed, framed-IsCodec, write_game, read_game}
use adjourn.Tests.Games.{root, first_move, offer, second_move, opened, opened-IsValid}
use adjourn.Tests.Vault.{vault, own_label, stocked}
use adjourn.Tests.Session.{by_code, silent, wasm, seated}
use adjourn.Tests.SessionRuns.{session}

abbrev deltas : List UpdateData
deltas =
    UpdateData.delta (framed.write_records (first_move ∷ []))
    ∷ UpdateData.state (encode_state opened)
    ∷ UpdateData.delta (framed.write_records (second_move ∷ offer ∷ []))
    ∷ []

abbrev other_deltas : List UpdateData
other_deltas =
    UpdateData.state (encode_state opened)
    ∷ UpdateData.delta (framed.write_records (first_move ∷ []))
    ∷ UpdateData.delta (framed.write_records (second_move ∷ offer ∷ []))
    ∷ []

abbrev reordered : Reorder deltas other_deltas
reordered = Reorder.swap _ _ _

update_state-Reorder_example :
    ok_of (update_state (write_game game) [] deltas)
    ≡ ok_of (update_state (write_game game) [] other_deltas)
unfolding read_game session
update_state-Reorder_example =
    update_state-Reorder game (write_game game) [] refl game-IsCollisionFree reordered

-- A node that is subscribed to the game, with one entry of the log to read.
abbrev notified : FakeNode
notified = record {
  store = record {
    secrets = stocked;
    world = record {
      contracts = insert wasm (write_game game, []) [];
      log = (wasm, Broadcast.state []) ∷ [];
    };
  };
  cursor = 0;
  subscribed = insert wasm 0 [];
  fails_next_put = false;
}

watch_label-ends_example : (watch_label 2 own_label wasm notified).2 ≢ Ended.running
watch_label-ends_example = watch_label-ends 1 own_label wasm notified (omega arith) (omega arith)

abbrev status : Status
status = (project_total game opened opened-IsValid).0

abbrev view : GameView
view = record {
  label = own_label;
  side = Side.white;
  params = game;
  game_id = game_id game;
  contract = wasm;
  previous = none;
  state = opened;
  status = status;
}

-- A node that has these notifications of the game to read.
abbrev told : List (Bytes × Broadcast) → FakeNode
told log = record {
  store = record { secrets = stocked; world = record { contracts = []; log = log } };
  cursor = 0;
  subscribed = insert wasm 0 [];
  fails_next_put = false;
}

abbrev whole : Bytes × Broadcast
whole = (wasm, Broadcast.state (encode_state opened))

abbrev one : Bytes × Broadcast
one = (wasm, Broadcast.delta (framed.write_records (first_move ∷ [])))

abbrev rest : Bytes × Broadcast
rest = (wasm, Broadcast.delta (framed.write_records (offer ∷ [])))

abbrev last : List UpdateData
last = UpdateData.delta (framed.write_records (offer ∷ [])) ∷ []

abbrev told_reordered :
    Reorder
      (UpdateData.delta (framed.write_records (first_move ∷ []))
        ∷ UpdateData.state (encode_state opened)
        ∷ last)
      (UpdateData.state (encode_state opened)
        ∷ UpdateData.delta (framed.write_records (first_move ∷ []))
        ∷ last)
told_reordered = Reorder.swap _ _ last

abbrev watcher : Watcher
watcher = record {
  state = empty;
  previous_state = none;
  previous_unreachable = false;
  skewed = false;
  events = [];
}

told_run : (watch_loop 3 view white_key (told (one ∷ whole ∷ rest ∷ [])) watcher).2 ≡ Ended.running
unfolding session watch_loop wake wake_current take_in decode_state_payload decode_delta_payload
told_run = refl

watch_loop-Reorder_example :
    let out = watch_loop 3 view white_key (told (one ∷ whole ∷ rest ∷ [])) watcher in
    let out' = watch_loop 3 view white_key (told (whole ∷ one ∷ rest ∷ [])) watcher in
    ((out.2 ≡ Ended.running) × (out'.2 ≡ Ended.running) × (out.1.state ≡ out'.1.state))
    ⊎ ((IsOver view white_key out ⊎ IsOver view white_key out')
        ⊎ (Broke view white_key out × Broke view white_key out'))
unfolding session
watch_loop-Reorder_example =
    watch_loop-Reorder view white_key game-IsCollisionFree told_reordered
      (told (one ∷ whole ∷ rest ∷ [])) (told (whole ∷ one ∷ rest ∷ [])) watcher
      (_, refl, (_, refl, (_, refl, tt))) (_, refl, (_, refl, (_, refl, tt))) (empty-IsValid game)

moves_in_order-replay_example :
    (pos : ℕ) × (replay 0 (moves_in_order view) ≡ some pos)
    × (status.fen ≡ pos ∷ [])
    × (status.turn ≡ plies.turn pos)
    × (status.halfmove_clock ≡ pos)
    × (length (moves_in_order view) ≡ length status.chain)
    × (status.ply ≡ length (moves_in_order view))
    × (status.ply ≤ 4096)
moves_in_order-replay_example =
    moves_in_order-replay opened game opened-IsValid view refl
      (project_total game opened opened-IsValid).1

abbrev seat : FakeNode
seat = (bind_to own_label game wasm (seated [])).0

abbrev body : Body
body = Body.move 1 root (1 ∷ [])

-- What the player is shown after the move.
abbrev moved : Status
moved = record {
  decision = none;
  ply = 1;
  turn = Color.black;
  fen = 1 ∷ [];
  chain = id_of (sign white_key game body) ∷ [];
  ignored = 0;
  repetitions = 1;
  halfmove_clock = 1;
}

abbrev container : ContractContainer
container = (contract_container wasm game).0

abbrev after_move : FakeNode
after_move = (sign_and_submit (game_id game) container game wasm body seat).0

sign_and_submit-HasSubmitted_example :
    HasSubmitted (game_id game) wasm body game seat after_move (write_game game) [] moved
unfolding session
sign_and_submit-HasSubmitted_example =
    sign_and_submit-HasSubmitted framed-IsCodec (game_id game) wasm game (write_game game) [] refl
      body container seat after_move moved refl refl refl
