-- ===== src/Tests/Games.antt =====
-- A game with moves, a double-sign, a resignation and a draw offer, for the examples.
use adjourn.Prelude.{◌≡◌, refl, List, [], ◌∷◌}
use adjourn.Prelude.Lists.{length, take, drop, has, get_last, retain, any, all}
use adjourn.Prelude.Order.{nat_ord, list_ord}
use adjourn.BTree.{get, insert, remove}
use adjourn.Types.{Bytes, Body, Record, color_of, color_at_ply, key_of, ply_of, kind_of, k_of}
use adjourn.Types.Crypto.{id_of, sign, genesis, verify, game_id, signing_payload, sig_digest}
use adjourn.State.{
  GameState, filter_valid, push_id, build_groups, remove_all, sweep, evict, absorb, absorb_all,
  merge, insert_verified, all_valid, apply_delta,
}
use adjourn.State.Groups.{group_of}
use adjourn.State.Merge.{IsValid, filter_valid-IsValid}
use adjourn.Tests.Toy.{
  hash, check_seal, write_body, code, pair_code, toy, game, white_key, black_key,
}

abbrev pub root : Bytes
root = genesis game

-- white's first move, twice, which is a double-sign
abbrev pub first_move : Record
first_move = sign white_key game (Body.move 1 root (5 ∷ []))

abbrev pub second_move : Record
second_move = sign white_key game (Body.move 1 root (6 ∷ []))

abbrev pub third_move : Record
third_move = sign white_key game (Body.move 1 root (7 ∷ []))

abbrev pub offer : Record
offer = sign black_key game (Body.draw_offer 0 root)

abbrev pub white_resigns : Record
white_resigns = sign white_key game Body.resign

abbrev pub black_resigns : Record
black_resigns = sign black_key game Body.resign

abbrev pub keyed_under : List Record → List (Bytes × Record)
keyed_under [] = []
keyed_under (r ∷ rs) = insert (id_of r) r (keyed_under rs)

abbrev pub stored : List Record → GameState
stored rs = record { records = keyed_under rs }

-- The states are what `filter_valid` makes of records in any order.
abbrev pub opened : GameState
opened = filter_valid game (stored (first_move ∷ offer ∷ []))

abbrev pub cheated : GameState
cheated = filter_valid game (stored (first_move ∷ second_move ∷ third_move ∷ []))

abbrev pub given_up : GameState
given_up = filter_valid game (stored (first_move ∷ white_resigns ∷ []))

pub opened-IsValid : IsValid game opened
opened-IsValid = filter_valid-IsValid game (stored (first_move ∷ offer ∷ []))

pub cheated-IsValid : IsValid game cheated
cheated-IsValid = filter_valid-IsValid game (stored (first_move ∷ second_move ∷ third_move ∷ []))

pub given_up-IsValid : IsValid game given_up
given_up-IsValid = filter_valid-IsValid game (stored (first_move ∷ white_resigns ∷ []))

-- What a run unfolds.
unfoldable pub program : Unit {0}
unfolding take drop has get_last retain any all get insert remove color_of color_at_ply key_of
    ply_of kind_of k_of game_id genesis signing_payload id_of sig_digest sign verify hash check_seal
    write_body code pair_code group_of push_id build_groups remove_all sweep evict absorb absorb_all
    merge insert_verified filter_valid all_valid apply_delta
program = tt

-- Three moves at one ply: the two with the smaller ids stay.
length-cheated : length (cheated.records) ≡ 2
unfolding program
length-cheated = refl
