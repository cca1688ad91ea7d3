-- ===== src/Tests/StateRuns.antt =====
-- The theorems on states, at the games of the examples.
use adjourn.Prelude.{◌≡◌, refl, [], ◌∷◌, some}
use adjourn.Prelude.Lists.{take}
use adjourn.Prelude.Order.{nat_ord, list_ord}
use adjourn.BTree.{IsSorted}
use adjourn.Types.{Kind}
use adjourn.State.{evict, merge, apply_delta}
use adjourn.State.Union.{union}
use adjourn.State.Members.{members}
use adjourn.State.Evict.{cap_of}
use adjourn.State.TopK.{evict-union}
use adjourn.State.Merge.{merge_assoc, merge_comm, members-evict}
use adjourn.State.Summary.{summarize, delta_against, apply_delta-delta_against, sync_converges}
use adjourn.State.Wire.{from_sequence, to_sequence, from_sequence-to_sequence}
use adjourn.Tests.Toy.{toy, game, white_key, game-IsCollisionFree, game-IsDigestFree}
use adjourn.Tests.Games.{
  opened, cheated, given_up, opened-IsValid, cheated-IsValid, given_up-IsValid, first_move,
  second_move, third_move, stored, program,
}

merge_assoc_example :
    merge game (merge game opened cheated) given_up
    ≡ merge game opened (merge game cheated given_up)
merge_assoc_example =
    merge_assoc game game-IsCollisionFree opened cheated given_up opened-IsValid cheated-IsValid
      given_up-IsValid

merge_comm_example : merge game opened cheated ≡ merge game cheated opened
merge_comm_example =
    merge_comm game game-IsCollisionFree opened cheated opened-IsValid cheated-IsValid

evict-union_example :
    evict (union game (evict cheated.records) opened.records)
    ≡ evict (union game cheated.records opened.records)
evict-union_example =
    evict-union game game-IsCollisionFree cheated.records opened.records cheated-IsValid.holds
      opened-IsValid.holds cheated-IsValid.sorted opened-IsValid.sorted

apply_delta-delta_against_example :
    apply_delta game opened (delta_against cheated (summarize opened)) ≡ merge game opened cheated
apply_delta-delta_against_example =
    apply_delta-delta_against game game-IsCollisionFree game-IsDigestFree opened cheated
      opened-IsValid cheated-IsValid

sync_converges_example :
    apply_delta game opened (delta_against cheated (summarize opened))
    ≡ apply_delta game cheated (delta_against opened (summarize cheated))
sync_converges_example =
    sync_converges game game-IsCollisionFree game-IsDigestFree opened cheated opened-IsValid
      cheated-IsValid

three_moves-IsSorted : IsSorted (stored (first_move ∷ second_move ∷ third_move ∷ [])).records
unfolding program
three_moves-IsSorted = ((refl, (refl, tt)), ((refl, tt), (tt, tt)))

members-evict_example :
    members
      (white_key, Kind.move, 1)
      (evict (stored (first_move ∷ second_move ∷ third_move ∷ [])).records)
    ≡ take (cap_of (white_key, Kind.move, 1)) (
        members
          (white_key, Kind.move, 1)
          (stored (first_move ∷ second_move ∷ third_move ∷ [])).records)
members-evict_example =
    members-evict (stored (first_move ∷ second_move ∷ third_move ∷ [])).records three_moves-IsSorted
      (white_key, Kind.move, 1)

from_sequence-to_sequence_example : from_sequence (to_sequence cheated) ≡ some cheated
from_sequence-to_sequence_example =
    from_sequence-to_sequence game cheated cheated-IsValid.sorted cheated-IsValid.holds
