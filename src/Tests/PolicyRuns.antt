-- ===== src/Tests/PolicyRuns.antt =====
-- The theorems on the delegate's decisions, at a game of the examples.
use adjourn.Prelude.{◌≡◌, ◌≤◌, ◌<◌, ◌↔◌, ◌⊎◌, refl, List, [], ◌∷◌, Option, none, some, true}
use adjourn.Prelude.Order.{nat_ord, list_ord}
use adjourn.Types.{Bytes, Body, color_at_ply}
use adjourn.Policy.{
  Side, side_of, EntropyQuality, GameRecord, SignDecision, Refusal, zeros, body_hash, opt_eq,
  decide_move, decide_sign,
}
use adjourn.Policy.Sign.{session, decide_sign-move_iff}
use adjourn.Policy.Seed.{SeedResult, classify_host_entropy, derive_seed, derive_seed-refused_iff}
use adjourn.Tests.Toy.{toy, game}
use adjourn.Tests.Games.{root, program}

abbrev ada : Option Bytes
ada = some (65 ∷ [])

abbrev bound : GameRecord
bound = record {
  format = 3;
  label = 1 ∷ [];
  params = game;
  side = Side.white;
  origin = ada;
  contract = 4 ∷ [];
  previous = none;
  entropy = EntropyQuality.host_backed;
  last_signed_ply = 0;
  last_move_body_hash = zeros 32;
}

abbrev first : Body
first = Body.move 1 root (5 ∷ [])

abbrev other_first : Body
other_first = Body.move 1 root (6 ∷ [])

abbrev requests : List (Body × Option Bytes)
requests = (first, ada) ∷ (other_first, ada) ∷ (first, ada) ∷ (Body.resign, ada) ∷ []

session_run : session bound requests ≡ first ∷ first ∷ Body.resign ∷ []
unfolding program session decide_sign decide_move side_of body_hash
session_run = refl

decide_sign-move_iff_example :
    ((updated : GameRecord) × (decide_sign bound first ada ≡ SignDecision.sign updated)) ↔ (
      (bound.format ≡ 3)
      × (opt_eq bound.origin ada ≡ true)
      × (1 ≤ 4096)
      × (side_of (color_at_ply 1) ≡ bound.side)
      × ((bound.last_signed_ply < 1)
          ⊎ ((1 ≡ bound.last_signed_ply)
              × (0 < 1)
              × (body_hash first ≡ bound.last_move_body_hash))))
decide_sign-move_iff_example = decide_sign-move_iff bound 1 root (5 ∷ []) ada

abbrev signed : GameRecord
signed = record bound { last_signed_ply = 1; last_move_body_hash = body_hash first }

derive_seed-refused_iff_example :
    (derive_seed (classify_host_entropy (zeros 32) (1 ∷ [])) (some (zeros 32)) (1 ∷ [])
      ≡ SeedResult.err Refusal.no_entropy)
    ↔ (((zeros 32 ≡ zeros 32) ⊎ (zeros 32 ≡ 1 ∷ []))
        × ((some (zeros 32) ≡ none) ⊎ (some (zeros 32) ≡ some (zeros 32))))
derive_seed-refused_iff_example =
    derive_seed-refused_iff (zeros 32) (1 ∷ []) (some (zeros 32)) (1 ∷ [])
