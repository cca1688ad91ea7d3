-- ===== src/Project/DoubleSign.antt =====
-- common/src/project.rs: `double_signed`, the structural proof of a double-sign.
pub mod Counts
pub mod Tallies
pub mod Guilt
use adjourn.Prelude.{
  ℕ, ◌+◌, ◌≡◌, Bool, true, false, ◌||◌, List, [], ◌∷◌, Option, none, some, ltb, if◌then◌else◌,
}
use adjourn.Prelude.Order.{nat_ord, list_ord, pair_ord}
use adjourn.BTree.{Map, get, insert}
use adjourn.Types.{KeyBytes, Color, GameParams, color_of, Body, Record}
use adjourn.State.{Records}

abbrev pub Seat : Type 0
Seat = KeyBytes × ℕ

pub record Fraud : Type 0 where
  pub winner : Option Color
  pub first_ply : ℕ

-- `*counts.entry(..).or_default() += 1`
abbrev pub or_zero : Option ℕ → ℕ
or_zero none = 0
or_zero (some n) = n

-- The seat of a move: who signs, and at which ply.
unfoldable pub seat_of : Record → Option Seat
seat_of rec = elim rec.body [
  | Body.move ply _ _ ↦ some (rec.signer, ply)
  | Body.resign ↦ none
  | Body.draw_offer _ _ ↦ none
  | Body.draw_accept _ _ ↦ none
  | Body.draw_claim _ _ ↦ none
]

unfoldable pub count_seat : Map Seat ℕ → Option Seat → Map Seat ℕ
count_seat counts none = counts
count_seat counts (some seat) = insert seat (or_zero (get seat counts) + 1) counts

unfoldable pub count_moves : Map Seat ℕ → Records → Map Seat ℕ
count_moves counts [] = counts
count_moves counts ((id, rec) ∷ s) = count_moves (count_seat counts (seat_of rec)) s

-- The variables of the loop over the counts.
pub record Tally : Type 0 where
  pub white : Bool
  pub black : Bool
  pub first_ply : Option ℕ

abbrev pub least_ply : Option ℕ → ℕ → Option ℕ
least_ply none ply = some ply
least_ply (some p) ply = some (if ltb ply p then ply else p)

-- One round for a seat with two or more moves.
abbrev pub charge : Tally → ℕ → Option Color → Tally
charge t ply none = t
charge t ply (some Color.white) = record t { white = true; first_ply = least_ply t.first_ply ply }
charge t ply (some Color.black) = record t { black = true; first_ply = least_ply t.first_ply ply }

unfoldable pub tally : GameParams → Tally → Map Seat ℕ → Tally
tally params t [] = t
tally params t (((signer, ply), n) ∷ counts) =
    tally params (if ltb n 2 then t else charge t ply (color_of params signer)) counts

-- The last arm is the source's `unreachable!`.
abbrev pub winner_of : Bool → Bool → ℕ → Option Fraud
winner_of true true ply = some (record { winner = none; first_ply = ply })
winner_of true false ply = some (record { winner = some Color.black; first_ply = ply })
winner_of false true ply = some (record { winner = some Color.white; first_ply = ply })
winner_of false false ply = none

abbrev pub fraud_of : Bool → Bool → Option ℕ → Option Fraud
fraud_of white black none = none
fraud_of white black (some ply) = winner_of white black ply

abbrev pub no_charge : Tally
no_charge = record { white = false; black = false; first_ply = none }

unfoldable pub double_signed : Records → GameParams → Option Fraud
double_signed s params =
    let t = tally params no_charge (count_moves [] s) in fraud_of t.white t.black t.first_ply
