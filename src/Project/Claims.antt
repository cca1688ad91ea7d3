-- ===== src/Project/Claims.antt =====
-- common/src/project.rs: resignations, draw claims and draw agreements.
use adjourn.Prelude.{
  ℕ, Bool, true, false, not, List, [], ◌∷◌, Option, none, some, leb, or_else, if◌then◌else◌,
}
use adjourn.Prelude.Lists.{any}
use adjourn.Prelude.Order.{◌==◌, nat_ord, list_ord}
use adjourn.BTree.{get, values}
use adjourn.Types.{RecordId, Color, color_eq, color_of, GameParams, Body, Record}
use adjourn.State.{Records}

pub data Reason : Type 0 where
  checkmate stalemate insufficient_material automatic_draw resignation draw_agreement : Reason
  double_sign_forfeit mutual_resignation threefold_claim fifty_move_claim : Reason

abbrev pub threefold : ℕ
threefold = 3

abbrev pub fifty_move_halfmoves : ℕ
fifty_move_halfmoves = 100

-- `rec.color(params) == Some(color)`
abbrev pub is_color : Option Color → Color → Bool
is_color none color = false
is_color (some c) color = color_eq c color

-- two known and different colours
abbrev pub opposed : Option Color → Option Color → Bool
opposed none b = false
opposed (some a) none = false
opposed (some a) (some b) = not (color_eq a b)

-- a stored record that offers a draw at the head, and its signer's colour
abbrev pub live_offer : GameParams → RecordId → Option Record → Option Color
live_offer params head none = none
live_offer params head (some offer) = elim offer.body [
  | Body.draw_offer _ at_id ↦ (if at_id == head then color_of params offer.signer else none)
  | Body.move _ _ _ ↦ none
  | Body.resign ↦ none
  | Body.draw_accept _ _ ↦ none
  | Body.draw_claim _ _ ↦ none
]

-- One round of the loop of `draw_agreed`.
unfoldable pub accepts : Records → GameParams → RecordId → Record → Bool
accepts s params head rec = elim rec.body [
  | Body.draw_accept _ offer ↦
      opposed (live_offer params head (get offer s)) (color_of params rec.signer)
  | Body.move _ _ _ ↦ false
  | Body.resign ↦ false
  | Body.draw_offer _ _ ↦ false
  | Body.draw_claim _ _ ↦ false
]

unfoldable pub draw_agreed : Records → GameParams → RecordId → Bool
draw_agreed s params head = any (accepts s params head) (values s)

-- the grounds of a claim
abbrev pub ground_for : ℕ → ℕ → Option Reason
ground_for repetitions halfmoves =
    if leb threefold repetitions
    then some Reason.threefold_claim
    else if leb fifty_move_halfmoves halfmoves
    then some Reason.fifty_move_claim
    else none

-- One round of the loop of `draw_claimed`.
unfoldable pub claims : GameParams → RecordId → Color → ℕ → ℕ → Record → Option Reason
claims params head turn repetitions halfmoves rec = elim rec.body [
  | Body.draw_claim _ at_id ↦
      (if not (at_id == head)
        then none
        else if not (is_color (color_of params rec.signer) turn)
        then none
        else ground_for repetitions halfmoves)
  | Body.move _ _ _ ↦ none
  | Body.resign ↦ none
  | Body.draw_offer _ _ ↦ none
  | Body.draw_accept _ _ ↦ none
]

unfoldable pub first_claim : GameParams → RecordId → Color → ℕ → ℕ → List Record → Option Reason
first_claim params head turn repetitions halfmoves [] = none
first_claim params head turn repetitions halfmoves (rec ∷ recs) =
    or_else (claims params head turn repetitions halfmoves rec)
      (first_claim params head turn repetitions halfmoves recs)

abbrev pub draw_claimed : Records → GameParams → RecordId → Color → ℕ → ℕ → Option Reason
draw_claimed s params head turn repetitions halfmoves =
    first_claim params head turn repetitions halfmoves (values s)

-- One round of the loop of `resigned`.
abbrev pub note_resign : Bool × Bool → Body → Option Color → Bool × Bool
note_resign (white, black) Body.resign (some Color.white) = (true, black)
note_resign (white, black) Body.resign (some Color.black) = (white, true)
note_resign seen body color = seen

unfoldable pub resigned_from : GameParams → Bool × Bool → List Record → Bool × Bool
resigned_from params seen [] = seen
resigned_from params seen (rec ∷ recs) =
    resigned_from params (note_resign seen rec.body (color_of params rec.signer)) recs

abbrev pub resigned : Records → GameParams → Bool × Bool
resigned s params = resigned_from params (false, false) (values s)
