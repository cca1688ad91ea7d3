-- ===== src/Project/Chain.antt =====
-- common/src/project.rs: `walk`, from genesis along the parent hashes.
pub mod Steps
pub mod Legal
use adjourn.Prelude.{
  ℕ, zero, suc, ◌+◌, ◌%◌, ◌^◌, ◌≡◌, Bool, true, false, not, ◌||◌, List, [], ◌∷◌, ◌++◌, Option, none,
  some, nat_eq, leb, ◌>>=◌, if◌then◌else◌,
}
use adjourn.Prelude.Order.{◌==◌, nat_ord, list_ord}
use adjourn.BTree.{Map, get, insert}
use adjourn.Types.{
  Bytes, RecordId, KeyBytes, GameParams, color_at_ply, key_of, Body, Record, max_ply,
}
use adjourn.Types.Crypto.{Crypto, genesis}
use adjourn.State.{Records}
use adjourn.Project.Board.{Chess}

abbrev pub fivefold : ℕ
fivefold = 5

abbrev pub seventy_five_move_halfmoves : ℕ
seventy_five_move_halfmoves = 150

-- `stop_before.is_some_and(|stop| ply >= stop)`
abbrev pub reached : Option ℕ → ℕ → Bool
reached none ply = false
reached (some stop) ply = leb stop ply

-- `entry(key).and_modify(|n| *n += 1).or_insert(1)`
abbrev pub bumped : Option ℕ → ℕ
bumped none = 1
bumped (some n) = n + 1

module _ ⦃chess : Chess⦄ where
  pub record Walk : Type 0 where
    pub pos : chess.Pos
    pub chain : List RecordId
    pub auto_draw : Bool
    pub repetitions : ℕ

  -- The loop's variables.
  pub record Walker : Type 0 where
    pub pos : chess.Pos
    pub chain : List RecordId
    pub parent : RecordId
    pub ply : ℕ
    pub seen : Map Bytes ℕ
    pub repetitions : ℕ

  pub data Round : Type 0 where
    halted : Walk → Round
    onward : Walker → Round

  abbrev pub legal_move : RecordId → chess.Pos → Bytes → Option (RecordId × chess.Move)
  legal_move id pos uci = do
    parsed ← chess.from_ascii uci
    mv ← chess.to_move parsed pos
    some (id, mv)

  -- The body of the loop over the records: a well-formed, correctly-parented, legal continuation.
  unfoldable pub candidate : Walker → KeyBytes → RecordId → Record → Option (RecordId × chess.Move)
  candidate w expected_key id rec = elim rec.body [
    | Body.move rec_ply rec_parent uci ↦
        (if not (nat_eq rec_ply w.ply)
            || (not (rec_parent == w.parent) || not (rec.signer == expected_key))
          then none
          else legal_move id w.pos uci)
    | Body.resign ↦ none
    | Body.draw_offer _ _ ↦ none
    | Body.draw_accept _ _ ↦ none
    | Body.draw_claim _ _ ↦ none
  ]

  abbrev pub push_some :
      Option (RecordId × chess.Move) → List (RecordId × chess.Move) → List (RecordId × chess.Move)
  push_some none rest = rest
  push_some (some e) rest = e ∷ rest

  unfoldable pub candidates : Walker → KeyBytes → Records → List (RecordId × chess.Move)
  candidates w key [] = []
  candidates w key ((id, rec) ∷ s) = push_some (candidate w key id rec) (candidates w key s)

  abbrev pub halt : Walker → Walk
  halt w = record { pos = w.pos; chain = w.chain; auto_draw = false; repetitions = w.repetitions }

  -- how often the position after a move has occurred
  abbrev pub repetitions_after : Walker → chess.Move → ℕ
  repetitions_after w mv = bumped (get (chess.epd (chess.play w.pos mv)) w.seen)

  -- `repetitions >= FIVEFOLD || pos.halfmoves() >= SEVENTY_FIVE_MOVE_HALFMOVES`
  abbrev pub is_automatic_draw : Walker → chess.Move → Bool
  is_automatic_draw w mv =
      leb fivefold (repetitions_after w mv)
      || leb seventy_five_move_halfmoves (chess.halfmoves (chess.play w.pos mv))

  abbrev pub drawn : Walker → RecordId → chess.Move → Walk
  drawn w id mv = record {
    pos = chess.play w.pos mv;
    chain = w.chain ++ id ∷ [];
    auto_draw = true;
    repetitions = repetitions_after w mv;
  }

  abbrev pub moved : Walker → RecordId → chess.Move → Walker
  moved w id mv = record {
    pos = chess.play w.pos mv;
    chain = w.chain ++ id ∷ [];
    parent = id;
    ply = (w.ply + 1) % 2 ^ 16;
    seen = insert (chess.epd (chess.play w.pos mv)) (repetitions_after w mv) w.seen;
    repetitions = repetitions_after w mv;
  }

  -- After a move: the new position and head, or an automatic draw.
  unfoldable pub advance : Walker → RecordId → chess.Move → Round
  advance w id mv =
      if is_automatic_draw w mv then Round.halted (drawn w id mv) else Round.onward (moved w id mv)

  -- exactly one candidate, or the chain stops
  abbrev pub choose : Walker → List (RecordId × chess.Move) → Round
  choose w [] = Round.halted (halt w)
  choose w ((id, mv) ∷ []) = advance w id mv
  choose w (_ ∷ _ ∷ _) = Round.halted (halt w)

  unfoldable pub round : Records → GameParams → Option ℕ → Walker → Round
  round s params stop_before w =
      if reached stop_before w.ply
      then Round.halted (halt w)
      else choose w (candidates w (key_of params (color_at_ply w.ply)) s)

  unfoldable pub walk_from : ℕ → Records → GameParams → Option ℕ → Walker → Option Walk
  walk_from zero s params stop_before w = none
  walk_from (suc fuel) s params stop_before w = elim (round s params stop_before w) [
    | Round.halted r ↦ some r
    | Round.onward w' ↦ walk_from fuel s params stop_before w'
  ]

module _ ⦃c : Crypto⦄ ⦃chess : Chess⦄ where
  unfoldable pub walk_start : GameParams → Walker
  walk_start params = record {
    pos = chess.start;
    chain = [];
    parent = genesis params;
    ply = 1;
    seen = insert (chess.epd chess.start) 1 [];
    repetitions = 1;
  }

  -- A round more than there are plies.
  unfoldable pub walk : Records → GameParams → Option ℕ → Option Walk
  walk s params stop_before = walk_from (suc max_ply) s params stop_before (walk_start params)
