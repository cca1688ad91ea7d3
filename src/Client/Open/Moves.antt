-- ===== src/Client/Open/Moves.antt =====
-- client/src/session.rs: the moves that `moves_in_order` lists, replayed.
use adjourn.Prelude.{
  ℕ, suc, ◌%◌, ◌^◌, ◌≡◌, ◌≤◌, refl, sym, ap, ◌∙◌, List, [], ◌∷◌, ◌++◌, Option, none, some, arith,
  Option-cases, inl, inr, map_some,
}
use adjourn.Prelude.Lists.{some-inj, length}
use adjourn.Prelude.Order.{nat_ord, list_ord}
use adjourn.BTree.{get}
use adjourn.Types.{Bytes, RecordId, GameParams, Body, Record, max_ply}
use adjourn.Types.Crypto.{Crypto, genesis}
use adjourn.State.{GameState}
use adjourn.State.Merge.{IsValid}
use adjourn.State.Orders.{after}
use adjourn.Project.{Status, project, status_of}
use adjourn.Project.Board.{Chess}
use adjourn.Project.Chain.{Walk, walk}
use adjourn.Project.Chain.Legal.{Continues-ply, walk-Plays}
use adjourn.Project.Chain.Steps.{Plays, start, next}
use adjourn.Project.DoubleSign.{double_signed}
use adjourn.Client.Open.{GameView, uci_in, ucis_of, moves_in_order}

module _ ⦃chess : Chess⦄ where
  -- Moves played one after the other, each read and legal in its position.
  abbrev pub replay : chess.Pos → List Bytes → Option chess.Pos
  replay pos [] = some pos
  replay pos (uci ∷ rest) =
      after (chess.from_ascii uci)
        (λ u. after (chess.to_move u pos) (λ mv. replay (chess.play pos mv) rest))

  replay-snoc :
      (pos mid last : chess.Pos) (ucis : List Bytes) (uci : Bytes)
      → replay pos ucis ≡ some mid
      → replay mid (uci ∷ []) ≡ some last
      → replay pos (ucis ++ uci ∷ []) ≡ some last
  replay-snoc pos mid last [] uci e f = let q : pos ≡ mid = ground arith in rw q f
  replay-snoc pos mid last (u ∷ ucis) uci e f = elim (Option-cases (chess.from_ascii u)) [
    | inl g ↦ absurd (let e = rw g at e in ground arith)
    | inr (read, g) ↦ elim (Option-cases (chess.to_move read pos)) [
      | inl h ↦ absurd (let e = rw (g, h) at e in ground arith)
      | inr (mv, h) ↦
          rw (g, h) (replay-snoc (chess.play pos mv) mid last ucis uci (rw (g, h) at e) f)
    ]
  ]

uci_in-append :
    (r : Record) (b : Body) (xs ys : List Bytes)
    → r.body ≡ b
    → uci_in (some r) (xs ++ ys) ≡ uci_in (some r) xs ++ ys
uci_in-append r (Body.move ply parent uci) xs ys e = rw e refl
uci_in-append r Body.resign xs ys e = rw e refl
uci_in-append r (Body.draw_offer ply id) xs ys e = rw e refl
uci_in-append r (Body.draw_accept ply id) xs ys e = rw e refl
uci_in-append r (Body.draw_claim ply id) xs ys e = rw e refl

uci_in_append : (o : Option Record) (xs ys : List Bytes) → uci_in o (xs ++ ys) ≡ uci_in o xs ++ ys
uci_in_append none xs ys = refl
uci_in_append (some r) xs ys = uci_in-append r r.body xs ys refl

ucis_of-snoc :
    (s : GameState) (ids : List RecordId) (id : RecordId) (r : Record) (ply : ℕ)
    (parent uci : Bytes)
    → get id s.records ≡ some r
    → r.body ≡ Body.move ply parent uci
    → ucis_of s (ids ++ id ∷ []) ≡ ucis_of s ids ++ uci ∷ []
unfolding ucis_of
ucis_of-snoc s [] id r ply parent uci e b = rw (e, b) refl
ucis_of-snoc s (i ∷ ids) id r ply parent uci e b =
    ap (uci_in (get i s.records)) (ucis_of-snoc s ids id r ply parent uci e b)
    ∙ uci_in_append (get i s.records) (ucis_of s ids) (uci ∷ [])

length-snoc {ℓ} : {A : Type ℓ} (xs : List A) (x : A) → length (xs ++ x ∷ []) ≡ suc (length xs)
length-snoc [] x = refl
length-snoc (y ∷ xs) x = ap suc (length-snoc xs x)

module _ ⦃c : Crypto⦄ ⦃chess : Chess⦄ (s : GameState) (p : GameParams) (v : IsValid p s) where
  -- What a game of the chain is, as a list of moves.
  record Replays (ids : List RecordId) (ply : ℕ) (pos : chess.Pos) : Type 0 where
    ends : replay chess.start (ucis_of s ids) ≡ some pos
    whole : length (ucis_of s ids) ≡ length ids
    count : suc (length ids) ≡ ply
    bounded : ply ≤ suc max_ply

  Plays-Replays :
      (root : RecordId) {ids : List RecordId} {parent : RecordId} {ply : ℕ} {pos : chess.Pos}
      → Plays s.records p root ids parent ply pos
      → Replays ids ply pos
  unfolding ucis_of
  Plays-Replays root start = record {
    ends = refl;
    whole = refl;
    count = refl;
    bounded = omega arith;
  }
  Plays-Replays root (next {ids} {parent} {ply} {pos} plays id mv d) =
      let ih = Plays-Replays root plays in
      let snoc = ucis_of-snoc s ids id d.rec ply parent d.uci d.stored d.statement in
      let cap = Continues-ply s.records p v.sorted v.holds d in
      record {
        ends =
            ap (replay chess.start) snoc
            ∙ replay-snoc chess.start pos (chess.play pos mv) (ucis_of s ids) d.uci ih.ends
                (rw (d.reads, d.legal) refl);
        whole =
            ap length snoc
            ∙ (length-snoc (ucis_of s ids) d.uci ∙ (ap suc ih.whole ∙ sym (length-snoc ids id)));
        count = ap suc (length-snoc ids id ∙ ih.count);
        bounded = omega arith;
      }

  abbrev shown_by : Walk → Status
  shown_by w = status_of s p (double_signed s.records p) w

  projected-walk :
      (st : Status)
      → project s p ≡ some st
      → (w : Walk) × (parent : RecordId) × (ply : ℕ) × Plays s.records p
          (genesis p)
          w.chain
          parent
          ply
          w.pos
        × (st ≡ shown_by w)
  unfolding project
  projected-walk st e =
      let stop = map_some (λ f. f.first_ply) (double_signed s.records p) in
      elim (Option-cases (walk s.records p stop)) [
        | inl f ↦ absurd (let e = rw f at e in ground arith)
        | inr (w, f) ↦
            let (parent, ply, plays) = walk-Plays s.records p v.sorted v.holds stop w f in
            (w, parent, ply, plays, let e = rw f at e in sym (some-inj e))
      ]

  -- The fields of the status of a walk.
  fields :
      (w : Walk)
      → ((shown_by w).fen ≡ chess.fen w.pos)
        × ((shown_by w).turn ≡ chess.turn w.pos)
        × ((shown_by w).halfmove_clock ≡ chess.halfmoves w.pos)
        × (ucis_of s (shown_by w).chain ≡ ucis_of s w.chain)
        × (length (shown_by w).chain ≡ length w.chain)
        × ((shown_by w).ply ≡ length w.chain % 2 ^ 16)
  unfolding status_of
  fields w = (refl, refl, refl, refl, refl, refl)

  moves_in_order-chain :
      (view : GameView) → view.state ≡ s → moves_in_order view ≡ ucis_of s view.status.chain
  unfolding moves_in_order
  moves_in_order-chain view same = ap (λ t. ucis_of t view.status.chain) same

  -- A valid state's list of moves, of the view that has the state and its projection: replayed from
  -- the initial position, each move can be read and is legal where it is played; they lead to the
  -- position that the status shows, its FEN, the side to move and the halfmove clock; no move of
  -- the chain is left out; and their number is the status's ply, which is at most 4096, so that
  -- the ply has not wrapped.
  pub moves_in_order-replay :
      (view : GameView)
      → view.state ≡ s
      → project s p ≡ some view.status
      → (pos : chess.Pos) × (replay chess.start (moves_in_order view) ≡ some pos)
        × (view.status.fen ≡ chess.fen pos)
        × (view.status.turn ≡ chess.turn pos)
        × (view.status.halfmove_clock ≡ chess.halfmoves pos)
        × (length (moves_in_order view) ≡ length view.status.chain)
        × (view.status.ply ≡ length (moves_in_order view))
        × (view.status.ply ≤ 4096)
  moves_in_order-replay view same e =
      let (w, parent, ply, plays, shown) = projected-walk view.status e in
      let (fen, turn, clock, moves, chain, number) = fields w in
      let r = Plays-Replays (genesis p) plays in
      let listed = moves_in_order-chain view same ∙ (ap (λ st. ucis_of s st.chain) shown ∙ moves) in
      let count = r.count in
      let bounded = r.bounded in
      let low : length w.chain ≤ 4096 = omega arith in
      let ply_is : view.status.ply ≡ length w.chain =
        ap (λ st. st.ply) shown ∙ (number ∙ omega arith) in
      (
        w.pos,
        ap (replay chess.start) listed ∙ r.ends,
        ap (λ st. st.fen) shown ∙ fen,
        ap (λ st. st.turn) shown ∙ turn,
        ap (λ st. st.halfmove_clock) shown ∙ clock,
        ap length listed ∙ (r.whole ∙ sym (ap (λ st. length st.chain) shown ∙ chain)),
        ply_is ∙ sym (ap length listed ∙ r.whole),
        rw ply_is low,
      )
