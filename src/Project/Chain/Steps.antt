-- ===== src/Project/Chain/Steps.antt =====
-- common/src/project.rs: what one round of `walk` does to the game so far.
use adjourn.Prelude.{
  ℕ, suc, ◌+◌, ◌%◌, ◌^◌, ◌≡◌, ◌⊎◌, refl, sym, ◌∙◌, List, [], ◌∷◌, ◌++◌, Option, none, some, if-elim,
  arith, inl, inr, Bool-cases, Option-cases,
}
use adjourn.Prelude.Order.{◌==◌, nat_ord, list_ord, eq_of_==, ==_self}
use adjourn.BTree.{get, IsSorted}
use adjourn.BTree.Laws.{get-Above}
use adjourn.Types.{Bytes, RecordId, KeyBytes, GameParams, color_at_ply, key_of, Body, Record}
use adjourn.State.{Records}
use adjourn.Project.Board.{Chess}
use adjourn.Project.Chain.{
  Walker, Round, candidate, candidates, halt, is_automatic_draw, drawn, moved, advance, choose,
  round, reached,
}

module _ ⦃chess : Chess⦄ where
  -- A move that continues the game: stored, naming this ply and this parent, signed by the player
  -- to move, and legal in the position.
  pub record Continues (s : Records) (p : GameParams) (pos : chess.Pos) (parent : RecordId)
      (ply : ℕ) (id : RecordId) (mv : chess.Move) : Type 0 where
    pub rec : Record
    pub uci : Bytes
    pub parsed : chess.Uci
    pub stored : get id s ≡ some rec
    pub statement : rec.body ≡ Body.move ply parent uci
    pub signed : rec.signer ≡ key_of p (color_at_ply ply)
    pub reads : chess.from_ascii uci ≡ some parsed
    pub legal : chess.to_move parsed pos ≡ some mv

  -- A game from genesis: each record of the chain continues the position before it.
  pub data Plays (s : Records) (p : GameParams) (root : RecordId)
      : List RecordId → RecordId → ℕ → chess.Pos → Type 0 where
    start : Plays s p root [] root 1 chess.start
    next :
        {ids : List RecordId} {parent : RecordId} {ply : ℕ} {pos : chess.Pos}
        → Plays s p root ids parent ply pos
        → (id : RecordId) (mv : chess.Move) → Continues s p pos parent ply id mv
        → Plays s p root (ids ++ id ∷ []) id (suc ply) (chess.play pos mv)

  candidate-body :
      (w : Walker) (key : KeyBytes) (id : RecordId) (rec : Record) (body : Body) (found : RecordId)
      (mv : chess.Move)
      → rec.body ≡ body
      → candidate w key id rec ≡ some (found, mv)
      → (found ≡ id)
        × (uci : Bytes) × (parsed : chess.Uci) × (rec.body ≡ Body.move w.ply w.parent uci)
        × (rec.signer ≡ key)
        × (chess.from_ascii uci ≡ some parsed)
        × (chess.to_move parsed w.pos ≡ some mv)
  unfolding candidate
  candidate-body w key id rec (Body.move ply parent uci) found mv b e =
      elim (Option-cases (chess.from_ascii uci)) [
        | inl f ↦ absurd (ground arith)
        | inr (parsed, f) ↦ elim (Option-cases (chess.to_move parsed w.pos)) [
          | inl g ↦ absurd (ground arith)
          | inr (m, g) ↦ (
            ground arith,
            uci,
            parsed,
            ground (arith, eq_of_== parent w.parent),
            ground (arith, eq_of_== rec.signer key),
            f,
            ground arith,
          )
        ]
      ]
  candidate-body w key id rec Body.resign found mv b e = absurd (ground arith)
  candidate-body w key id rec (Body.draw_offer _ _) found mv b e = absurd (ground arith)
  candidate-body w key id rec (Body.draw_accept _ _) found mv b e = absurd (ground arith)
  candidate-body w key id rec (Body.draw_claim _ _) found mv b e = absurd (ground arith)

  -- What heads the candidates is one of the records.
  candidates-stored :
      (w : Walker) (key : KeyBytes) (s : Records) (id : RecordId) (mv : chess.Move)
      (rest : List (RecordId × chess.Move))
      → IsSorted s
      → candidates w key s ≡ (id, mv) ∷ rest
      → (rec : Record) × (get id s ≡ some rec) × (candidate w key id rec ≡ some (id, mv))
  unfolding candidates get
  candidates-stored w key [] id mv rest o e = absurd (ground arith)
  candidates-stored w key ((k, r) ∷ s) id mv rest o e = elim (Option-cases (candidate w key k r)) [
    | inl f ↦
        let (rec, stored, c) = candidates-stored w key s id mv rest o.1 (ground arith) in
        (
          rec,
          elim (Bool-cases (id == k)) [
            | inl same ↦
                let gone : get k s ≡ none = get-Above k s o.0 in
                absurd (ground (arith, eq_of_== id k same))
            | inr other ↦ rw other stored
          ],
          c,
        )
    | inr ((found, m), f) ↦
        let q : found ≡ id = ground arith in
        let qk : id ≡ k = sym q ∙ (candidate-body w key k r r.body found m refl f).0 in
        (r, rw (qk, ==_self k) refl, rw qk (f ∙ ground arith))
  ]

  -- What a round does to the game so far.
  abbrev pub Extended :
      Records → GameParams → Walker → List RecordId → chess.Pos → RecordId → chess.Move → Type 0
  Extended s p w chain pos id mv =
      Continues s p w.pos w.parent w.ply id mv
      × (chain ≡ w.chain ++ id ∷ [])
      × (pos ≡ chess.play w.pos mv)

  abbrev pub Rounds : Records → GameParams → Walker → Round → Type 0
  Rounds s p w (Round.halted r) =
      ((r.chain ≡ w.chain) × (r.pos ≡ w.pos))
      ⊎ ((id : RecordId) × (mv : chess.Move) × Extended s p w r.chain r.pos id mv)
  Rounds s p w (Round.onward w') =
      (id : RecordId) × (mv : chess.Move) × Extended s p w w'.chain w'.pos id mv
      × (w'.parent ≡ id)
      × (w'.ply ≡ (w.ply + 1) % 2 ^ 16)

  advance-Rounds :
      (s : Records) (p : GameParams) (w : Walker) (id : RecordId) (mv : chess.Move)
      → Continues s p w.pos w.parent w.ply id mv
      → Rounds s p w (advance w id mv)
  unfolding advance
  advance-Rounds s p w id mv c =
      if-elim (Rounds s p w) (is_automatic_draw w mv) (Round.halted (drawn w id mv))
        (Round.onward (moved w id mv)) (inr (id, mv, (c, refl, refl)))
        (id, mv, (c, refl, refl), refl, refl)

  choose-Rounds :
      (s : Records) (p : GameParams) (w : Walker) (l : List (RecordId × chess.Move))
      → IsSorted s
      → candidates w (key_of p (color_at_ply w.ply)) s ≡ l
      → Rounds s p w (choose w l)
  choose-Rounds s p w [] o e = inl (refl, refl)
  choose-Rounds s p w (_ ∷ _ ∷ _) o e = inl (refl, refl)
  choose-Rounds s p w ((id, mv) ∷ []) o e =
      let key = key_of p (color_at_ply w.ply) in
      let (rec, stored, c) = candidates-stored w key s id mv [] o e in
      let (_, uci, parsed, statement, signed, reads, legal) =
        candidate-body w key id rec rec.body id mv refl c in
      advance-Rounds s p w id mv (record {
        rec = rec;
        uci = uci;
        parsed = parsed;
        stored = stored;
        statement = statement;
        signed = signed;
        reads = reads;
        legal = legal;
      })

  pub round-Rounds :
      (s : Records) (p : GameParams) (stop : Option ℕ) (w : Walker)
      → IsSorted s
      → Rounds s p w (round s p stop w)
  unfolding round
  round-Rounds s p stop w o =
      let next_moves = candidates w (key_of p (color_at_ply w.ply)) s in
      if-elim (Rounds s p w) (reached stop w.ply) (Round.halted (halt w)) (choose w next_moves)
        (inl (refl, refl)) (choose-Rounds s p w next_moves o refl)
