-- ===== src/Project/Chain/Legal.antt =====
-- common/src/project.rs: the games that `walk` follows, and its rounds.
use adjourn.Prelude.{ℕ, zero, suc, ◌+◌, ◌≡◌, ◌≤◌, refl, ap, List, Option, some, arith, inl, inr}
use adjourn.Prelude.Order.{nat_ord, list_ord}
use adjourn.BTree.{IsSorted}
use adjourn.Types.{RecordId, GameParams, max_ply, ply_of}
use adjourn.Types.Crypto.{Crypto, genesis}
use adjourn.Types.Verify.{verify-ply}
use adjourn.State.{Records}
use adjourn.State.Holds.{Holds, get-Holds}
use adjourn.Project.Board.{Chess}
use adjourn.Project.Chain.{Walk, Walker, Round, round, walk_from, walk_start, walk}
use adjourn.Project.Chain.Steps.{Continues, Plays, start, next, Extended, Rounds, round-Rounds}

module _ ⦃c : Crypto⦄ ⦃chess : Chess⦄ (s : Records) (p : GameParams) (o : IsSorted s)
    (h : Holds p s) where
  pub Continues-ply :
      {pos : chess.Pos} {parent : RecordId} {ply : ℕ} {id : RecordId} {mv : chess.Move}
      → Continues s p pos parent ply id mv
      → ply ≤ max_ply
  unfolding ply_of
  Continues-ply {ply = ply} {id = id} d =
      let (_, v) = get-Holds p id s d.rec h d.stored in
      verify-ply p d.rec ply v (rw (ap ply_of d.statement) refl)

  Extended-Plays :
      (root : RecordId) (w : Walker) (chain : List RecordId) (pos : chess.Pos) (id : RecordId)
      (mv : chess.Move)
      → Plays s p root w.chain w.parent w.ply w.pos
      → Extended s p w chain pos id mv
      → Plays s p root chain id (suc w.ply) pos
  Extended-Plays root w chain pos id mv plays (d, ec, ep) = rw (ec, ep) (next plays id mv d)

  walk_from-Plays :
      (fuel : ℕ) (stop : Option ℕ) (root : RecordId) (w : Walker) (r : Walk)
      → Plays s p root w.chain w.parent w.ply w.pos
      → walk_from fuel s p stop w ≡ some r
      → (parent : RecordId) × (ply : ℕ) × Plays s p root r.chain parent ply r.pos
  unfolding walk_from
  walk_from-Plays zero stop root w r plays e = absurd (ground arith)
  walk_from-Plays (suc fuel) stop root w r plays e =
      go (round s p stop w) (round-Rounds s p stop w o) e
        (λ w'. walk_from-Plays fuel stop root w' r)
    where
      go :
          (d : Round)
          → Rounds s p w d
          → ◌≡◌ {A = Option Walk}
              (elim d [ Round.halted r' ↦ some r' | Round.onward w' ↦ walk_from fuel s p stop w' ])
              (some r)
          → ((w' : Walker)
              → Plays s p root w'.chain w'.parent w'.ply w'.pos
              → walk_from fuel s p stop w' ≡ some r
              → (parent : RecordId) × (ply : ℕ) × Plays s p root r.chain parent ply r.pos)
          → (parent : RecordId) × (ply : ℕ) × Plays s p root r.chain parent ply r.pos
      go (Round.halted r') (inl (same_chain, same_pos)) e ih =
          let q : r' ≡ r = ground arith in (w.parent, w.ply, rw (← q, same_chain, same_pos) plays)
      go (Round.halted r') (inr (id, mv, ext)) e ih =
          let q : r' ≡ r = ground arith in
          (id, suc w.ply, rw (← q) (Extended-Plays root w r'.chain r'.pos id mv plays ext))
      go (Round.onward w') (id, mv, ext, parent, ply) e ih =
          let cap = Continues-ply ext.0 in
          let q : w'.ply ≡ suc w.ply = omega arith in
          ih w' (rw (parent, q) (Extended-Plays root w w'.chain w'.pos id mv plays ext)) e

  -- On a state of verified records in key order, the chain that a walk accepts is a legal game from
  -- genesis: at each ply one stored record, by the player to move, naming its predecessor as
  -- parent, whose move is legal in the position that the moves before it make; and the position of
  -- the walk is the one that these moves lead to.
  pub walk-Plays :
      (stop : Option ℕ) (r : Walk)
      → walk s p stop ≡ some r
      → (parent : RecordId) × (ply : ℕ) × Plays s p (genesis p) r.chain parent ply r.pos
  unfolding walk walk_start
  walk-Plays stop r e = walk_from-Plays (suc max_ply) stop (genesis p) (walk_start p) r start e

  walk_from_total :
      (fuel : ℕ) (stop : Option ℕ) (w : Walker)
      → w.ply ≤ suc max_ply
      → suc (suc max_ply) ≤ fuel + w.ply
      → (r : Walk) × (walk_from fuel s p stop w ≡ some r)
  unfolding walk_from
  walk_from_total zero stop w low enough = absurd (omega arith)
  walk_from_total (suc fuel) stop w low enough =
      go (round s p stop w) (round-Rounds s p stop w o) (walk_from_total fuel stop)
    where
      go :
          (d : Round)
          → Rounds s p w d
          → ((w' : Walker)
              → w'.ply ≤ suc max_ply
              → suc (suc max_ply) ≤ fuel + w'.ply
              → (r : Walk) × (walk_from fuel s p stop w' ≡ some r))
          → (r : Walk) × ◌≡◌ {A = Option Walk}
              (elim d [ Round.halted r' ↦ some r' | Round.onward w' ↦ walk_from fuel s p stop w' ])
              (some r)
      go (Round.halted r') rounds ih = (r', refl)
      go (Round.onward w') (id, mv, ext, parent, ply) ih =
          let cap = Continues-ply ext.0 in ih w' (omega arith) (omega arith)

  -- On a state of verified records in key order the walk ends within its rounds, wherever it is
  -- told to stop.
  pub walk_total : (stop : Option ℕ) → (r : Walk) × (walk s p stop ≡ some r)
  unfolding walk walk_start
  walk_total stop = walk_from_total (suc max_ply) stop (walk_start p) (omega arith) (omega arith)
