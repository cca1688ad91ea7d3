-- ===== src/Project/Outcome.antt =====
-- common/src/project.rs: what decides a game: forfeits, resignations, draws by agreement and by
-- claim.
use adjourn.Prelude.{
  ◌≡◌, ◌≢◌, ◌⊎◌, ◌↔◌, refl, sym, ap, ◌∙◌, Bool, true, false, Option, none, some, arith, inl, inr,
  Option-cases, map_some,
}
use adjourn.Prelude.Lists.{any}
use adjourn.Prelude.Order.{nat_ord, list_ord}
use adjourn.BTree.{get, values}
use adjourn.BTree.Scan.{any-values_of}
use adjourn.Types.{RecordId, GameParams, Color, other, color_of, Body, Record}
use adjourn.Types.Crypto.{Crypto}
use adjourn.State.{GameState}
use adjourn.State.Merge.{IsValid}
use adjourn.Project.Board.{Chess}
use adjourn.Project.Chain.{Walk, walk}
use adjourn.Project.Chain.Legal.{walk_total}
use adjourn.Project.Claims.{Reason, resigned}
use adjourn.Project.DoubleSign.{Fraud, double_signed}
use adjourn.Project.{
  Decision, Status, draw, win, board_result, draw_result, head_of, resigned_result, decision_of,
  status_of, project,
}
use adjourn.Project.Statements.{first_claim-any, resigned_from-any, resigns}

module _ ⦃c : Crypto⦄ ⦃chess : Chess⦄ where
  -- The projection of a valid state has a result.
  pub project_total :
      (p : GameParams) (s : GameState) → IsValid p s → (st : Status) × (project s p ≡ some st)
  unfolding project
  project_total p s v =
      let fraud = double_signed s.records p in
      let (w, e) = walk_total s.records p v.sorted v.holds (map_some (λ f. f.first_ply) fraud) in
      (status_of s p fraud w, rw e)

  -- The decision of the projection, once its walk is given.
  abbrev Decides : GameState → GameParams → Status → Type 0
  Decides s p st = (w : Walk) × (st.decision ≡ decision_of s p w (double_signed s.records p))

  project-Decides :
      (s : GameState) (p : GameParams) (st : Status) → project s p ≡ some st → Decides s p st
  unfolding project status_of
  project-Decides s p st e =
      let stop = map_some (λ f. f.first_ply) (double_signed s.records p) in
      elim (Option-cases (walk s.records p stop)) [
        | inl f ↦ absurd (ground arith)
        | inr (w, f) ↦ (w, ground arith)
      ]

  -- No other rule gives the forfeit as its reason.
  resigned_result-not-forfeit :
      (s : GameState) (p : GameParams) (w : Walk) (seen : Bool × Bool) (d : Decision)
      → resigned_result s p w seen ≡ some d
      → d.reason ≢ Reason.double_sign_forfeit
  unfolding board_result draw_result
  resigned_result-not-forfeit s p w (true, true) d e f = ground arith
  resigned_result-not-forfeit s p w (true, false) d e f = ground arith
  resigned_result-not-forfeit s p w (false, true) d e f = ground arith
  resigned_result-not-forfeit s p w (false, false) d e f = ground (
    arith,
    first_claim-any p (head_of p w) (chess.turn w.pos) w.repetitions (chess.halfmoves w.pos)
        (values s.records),
  )

  -- The decision of a projection is a forfeit for a winner exactly if `double_signed` finds a fraud
  -- with that winner, whatever the board, the resignations and the draws.
  pub project-forfeit_iff :
      (s : GameState) (p : GameParams) (st : Status) (winner : Option Color)
      → project s p ≡ some st
      → (st.decision ≡ some (record { winner = winner; reason = Reason.double_sign_forfeit }))
        ↔ ((f : Fraud) × (double_signed s.records p ≡ some f) × (f.winner ≡ winner))
  project-forfeit_iff s p st winner e =
      let (w, d) = project-Decides s p st e in
      elim (Option-cases (double_signed s.records p)) [
        | inl clean ↦ (
          λ q. absurd (
              resigned_result-not-forfeit s p w (resigned s.records p) _
                (sym (d ∙ ap (decision_of s p w) clean) ∙ q) refl),
          λ (f, found, _). absurd (ground arith),
        )
        | inr (f, found) ↦
            let q = d ∙ ap (decision_of s p w) found in
            (λ r. (f, found, ground arith), λ (g, found', same). ground arith)
      ]

  -- If there is no double-sign and a player's resignation is stored, the decision is that this
  -- player loses by resignation, or a draw by mutual resignation, and then the opponent's
  -- resignation is stored too.
  pub project_resigned :
      (s : GameState) (p : GameParams) (st : Status) (k : RecordId) (r : Record) (x : Color)
      → project s p ≡ some st
      → double_signed s.records p ≡ none
      → get k s.records ≡ some r
      → r.body ≡ Body.resign
      → color_of p r.signer ≡ some x
      → (st.decision ≡ some (win (other x) Reason.resignation))
        ⊎ ((st.decision ≡ some (draw Reason.mutual_resignation))
            × (any (resigns p (other x)) (values s.records) ≡ true))
  project_resigned s p st k r x e clean stored says color =
      let (w, d) = project-Decides s p st e in
      let own : any (resigns p x) (values s.records) ≡ true =
        any-values_of (resigns p x) k r s.records stored (resigns_own p r x says color) in
      let seen = resigned_from-any p false false (values s.records) in
      by_color w x own (d ∙ (ap (decision_of s p w) clean ∙ ap (resigned_result s p w) seen))
    where
      resigns_own :
          (p : GameParams) (r : Record) (x : Color)
          → r.body ≡ Body.resign
          → color_of p r.signer ≡ some x
          → resigns p x r ≡ true
      resigns_own p r Color.white b q = ground arith
      resigns_own p r Color.black b q = ground arith

      by_color :
          (w : Walk) (x : Color)
          → any (resigns p x) (values s.records) ≡ true
          → st.decision
            ≡ resigned_result s p w (
              any (resigns p Color.white) (values s.records),
              any (resigns p Color.black) (values s.records),
            )
          → (st.decision ≡ some (win (other x) Reason.resignation))
            ⊎ ((st.decision ≡ some (draw Reason.mutual_resignation))
                × (any (resigns p (other x)) (values s.records) ≡ true))
      by_color w Color.white own d = ground arith
      by_color w Color.black own d = ground arith
