-- ===== src/Project/Statements.antt =====
-- common/src/project.rs: what resignations, agreements and claims `resigned`, `draw_agreed` and
-- `draw_claimed` find.
use adjourn.Prelude.{
  ℕ, ◌≡◌, ◌↔◌, refl, ap, ◌∙◌, Bool, true, false, ◌||◌, List, [], ◌∷◌, Option, none, some,
  if◌then◌else◌, arith, inl, inr, Option-cases, or_else,
}
use adjourn.Prelude.Lists.{any}
use adjourn.Prelude.Order.{◌==◌, nat_ord, list_ord, eq_of_==, ==_self}
use adjourn.BTree.{get, IsSorted}
use adjourn.BTree.Scan.{any-values, any-values_of}
use adjourn.Types.{RecordId, GameParams, Color, other, color_of, Body, Record}
use adjourn.State.{Records}
use adjourn.Project.Claims.{
  Reason, note_resign, resigned_from, is_color, accepts, draw_agreed, live_offer, opposed, claims,
  first_claim, ground_for,
}

-- A resignation by the colour.
abbrev pub resigns : GameParams → Color → Record → Bool
resigns p color rec = elim rec.body [
  | Body.resign ↦ is_color (color_of p rec.signer) color
  | Body.move _ _ _ ↦ false
  | Body.draw_offer _ _ ↦ false
  | Body.draw_accept _ _ ↦ false
  | Body.draw_claim _ _ ↦ false
]

note-resigns :
    (p : GameParams) (w b : Bool) (rec : Record) (body : Body)
    → rec.body ≡ body
    → note_resign (w, b) rec.body (color_of p rec.signer)
      ≡ (w || resigns p Color.white rec, b || resigns p Color.black rec)
note-resigns p w b rec Body.resign e = ground arith
note-resigns p w b rec (Body.move _ _ _) e = ground arith
note-resigns p w b rec (Body.draw_offer _ _) e = ground arith
note-resigns p w b rec (Body.draw_accept _ _) e = ground arith
note-resigns p w b rec (Body.draw_claim _ _) e = ground arith

-- `resigned` says of each colour whether a resignation of its is among the records.
pub resigned_from-any :
    (p : GameParams) (w b : Bool) (recs : List Record)
    → resigned_from p (w, b) recs
      ≡ (w || any (resigns p Color.white) recs, b || any (resigns p Color.black) recs)
unfolding resigned_from any
resigned_from-any p w b [] = ground arith
resigned_from-any p w b (rec ∷ recs) =
    let step = note-resigns p w b rec rec.body refl in
    let ih =
      resigned_from-any p (w || resigns p Color.white rec) (b || resigns p Color.black rec) recs in
    ap (λ seen. resigned_from p seen recs) step ∙ (ih ∙ ground arith)

-- An acceptance and an offer that belong together: the offer stands in the state, names the head,
-- and is the other player's.
pub record Agreed (s : Records) (p : GameParams) (head : RecordId) : Type 0 where
  pub key : RecordId
  pub accept : Record
  pub offer : Record
  pub ply : ℕ
  pub offer_ply : ℕ
  pub offer_id : RecordId
  pub offerer : Color
  pub stored : get key s ≡ some accept
  pub accepts_it : accept.body ≡ Body.draw_accept ply offer_id
  pub there : get offer_id s ≡ some offer
  pub offers : offer.body ≡ Body.draw_offer offer_ply head
  pub by_offerer : color_of p offer.signer ≡ some offerer
  pub by_other : color_of p accept.signer ≡ some (other offerer)

live_offer-some :
    (p : GameParams) (head : RecordId) (offer : Record) (body : Body) (x : Color)
    → offer.body ≡ body
    → live_offer p head (some offer) ≡ some x
    → (ply : ℕ) × (offer.body ≡ Body.draw_offer ply head) × (color_of p offer.signer ≡ some x)
live_offer-some p head offer (Body.draw_offer ply at_id) x b e =
    (ply, ground (arith, eq_of_== at_id head), ground arith)
live_offer-some p head offer (Body.move _ _ _) x b e = absurd (ground arith)
live_offer-some p head offer Body.resign x b e = absurd (ground arith)
live_offer-some p head offer (Body.draw_accept _ _) x b e = absurd (ground arith)
live_offer-some p head offer (Body.draw_claim _ _) x b e = absurd (ground arith)

opposed-other :
    (a b : Option Color) → opposed a b ≡ true → (x : Color) × (a ≡ some x) × (b ≡ some (other x))
opposed-other none b h = absurd (ground arith)
opposed-other (some a) none h = absurd (ground arith)
opposed-other (some Color.white) (some Color.white) h = absurd (ground arith)
opposed-other (some Color.white) (some Color.black) h = (Color.white, refl, refl)
opposed-other (some Color.black) (some Color.white) h = (Color.black, refl, refl)
opposed-other (some Color.black) (some Color.black) h = absurd (ground arith)

accepts-Agreed :
    (s : Records) (p : GameParams) (head key : RecordId) (rec : Record) (body : Body)
    → get key s ≡ some rec
    → rec.body ≡ body
    → accepts s p head rec ≡ true
    → Agreed s p head
unfolding accepts
accepts-Agreed s p head key rec (Body.draw_accept ply id) stored b e =
    let (x, live, xa) =
      opposed-other (live_offer p head (get id s)) (color_of p rec.signer) (ground arith) in
    elim (Option-cases (get id s)) [
      | inl f ↦ absurd (ground arith)
      | inr (offer, f) ↦
          let (offer_ply, offers, xo) =
            live_offer-some p head offer offer.body x refl (rw f at live) in
          record {
            key = key;
            accept = rec;
            offer = offer;
            ply = ply;
            offer_ply = offer_ply;
            offer_id = id;
            offerer = x;
            stored = stored;
            accepts_it = b;
            there = f;
            offers = offers;
            by_offerer = xo;
            by_other = xa;
          }
    ]
accepts-Agreed s p head key rec (Body.move _ _ _) stored b e = absurd (ground arith)
accepts-Agreed s p head key rec Body.resign stored b e = absurd (ground arith)
accepts-Agreed s p head key rec (Body.draw_offer _ _) stored b e = absurd (ground arith)
accepts-Agreed s p head key rec (Body.draw_claim _ _) stored b e = absurd (ground arith)

opposed_self : (x : Color) → opposed (some x) (some (other x)) ≡ true
opposed_self Color.white = refl
opposed_self Color.black = refl

Agreed-accepts :
    (s : Records) (p : GameParams) (head : RecordId) (a : Agreed s p head)
    → accepts s p head a.accept ≡ true
unfolding accepts
Agreed-accepts s p head a =
    let says = a.accepts_it in
    let there = a.there in
    let offers = a.offers in
    let xo = a.by_offerer in
    let xa = a.by_other in ground (arith, ==_self head, opposed_self a.offerer)

-- On records in key order, a draw is agreed exactly if a stored record accepts an offer that is
-- stored too, names the head, and is the other player's.
pub draw_agreed_iff :
    (s : Records) (p : GameParams) (head : RecordId)
    → IsSorted s
    → (draw_agreed s p head ≡ true) ↔ Agreed s p head
unfolding draw_agreed
draw_agreed_iff s p head o = (
  λ e.
      let (key, rec, stored, hit) = any-values (accepts s p head) s o e in
      accepts-Agreed s p head key rec rec.body stored refl hit,
  λ a. any-values_of (accepts s p head) a.key a.accept s a.stored (Agreed-accepts s p head a),
)

-- A claim that the player to move makes at the head.
abbrev pub is_claim : GameParams → RecordId → Color → Record → Bool
is_claim p head turn rec = elim rec.body [
  | Body.draw_claim _ at_id ↦
      (if at_id == head then is_color (color_of p rec.signer) turn else false)
  | Body.move _ _ _ ↦ false
  | Body.resign ↦ false
  | Body.draw_offer _ _ ↦ false
  | Body.draw_accept _ _ ↦ false
]

claims-is_claim :
    (p : GameParams) (head : RecordId) (turn : Color) (reps clock : ℕ) (rec : Record) (body : Body)
    → rec.body ≡ body
    → claims p head turn reps clock rec
      ≡ (if is_claim p head turn rec then ground_for reps clock else none)
unfolding claims
claims-is_claim p head turn reps clock rec (Body.draw_claim _ at_id) e = ground arith
claims-is_claim p head turn reps clock rec (Body.move _ _ _) e = ground arith
claims-is_claim p head turn reps clock rec Body.resign e = ground arith
claims-is_claim p head turn reps clock rec (Body.draw_offer _ _) e = ground arith
claims-is_claim p head turn reps clock rec (Body.draw_accept _ _) e = ground arith

-- The search for a draw claim succeeds exactly if the player to move has a claim at the head and
-- there is a ground, and it gives that ground: the third repetition, or else a hundred halfmoves.
-- Which record comes first does not matter.
pub first_claim-any :
    (p : GameParams) (head : RecordId) (turn : Color) (reps clock : ℕ) (recs : List Record)
    → first_claim p head turn reps clock recs
      ≡ (if any (is_claim p head turn) recs then ground_for reps clock else none)
unfolding first_claim any
first_claim-any p head turn reps clock [] = refl
first_claim-any p head turn reps clock (rec ∷ recs) =
    let step = claims-is_claim p head turn reps clock rec rec.body refl in
    let ih = first_claim-any p head turn reps clock recs in
    rw (step, ih)
      (pick (is_claim p head turn rec) (any (is_claim p head turn) recs) (ground_for reps clock))
  where
    pick :
        (a b : Bool) (o : Option Reason)
        → or_else (if a then o else none) (if b then o else none)
          ≡ (if (if a then true else b) then o else none)
    pick a b o = ground arith
