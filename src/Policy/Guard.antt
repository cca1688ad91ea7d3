-- ===== src/Policy/Guard.antt =====
-- common/src/delegate_policy.rs: what one signature of `decide_sign` does to the record that guards a
-- game, and which signatures it leaves possible.
use adjourn.Prelude.{ℕ, ◌≡◌, ◌≤◌, refl, sym, ◌∙◌, List, [], ◌∷◌, ◌++◌, Option, none, some, arith}
use adjourn.Prelude.Order.{nat_ord, list_ord, eq_of_==}
use adjourn.Types.{Bytes, Body}
use adjourn.Types.Crypto.{Crypto}
use adjourn.Policy.{GameRecord, SignDecision, decide_sign, decide_move, body_hash}

-- The ply of a move body.
abbrev pub move_at : Body → Option ℕ
move_at (Body.move ply _ _) = some ply
move_at Body.resign = none
move_at (Body.draw_offer _ _) = none
move_at (Body.draw_accept _ _) = none
move_at (Body.draw_claim _ _) = none

abbrev pub All {ℓ κ} : {A : Type ℓ} → (A → Type κ) → List A → Type κ
All P [] = Unit
All P (x ∷ xs) = P x × All P xs

pub All-map {ℓ κ} :
    {A : Type ℓ} (P Q : A → Type κ) (xs : List A) → ((a : A) → P a → Q a) → All P xs → All Q xs
All-map P Q [] f h = tt
All-map P Q (x ∷ xs) f h = (f x h.0, All-map P Q xs f h.1)

pub All-append {ℓ κ} :
    {A : Type ℓ} (P : A → Type κ) (xs ys : List A) → All P xs → All P ys → All P (xs ++ ys)
All-append P [] ys h k = k
All-append P (x ∷ xs) ys h k = (h.0, All-append P xs ys h.1 k)

-- The guard against a double-sign is at least as strict: the ply never falls, and the hash stays
-- while the ply does.
pub record Advances (rec updated : GameRecord) : Type 0 where
  pub rises : rec.last_signed_ply ≤ updated.last_signed_ply
  pub same_hash :
      updated.last_signed_ply ≡ rec.last_signed_ply
      → updated.last_move_body_hash ≡ rec.last_move_body_hash

module _ ⦃c : Crypto⦄ where
  -- What one signature does to the record: after a move the ply and the hash are the move's.
  pub record Signs (rec : GameRecord) (body : Body) (updated : GameRecord) : Type 0 where
    pub advances : Advances rec updated
    pub noted :
        (ply : ℕ)
        → move_at body ≡ some ply
        → (updated.last_signed_ply ≡ ply) × (updated.last_move_body_hash ≡ body_hash body)

  decide_move-Signs :
      (rec : GameRecord) (ply : ℕ) (body : Body) (updated : GameRecord)
      → move_at body ≡ some ply
      → decide_move rec ply body ≡ SignDecision.sign updated
      → Signs rec body updated
  unfolding decide_move
  decide_move-Signs rec ply body updated m e = record {
    advances = record { rises = ground arith; same_hash = λ q. ground arith };
    noted = λ p h. ground (arith, eq_of_== (body_hash body) rec.last_move_body_hash);
  }

  pub decide_sign-Signs :
      (rec : GameRecord) (body : Body) (origin : Option Bytes) (updated : GameRecord)
      → decide_sign rec body origin ≡ SignDecision.sign updated
      → Signs rec body updated
  unfolding decide_sign
  decide_sign-Signs rec (Body.move ply parent uci) origin updated e =
      decide_move-Signs rec ply (Body.move ply parent uci) updated refl (ground arith)
  decide_sign-Signs rec Body.resign origin updated e =
      let q : rec ≡ updated = ground arith in
      rw (← q) (record {
        advances = record { rises = omega arith; same_hash = λ _. refl };
        noted = λ p h. cc;
      })
  decide_sign-Signs rec (Body.draw_offer _ _) origin updated e =
      let q : rec ≡ updated = ground arith in
      rw (← q) (record {
        advances = record { rises = omega arith; same_hash = λ _. refl };
        noted = λ p h. cc;
      })
  decide_sign-Signs rec (Body.draw_accept _ _) origin updated e =
      let q : rec ≡ updated = ground arith in
      rw (← q) (record {
        advances = record { rises = omega arith; same_hash = λ _. refl };
        noted = λ p h. cc;
      })
  decide_sign-Signs rec (Body.draw_claim _ _) origin updated e =
      let q : rec ≡ updated = ground arith in
      rw (← q) (record {
        advances = record { rises = omega arith; same_hash = λ _. refl };
        noted = λ p h. cc;
      })

  -- A body that the record allows still to be signed.
  abbrev pub Later : GameRecord → Body → Type 0
  Later rec body =
      (ply : ℕ)
      → move_at body ≡ some ply
      → (rec.last_signed_ply ≤ ply)
        × (ply ≡ rec.last_signed_ply → body_hash body ≡ rec.last_move_body_hash)

  pub Later-first :
      (rec : GameRecord) (body : Body) (updated : GameRecord)
      → Signs rec body updated
      → Later rec body
  Later-first rec body updated s ply m =
      let (q, h) = s.noted ply m in
      let r = s.advances.rises in (omega arith, λ e. sym h ∙ s.advances.same_hash (q ∙ e))

  pub Later-rest :
      (rec updated : GameRecord) → Advances rec updated → (b : Body) → Later updated b → Later rec b
  Later-rest rec updated s b l ply m =
      let (below, same) = l ply m in
      let r = s.rises in
      (
        omega arith,
        λ e.
            let q : ply ≡ updated.last_signed_ply = omega arith in same q ∙ s.same_hash (sym q ∙ e),
      )

  -- Two moves at one ply have one hash.
  abbrev pub Agree : Body → Body → Type 0
  Agree a b = (ply : ℕ) → move_at a ≡ some ply → move_at b ≡ some ply → body_hash a ≡ body_hash b

  abbrev pub NoClash : List Body → Type 0
  NoClash [] = Unit
  NoClash (a ∷ bs) = All (Agree a) bs × NoClash bs

  pub Agree-first :
      (rec : GameRecord) (body : Body) (updated : GameRecord)
      → Signs rec body updated
      → (b : Body) → Later updated b
      → Agree body b
  Agree-first rec body updated s b l ply ma mb =
      let (q, h) = s.noted ply ma in let (_, same) = l ply mb in sym h ∙ sym (same (sym q))

  -- A signature leaves the label and the parameters of the record, and its layout is the current.
  pub decide_sign-kept :
      (rec : GameRecord) (body : Body) (origin : Option Bytes) (updated : GameRecord)
      → decide_sign rec body origin ≡ SignDecision.sign updated
      → (updated.label ≡ rec.label) × (updated.params ≡ rec.params) × (updated.format ≡ 3)
  unfolding decide_sign decide_move
  decide_sign-kept rec (Body.move ply parent uci) origin updated e =
      (ground arith, ground arith, ground arith)
  decide_sign-kept rec Body.resign origin updated e = (ground arith, ground arith, ground arith)
  decide_sign-kept rec (Body.draw_offer _ _) origin updated e =
      (ground arith, ground arith, ground arith)
  decide_sign-kept rec (Body.draw_accept _ _) origin updated e =
      (ground arith, ground arith, ground arith)
  decide_sign-kept rec (Body.draw_claim _ _) origin updated e =
      (ground arith, ground arith, ground arith)
