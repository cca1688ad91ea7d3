-- ===== src/Policy/Sign.antt =====
-- common/src/delegate_policy.rs: `decide_sign`, over histories of requests.
use adjourn.Prelude.{ℕ, ◌≡◌, ◌≤◌, ◌<◌, ◌⊎◌, inl, inr, refl, true, List, [], ◌∷◌, Option, arith, ◌↔◌}
use adjourn.Prelude.Order.{bytes_ord, nat_ord, list_ord, eq_of_==}
use adjourn.Types.{Bytes, Body, color_at_ply}
use adjourn.Types.Crypto.{Crypto}
use adjourn.Policy.{GameRecord, side_of, SignDecision, decide_sign, decide_move, body_hash, opt_eq}
use adjourn.Policy.Guard.{
  All, All-map, decide_sign-Signs, Later, Later-first, Later-rest, Agree, NoClash, Agree-first,
}

module _ ⦃c : Crypto⦄ where
  -- The bodies that are signed when a history of requests, each with the origin that its caller
  -- presents, meets the record of one game: the record that a signature leaves is the next one's.
  unfoldable pub session : GameRecord → List (Body × Option Bytes) → List Body
  session rec [] = []
  session rec ((body, origin) ∷ requests) = elim (decide_sign rec body origin) [
    | SignDecision.sign updated ↦ body ∷ session updated requests
    | SignDecision.refuse _ ↦ session rec requests
  ]

  session-Later :
      (rec : GameRecord) (requests : List (Body × Option Bytes))
      → All (Later rec) (session rec requests)
  unfolding session
  session-Later rec [] = tt
  session-Later rec ((body, origin) ∷ requests) =
      go (decide_sign rec body origin) refl (λ r. session-Later r requests)
    where
      go :
          (d : SignDecision)
          → decide_sign rec body origin ≡ d
          → ((r : GameRecord) → All (Later r) (session r requests))
          → All (Later rec) (elim d [
            | SignDecision.sign updated ↦ body ∷ session updated requests
            | SignDecision.refuse _ ↦ session rec requests
          ])
      go (SignDecision.sign updated) e ih =
          let s = decide_sign-Signs rec body origin updated e in
          (
            Later-first rec body updated s,
            All-map (Later updated) (Later rec) (session updated requests)
                (Later-rest rec updated s.advances) (ih updated),
          )
      go (SignDecision.refuse _) e ih = ih rec

  -- Over any history of requests to sign, whatever record it starts from, the moves that
  -- `decide_sign` signs have, at each ply, one body hash.
  pub session-NoClash :
      (rec : GameRecord) (requests : List (Body × Option Bytes)) → NoClash (session rec requests)
  unfolding session
  session-NoClash rec [] = tt
  session-NoClash rec ((body, origin) ∷ requests) =
      go (decide_sign rec body origin) refl (λ r. session-NoClash r requests)
    where
      go :
          (d : SignDecision)
          → decide_sign rec body origin ≡ d
          → ((r : GameRecord) → NoClash (session r requests))
          → NoClash (elim d [
            | SignDecision.sign updated ↦ body ∷ session updated requests
            | SignDecision.refuse _ ↦ session rec requests
          ])
      go (SignDecision.sign updated) e ih =
          let s = decide_sign-Signs rec body origin updated e in
          (
            All-map (Later updated) (Agree body) (session updated requests)
                (Agree-first rec body updated s) (session-Later updated requests),
            ih updated,
          )
      go (SignDecision.refuse _) e ih = ih rec

  -- If a move at a ply past 0 is signed, then asked for again of the updated record by the same
  -- caller it is signed again, and the record stays as it was.
  pub decide_sign_retry :
      (rec updated : GameRecord) (ply : ℕ) (parent uci : Bytes) (origin : Option Bytes)
      → 0 < ply
      → decide_sign rec (Body.move ply parent uci) origin ≡ SignDecision.sign updated
      → decide_sign updated (Body.move ply parent uci) origin ≡ SignDecision.sign updated
  unfolding decide_sign decide_move
  decide_sign_retry rec updated ply parent uci origin h e =
      ground (arith, bytes_ord.cmp_self (body_hash (Body.move ply parent uci)))

  -- A move is signed exactly when the record's layout is 3 and its origin the caller's, the ply is
  -- at most 4096 and one of the record's side, and it is past the last signed ply, or is that ply,
  -- is not 0, and the body has the hash of the move signed there.
  pub decide_sign-move_iff :
      (rec : GameRecord) (ply : ℕ) (parent uci : Bytes) (origin : Option Bytes)
      → let body = Body.move ply parent uci in
        ((updated : GameRecord) × (decide_sign rec body origin ≡ SignDecision.sign updated)) ↔ (
          (rec.format ≡ 3)
          × (opt_eq rec.origin origin ≡ true)
          × (ply ≤ 4096)
          × (side_of (color_at_ply ply) ≡ rec.side)
          × ((rec.last_signed_ply < ply)
              ⊎ ((ply ≡ rec.last_signed_ply)
                  × (0 < ply)
                  × (body_hash body ≡ rec.last_move_body_hash))))
  unfolding decide_sign decide_move
  decide_sign-move_iff rec ply parent uci origin =
      let body = Body.move ply parent uci in
      (
        λ (updated, e). (
          ground arith,
          ground arith,
          ground arith,
          ground arith,
          ground (arith, eq_of_== (body_hash body) rec.last_move_body_hash),
        ),
        λ (format, caller, cap, side, fresh). elim fresh [
          | inl new ↦ (
            record rec { last_signed_ply = ply; last_move_body_hash = body_hash body },
            ground arith,
          )
          | inr (again, pos, hash) ↦ (rec, ground (arith, bytes_ord.cmp_self (body_hash body)))
        ],
      )
