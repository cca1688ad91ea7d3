-- ===== src/Types/Verify.antt =====
-- What `Record::verify` accepts.
use adjourn.Prelude.{ℕ, ◌≤◌, ◌≡◌, ◌≢◌, true, some, arith, inl, inr, Option-cases}
use adjourn.Prelude.Lists.{length}
use adjourn.Prelude.Order.{nat_ord, list_ord, bytes_ord, eq_of_==}
use adjourn.Types.{Bytes, max_ply, GameParams, color_of, key_of, Color, ply_of, Record}
use adjourn.Types.Crypto.{Crypto, verify}

-- `color_of` and `key_of` are inverse on the keys of a game between two different keys.
pub color_of-key_of :
    (p : GameParams) (x : Color) → p.white ≢ p.black → color_of p (key_of p x) ≡ some x
unfolding color_of key_of
color_of-key_of p Color.white h = ground (arith, bytes_ord.cmp_self p.white)
color_of-key_of p Color.black h =
    ground (arith, bytes_ord.cmp_self p.black, bytes_ord.eq_of_cmp p.black p.white)

pub key_of-color_of :
    (p : GameParams) (key : Bytes) (x : Color) → color_of p key ≡ some x → key_of p x ≡ key
unfolding color_of key_of
key_of-color_of p key Color.white h = ground (arith, eq_of_== key p.white)
key_of-color_of p key Color.black h = ground (arith, eq_of_== key p.black)

module _ ⦃c : Crypto⦄ where
  -- No verified record carries a ply past the cap.
  pub verify-ply :
      (p : GameParams) (r : Record) (ply : ℕ)
      → verify p r ≡ true
      → ply_of r.body ≡ some ply
      → ply ≤ max_ply
  unfolding verify
  verify-ply p r ply v e = ground arith

  -- Every verified record is signed by a player.
  pub verify-color :
      (p : GameParams) (r : Record)
      → verify p r ≡ true
      → (x : Color) × (color_of p r.signer ≡ some x) × (length r.sig ≡ 64)
  unfolding verify
  verify-color p r v = elim (Option-cases (color_of p r.signer)) [
    | inl e ↦ absurd (ground arith)
    | inr (x, e) ↦ (x, e, ground arith)
  ]
