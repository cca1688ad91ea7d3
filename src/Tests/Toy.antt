-- ===== src/Tests/Toy.antt =====
-- A hash that is injective on records and signatures, a signature scheme and a game of two players
-- for the examples.
use adjourn.Prelude.{
  ℕ, zero, suc, ◌+◌, ◌*◌, ◌≡◌, ◌≢◌, refl, sym, ap, subst, ◌∙◌, Bool, true, [], ◌∷◌, ◌++◌, Option,
  none, some, if◌then◌else◌, arith, Bool-cases, inl, inr, ◌⊎◌,
}
use adjourn.Prelude.Lists.{length, take, drop, take-append, drop-append}
use adjourn.Prelude.Order.{◌==◌, nat_ord, list_ord, eq_of_==, ==_self}
use adjourn.Types.{Bytes, bytes, GameParams, Body, Record, color_of}
use adjourn.Types.Crypto.{Crypto, verify, id_of, sig_digest, domain_rec, domain_sigdigest}
use adjourn.State.Union.{IsCollisionFree}
use adjourn.State.Summary.{IsDigestFree}
use adjourn.Project.Moves.{IsSigning}

abbrev pub padded : ℕ → Bytes → Bytes
padded zero b = b
padded (suc n) b = 0 ∷ padded n b

-- 2 ^ x * (2 * y + 1)
unfoldable pub pair_code : ℕ → ℕ → ℕ
pair_code zero y = 2 * y + 1
pair_code (suc x) y = 2 * pair_code x y

unfoldable pub code : Bytes → ℕ
code [] = 0
code (x ∷ xs) = pair_code x (code xs)

pair_code-inj : (x y z w : ℕ) → pair_code x y ≡ pair_code z w → (x ≡ z) × (y ≡ w)
unfolding pair_code
pair_code-inj zero y zero w e = (refl, omega arith)
pair_code-inj zero y (suc z) w e = absurd (omega arith)
pair_code-inj (suc x) y zero w e = absurd (omega arith)
pair_code-inj (suc x) y (suc z) w e =
    let (p, q) = pair_code-inj x y z w (omega arith) in (ap suc p, q)

pair_code-ne : (x y : ℕ) → pair_code x y ≢ 0
unfolding pair_code
pair_code-ne zero y e = absurd (omega arith)
pair_code-ne (suc x) y e = pair_code-ne x y (omega arith)

code-inj : (a b : Bytes) → code a ≡ code b → a ≡ b
unfolding code
code-inj [] [] e = refl
code-inj [] (y ∷ b) e = absurd (pair_code-ne y (code b) (sym e))
code-inj (x ∷ a) [] e = absurd (pair_code-ne x (code a) e)
code-inj (x ∷ a) (y ∷ b) e =
    let (p, q) = pair_code-inj x (code a) y (code b) e in let r = code-inj a b q in cc

abbrev pub is_game_domain : Bytes → Bool
is_game_domain b = take 12 b == bytes "adjourn-v1/g"

unfoldable pub write_body : Body → Bytes
write_body (Body.move ply parent uci) = 0 ∷ ply ∷ length parent ∷ (parent ++ uci)
write_body Body.resign = 1 ∷ []
write_body (Body.draw_offer ply id) = 2 ∷ ply ∷ id
write_body (Body.draw_accept ply id) = 3 ∷ ply ∷ id
write_body (Body.draw_claim ply id) = 4 ∷ ply ∷ id

-- A signature: a free first byte, the length of what is signed, a code of the key.
abbrev pub seal : Bytes → Bytes → Bytes
seal key msg = length msg ∷ code key ∷ padded 61 []

unfoldable pub hash : Bytes → Bytes
hash b = (if is_game_domain b then 0 else code b) ∷ padded 31 []

unfoldable pub check_seal : Bytes → Bytes → Bytes → Bool
check_seal key msg sig = drop 1 sig == seal key msg

instance abbrev pub toy : Crypto
toy = record {
  sha256 = hash;
  cbor_body = write_body;
  verifying_key = λ k. some k;
  signature = λ s. some s;
  check = check_seal;
  public_key = λ k. k;
  sign_bytes = λ key msg. 7 ∷ seal key msg;
}

abbrev pub white_key : Bytes
white_key = 1 ∷ padded 31 []

abbrev pub black_key : Bytes
black_key = 2 ∷ padded 31 []

abbrev pub game : GameParams
game = record { white = white_key; black = black_key; nonce = 9 ∷ [] }

pub hash-length : (b : Bytes) → length (hash b) ≡ 32
unfolding hash
hash-length b = refl

append_cancel : (xs ys zs : Bytes) → xs ++ ys ≡ xs ++ zs → ys ≡ zs
append_cancel [] ys zs e = e
append_cancel (x ∷ xs) ys zs e = append_cancel xs ys zs (ground arith)

unfoldable pub read_body : Bytes → Option Body
read_body (zero ∷ ply ∷ n ∷ b) = some (Body.move ply (take n b) (drop n b))
read_body (suc zero ∷ []) = some Body.resign
read_body (suc (suc zero) ∷ ply ∷ id) = some (Body.draw_offer ply id)
read_body (suc (suc (suc zero)) ∷ ply ∷ id) = some (Body.draw_accept ply id)
read_body (suc (suc (suc (suc zero))) ∷ ply ∷ id) = some (Body.draw_claim ply id)
read_body _ = none

pub read_body-write_body : (b : Body) → read_body (write_body b) ≡ some b
unfolding read_body write_body
read_body-write_body (Body.move ply parent uci) =
    rw (take-append (length parent) parent uci refl, drop-append (length parent) parent uci refl)
      refl
read_body-write_body Body.resign = refl
read_body-write_body (Body.draw_offer ply id) = refl
read_body-write_body (Body.draw_accept ply id) = refl
read_body-write_body (Body.draw_claim ply id) = refl

pub write_body-inj : (a b : Body) → write_body a ≡ write_body b → a ≡ b
write_body-inj a b e =
    let q = sym (read_body-write_body a) ∙ (ap read_body e ∙ read_body-write_body b) in ground arith

-- A verified record has one of the two keys.
signer-cases : (r : Record) → verify game r ≡ true → (r.signer ≡ white_key) ⊎ (r.signer ≡ black_key)
unfolding verify color_of
signer-cases r v = elim (Bool-cases (r.signer == white_key)) [
  | inl e ↦ inl (eq_of_== r.signer white_key e)
  | inr e ↦ elim (Bool-cases (r.signer == black_key)) [
    | inl f ↦ inr (eq_of_== r.signer black_key f)
    | inr f ↦ absurd (ground arith)
  ]
]

abbrev first : Bytes → ℕ
first [] = 0
first (x ∷ _) = x

first_eq :
    (r s : Record) (j k : Bytes)
    → r.signer ≡ j
    → s.signer ≡ k
    → r.signer ++ write_body r.body ≡ s.signer ++ write_body s.body
    → first (j ++ write_body r.body) ≡ first (k ++ write_body s.body)
first_eq r s j k a b q = rw (← a, ← b) (ap first q)

key_cancel :
    (k : Bytes) (r s : Record)
    → r.signer ≡ k
    → s.signer ≡ k
    → r.signer ++ write_body r.body ≡ s.signer ++ write_body s.body
    → (r.signer ≡ s.signer) × (r.body ≡ s.body)
key_cancel k r s a b q =
    let same : r.signer ≡ s.signer = a ∙ sym b in
    (
      same,
      write_body-inj r.body s.body (
          append_cancel s.signer (write_body r.body) (write_body s.body)
            (subst (λ j. j ++ write_body r.body ≡ s.signer ++ write_body s.body) same q)),
    )

-- Two records under one id have the same signer and the same body.
pub game-IsCollisionFree : IsCollisionFree game
unfolding id_of hash take
game-IsCollisionFree r s v w e =
    let q =
      append_cancel domain_rec (r.signer ++ write_body r.body) (s.signer ++ write_body s.body)
        (code-inj _ _ (ap first e)) in
    same_signer (signer-cases r v) (signer-cases s w) q
  where
    same_signer :
        (r.signer ≡ white_key) ⊎ (r.signer ≡ black_key)
        → (s.signer ≡ white_key) ⊎ (s.signer ≡ black_key)
        → r.signer ++ write_body r.body ≡ s.signer ++ write_body s.body
        → (r.signer ≡ s.signer) × (r.body ≡ s.body)
    same_signer (inl a) (inl b) q = key_cancel white_key r s a b q
    same_signer (inl a) (inr b) q = absurd (omega (arith, first_eq r s white_key black_key a b q))
    same_signer (inr a) (inl b) q = absurd (omega (arith, first_eq r s black_key white_key a b q))
    same_signer (inr a) (inr b) q = key_cancel black_key r s a b q

pub game-IsDigestFree : IsDigestFree game
unfolding sig_digest hash take
game-IsDigestFree r s v w e = append_cancel domain_sigdigest r.sig s.sig (code-inj _ _ (ap first e))

pub toy-IsSigning : IsSigning toy
unfolding check_seal drop
toy-IsSigning = record {
  vk = λ k. k;
  is_key = λ k. refl;
  sig = λ k m. 7 ∷ seal k m;
  is_sig = λ k m. refl;
  sized = λ k m. refl;
  checks = λ k m. ==_self (seal k m);
}
