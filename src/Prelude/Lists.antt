-- ===== src/Prelude/Lists.antt =====
-- Lists measured by native numbers, and membership as a test.
use Prim.Native.Nat.{ℕ, zero, suc, ◌+◌, ◌≤◌}
use mathlib.Core.Path.{◌≡◌, refl, ap}
use mathlib.Core.Bool.{Bool, true, false}
use mathlib.Core.List.{List, [], ◌∷◌, ◌++◌}
use mathlib.Core.Option.{Option, none, some}
use native.Mathlib.Omega.{arith}
use adjourn.Prelude.Tests.{if◌then◌else◌}
use adjourn.Prelude.Order.{Ord, ◌==◌}

pub some-inj {ℓ} : {A : Type ℓ} {a b : A} → ◌≡◌ {A = Option A} (some a) (some b) → a ≡ b
some-inj e = cc

module _ {ℓ} {A : Type ℓ} where
  abbrev pub length : List A → ℕ
  length [] = 0
  length (x ∷ xs) = suc (length xs)

  unfoldable pub take : ℕ → List A → List A
  take zero xs = []
  take (suc n) [] = []
  take (suc n) (x ∷ xs) = x ∷ take n xs

  unfoldable pub drop : ℕ → List A → List A
  drop zero xs = xs
  drop (suc n) [] = []
  drop (suc n) (x ∷ xs) = drop n xs

  -- `xs.last().copied()`
  unfoldable pub get_last : List A → Option A
  get_last [] = none
  get_last (x ∷ []) = some x
  get_last (x ∷ y ∷ xs) = get_last (y ∷ xs)

  -- `iter().filter(p)`
  unfoldable pub retain : (A → Bool) → List A → List A
  retain p [] = []
  retain p (x ∷ xs) = if p x then x ∷ retain p xs else retain p xs

  -- `iter().any(p)` and `iter().all(p)`
  unfoldable pub any : (A → Bool) → List A → Bool
  any p [] = false
  any p (x ∷ xs) = if p x then true else any p xs

  unfoldable pub all : (A → Bool) → List A → Bool
  all p [] = true
  all p (x ∷ xs) = if p x then all p xs else false

  pub length-take-le : (n : ℕ) (xs : List A) → length (take n xs) ≤ n
  unfolding take
  length-take-le zero xs = omega arith
  length-take-le (suc n) [] = omega arith
  length-take-le (suc n) (x ∷ xs) = omega (arith, length-take-le n xs)

  pub take-append : (n : ℕ) (xs ys : List A) → length xs ≡ n → take n (xs ++ ys) ≡ xs
  unfolding take
  take-append zero [] ys h = refl
  take-append zero (x ∷ xs) ys h = absurd (omega arith)
  take-append (suc n) [] ys h = absurd (omega arith)
  take-append (suc n) (x ∷ xs) ys h = ap (◌∷◌ x) (take-append n xs ys (omega arith))

  pub drop-append : (n : ℕ) (xs ys : List A) → length xs ≡ n → drop n (xs ++ ys) ≡ ys
  unfolding drop
  drop-append zero [] ys h = refl
  drop-append zero (x ∷ xs) ys h = absurd (omega arith)
  drop-append (suc n) [] ys h = absurd (omega arith)
  drop-append (suc n) (x ∷ xs) ys h = drop-append n xs ys (omega arith)

  pub length-take_min : (n : ℕ) (xs : List A) → n ≤ length xs → length (take n xs) ≡ n
  unfolding take
  length-take_min zero xs h = omega arith
  length-take_min (suc n) [] h = absurd (omega arith)
  length-take_min (suc n) (x ∷ xs) h = omega (arith, length-take_min n xs)

  pub length-retain-le : (p : A → Bool) (xs : List A) → length (retain p xs) ≤ length xs
  unfolding retain
  length-retain-le p [] = omega arith
  length-retain-le p (x ∷ xs) = ground (arith, length-retain-le p xs)

  pub length-append : (xs ys : List A) → length (xs ++ ys) ≡ length xs + length ys
  length-append [] ys = omega arith
  length-append (x ∷ xs) ys = omega (arith, length-append xs ys)

module _ {ℓ} {A : Type ℓ} ⦃o : Ord A⦄ where
  unfoldable pub has : A → List A → Bool
  has a [] = false
  has a (x ∷ xs) = if a == x then true else has a xs

  -- A prefix keeps the elements that a test on the list's first `n` places lets through.
  pub take-retain :
      (p : A → Bool) (n : ℕ) (xs : List A)
      → ((a : A) → has a (take n xs) ≡ true → p a ≡ true)
      → take n (retain p xs) ≡ take n xs
  unfolding take retain has
  take-retain p zero xs h = refl
  take-retain p (suc n) [] h = refl
  take-retain p (suc n) (x ∷ xs) h =
      ground (arith, h x, o.cmp_self x, take-retain p n xs (λ a e. ground (arith, h a)))

  pub has-of-take : (a : A) (n : ℕ) (xs : List A) → has a (take n xs) ≡ true → has a xs ≡ true
  unfolding take has
  has-of-take a zero xs h = absurd (ground arith)
  has-of-take a (suc n) [] h = h
  has-of-take a (suc n) (x ∷ xs) h = ground (arith, has-of-take a n xs)

  pub has-take-suc :
      (a : A) (n : ℕ) (xs : List A) → has a (take n xs) ≡ true → has a (take (suc n) xs) ≡ true
  unfolding take has
  has-take-suc a zero xs h = ground arith
  has-take-suc a (suc n) [] h = h
  has-take-suc a (suc n) (x ∷ xs) h = ground (arith, has-take-suc a n xs)

  -- What is among the first `n` stays among the first `n` when others are taken out.
  pub has-take-retain :
      (p : A → Bool) (n : ℕ) (xs : List A) (a : A)
      → has a (take n xs) ≡ true
      → p a ≡ true
      → has a (take n (retain p xs)) ≡ true
  unfolding take retain has
  has-take-retain p zero xs a h k = h
  has-take-retain p (suc n) [] a h k = h
  has-take-retain p (suc n) (x ∷ xs) a h k =
      ground (arith, o.eq_of_cmp a x, has-take-retain p n xs a, has-take-suc a n (retain p xs))
