-- ===== src/Prelude/Rises.antt =====
-- Lists without repetitions, in rising order: membership determines them.
use Prim.Native.Nat.{ℕ, zero, suc}
use mathlib.Core.Path.{◌≡◌, refl, sym, ap, ◌∙◌}
use mathlib.Core.Logic.{inl, inr}
use mathlib.Core.Bool.{Bool, true, false, not, ◌&&◌}
use mathlib.Core.List.{List, [], ◌∷◌}
use native.Mathlib.Omega.{arith}
use adjourn.Prelude.Tests.{Bool-cases}
use adjourn.Prelude.Lists.{take, drop, retain, has}
use adjourn.Prelude.Order.{Ord, ◌==◌, ◌≺◌, Ordering-cases, eq_of_==}

module _ {ℓ} {A : Type ℓ} ⦃o : Ord A⦄ where
  abbrev pub Below : A → List A → Type 0
  Below a [] = Unit
  Below a (x ∷ xs) = (a ≺ x) × Below a xs

  abbrev pub Rises : List A → Type 0
  Rises [] = Unit
  Rises (x ∷ xs) = Below x xs × Rises xs

  has-Below : (a : A) (xs : List A) → Below a xs → has a xs ≡ false
  unfolding has
  has-Below a [] h = refl
  has-Below a (x ∷ xs) h = ground (arith, has-Below a xs)

  Below-trans : (a b : A) (xs : List A) → a ≺ b → Below b xs → Below a xs
  Below-trans a b [] p h = tt
  Below-trans a b (x ∷ xs) p h = (o.cmp_trans a b x p h.0, Below-trans a b xs p h.1)

  Below-retain : (p : A → Bool) (a : A) (xs : List A) → Below a xs → Below a (retain p xs)
  unfolding retain
  Below-retain p a [] h = tt
  Below-retain p a (x ∷ xs) h = ground (arith, Below-retain p a xs h.1)

  pub retain-Rises : (p : A → Bool) (xs : List A) → Rises xs → Rises (retain p xs)
  unfolding retain
  retain-Rises p [] h = tt
  retain-Rises p (x ∷ xs) h = ground (arith, retain-Rises p xs h.1, Below-retain p x xs h.0)

  Below-take : (a : A) (n : ℕ) (xs : List A) → Below a xs → Below a (take n xs)
  unfolding take
  Below-take a zero xs h = tt
  Below-take a (suc n) [] h = tt
  Below-take a (suc n) (x ∷ xs) h = (h.0, Below-take a n xs h.1)

  pub take-Rises : (n : ℕ) (xs : List A) → Rises xs → Rises (take n xs)
  unfolding take
  take-Rises zero xs h = tt
  take-Rises (suc n) [] h = tt
  take-Rises (suc n) (x ∷ xs) h = (Below-take x n xs h.0, take-Rises n xs h.1)

  pub has-retain : (p : A → Bool) (a : A) (xs : List A) → has a (retain p xs) ≡ (has a xs && p a)
  unfolding has retain
  has-retain p a [] = refl
  has-retain p a (x ∷ xs) = ground (arith, has-retain p a xs, o.eq_of_cmp a x)

  pub has-drop-false : (a : A) (n : ℕ) (xs : List A) → has a xs ≡ false → has a (drop n xs) ≡ false
  unfolding has drop
  has-drop-false a zero xs h = h
  has-drop-false a (suc n) [] h = h
  has-drop-false a (suc n) (x ∷ xs) h = has-drop-false a n xs (ground arith)

  -- A place is before the cut or after it.
  pub has-take-not-drop :
      (a : A) (n : ℕ) (xs : List A)
      → Rises xs
      → has a xs ≡ true
      → has a (take n xs) ≡ not (has a (drop n xs))
  unfolding has take drop
  has-take-not-drop a zero xs h e = ground arith
  has-take-not-drop a (suc n) [] h e = absurd (ground arith)
  has-take-not-drop a (suc n) (x ∷ xs) h e = elim (Bool-cases (a == x)) [
    | inl q ↦
        let none_left = has-Below x xs h.0 in
        let part = has-drop-false a n xs in ground (arith, o.eq_of_cmp a x)
    | inr q ↦ ground (arith, has-take-not-drop a n xs h.1)
  ]

  tails_agree :
      (x : A) (xs ys : List A)
      → Below x xs
      → Below x ys
      → ((a : A) → has a (x ∷ xs) ≡ has a (x ∷ ys))
      → (a : A) → has a xs ≡ has a ys
  unfolding has
  tails_agree x xs ys b d h a = elim (Bool-cases (a == x)) [
    | inl e ↦ let p = eq_of_== a x e in rw (p, has-Below x xs b, has-Below x ys d)
    | inr e ↦ ground (arith, h a)
  ]

  heads_agree :
      (x y : A) (xs ys : List A)
      → Below x xs
      → Below y ys
      → ((a : A) → has a (x ∷ xs) ≡ has a (y ∷ ys))
      → x ≡ y
  unfolding has
  heads_agree x y xs ys b d h = elim (Ordering-cases (o.cmp x y)) [
    | inl e ↦
        let away = has-Below x ys (Below-trans x y ys e d) in
        absurd (ground (arith, h x, o.cmp_self x))
    | inr (inl e) ↦ o.eq_of_cmp x y e
    | inr (inr e) ↦
        let e' = o.cmp_swap_gt x y e in
        let away = has-Below y xs (Below-trans y x xs e' b) in
        absurd (ground (arith, h y, o.cmp_self y))
  ]

  pub Rises-ext : (xs ys : List A) → Rises xs → Rises ys → ((a : A) → has a xs ≡ has a ys) → xs ≡ ys
  unfolding has
  Rises-ext [] [] r s h = refl
  Rises-ext [] (y ∷ ys) r s h = absurd (ground (arith, h y, o.cmp_self y))
  Rises-ext (x ∷ xs) [] r s h = absurd (ground (arith, h x, o.cmp_self x))
  Rises-ext (x ∷ xs) (y ∷ ys) r s h =
      let p = heads_agree x y xs ys r.0 s.0 h in
      let t =
        Rises-ext xs ys r.1 s.1
          (tails_agree x xs ys r.0 (rw p s.0) (λ a. h a ∙ ap (λ z. has a (z ∷ ys)) (sym p))) in
      cc
