-- ===== src/Prelude/Order.antt =====
-- The trait `Ord` with the laws that it documents, as the keys of a `BTreeMap` have them, and its
-- derived instances: numbers, byte strings by lexicographic order, tuples.
use Prim.Native.Nat.{ℕ, compare, Ordering}
use Prim.Native.Nat.Ordering.{lt, eq, gt}
use mathlib.Core.Path.{◌≡◌, refl}
use mathlib.Core.Logic.{◌⊎◌, inl, inr, ◌≢◌}
use mathlib.Core.Bool.{Bool, true, false}
use mathlib.Core.List.{List, [], ◌∷◌}
use native.Mathlib.Omega.{arith}

-- What the documentation of `Ord` asks of `cmp`.
pub record IsTotal {ℓ} {A : Type ℓ} (cmp : A → A → Ordering) : Type ℓ where
  pub cmp_self : (a : A) → cmp a a ≡ eq
  pub eq_of_cmp : (a b : A) → cmp a b ≡ eq → a ≡ b
  pub cmp_swap_lt : (a b : A) → cmp a b ≡ lt → cmp b a ≡ gt
  pub cmp_swap_gt : (a b : A) → cmp a b ≡ gt → cmp b a ≡ lt
  pub cmp_trans : (a b c : A) → cmp a b ≡ lt → cmp b c ≡ lt → cmp a c ≡ lt

pub record Ord {ℓ} (A : Type ℓ) : Type ℓ where
  pub cmp : A → A → Ordering
  pub total : IsTotal cmp
  pub open total use *

pub Ordering-cases : (o : Ordering) → (o ≡ lt) ⊎ (o ≡ eq) ⊎ (o ≡ gt)
Ordering-cases lt = inl refl
Ordering-cases eq = inr (inl refl)
Ordering-cases gt = inr (inr refl)

abbrev pub is_eq : Ordering → Bool
is_eq eq = true
is_eq _ = false

abbrev pub is_le : Ordering → Bool
is_le gt = false
is_le _ = true

-- The first difference decides.
abbrev pub then_by : Ordering → Ordering → Ordering
then_by eq o = o
then_by lt o = lt
then_by gt o = gt

infix 50 ◌==◌ ◌≺◌ ◌≼◌
abbrev pub ◌==◌ {ℓ} : {A : Type ℓ} ⦃o : Ord A⦄ → A → A → Bool
◌==◌ ⦃o⦄ a b = is_eq (o.cmp a b)

-- `<=`
abbrev pub ◌≼◌ {ℓ} : {A : Type ℓ} ⦃o : Ord A⦄ → A → A → Bool
◌≼◌ ⦃o⦄ a b = is_le (o.cmp a b)

abbrev pub ◌≺◌ {ℓ} : {A : Type ℓ} ⦃o : Ord A⦄ → A → A → Type 0
◌≺◌ ⦃o⦄ a b = o.cmp a b ≡ lt

module _ {ℓ} {A : Type ℓ} ⦃o : Ord A⦄ where
  pub eq_of_== : (a b : A) → (a == b) ≡ true → a ≡ b
  eq_of_== a b h = o.eq_of_cmp a b (ground arith)

  pub ==_self : (a : A) → (a == a) ≡ true
  ==_self a = ground (arith, o.cmp_self a)

  pub ==_of_ne : (a b : A) → a ≢ b → (a == b) ≡ false
  ==_of_ne a b h = ground (arith, o.eq_of_cmp a b)

  pub ne_of_lt : (a b : A) → a ≺ b → a ≢ b
  ne_of_lt a b h e = ground (arith, o.cmp_self a)

  pub ==_of_lt : (a b : A) → a ≺ b → (a == b) ≡ false
  ==_of_lt a b h = ground arith

  pub ==_swap : (a b : A) → (a == b) ≡ (b == a)
  ==_swap a b =
      ground (arith, o.cmp_swap_lt a b, o.cmp_swap_gt a b, o.cmp_swap_lt b a, o.cmp_swap_gt b a)

  -- `<=` both ways is equality, and one of the two holds.
  pub ≼_antisymm : (a b : A) → (a ≼ b) ≡ true → (b ≼ a) ≡ true → a ≡ b
  ≼_antisymm a b p q = ground (arith, o.eq_of_cmp a b, o.cmp_swap_lt a b)

  pub ≼_total : (a b : A) → (a ≼ b) ≡ false → (b ≼ a) ≡ true
  ≼_total a b p = ground (arith, o.cmp_swap_gt a b)

  pub ≼_self : (a : A) → (a ≼ a) ≡ true
  ≼_self a = ground (arith, o.cmp_self a)

  pub ≼_trans : (a b c : A) → (a ≼ b) ≡ true → (b ≼ c) ≡ true → (a ≼ c) ≡ true
  ≼_trans a b c p q =
      ground (arith, o.eq_of_cmp a b, o.eq_of_cmp b c, o.cmp_trans a b c, o.cmp_self a)

pub compare-IsTotal : IsTotal compare
compare-IsTotal = ground arith

instance abbrev pub nat_ord : Ord ℕ
nat_ord = record { cmp = compare; total = compare-IsTotal }

module _ {ℓ} {A : Type ℓ} ⦃o : Ord A⦄ where
  -- slices compare lexicographically
  abbrev pub list_cmp : List A → List A → Ordering
  list_cmp [] [] = eq
  list_cmp [] (y ∷ ys) = lt
  list_cmp (x ∷ xs) [] = gt
  list_cmp (x ∷ xs) (y ∷ ys) = then_by (o.cmp x y) (list_cmp xs ys)

  list_cmp_self : (a : List A) → list_cmp a a ≡ eq
  list_cmp_self [] = refl
  list_cmp_self (x ∷ xs) = ground (arith, o.cmp_self x, list_cmp_self xs)

  list_eq_of_cmp : (a b : List A) → list_cmp a b ≡ eq → a ≡ b
  list_eq_of_cmp [] [] h = refl
  list_eq_of_cmp [] (y ∷ ys) h = cc
  list_eq_of_cmp (x ∷ xs) [] h = cc
  list_eq_of_cmp (x ∷ xs) (y ∷ ys) h = ground (arith, o.eq_of_cmp x y, list_eq_of_cmp xs ys)

  list_swap_lt : (a b : List A) → list_cmp a b ≡ lt → list_cmp b a ≡ gt
  list_swap_lt [] [] h = cc
  list_swap_lt [] (y ∷ ys) h = refl
  list_swap_lt (x ∷ xs) [] h = cc
  list_swap_lt (x ∷ xs) (y ∷ ys) h =
      ground (arith, o.eq_of_cmp x y, o.cmp_self x, o.cmp_swap_lt x y, list_swap_lt xs ys)

  list_swap_gt : (a b : List A) → list_cmp a b ≡ gt → list_cmp b a ≡ lt
  list_swap_gt [] [] h = cc
  list_swap_gt [] (y ∷ ys) h = cc
  list_swap_gt (x ∷ xs) [] h = refl
  list_swap_gt (x ∷ xs) (y ∷ ys) h =
      ground (arith, o.eq_of_cmp x y, o.cmp_self x, o.cmp_swap_gt x y, list_swap_gt xs ys)

  list_trans : (a b c : List A) → list_cmp a b ≡ lt → list_cmp b c ≡ lt → list_cmp a c ≡ lt
  list_trans [] b [] h k = ground arith
  list_trans [] b (z ∷ zs) h k = refl
  list_trans (x ∷ xs) [] c h k = cc
  list_trans (x ∷ xs) (y ∷ ys) [] h k = cc
  list_trans (x ∷ xs) (y ∷ ys) (z ∷ zs) h k = ground (
    arith,
    o.eq_of_cmp x y,
    o.eq_of_cmp y z,
    o.cmp_trans x y z,
    o.cmp_self x,
    list_trans xs ys zs,
  )

  pub list-IsTotal : IsTotal list_cmp
  list-IsTotal = record {
    cmp_self = list_cmp_self;
    eq_of_cmp = list_eq_of_cmp;
    cmp_swap_lt = list_swap_lt;
    cmp_swap_gt = list_swap_gt;
    cmp_trans = list_trans;
  }

  instance abbrev pub list_ord : Ord (List A)
  list_ord = record { cmp = list_cmp; total = list-IsTotal }

module _ {ℓ κ} {A : Type ℓ} {B : Type κ} ⦃a : Ord A⦄ ⦃b : Ord B⦄ where
  -- pairs compare lexicographically
  abbrev pub pair_cmp : A × B → A × B → Ordering
  pair_cmp (x, y) (u, v) = then_by (a.cmp x u) (b.cmp y v)

  pair_self : (x : A × B) → pair_cmp x x ≡ eq
  pair_self (x, y) = ground (arith, a.cmp_self x, b.cmp_self y)

  pair_eq_of_cmp : (x y : A × B) → pair_cmp x y ≡ eq → x ≡ y
  pair_eq_of_cmp (x, y) (u, v) h = ground (arith, a.eq_of_cmp x u, b.eq_of_cmp y v)

  pair_swap_lt : (x y : A × B) → pair_cmp x y ≡ lt → pair_cmp y x ≡ gt
  pair_swap_lt (x, y) (u, v) h =
      ground (arith, a.eq_of_cmp x u, a.cmp_self x, a.cmp_swap_lt x u, b.cmp_swap_lt y v)

  pair_swap_gt : (x y : A × B) → pair_cmp x y ≡ gt → pair_cmp y x ≡ lt
  pair_swap_gt (x, y) (u, v) h =
      ground (arith, a.eq_of_cmp x u, a.cmp_self x, a.cmp_swap_gt x u, b.cmp_swap_gt y v)

  pair_trans : (x y z : A × B) → pair_cmp x y ≡ lt → pair_cmp y z ≡ lt → pair_cmp x z ≡ lt
  pair_trans (x, y) (u, v) (w, z) h k =
      ground (
        arith,
        a.eq_of_cmp x u,
        a.eq_of_cmp u w,
        a.cmp_trans x u w,
        a.cmp_self x,
        b.cmp_trans y v z,
      )

  pub pair-IsTotal : IsTotal pair_cmp
  pair-IsTotal = record {
    cmp_self = pair_self;
    eq_of_cmp = pair_eq_of_cmp;
    cmp_swap_lt = pair_swap_lt;
    cmp_swap_gt = pair_swap_gt;
    cmp_trans = pair_trans;
  }

  instance abbrev pub pair_ord : Ord (A × B)
  pair_ord = record { cmp = pair_cmp; total = pair-IsTotal }

-- Byte strings.
abbrev pub bytes_ord : Ord (List ℕ)
bytes_ord = list_ord
