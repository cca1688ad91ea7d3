-- ===== src/BTree/Laws.antt =====
-- What is read after a write, and that a map in key order is determined by what is read from it.
use adjourn.Prelude.{
  ◌≡◌, ◌≢◌, refl, sym, subst, inl, inr, [], ◌∷◌, none, some, if◌then◌else◌, arith, Bool-cases,
}
use adjourn.Prelude.Order.{Ord, ◌==◌, ◌≺◌, ==_self, eq_of_==, ==_of_ne, Ordering-cases}
use adjourn.BTree.{Map, get, insert, remove, Above, IsSorted}

module _ {K V : Type 0} ⦃o : Ord K⦄ where
  pub get-insert :
      (j k : K) (v : V) (m : Map K V) → get j (insert k v m) ≡ (if j == k then some v else get j m)
  unfolding get insert
  get-insert j k v [] = refl
  get-insert j k v ((i, w) ∷ m) =
      ground (arith, o.eq_of_cmp k i, o.eq_of_cmp j k, o.eq_of_cmp j i, get-insert j k v m)

  Above-trans : (i k : K) (m : Map K V) → i ≺ k → Above k m → Above i m
  Above-trans i k [] h a = tt
  Above-trans i k ((j, w) ∷ m) h a = (o.cmp_trans i k j h a.0, Above-trans i k m h a.1)

  pub get-Above : (k : K) (m : Map K V) → Above k m → get k m ≡ none
  unfolding get
  get-Above k [] a = refl
  get-Above k ((j, w) ∷ m) a = ground (arith, get-Above k m)

  Above-insert : (i k : K) (v : V) (m : Map K V) → i ≺ k → Above i m → Above i (insert k v m)
  unfolding insert
  Above-insert i k v [] h a = (h, tt)
  Above-insert i k v ((j, w) ∷ m) h a = ground (arith, Above-insert i k v m h a.1)

  pub insert-IsSorted : (k : K) (v : V) (m : Map K V) → IsSorted m → IsSorted (insert k v m)
  unfolding insert
  insert-IsSorted k v [] s = (tt, tt)
  insert-IsSorted k v ((j, w) ∷ m) s = ground (
    arith,
    insert-IsSorted k v m s.1,
    Above-trans k j m,
    Above-insert j k v m,
    o.cmp_swap_gt k j,
    o.eq_of_cmp k j,
  )

  Above-remove : (i k : K) (m : Map K V) → Above i m → Above i (remove k m)
  unfolding remove
  Above-remove i k [] a = tt
  Above-remove i k ((j, w) ∷ m) a = ground (arith, Above-remove i k m a.1)

  pub remove-IsSorted : (k : K) (m : Map K V) → IsSorted m → IsSorted (remove k m)
  unfolding remove
  remove-IsSorted k [] s = tt
  remove-IsSorted k ((j, w) ∷ m) s = ground (arith, remove-IsSorted k m s.1, Above-remove j k m s.0)

  pub get-remove :
      (j k : K) (m : Map K V) → IsSorted m → get j (remove k m) ≡ (if j == k then none else get j m)
  unfolding get remove
  get-remove j k [] s = ground arith
  get-remove j k ((i, w) ∷ m) s = ground (
    arith,
    o.eq_of_cmp k i,
    o.eq_of_cmp j k,
    o.eq_of_cmp j i,
    o.cmp_self j,
    get-remove j k m s.1,
    get-Above i m s.0,
  )

  -- The least key of one map is a key of the other, so the two least keys agree.
  pub get_below : (i k : K) (m : Map K V) → i ≺ k → Above k m → get i m ≡ none
  get_below i k m h a = get-Above i m (Above-trans i k m h a)

  get_head : (k : K) (v : V) (m : Map K V) → get k ((k, v) ∷ m) ≡ some v
  unfolding get
  get_head k v m = rw (==_self k)

  get_skip : (i k : K) (v : V) (m : Map K V) → i ≢ k → get i ((k, v) ∷ m) ≡ get i m
  unfolding get
  get_skip i k v m h = rw (==_of_ne i k h)

  tails_agree :
      (k : K) (v w : V) (m n : Map K V)
      → Above k m
      → Above k n
      → ((i : K) → get i ((k, v) ∷ m) ≡ get i ((k, w) ∷ n))
      → (i : K) → get i m ≡ get i n
  unfolding get
  tails_agree k v w m n a b h i = elim (Bool-cases (i == k)) [
    | inl e ↦ let p = eq_of_== i k e in rw (p, get-Above k m a, get-Above k n b)
    | inr e ↦ ground (arith, h i)
  ]

  heads_agree :
      (k l : K) (v w : V) (m n : Map K V)
      → Above k m
      → Above l n
      → ((i : K) → get i ((k, v) ∷ m) ≡ get i ((l, w) ∷ n))
      → k ≡ l
  unfolding get
  heads_agree k l v w m n a b h = elim (Ordering-cases (o.cmp k l)) [
    | inl e ↦ absurd (ground (arith, h k, get_below k l n e b, o.cmp_self k))
    | inr (inl e) ↦ o.eq_of_cmp k l e
    | inr (inr e) ↦
        let e' = o.cmp_swap_gt k l e in
        absurd (ground (arith, h l, get_below l k m e' a, o.cmp_self l))
  ]

  -- A map is determined by what is read from it: equal reads, byte-identical maps.
  pub map_ext : (m n : Map K V) → IsSorted m → IsSorted n → ((i : K) → get i m ≡ get i n) → m ≡ n
  unfolding get
  map_ext [] [] s t h = refl
  map_ext [] ((l, w) ∷ n) s t h = absurd (ground (arith, h l, o.cmp_self l))
  map_ext ((k, v) ∷ m) [] s t h = absurd (ground (arith, h k, o.cmp_self k))
  map_ext ((k, v) ∷ m) ((l, w) ∷ n) s t h =
      let p = heads_agree k l v w m n s.0 t.0 h in
      let h' : (i : K) → get i ((k, v) ∷ m) ≡ get i ((k, w) ∷ n) =
        subst (λ l'. (i : K) → get i ((k, v) ∷ m) ≡ get i ((l', w) ∷ n)) (sym p) h in
      let q : v ≡ w = ground (arith, h' k, o.cmp_self k) in
      let r = map_ext m n s.1 t.1 (tails_agree k v w m n s.0 (rw p t.0) h') in cc
