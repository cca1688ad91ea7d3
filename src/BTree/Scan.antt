-- ===== src/BTree/Scan.antt =====
-- Passes over a `BTreeMap`: collecting entries into one, filtering and mapping its entries.
use adjourn.Prelude.{
  ◌≡◌, refl, Bool, true, List, [], ◌∷◌, Option, none, some, if◌then◌else◌, arith, Bool-cases, inl,
  inr, or_else, map_some,
}
use adjourn.Prelude.Lists.{retain, any}
use adjourn.Prelude.Order.{Ord, ◌==◌, eq_of_==, ==_self}
use adjourn.BTree.{Map, get, insert, Above, IsSorted, values}
use adjourn.BTree.Laws.{get-insert, insert-IsSorted, get-Above}

module _ {K V : Type 0} ⦃o : Ord K⦄ where
  -- `iter.collect()` into a map that is there already
  unfoldable pub collect : Map K V → List (K × V) → Map K V
  collect m [] = m
  collect m ((k, v) ∷ es) = collect (insert k v m) es

  pub collect-IsSorted : (m : Map K V) (es : List (K × V)) → IsSorted m → IsSorted (collect m es)
  unfolding collect
  collect-IsSorted m [] s = s
  collect-IsSorted m ((k, v) ∷ es) s = collect-IsSorted (insert k v m) es (insert-IsSorted k v m s)

  -- Entries in key order are collected as they are.
  pub get-collect :
      (k : K) (m : Map K V) (es : Map K V)
      → IsSorted es
      → get k (collect m es) ≡ or_else (get k es) (get k m)
  unfolding collect get
  get-collect k m [] s = refl
  get-collect k m ((j, v) ∷ es) s = elim (Bool-cases (k == j)) [
    | inl e ↦
        let q = eq_of_== k j e in
        let gone : get j es ≡ none = get-Above j es s.0 in
        ground (arith, get-collect k (insert j v m) es s.1, get-insert k j v m)
    | inr e ↦ ground (arith, get-collect k (insert j v m) es s.1, get-insert k j v m)
  ]

  Above-retain : (p : K × V → Bool) (k : K) (m : Map K V) → Above k m → Above k (retain p m)
  unfolding retain
  Above-retain p k [] h = tt
  Above-retain p k ((j, v) ∷ m) h = ground (arith, Above-retain p k m h.1)

  pub retain-IsSorted : (p : K × V → Bool) (m : Map K V) → IsSorted m → IsSorted (retain p m)
  unfolding retain
  retain-IsSorted p [] h = tt
  retain-IsSorted p ((j, v) ∷ m) h = ground (arith, retain-IsSorted p m h.1, Above-retain p j m h.0)

  abbrev pub filtered : (K × V → Bool) → K → Option V → Option V
  filtered p k none = none
  filtered p k (some v) = if p (k, v) then some v else none

  pub get-retain :
      (p : K × V → Bool) (k : K) (m : Map K V)
      → IsSorted m
      → get k (retain p m) ≡ filtered p k (get k m)
  unfolding retain get
  get-retain p k [] h = refl
  get-retain p k ((j, v) ∷ m) h = elim (Bool-cases (k == j)) [
    | inl e ↦
        let q = eq_of_== k j e in
        let gone : get j m ≡ none = get-Above j m h.0 in
        let ih = get-retain p j m h.1 in ground arith
    | inr e ↦ ground (arith, get-retain p k m h.1)
  ]

module _ {K V W : Type 0} ⦃o : Ord K⦄ where
  -- `.map(|(k, v)| (k, f(v)))`
  abbrev pub map_values : (V → W) → Map K V → Map K W
  map_values f [] = []
  map_values f ((k, v) ∷ m) = (k, f v) ∷ map_values f m

  pub get-map_values :
      (f : V → W) (k : K) (m : Map K V) → get k (map_values f m) ≡ map_some f (get k m)
  unfolding get
  get-map_values f k [] = refl
  get-map_values f k ((j, v) ∷ m) = ground (arith, get-map_values f k m)

  Above-map_values : (f : V → W) (k : K) (m : Map K V) → Above k m → Above k (map_values f m)
  Above-map_values f k [] h = tt
  Above-map_values f k ((j, v) ∷ m) h = (h.0, Above-map_values f k m h.1)

  pub map_values-IsSorted : (f : V → W) (m : Map K V) → IsSorted m → IsSorted (map_values f m)
  map_values-IsSorted f [] h = tt
  map_values-IsSorted f ((j, v) ∷ m) h = (Above-map_values f j m h.0, map_values-IsSorted f m h.1)

module _ {K V : Type 0} ⦃o : Ord K⦄ where
  -- Some value passes the test exactly if one that is read from the map does.
  pub any-values :
      (f : V → Bool) (m : Map K V)
      → IsSorted m
      → any f (values m) ≡ true
      → (k : K) × (v : V) × (get k m ≡ some v) × (f v ≡ true)
  unfolding any get
  any-values f [] s e = absurd (ground arith)
  any-values f ((j, w) ∷ m) s e = elim (Bool-cases (f w)) [
    | inl hit ↦ (j, w, rw (==_self j), hit)
    | inr miss ↦
        let (k, v, stored, hit) = any-values f m s.1 (ground arith) in
        (
          k,
          v,
          elim (Bool-cases (k == j)) [
            | inl same ↦
                let gone : get j m ≡ none = get-Above j m s.0 in
                absurd (ground (arith, eq_of_== k j same))
            | inr other ↦ rw other stored
          ],
          hit,
        )
  ]

  pub any-values_of :
      (f : V → Bool) (k : K) (v : V) (m : Map K V)
      → get k m ≡ some v
      → f v ≡ true
      → any f (values m) ≡ true
  unfolding any get
  any-values_of f k v [] e h = absurd (ground arith)
  any-values_of f k v ((j, w) ∷ m) e h = ground (arith, any-values_of f k v m)
