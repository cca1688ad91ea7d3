-- ===== src/BTree.antt =====
-- `std::collections::BTreeMap`, as the list of its entries in key order.
pub mod Laws
pub mod Scan
pub mod Distinct
use adjourn.Prelude.{
  ℕ, ◌≡◌, List, [], ◌∷◌, map, Bool, true, false, Option, none, some, if◌then◌else◌,
}
use adjourn.Prelude.Order.{Ord, ◌==◌, ◌≺◌}
use Prim.Native.Nat.{Ordering}

abbrev pub Map : Type 0 → Type 0 → Type 0
Map K V = List (K × V)

module _ {K V : Type 0} ⦃o : Ord K⦄ where
  unfoldable pub get : K → Map K V → Option V
  get k [] = none
  get k ((j, w) ∷ m) = if k == j then some w else get k m

  unfoldable pub insert : K → V → Map K V → Map K V
  insert k v [] = (k, v) ∷ []
  insert k v ((j, w) ∷ m) =
      let rest = insert k v m in
      elim (o.cmp k j) [
        | Ordering.lt ↦ (k, v) ∷ (j, w) ∷ m
        | Ordering.eq ↦ (k, v) ∷ m
        | Ordering.gt ↦ (j, w) ∷ rest
      ]

  unfoldable pub remove : K → Map K V → Map K V
  remove k [] = []
  remove k ((j, w) ∷ m) = if k == j then m else (j, w) ∷ remove k m

  -- `map.values()`, in key order
  abbrev pub values : Map K V → List V
  values m = map (λ e. e.1) m

  -- Every key lies above `k`.
  abbrev pub Above : K → Map K V → Type 0
  Above k [] = Unit
  Above k ((j, w) ∷ m) = (k ≺ j) × Above k m

  -- The keys rise along the entries: what every operation of a `BTreeMap` keeps.
  abbrev pub IsSorted : Map K V → Type 0
  IsSorted [] = Unit
  IsSorted ((k, v) ∷ m) = Above k m × IsSorted m
