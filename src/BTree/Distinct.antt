-- ===== src/BTree/Distinct.antt =====
-- Collecting entries into a `BTreeMap` that refuses a repeated key, as both decoders do with
-- `if out.insert(k, v).is_some() { return Err(..) }`.
use adjourn.Prelude.{
  suc, ◌+◌, ◌≡◌, refl, ap, ◌∙◌, List, [], ◌∷◌, Option, none, some, if◌then◌else◌, arith,
  or_else-none, is_some, ◌>>=◌,
}
use adjourn.Prelude.Lists.{length}
use adjourn.Prelude.Order.{Ord}
use adjourn.BTree.{Map, get, insert, Above, IsSorted}
use adjourn.BTree.Laws.{get-insert, insert-IsSorted, map_ext}
use adjourn.BTree.Scan.{collect, get-collect, collect-IsSorted}

module _ {K V : Type 0} ⦃o : Ord K⦄ where
  unfoldable pub insert_new : K → V → Map K V → Option (Map K V)
  insert_new k v m = if is_some (get k m) then none else some (insert k v m)

  unfoldable pub collect_new : Map K V → List (K × V) → Option (Map K V)
  collect_new m [] = some m
  collect_new m ((k, v) ∷ es) = do m' ← insert_new k v m; collect_new m' es

  -- None of the entries' keys is in the map.
  abbrev pub Fresh : Map K V → Map K V → Type 0
  Fresh m [] = Unit
  Fresh m ((k, v) ∷ es) = (get k m ≡ none) × Fresh m es

  Fresh-insert :
      (j : K) (w : V) (m es : Map K V) → Above j es → Fresh m es → Fresh (insert j w m) es
  Fresh-insert j w m [] a f = tt
  Fresh-insert j w m ((k, v) ∷ es) a f =
      (ground (arith, get-insert k j w m, o.cmp_swap_lt j k), Fresh-insert j w m es a.1 f.1)

  collect_new-collect :
      (m es : Map K V) → IsSorted es → Fresh m es → collect_new m es ≡ some (collect m es)
  unfolding collect_new collect insert_new
  collect_new-collect m [] s f = refl
  collect_new-collect m ((k, v) ∷ es) s f =
      let ih = collect_new-collect (insert k v m) es s.1 (Fresh-insert k v m es s.0 f.1) in
      ground arith

  Fresh-empty : (es : Map K V) → Fresh [] es
  unfolding get
  Fresh-empty [] = tt
  Fresh-empty ((k, v) ∷ es) = (refl, Fresh-empty es)

  -- Entries that come in key order are taken as they are.
  pub collect_new-sorted : (es : Map K V) → IsSorted es → collect_new [] es ≡ some es
  unfolding get
  collect_new-sorted es s =
      collect_new-collect [] es s (Fresh-empty es)
      ∙ ap some (
          map_ext _ _ (collect-IsSorted [] es tt) s
            (λ k. get-collect k [] es s ∙ or_else-none (get k es)))

  pub collect_new-IsSorted :
      (m : Map K V) (es : List (K × V)) {n : Map K V}
      → IsSorted m
      → collect_new m es ≡ some n
      → IsSorted n
  unfolding collect_new insert_new
  collect_new-IsSorted m [] s e = ground arith
  collect_new-IsSorted m ((k, v) ∷ es) s e =
      collect_new-IsSorted (insert k v m) es (insert-IsSorted k v m s) (ground arith)

  length-insert_absent :
      (k : K) (v : V) (m : Map K V) → get k m ≡ none → length (insert k v m) ≡ suc (length m)
  unfolding get insert
  length-insert_absent k v [] h = refl
  length-insert_absent k v ((j, w) ∷ m) h = ground (arith, length-insert_absent k v m)

  -- What is taken is taken whole: no entry replaces another.
  pub length-collect_new :
      (m : Map K V) (es : List (K × V)) {n : Map K V}
      → collect_new m es ≡ some n
      → length n ≡ length m + length es
  unfolding collect_new insert_new
  length-collect_new m [] e = ground arith
  length-collect_new m ((k, v) ∷ es) {n} e =
      ground (arith, length-insert_absent k v m, length-collect_new (insert k v m) es {n = n})
