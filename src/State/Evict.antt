-- ===== src/State/Evict.antt =====
-- common/src/state.rs: what `evict` leaves, id by id.
use adjourn.Prelude.{
  ℕ, ◌≡◌, refl, sym, ap, subst, ◌∙◌, Bool, true, false, List, [], ◌∷◌, Option, none, some,
  if◌then◌else◌, arith, Bool-cases, Option-cases, inl, inr, zero, suc, ltb, ◌≤◌, Bool-eq_of_iff,
}
use adjourn.Prelude.Lists.{length, has, take, drop, has-of-take}
use adjourn.Prelude.Rises.{has-take-not-drop, has-drop-false}
use adjourn.Prelude.Order.{◌==◌, nat_ord, list_ord, eq_of_==, ==_self}
use adjourn.BTree.{Map, get, remove, IsSorted}
use adjourn.BTree.Laws.{get-Above, get-remove, remove-IsSorted}
use adjourn.Types.{RecordId, Record, k_of, GameParams}
use adjourn.Types.Crypto.{Crypto}
use adjourn.State.{Records, build_groups, remove_all, sweep, evict}
use adjourn.State.Groups.{Group, group_of, group_ord}
use adjourn.State.Holds.{Holds, remove-Holds}
use adjourn.State.Members.{
  is_group, members, ids_of, ids_of-build_groups, build_groups-IsSorted, members-Rises, has-members,
  group_at,
}

pub remove_all-IsSorted :
    (ids : List RecordId) (s : Records) → IsSorted s → IsSorted (remove_all ids s)
unfolding remove_all
remove_all-IsSorted [] s h = h
remove_all-IsSorted (id ∷ ids) s h = remove_all-IsSorted ids (remove id s) (remove-IsSorted id s h)

get-remove_all :
    (k : RecordId) (ids : List RecordId) (s : Records)
    → IsSorted s
    → get k (remove_all ids s) ≡ (if has k ids then none else get k s)
unfolding remove_all has
get-remove_all k [] s h = refl
get-remove_all k (id ∷ ids) s h =
    let ih = get-remove_all k ids (remove id s) (remove-IsSorted id s h) in
    let step = get-remove k id s h in ground (arith, ih, step)

-- How many records a group may keep.
abbrev pub cap_of : Group → ℕ
cap_of g = k_of g.1

-- Does the sweep remove the id?
dropped : RecordId → Map Group (List RecordId) → Bool
dropped k [] = false
dropped k ((g, ids) ∷ groups) = if has k (drop (cap_of g) ids) then true else dropped k groups

drop_short : (n : ℕ) (ids : List RecordId) → length ids ≤ n → drop n ids ≡ []
unfolding drop
drop_short zero [] h = refl
drop_short zero (x ∷ ids) h = absurd (omega arith)
drop_short (suc n) [] h = refl
drop_short (suc n) (x ∷ ids) h = drop_short n ids (omega arith)

pub sweep-IsSorted :
    (groups : Map Group (List RecordId)) (s : Records) → IsSorted s → IsSorted (sweep groups s)
unfolding sweep
sweep-IsSorted [] s h = h
sweep-IsSorted (((a, kind, b), ids) ∷ groups) s h =
    sweep-IsSorted groups _ (ground (arith, remove_all-IsSorted (drop (k_of kind) ids) s h))

get-sweep :
    (k : RecordId) (groups : Map Group (List RecordId)) (s : Records)
    → IsSorted s
    → get k (sweep groups s) ≡ (if dropped k groups then none else get k s)
unfolding sweep dropped has
get-sweep k [] s h = refl
get-sweep k (((a, kind, b), ids) ∷ groups) s h = elim (Bool-cases (ltb (k_of kind) (length ids))) [
  | inl e ↦
      let late = drop (k_of kind) ids in
      let ih = get-sweep k groups (remove_all late s) (remove_all-IsSorted late s h) in
      ground (arith, ih, get-remove_all k late s h)
  | inr e ↦ let ih = get-sweep k groups s h in ground (arith, ih, drop_short (k_of kind) ids)
]

abbrev late_in : RecordId → Group → List RecordId → Bool
late_in k g ids = has k (drop (cap_of g) ids)

late_in-empty : (k : RecordId) (g : Group) → late_in k g [] ≡ false
unfolding has
late_in-empty k g = ap (has k) (drop_short (cap_of g) [] (omega arith))

dropped-late :
    (k : RecordId) (groups : Map Group (List RecordId))
    → IsSorted groups
    → dropped k groups ≡ true
    → (g : Group) × (late_in k g (ids_of g groups) ≡ true)
unfolding dropped get
dropped-late k [] s h = absurd (ground arith)
dropped-late k ((g, ids) ∷ groups) s h = elim (Bool-cases (late_in k g ids)) [
  | inl e ↦ (g, ground (arith, group_ord.cmp_self g))
  | inr e ↦
      let (g', later) = dropped-late k groups s.1 (ground arith) in
      (
        g',
        elim (Bool-cases (g' == g)) [
          | inl q ↦
              let gone : get g groups ≡ none = get-Above g groups s.0 in
              absurd (ground (arith, eq_of_== g' g, late_in-empty k g))
          | inr q ↦ ground arith
        ],
      )
]

late-dropped :
    (k : RecordId) (g : Group) (groups : Map Group (List RecordId))
    → late_in k g (ids_of g groups) ≡ true
    → dropped k groups ≡ true
unfolding dropped get
late-dropped k g [] h = absurd (ground (arith, late_in-empty k g))
late-dropped k g ((j, ids) ∷ groups) h = elim (Bool-cases (g == j)) [
  | inl e ↦ ground (arith, eq_of_== g j)
  | inr e ↦ ground (arith, late-dropped k g groups)
]

-- Does the record stay: is its id among the first K of its group, or has it no group?
abbrev pub keeps : Records → RecordId → Option Group → Bool
keeps s k none = true
keeps s k (some g) = has k (take (cap_of g) (members g s))

abbrev pub kept : Records → RecordId → Option Record → Option Record
kept s k none = none
kept s k (some r) = if keeps s k (group_of r) then some r else none

is_group-some : (g : Group) (o : Option Group) → is_group g o ≡ true → o ≡ some g
is_group-some g none h = absurd (ground arith)
is_group-some g (some h) e = ap some (sym (eq_of_== g h e))

-- What is among the first of a group is stored in that group.
pub group_at-first :
    (s : Records) (k : RecordId) (g : Group) (n : ℕ)
    → IsSorted s
    → has k (take n (members g s)) ≡ true
    → group_at (get k s) ≡ some g
group_at-first s k g n sorted h =
    is_group-some g (group_at (get k s))
      (sym (has-members g k s sorted) ∙ has-of-take k n (members g s) h)

module _ (s : Records) (sorted : IsSorted s) (k : RecordId) where
  ids_of-built : (g : Group) → ids_of g (build_groups [] s) ≡ members g s
  unfolding get
  ids_of-built g = ids_of-build_groups g [] s

  -- The sweep removes an id only from the list of its own group.
  late_own :
      dropped k (build_groups [] s) ≡ true
      → (g : Group) × (group_at (get k s) ≡ some g) × (late_in k g (members g s) ≡ true)
  late_own d =
      let (g, late) = dropped-late k (build_groups [] s) (build_groups-IsSorted [] s tt) d in
      let late' : late_in k g (members g s) ≡ true = rw (ids_of-built g) at late in
      let inside : has k (members g s) ≡ true = elim (Bool-cases (has k (members g s))) [
        | inl e ↦ e
        | inr e ↦ absurd (ground (arith, has-drop-false k (cap_of g) (members g s)))
      ] in
      (g, is_group-some g (group_at (get k s)) (sym (has-members g k s sorted) ∙ inside), late')

  dropped-built :
      (g : Group)
      → group_at (get k s) ≡ some g
      → dropped k (build_groups [] s) ≡ late_in k g (members g s)
  dropped-built g e =
      Bool-eq_of_iff _ _
        (λ d.
          let (h, at_h, late) = late_own d in
          let q : h ≡ g = ground arith in subst (λ x. late_in k x (members x s) ≡ true) q late)
        (λ late. late-dropped k g (build_groups [] s) (rw (ids_of-built g) late))

  kept-dropped :
      (o : Option Record)
      → get k s ≡ o
      → (if dropped k (build_groups [] s) then none else o) ≡ kept s k o
  kept-dropped none e = ground arith
  kept-dropped (some r) e = elim (Option-cases (group_of r)) [
    | inl f ↦ elim (Bool-cases (dropped k (build_groups [] s))) [
      | inl d ↦ let (g, at_g, late) = late_own d in absurd (ground arith)
      | inr d ↦ rw (d, f)
    ]
    | inr (g, f) ↦
        let at_g : group_at (get k s) ≡ some g = rw (e, f) in
        let inside : has k (members g s) ≡ true =
          has-members g k s sorted ∙ (ap (is_group g) at_g ∙ ==_self g) in
        ground (
          arith,
          dropped-built g at_g,
          has-take-not-drop k (cap_of g) (members g s) (members-Rises g s sorted) inside,
        )
  ]

  -- After `evict` an id is found exactly if its record was there and is among the first K of its
  -- group.
  pub get-evict : get k (evict s) ≡ kept s k (get k s)
  unfolding evict
  get-evict = get-sweep k (build_groups [] s) s sorted ∙ kept-dropped (get k s) refl

pub evict-IsSorted : (s : Records) → IsSorted s → IsSorted (evict s)
unfolding evict
evict-IsSorted s h = sweep-IsSorted (build_groups [] s) s h

module _ ⦃c : Crypto⦄ (p : GameParams) where
  remove_all-Holds : (ids : List RecordId) (s : Records) → Holds p s → Holds p (remove_all ids s)
  unfolding remove_all
  remove_all-Holds [] s h = h
  remove_all-Holds (id ∷ ids) s h = remove_all-Holds ids (remove id s) (remove-Holds p id s h)

  sweep-Holds :
      (groups : Map Group (List RecordId)) (s : Records) → Holds p s → Holds p (sweep groups s)
  unfolding sweep
  sweep-Holds [] s h = h
  sweep-Holds (((a, kind, b), ids) ∷ groups) s h =
      sweep-Holds groups _ (ground (arith, remove_all-Holds (drop (k_of kind) ids) s h))

  pub evict-Holds : (s : Records) → Holds p s → Holds p (evict s)
  unfolding evict
  evict-Holds s h = sweep-Holds (build_groups [] s) s h
