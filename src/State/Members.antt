-- ===== src/State/Members.antt =====
-- common/src/state.rs: the ids of one eviction group, in order, and the grouping loop of `evict`.
use adjourn.Prelude.{
  ◌≡◌, refl, sym, Bool, false, List, [], ◌∷◌, ◌++◌, Option, none, some, if◌then◌else◌, arith,
  Bool-cases, inl, inr,
}
use adjourn.Prelude.Lists.{has}
use adjourn.Prelude.Rises.{Rises, Below}
use adjourn.Prelude.Order.{◌==◌, nat_ord, list_ord, eq_of_==}
use adjourn.BTree.{Map, get, Above, IsSorted}
use adjourn.BTree.Laws.{get-insert, insert-IsSorted, get-Above}
use adjourn.Types.{RecordId, Record}
use adjourn.State.{Records, ids_or_empty, push_id, build_groups}
use adjourn.State.Groups.{Group, group_of, group_ord}
use mathlib.Core.List.{append_assoc, append-nil}

-- Does the record belong to the group?
abbrev pub is_group : Group → Option Group → Bool
is_group g none = false
is_group g (some h) = g == h

unfoldable pub members : Group → Records → List RecordId
members g [] = []
members g ((k, r) ∷ s) = if is_group g (group_of r) then k ∷ members g s else members g s

abbrev pub ids_of : Group → Map Group (List RecordId) → List RecordId
ids_of g groups = ids_or_empty (get g groups)

ids_of-push_id :
    (g : Group) (groups : Map Group (List RecordId)) (id : RecordId) (h : Option Group)
    → ids_of g (push_id groups id h)
      ≡ (if is_group g h then ids_of g groups ++ id ∷ [] else ids_of g groups)
unfolding push_id
ids_of-push_id g groups id none = refl
ids_of-push_id g groups id (some h) =
    ground (arith, get-insert g h (ids_of h groups ++ id ∷ []) groups, eq_of_== g h)

pub ids_of-build_groups :
    (g : Group) (groups : Map Group (List RecordId)) (s : Records)
    → ids_of g (build_groups groups s) ≡ ids_of g groups ++ members g s
unfolding build_groups members
ids_of-build_groups g groups [] = sym (append-nil (ids_of g groups))
ids_of-build_groups g groups ((k, r) ∷ s) =
    let ih = ids_of-build_groups g (push_id groups k (group_of r)) s in
    let step = ids_of-push_id g groups k (group_of r) in
    elim (Bool-cases (is_group g (group_of r))) [
      | inl e ↦ ground (arith, ih, step, append_assoc (ids_of g groups) (k ∷ []) (members g s))
      | inr e ↦ ground (arith, ih, step)
    ]

push_id-IsSorted :
    (groups : Map Group (List RecordId)) (id : RecordId) (h : Option Group)
    → IsSorted groups
    → IsSorted (push_id groups id h)
unfolding push_id
push_id-IsSorted groups id none s = s
push_id-IsSorted groups id (some g) s = insert-IsSorted g _ groups s

pub build_groups-IsSorted :
    (groups : Map Group (List RecordId)) (s : Records)
    → IsSorted groups
    → IsSorted (build_groups groups s)
unfolding build_groups
build_groups-IsSorted groups [] h = h
build_groups-IsSorted groups ((k, r) ∷ s) h =
    build_groups-IsSorted (push_id groups k (group_of r)) s
      (push_id-IsSorted groups k (group_of r) h)

Below-members : (g : Group) (k : RecordId) (s : Records) → Above k s → Below k (members g s)
unfolding members
Below-members g k [] h = tt
Below-members g k ((j, r) ∷ s) h = ground (arith, Below-members g k s h.1)

pub members-Rises : (g : Group) (s : Records) → IsSorted s → Rises (members g s)
unfolding members
members-Rises g [] h = tt
members-Rises g ((j, r) ∷ s) h = ground (arith, members-Rises g s h.1, Below-members g j s h.0)

-- The group of what is stored under an id.
abbrev pub group_at : Option Record → Option Group
group_at none = none
group_at (some r) = group_of r

-- An id is a member of the group of its record, and of no other.
pub has-members :
    (g : Group) (k : RecordId) (s : Records)
    → IsSorted s
    → has k (members g s) ≡ is_group g (group_at (get k s))
unfolding members has get
has-members g k [] h = refl
has-members g k ((j, r) ∷ s) h = elim (Bool-cases (k == j)) [
  | inl e ↦
      let q = eq_of_== k j e in
      let gone : get j s ≡ none = get-Above j s h.0 in
      let ih = has-members g j s h.1 in ground (arith, ih)
  | inr e ↦ ground (arith, has-members g k s h.1)
]
