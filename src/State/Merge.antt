-- ===== src/State/Merge.antt =====
-- common/src/state.rs: valid states, and the algebra of `merge` on them.
use adjourn.Prelude.{
  ◌≡◌, refl, sym, ap, ◌∙◌, List, Option, none, some, arith, Option-cases, inl, inr, Bool-eq_of_iff,
  ◌≤◌,
}
use adjourn.Prelude.Lists.{has, take, length, length-take-le}
use adjourn.Prelude.Rises.{Rises-ext, take-Rises}
use adjourn.Prelude.Order.{nat_ord, list_ord, eq_of_==, ==_self}
use adjourn.BTree.{get, IsSorted, values}
use adjourn.Types.{RecordId, Record, GameParams}
use adjourn.Types.Crypto.{Crypto}
use adjourn.State.{
  Records, GameState, empty, evict, build_groups, sweep, absorb_all, merge, filter_valid,
  apply_delta,
}
use adjourn.State.Groups.{Group, group_of, group_ord}
use adjourn.State.Holds.{Holds, absorb_all-Holds, absorb_all-IsSorted}
use adjourn.State.Members.{is_group, members, members-Rises, has-members, group_at}
use adjourn.State.Evict.{cap_of, kept, get-evict, evict-IsSorted, evict-Holds, group_at-first}
use adjourn.State.TopK.{evict_agree, evict-union}
use adjourn.State.Union.{
  union, IsCollisionFree, union-Holds, union-IsSorted, union_comm, union_assoc, union_self,
  union_empty,
}

module _ (s : Records) (sorted : IsSorted s) where
  kept-eq : (k : RecordId) → get k (evict s) ≡ kept s k (get k s)
  kept-eq k = get-evict s sorted k

  -- `evict` on an evicted state changes nothing.
  pub evict_again : evict (evict s) ≡ evict s
  evict_again =
      evict_agree (evict s) s (evict-IsSorted s sorted) sorted
        (λ k e. elim (Option-cases (get k s)) [
          | inl f ↦ ground (arith, kept-eq k)
          | inr (r, f) ↦ ground (arith, kept-eq k)
        ])
        (λ k r e stays. ground (arith, kept-eq k))

  -- Of each group of a map in key order, `evict` leaves exactly the first K ids, where K is the
  -- limit of the group's kind.
  pub members-evict : (g : Group) → members g (evict s) ≡ take (cap_of g) (members g s)
  members-evict g =
      Rises-ext (members g (evict s)) (take (cap_of g) (members g s))
        (members-Rises g (evict s) (evict-IsSorted s sorted))
        (take-Rises (cap_of g) (members g s) (members-Rises g s sorted))
        (λ k.
          has-members g k (evict s) (evict-IsSorted s sorted)
          ∙ (ap (λ o. is_group g (group_at o)) (kept-eq k) ∙ kept_member k (get k s) refl))
    where
      kept_member :
          (k : RecordId) (o : Option Record)
          → get k s ≡ o
          → is_group g (group_at (kept s k o)) ≡ has k (take (cap_of g) (members g s))
      kept_member k none e =
          Bool-eq_of_iff _ _ (λ f. absurd (ground arith))
            (λ h. let at_g = group_at-first s k g (cap_of g) sorted h in absurd (ground arith))
      kept_member k (some r) e =
          Bool-eq_of_iff _ _
            (λ f. elim (Option-cases (group_of r)) [
              | inl q ↦ absurd (ground arith)
              | inr (h, q) ↦ ground (arith, eq_of_== g h)
            ])
            (λ h.
              let q : group_of r ≡ some g =
                ap group_at (sym e) ∙ group_at-first s k g (cap_of g) sorted h in
              ground (arith, ==_self g))

  -- So no group outgrows its K.
  pub members-evict-le : (g : Group) → length (members g (evict s)) ≤ cap_of g
  members-evict-le g = rw (members-evict g) (length-take-le (cap_of g) (members g s))

module _ ⦃c : Crypto⦄ where
  -- A state as the contract keeps it: ids in order, every record verified and under its own id,
  -- and no group over its limit.
  pub record IsValid (p : GameParams) (s : GameState) : Type 0 where
    pub sorted : IsSorted s.records
    pub holds : Holds p s.records
    pub bounded : evict s.records ≡ s.records

  -- Applying any batch of records, checked or not, to a valid state gives a valid state.
  pub apply_delta-IsValid :
      (p : GameParams) (s : GameState) (delta : List Record)
      → IsValid p s
      → IsValid p (apply_delta p s delta)
  unfolding apply_delta
  apply_delta-IsValid p s delta v =
      let o = absorb_all-IsSorted p s.records delta v.sorted in
      let h = absorb_all-Holds p s.records delta v.holds in
      record { sorted = evict-IsSorted _ o; holds = evict-Holds p _ h; bounded = evict_again _ o }

  pub merge-apply_delta :
      (p : GameParams) (s t : GameState) → merge p s t ≡ apply_delta p s (values t.records)
  unfolding merge apply_delta
  merge-apply_delta p s t = refl

  pub merge-IsValid : (p : GameParams) (s t : GameState) → IsValid p s → IsValid p (merge p s t)
  merge-IsValid p s t v =
      rw (merge-apply_delta p s t) (apply_delta-IsValid p s (values t.records) v)

  pub empty-IsValid : (p : GameParams) → IsValid p empty
  unfolding evict build_groups sweep
  empty-IsValid p = record { sorted = tt; holds = tt; bounded = refl }

  -- Whatever bytes a peer sends, what `filter_valid` makes of them is a valid state.
  pub filter_valid-IsValid : (p : GameParams) (s : GameState) → IsValid p (filter_valid p s)
  unfolding filter_valid
  filter_valid-IsValid p s = merge-IsValid p empty s (empty-IsValid p)

  pub state_path : {s t : GameState} → s.records ≡ t.records → s ≡ t
  state_path e = cc

  module _ (p : GameParams) (s : GameState) (v : IsValid p s) where
    -- `filter_valid` leaves a valid state as it is.
    pub filter_valid_self : filter_valid p s ≡ s
    unfolding filter_valid merge
    filter_valid_self = state_path (ap evict (union_empty p s.records v.holds v.sorted) ∙ v.bounded)

    -- Merging a valid state with itself gives it back.
    pub merge_self : merge p s s ≡ s
    unfolding merge
    merge_self = state_path (ap evict (union_self p s.records v.holds v.sorted) ∙ v.bounded)

    -- Merging a valid state with the empty state, in either order, gives it back.
    pub merge-empty : (merge p s empty ≡ s) × (merge p empty s ≡ s)
    unfolding merge absorb_all
    merge-empty = (
      state_path v.bounded,
      state_path (ap evict (union_empty p s.records v.holds v.sorted) ∙ v.bounded),
    )

  module _ (p : GameParams) (free : IsCollisionFree p) where
    -- Two peers with valid states that merge each other's state hold the same state. Among verified
    -- records ids do not collide.
    pub merge_comm : (s t : GameState) → IsValid p s → IsValid p t → merge p s t ≡ merge p t s
    unfolding merge
    merge_comm s t v w =
        state_path
          (ap evict (union_comm p free s.records t.records v.holds w.holds v.sorted w.sorted))

    -- Merging three valid states, either two may be merged first: the result is the same. Among
    -- verified records ids do not collide.
    pub merge_assoc :
        (s t u : GameState)
        → IsValid p s
        → IsValid p t
        → IsValid p u
        → merge p (merge p s t) u ≡ merge p s (merge p t u)
    unfolding merge
    merge_assoc s t u v w x =
        let hst = union-Holds p s.records t.records v.holds in
        let ost = union-IsSorted p s.records t.records v.sorted in
        let htu = union-Holds p t.records u.records w.holds in
        let otu = union-IsSorted p t.records u.records w.sorted in
        state_path (
          evict-union p free (union p s.records t.records) u.records hst x.holds ost x.sorted
          ∙ (ap evict (
                union_assoc p s.records t.records u.records v.holds w.holds x.holds v.sorted
                  w.sorted x.sorted
                ∙ union_comm p free s.records (union p t.records u.records) v.holds htu v.sorted
                    otu)
              ∙ (sym (
                    evict-union p free (union p t.records u.records) s.records htu v.holds otu
                      v.sorted)
                  ∙ ap evict (
                      union_comm p free (evict (union p t.records u.records)) s.records
                        (evict-Holds p _ htu) v.holds (evict-IsSorted _ otu) v.sorted))))
