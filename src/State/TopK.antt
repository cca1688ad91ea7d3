-- ===== src/State/TopK.antt =====
-- common/src/state.rs: `evict` on parts of a state.
use adjourn.Prelude.{
  ◌≡◌, refl, sym, ap, subst, ◌∙◌, true, Option, none, some, arith, Bool-cases, Option-cases, inl,
  inr, is_some, ◌&&◌,
}
use adjourn.Prelude.Lists.{has, take, retain, take-retain, has-take-retain}
use adjourn.Prelude.Rises.{has-retain, retain-Rises, Rises-ext}
use adjourn.Prelude.Order.{nat_ord, list_ord}
use adjourn.BTree.{get, IsSorted}
use adjourn.BTree.Laws.{map_ext}
use adjourn.Types.{RecordId, Record, GameParams}
use adjourn.Types.Crypto.{Crypto}
use adjourn.State.{Records, evict}
use adjourn.State.Groups.{Group, group_of, group_ord}
use adjourn.State.Holds.{Holds, better, get-Holds}
use adjourn.State.Members.{is_group, members, members-Rises, has-members, group_at}
use adjourn.State.Evict.{
  group_at-first, cap_of, keeps, kept, get-evict, evict-IsSorted, evict-Holds,
}
use adjourn.State.Union.{union, get-union, IsCollisionFree, union-IsSorted}

-- The ids of the smaller state are ids of the larger one, in the same groups.
abbrev pub Within : Records → Records → Type 0
Within t s =
    (k : RecordId)
    → is_some (get k t) ≡ true
    → (is_some (get k s) ≡ true) × (group_at (get k t) ≡ group_at (get k s))

-- Whatever the larger state would keep, the smaller one has.
abbrev pub HasKept : Records → Records → Type 0
HasKept t s =
    (k : RecordId) (r : Record)
    → get k s ≡ some r
    → keeps s k (group_of r) ≡ true
    → get k t ≡ some r

module _ (t s : Records) (ot : IsSorted t) (os : IsSorted s) (within : Within t s) where
  pub members-retain : (g : Group) → members g t ≡ retain (λ k. is_some (get k t)) (members g s)
  members-retain g =
      Rises-ext (members g t) (retain (λ k. is_some (get k t)) (members g s)) (members-Rises g t ot)
        (retain-Rises _ (members g s) (members-Rises g s os))
        (λ k.
          has-members g k t ot
          ∙ (member_test k g
              ∙ sym (
                  has-retain (λ k. is_some (get k t)) k (members g s)
                  ∙ ap (λ b. b && is_some (get k t)) (has-members g k s os))))
    where
      member_test :
          (k : RecordId) (g : Group)
          → is_group g (group_at (get k t)) ≡ (is_group g (group_at (get k s)) && is_some (get k t))
      member_test k g = elim (Option-cases (get k t)) [
        | inl e ↦ ground arith
        | inr (r, e) ↦ let (_, q) = within k (rw e) in ground arith
      ]

  -- An id that is early in its group stays early when others go.
  pub keeps-within :
      (k : RecordId) (r : Record)
      → get k t ≡ some r
      → keeps s k (group_of r) ≡ true
      → keeps t k (group_of r) ≡ true
  keeps-within k r e h = elim (Option-cases (group_of r)) [
    | inl f ↦ rw f
    | inr (g, f) ↦
        rw (f, members-retain g)
          (has-take-retain (λ k. is_some (get k t)) (cap_of g) (members g s) k (rw f at h) (rw e))
  ]

  module _ (all_kept : HasKept t s) where
    first_members : (g : Group) → take (cap_of g) (members g t) ≡ take (cap_of g) (members g s)
    first_members g =
        rw (members-retain g) (take-retain (λ k. is_some (get k t)) (cap_of g) (members g s) early)
      where
        early :
            (k : RecordId) → has k (take (cap_of g) (members g s)) ≡ true → is_some (get k t) ≡ true
        early k h =
            let at_g = group_at-first s k g (cap_of g) os h in
            elim (Option-cases (get k s)) [
              | inl e ↦ absurd (ground arith)
              | inr (r, e) ↦
                  let f : group_of r ≡ some g = ap group_at (sym e) ∙ at_g in
                  rw (all_kept k r e (rw f h))
            ]

    keeps_agree : (k : RecordId) (o : Option Group) → keeps t k o ≡ keeps s k o
    keeps_agree k none = refl
    keeps_agree k (some g) = ap (has k) (first_members g)

    kept_agree : (k : RecordId) → kept t k (get k t) ≡ kept s k (get k s)
    kept_agree k = elim (Option-cases (get k s)) [
      | inl e ↦ elim (Option-cases (get k t)) [
        | inl f ↦ rw (e, f)
        | inr (r, f) ↦ let w = within k (rw f) in absurd (ground arith)
      ]
      | inr (r, e) ↦ elim (Bool-cases (keeps s k (group_of r))) [
        | inl stays ↦ rw (e, all_kept k r e stays, keeps_agree k (group_of r))
        | inr goes ↦ elim (Option-cases (get k t)) [
          | inl f ↦ rw (e, f) (rw goes)
          | inr (r', f) ↦
              let w = within k (rw f) in
              let q : group_of r' ≡ group_of r = ap group_at (sym f) ∙ (w.1 ∙ ap group_at e) in
              rw (e, f) (rw (q, keeps_agree k (group_of r), goes))
        ]
      ]
    ]

    -- Then the two states are left the same by `evict`.
    pub evict_agree : evict t ≡ evict s
    evict_agree =
        map_ext (evict t) (evict s) (evict-IsSorted t ot) (evict-IsSorted s os)
          (λ k. get-evict t ot k ∙ (kept_agree k ∙ sym (get-evict s os k)))

module _ ⦃c : Crypto⦄ (p : GameParams) (free : IsCollisionFree p) where
  -- Two verified records under one id are in one group.
  same_group :
      (k : RecordId) (s t : Records) (a b : Record)
      → Holds p s
      → Holds p t
      → get k s ≡ some a
      → get k t ≡ some b
      → group_of a ≡ group_of b
  unfolding group_of
  same_group k s t a b hs ht e f =
      let (ia, va) = get-Holds p k s a hs e in
      let (ib, vb) = get-Holds p k t b ht f in
      let (q, r) = free a b va vb (ia ∙ sym ib) in rw (q, r)

  module _ (s u : Records) (hs : Holds p s) (hu : Holds p u) (os : IsSorted s)
      (ou : IsSorted u) where
    abbrev pub whole : Records
    whole = union p s u

    abbrev cut : Records
    cut = union p (evict s) u

    get-whole : (k : RecordId) → get k whole ≡ better (get k s) (get k u)
    get-whole k = get-union p s u k hs hu ou

    get-cut : (k : RecordId) → get k cut ≡ better (kept s k (get k s)) (get k u)
    get-cut k =
        get-union p (evict s) u k (evict-Holds p s hs) hu ou
        ∙ ap (λ x. better x (get k u)) (get-evict s os k)

    pub s-Within : Within s whole
    s-Within k e = elim (Option-cases (get k s)) [
      | inl f ↦ absurd (ground arith)
      | inr (a, f) ↦ elim (Option-cases (get k u)) [
        | inl g ↦ ground (arith, get-whole k)
        | inr (b, g) ↦ ground (arith, get-whole k, same_group k s u a b hs hu f g)
      ]
    ]

    cut-Within : Within cut whole
    cut-Within k e = elim (Option-cases (get k s)) [
      | inl f ↦ ground (arith, get-whole k, get-cut k)
      | inr (a, f) ↦ elim (Option-cases (get k u)) [
        | inl g ↦ ground (arith, get-whole k, get-cut k)
        | inr (b, g) ↦ ground (arith, get-whole k, get-cut k, same_group k s u a b hs hu f g)
      ]
    ]

    cut-HasKept : HasKept cut whole
    cut-HasKept k r e stays = elim (Option-cases (get k s)) [
      | inl f ↦ ground (arith, get-whole k, get-cut k)
      | inr (a, f) ↦
          let q : group_of r ≡ group_of a =
            sym (ap group_at e) ∙ (sym (s-Within k (rw f)).1 ∙ ap group_at f) in
          let early =
            keeps-within s whole os (union-IsSorted p s u os) s-Within k a f
              (subst (λ g. keeps whole k g ≡ true) q stays) in
          ground (arith, get-whole k, get-cut k)
    ]

    -- Of two states of verified records in key order, `evict` on the first changes nothing of what
    -- `evict` leaves of their union: `topK(topK(A) ∪ B) = topK(A ∪ B)`. Among verified records ids
    -- do not collide.
    pub evict-union : evict (union p (evict s) u) ≡ evict (union p s u)
    evict-union =
        evict_agree cut whole (union-IsSorted p (evict s) u (evict-IsSorted s os))
          (union-IsSorted p s u os) cut-Within cut-HasKept
