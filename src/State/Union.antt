-- ===== src/State/Union.antt =====
-- common/src/state.rs: absorbing one state into another, as a union of maps.
use adjourn.Prelude.{
  ◌≡◌, refl, true, [], ◌∷◌, Option, none, some, arith, Bool-cases, Option-cases, inl, inr, sym, ◌∙◌,
  ap,
}
use adjourn.Prelude.Order.{◌==◌, nat_ord, list_ord, eq_of_==, ≼_antisymm, ≼_total, ≼_trans}
use adjourn.BTree.{get, values, IsSorted}
use adjourn.BTree.Laws.{get-Above, map_ext}
use adjourn.Types.{RecordId, GameParams, Record}
use adjourn.Types.Crypto.{Crypto, id_of, verify}
use adjourn.State.{Records, absorb, absorb_all}
use adjourn.State.Holds.{
  Holds, better, get-Holds, get-absorb, absorb-Holds, absorb_all-Holds, absorb_all-IsSorted,
}

pub better-none : (x : Option Record) → better x none ≡ x
better-none none = refl
better-none (some a) = refl

pub better_self : (x : Option Record) → better x x ≡ x
better_self none = refl
better_self (some a) = ground arith

pub better_assoc : (x y z : Option Record) → better (better x y) z ≡ better x (better y z)
better_assoc none y z = refl
better_assoc (some a) none z = refl
better_assoc (some a) (some b) none = better-none _
better_assoc (some a) (some b) (some d) = ground (
  arith,
  ≼_trans a.sig b.sig d.sig,
  ≼_total a.sig b.sig,
  ≼_total b.sig d.sig,
  ≼_trans b.sig a.sig d.sig,
  ≼_total a.sig d.sig,
  ≼_trans d.sig b.sig a.sig,
  ≼_trans a.sig d.sig b.sig,
)

module _ ⦃c : Crypto⦄ where
  -- `self` with every record of `other` absorbed.
  abbrev pub union : GameParams → Records → Records → Records
  union p s t = absorb_all p s (values t)

  pub get-union :
      (p : GameParams) (s t : Records) (k : RecordId)
      → Holds p s
      → Holds p t
      → IsSorted t
      → get k (union p s t) ≡ better (get k s) (get k t)
  unfolding absorb_all get
  get-union p s [] k hs ht o = sym (better-none (get k s))
  get-union p s ((j, w) ∷ t) k hs ht o =
      let ih = get-union p (absorb p s w) t k (absorb-Holds p s w hs) ht.2 o.1 in
      let step = get-absorb p s w k hs in
      elim (Bool-cases (k == j)) [
        | inl e ↦
            let q = eq_of_== k j e in
            let above : get j t ≡ none = get-Above j t o.0 in
            ground (arith, ih, step, q, above, better-none (better (get k s) (some w)))
        | inr e ↦ ground (arith, ih, step, better-none (get k s))
      ]

  -- No two statements by a player of the game share a content address: what SHA-256 is relied on
  -- for. (The bytes hashed are the signer's key and the encoded body.)
  abbrev pub IsCollisionFree : GameParams → Type 0
  IsCollisionFree p =
      (r s : Record)
      → verify p r ≡ true
      → verify p s ≡ true
      → id_of r ≡ id_of s
      → (r.signer ≡ s.signer) × (r.body ≡ s.body)

  module _ (p : GameParams) (free : IsCollisionFree p) where
    -- Under one id, equal signatures are equal records, so the order of the two does not matter.
    pub same_record :
        (a b : Record)
        → verify p a ≡ true
        → verify p b ≡ true
        → id_of a ≡ id_of b
        → a.sig ≡ b.sig
        → a ≡ b
    same_record a b va vb i e = let f = free a b va vb i in cc (f.0, f.1, e)

    better_comm :
        (k : RecordId) (s t : Records)
        → Holds p s
        → Holds p t
        → better (get k s) (get k t) ≡ better (get k t) (get k s)
    better_comm k s t hs ht = elim (Option-cases (get k s)) [
      | inl e ↦ rw e (sym (better-none (get k t)))
      | inr (a, e) ↦ elim (Option-cases (get k t)) [
        | inl f ↦ rw (e, f) refl
        | inr (b, f) ↦
            let (ia, va) = get-Holds p k s a hs e in
            let (ib, vb) = get-Holds p k t b ht f in
            ground (
              arith,
              same_record a b va vb (ia ∙ sym ib),
              ≼_antisymm a.sig b.sig,
              ≼_total a.sig b.sig,
              ≼_total b.sig a.sig,
            )
      ]
    ]

    pub union_comm :
        (s t : Records)
        → Holds p s
        → Holds p t
        → IsSorted s
        → IsSorted t
        → union p s t ≡ union p t s
    union_comm s t hs ht os ot =
        map_ext (union p s t) (union p t s) (absorb_all-IsSorted p s (values t) os)
          (absorb_all-IsSorted p t (values s) ot)
          (λ k.
            get-union p s t k hs ht ot
            ∙ (better_comm k s t hs ht ∙ sym (get-union p t s k ht hs os)))

  module _ (p : GameParams) where
    pub union-Holds : (s t : Records) → Holds p s → Holds p (union p s t)
    union-Holds s t h = absorb_all-Holds p s (values t) h

    pub union-IsSorted : (s t : Records) → IsSorted s → IsSorted (union p s t)
    union-IsSorted s t h = absorb_all-IsSorted p s (values t) h

    pub union_assoc :
        (s t u : Records)
        → Holds p s
        → Holds p t
        → Holds p u
        → IsSorted s
        → IsSorted t
        → IsSorted u
        → union p (union p s t) u ≡ union p s (union p t u)
    union_assoc s t u hs ht hu os ot ou =
        map_ext _ _ (union-IsSorted (union p s t) u (union-IsSorted s t os)) (union-IsSorted s _ os)
          (λ k.
            get-union p (union p s t) u k (union-Holds s t hs) hu ou
            ∙ (ap (λ x. better x (get k u)) (get-union p s t k hs ht ot)
                ∙ (better_assoc (get k s) (get k t) (get k u)
                    ∙ (ap (better (get k s)) (sym (get-union p t u k ht hu ou))
                        ∙ sym (
                            get-union p s (union p t u) k hs (union-Holds t u ht)
                              (union-IsSorted t u ot))))))

    pub union_self : (s : Records) → Holds p s → IsSorted s → union p s s ≡ s
    union_self s h o =
        map_ext _ _ (union-IsSorted s s o) o (λ k. get-union p s s k h h o ∙ better_self (get k s))

    pub union_empty : (s : Records) → Holds p s → IsSorted s → union p [] s ≡ s
    unfolding get
    union_empty s h o = map_ext _ _ (union-IsSorted [] s tt) o (λ k. get-union p [] s k tt h o)
