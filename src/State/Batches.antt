-- ===== src/State/Batches.antt =====
-- common/src/state.rs: `apply_delta` on batches of records, in whatever order they come.
use adjourn.Prelude.{◌≡◌, sym, ap, ◌∙◌, List, [], ◌∷◌, Option, none}
use adjourn.Prelude.Order.{nat_ord, list_ord}
use adjourn.BTree.{get, IsSorted, values}
use adjourn.BTree.Laws.{map_ext}
use adjourn.Types.{RecordId, Record, GameParams}
use adjourn.Types.Crypto.{Crypto}
use adjourn.State.{Records, GameState, empty, evict, absorb, absorb_all, merge, apply_delta}
use adjourn.State.Evict.{evict-IsSorted, evict-Holds}
use adjourn.State.Holds.{
  Holds, better, offer, get-absorb, absorb-Holds, absorb_all-Holds, absorb_all-IsSorted,
}
use adjourn.State.Merge.{
  IsValid, state_path, apply_delta-IsValid, empty-IsValid, merge_comm, merge_assoc,
}
use adjourn.State.TopK.{evict-union}
use adjourn.State.Union.{union, get-union, IsCollisionFree, better_assoc, better-none, union_comm}

-- The same items in another order.
pub data Reorder {ℓ} {A : Type ℓ} : List A → List A → Type ℓ where
  same : (xs : List A) → Reorder xs xs
  keep : (x : A) {xs ys : List A} → Reorder xs ys → Reorder (x ∷ xs) (x ∷ ys)
  swap : (x y : A) (xs : List A) → Reorder (x ∷ y ∷ xs) (y ∷ x ∷ xs)
  trans : {xs ys zs : List A} → Reorder xs ys → Reorder ys zs → Reorder xs zs

module _ ⦃c : Crypto⦄ (p : GameParams) where
  -- What a batch offers for an id.
  abbrev offers : RecordId → List Record → Option Record
  offers k [] = none
  offers k (r ∷ rs) = better (offer p k r) (offers k rs)

  get-absorb_all :
      (s : Records) (rs : List Record) (k : RecordId)
      → Holds p s
      → get k (absorb_all p s rs) ≡ better (get k s) (offers k rs)
  unfolding absorb_all
  get-absorb_all s [] k h = sym (better-none (get k s))
  get-absorb_all s (r ∷ rs) k h =
      get-absorb_all (absorb p s r) rs k (absorb-Holds p s r h)
      ∙ (ap (λ x. better x (offers k rs)) (get-absorb p s r k h)
          ∙ better_assoc (get k s) (offer p k r) (offers k rs))

  -- A batch does what the state does that it makes alone.
  absorb_all-union :
      (s : Records) (rs : List Record)
      → Holds p s
      → IsSorted s
      → absorb_all p s rs ≡ union p s (absorb_all p [] rs)
  unfolding get
  absorb_all-union s rs h o =
      let alone = absorb_all p [] rs in
      let ha = absorb_all-Holds p [] rs tt in
      let oa = absorb_all-IsSorted p [] rs tt in
      map_ext _ _ (absorb_all-IsSorted p s rs o) (absorb_all-IsSorted p s (values alone) o) (λ k.
        get-absorb_all s rs k h
        ∙ (ap (better (get k s)) (sym (get-absorb_all [] rs k tt))
            ∙ sym (get-union p s alone k h ha oa)))

  module _ (free : IsCollisionFree p) where
    evict-union_right :
        (s t : Records)
        → Holds p s
        → Holds p t
        → IsSorted s
        → IsSorted t
        → evict (union p s (evict t)) ≡ evict (union p s t)
    evict-union_right s t hs ht os ot =
        ap evict (union_comm p free s (evict t) hs (evict-Holds p t ht) os (evict-IsSorted t ot))
        ∙ (evict-union p free t s ht hs ot os ∙ ap evict (union_comm p free t s ht hs ot os))

    -- A batch is merged as the state that it makes of the empty one.
    pub apply_delta-merge :
        (s : GameState) (rs : List Record)
        → IsValid p s
        → apply_delta p s rs ≡ merge p s (apply_delta p empty rs)
    unfolding apply_delta merge
    apply_delta-merge s rs v =
        let ha = absorb_all-Holds p [] rs tt in
        let oa = absorb_all-IsSorted p [] rs tt in
        state_path (
          ap evict (absorb_all-union s.records rs v.holds v.sorted)
          ∙ sym (evict-union_right s.records (absorb_all p [] rs) v.holds ha v.sorted oa))

    pub batch-IsValid : (rs : List Record) → IsValid p (apply_delta p empty rs)
    batch-IsValid rs = apply_delta-IsValid p empty rs (empty-IsValid p)

    -- Two batches of records, of whatever records, leave a valid state the same in either order.
    -- Among verified records ids do not collide.
    pub apply_delta_comm :
        (s : GameState) (rs qs : List Record)
        → IsValid p s
        → apply_delta p (apply_delta p s rs) qs ≡ apply_delta p (apply_delta p s qs) rs
    apply_delta_comm s rs qs v =
        let R = apply_delta p empty rs in
        let Q = apply_delta p empty qs in
        let vr = batch-IsValid rs in
        let vq = batch-IsValid qs in
        let after = λ (xs : List Record). apply_delta-IsValid p s xs v in
        apply_delta-merge (apply_delta p s rs) qs (after rs)
        ∙ (ap (λ t. merge p t Q) (apply_delta-merge s rs v)
            ∙ (merge_assoc p free s R Q v vr vq
                ∙ (ap (merge p s) (merge_comm p free R Q vr vq)
                    ∙ (sym (merge_assoc p free s Q R v vq vr)
                        ∙ (ap (λ t. merge p t R) (sym (apply_delta-merge s qs v))
                            ∙ sym (apply_delta-merge (apply_delta p s qs) rs (after qs)))))))
