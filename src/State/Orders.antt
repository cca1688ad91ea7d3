-- ===== src/State/Orders.antt =====
-- common/src/state.rs: steps that add batches of records, in whatever order they are taken.
use adjourn.Prelude.{◌≡◌, ◌⊎◌, refl, ap, ◌∙◌, List, [], ◌∷◌, ◌++◌, Option, none, some, inl, inr}
use adjourn.Types.{Record, GameParams}
use adjourn.Types.Crypto.{Crypto}
use adjourn.State.{GameState, apply_delta}
use adjourn.State.Merge.{IsValid, apply_delta-IsValid}
use adjourn.State.Batches.{Reorder, apply_delta_comm}
use adjourn.State.Union.{IsCollisionFree}

-- What is done with a result, if there is one.
abbrev pub after {ℓ κ} : {A : Type ℓ} {B : Type κ} → Option A → (A → Option B) → Option B
after none next = none
after (some a) next = next a

pub after-ext {ℓ κ} :
    {A : Type ℓ} {B : Type κ} (o : Option A) (f g : A → Option B)
    → ((a : A) → f a ≡ g a)
    → after o f ≡ after o g
after-ext none f g q = refl
after-ext (some a) f g q = q a

module _ ⦃c : Crypto⦄ (p : GameParams) where
  -- Some batches, one after the other.
  abbrev pub add_all : GameState → List (List Record) → GameState
  add_all s [] = s
  add_all s (rs ∷ batches) = add_all (apply_delta p s rs) batches

  pub add_all-IsValid :
      (s : GameState) (batches : List (List Record)) → IsValid p s → IsValid p (add_all s batches)
  add_all-IsValid s [] v = v
  add_all-IsValid s (rs ∷ batches) v =
      add_all-IsValid (apply_delta p s rs) batches (apply_delta-IsValid p s rs v)

  module _ (free : IsCollisionFree p) where
    add_all-apply_delta :
        (s : GameState) (rs : List Record) (batches : List (List Record))
        → IsValid p s
        → add_all (apply_delta p s rs) batches ≡ apply_delta p (add_all s batches) rs
    add_all-apply_delta s rs [] v = refl
    add_all-apply_delta s rs (qs ∷ batches) v =
        ap (λ t. add_all t batches) (apply_delta_comm p free s rs qs v)
        ∙ add_all-apply_delta (apply_delta p s qs) rs batches (apply_delta-IsValid p s qs v)

    add_all_comm :
        (s : GameState) (xs ys : List (List Record))
        → IsValid p s
        → add_all (add_all s xs) ys ≡ add_all (add_all s ys) xs
    add_all_comm s [] ys v = refl
    add_all_comm s (rs ∷ xs) ys v =
        add_all_comm (apply_delta p s rs) xs ys (apply_delta-IsValid p s rs v)
        ∙ ap (λ t. add_all t xs) (add_all-apply_delta s rs ys v)

  -- A step fails at every state, or adds the same batches to every state.
  abbrev pub Adds : (GameState → Option GameState) → Type 0
  Adds step =
      ((s : GameState) → step s ≡ none)
      ⊎ ((batches : List (List Record)) × ((s : GameState) → step s ≡ some (add_all s batches)))

  pub Adds-ext :
      (f g : GameState → Option GameState) → ((s : GameState) → g s ≡ f s) → Adds f → Adds g
  Adds-ext f g q (inl e) = inl (λ s. q s ∙ e s)
  Adds-ext f g q (inr (xs, e)) = inr (xs, λ s. q s ∙ e s)

  add_all-append :
      (s : GameState) (xs ys : List (List Record))
      → add_all (add_all s xs) ys ≡ add_all s (xs ++ ys)
  add_all-append s [] ys = refl
  add_all-append s (rs ∷ xs) ys = add_all-append (apply_delta p s rs) xs ys

  -- One step after another.
  pub Adds-then : (f g : GameState → Option GameState) → Adds f → Adds g → Adds (λ s. after (f s) g)
  Adds-then f g (inl e) b = inl (λ s. rw (e s) refl)
  Adds-then f g (inr (xs, e)) (inl q) = inl (λ s. rw (e s) (q (add_all s xs)))
  Adds-then f g (inr (xs, e)) (inr (ys, q)) =
      inr (xs ++ ys, λ s. rw (e s) (q (add_all s xs) ∙ ap some (add_all-append s xs ys)))

  module _ {U : Type 0} (step : U → GameState → Option GameState) where
    -- Steps one after the other, until one fails.
    abbrev pub steps : GameState → List U → Option GameState
    steps s [] = some s
    steps s (u ∷ us) = after (step u s) (λ t. steps t us)

    module _ (adds : (u : U) → Adds (step u)) (free : IsCollisionFree p) where
      swapped :
          (s : GameState) (x y : U) (us : List U)
          → IsValid p s
          → steps s (x ∷ y ∷ us) ≡ steps s (y ∷ x ∷ us)
      swapped s x y us v = elim (adds x) [
        | inl e ↦ elim (adds y) [
          | inl f ↦ rw (e s, f s) refl
          | inr (ys, f) ↦ rw (e s, f s, e (add_all s ys)) refl
        ]
        | inr (xs, e) ↦ elim (adds y) [
          | inl f ↦ rw (e s, f s, f (add_all s xs)) refl
          | inr (ys, f) ↦
              rw (e s, f s, f (add_all s xs), e (add_all s ys))
                (ap (λ t. steps t us) (add_all_comm free s xs ys v))
        ]
      ]

      kept :
          (s : GameState) (x : U) (us us' : List U)
          → IsValid p s
          → ((t : GameState) → IsValid p t → steps t us ≡ steps t us')
          → steps s (x ∷ us) ≡ steps s (x ∷ us')
      kept s x us us' v ih = elim (adds x) [
        | inl e ↦ rw (e s) refl
        | inr (xs, e) ↦ rw (e s) (ih (add_all s xs) (add_all-IsValid s xs v))
      ]

      pub steps-Reorder :
          {us us' : List U}
          → Reorder us us'
          → (s : GameState) → IsValid p s
          → steps s us ≡ steps s us'
      steps-Reorder (Reorder.same us) s v = refl
      steps-Reorder (Reorder.keep x {xs} {ys} r) s v = kept s x xs ys v (steps-Reorder r)
      steps-Reorder (Reorder.swap x y us) s v = swapped s x y us v
      steps-Reorder (Reorder.trans q r) s v = steps-Reorder q s v ∙ steps-Reorder r s v
