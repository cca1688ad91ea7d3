-- ===== src/Contract/Orders.antt =====
-- contracts/adjourn-contract/src/lib.rs: `update_state` on the same updates in another order.
use adjourn.Prelude.{
  ◌≡◌, refl, sym, ap, ◌∙◌, Bool, true, false, List, [], ◌∷◌, Option, none, some, if◌then◌else◌, inl,
  inr,
}
use adjourn.Prelude.Lists.{all}
use adjourn.Prelude.Order.{nat_ord, list_ord}
use adjourn.BTree.{values}
use adjourn.Types.{Bytes, GameParams, Record}
use adjourn.Types.Crypto.{Crypto, verify}
use adjourn.State.{GameState, merge, filter_valid, all_valid, apply_delta}
use adjourn.State.Merge.{IsValid, filter_valid-IsValid}
use adjourn.State.Batches.{Reorder}
use adjourn.State.Orders.{after, after-ext, Adds, Adds-ext, Adds-then, steps, steps-Reorder}
use adjourn.State.Union.{IsCollisionFree}
use adjourn.Contract.Cbor.{Codec}
use adjourn.Contract.{
  Result, ok, err, ◌>>=◌, ContractError, or_deser, UpdateData, decode_state, decode_params,
  encode_state, check_valid, absorb_state, absorb_delta, absorb_update, absorb_updates,
  update_state,
}

-- The result of a success.
abbrev pub ok_of {ℓ} : {A : Type ℓ} → Result A → Option A
ok_of (err e) = none
ok_of (ok a) = some a

-- What follows a success.
ok_of-bind {ℓ κ} :
    {A : Type ℓ} {B : Type κ} (r : Result A) (next : A → Result B)
    → ok_of (r >>= next) ≡ after (ok_of r) (λ a. ok_of (next a))
ok_of-bind (err e) next = refl
ok_of-bind (ok a) next = refl

module _ ⦃c : Crypto⦄ ⦃codec : Codec⦄ (p : GameParams) where
  abbrev passed : Bool → Result (Unit {0})
  passed b = if b then ok tt else err ContractError.invalid_update_with_info

  -- Records that are checked, and added.
  abbrev checked : Bool → List Record → GameState → Result GameState
  checked b recs s = passed b >>= λ _. ok (apply_delta p s recs)

  checked-Adds : (b : Bool) (recs : List Record) → Adds p (λ s. ok_of (checked b recs s))
  checked-Adds true recs = inr (recs ∷ [], λ s. refl)
  checked-Adds false recs = inl (λ s. refl)

  decoded-Adds :
      (r : Result GameState)
      → Adds p (λ s.
        ok_of (r >>= λ incoming. checked (all_valid p incoming) (values incoming.records) s))
  decoded-Adds (err e) = inl (λ s. refl)
  decoded-Adds (ok incoming) = checked-Adds (all_valid p incoming) (values incoming.records)

  read-Adds :
      (r : Option (List Record))
      → Adds p (λ s. ok_of (or_deser r >>= λ recs. checked (all (verify p) recs) recs s))
  read-Adds none = inl (λ s. refl)
  read-Adds (some recs) = checked-Adds (all (verify p) recs) recs

  absorb_state-Adds : (bytes : Bytes) → Adds p (λ s. ok_of (absorb_state p s bytes))
  unfolding absorb_state check_valid merge apply_delta
  absorb_state-Adds bytes = decoded-Adds (decode_state bytes)

  absorb_delta-Adds : (bytes : Bytes) → Adds p (λ s. ok_of (absorb_delta p s bytes))
  unfolding absorb_delta
  absorb_delta-Adds [] = inr ([], λ s. refl)
  absorb_delta-Adds (b ∷ bytes) = read-Adds (codec.read_records (b ∷ bytes))

  abbrev taken : UpdateData → GameState → Option GameState
  taken update s = ok_of (absorb_update p s update)

  absorb_update-Adds : (update : UpdateData) → Adds p (taken update)
  unfolding absorb_update
  absorb_update-Adds (UpdateData.state bytes) = absorb_state-Adds bytes
  absorb_update-Adds (UpdateData.delta bytes) = absorb_delta-Adds bytes
  absorb_update-Adds (UpdateData.state_and_delta bytes recs) =
      Adds-ext p _ _ (λ s. ok_of-bind (absorb_state p s bytes) (λ t. absorb_delta p t recs))
        (Adds-then p _ _ (absorb_state-Adds bytes) (absorb_delta-Adds recs))
  absorb_update-Adds UpdateData.related_state = inr ([], λ s. refl)
  absorb_update-Adds UpdateData.related_delta = inr ([], λ s. refl)
  absorb_update-Adds UpdateData.related_state_and_delta = inr ([], λ s. refl)
  absorb_update-Adds UpdateData.unknown = inl (λ s. refl)

  absorb_updates-steps :
      (s : GameState) (updates : List UpdateData)
      → ok_of (absorb_updates p s updates) ≡ steps p taken s updates
  unfolding absorb_updates
  absorb_updates-steps s [] = refl
  absorb_updates-steps s (update ∷ updates) =
      ok_of-bind (absorb_update p s update) (λ t. absorb_updates p t updates)
      ∙ after-ext (taken update s) _ _ (λ t. absorb_updates-steps t updates)

  absorb_updates-Reorder :
      IsCollisionFree p
      → (s : GameState) {us us' : List UpdateData} → Reorder us us'
      → IsValid p s
      → ok_of (absorb_updates p s us) ≡ ok_of (absorb_updates p s us')
  absorb_updates-Reorder free s {us} {us'} r v =
      absorb_updates-steps s us
      ∙ (steps-Reorder p taken absorb_update-Adds free r s v ∙ sym (absorb_updates-steps s us'))

module _ ⦃c : Crypto⦄ ⦃codec : Codec⦄ where
  -- The contract writes the same bytes whatever the order of the updates that it is given, whole
  -- states, deltas or both, or it refuses them in both orders. Among verified records of the game
  -- that the parameters name, ids do not collide.
  pub update_state-Reorder :
      (p : GameParams) (parameters bytes : Bytes) {us us' : List UpdateData}
      → decode_params parameters ≡ ok p
      → IsCollisionFree p
      → Reorder us us'
      → ok_of (update_state parameters bytes us) ≡ ok_of (update_state parameters bytes us')
  unfolding update_state
  update_state-Reorder p parameters bytes {us} {us'} e free r = rw e (written (decode_state bytes))
    where
      written :
          (base : Result GameState)
          → ok_of (
              base >>= λ s.
              absorb_updates p (filter_valid p s) us >>= λ game. ok (encode_state game))
            ≡ ok_of (
                base >>= λ s.
                absorb_updates p (filter_valid p s) us' >>= λ game. ok (encode_state game))
      written (err f) = refl
      written (ok s) =
          let game = filter_valid p s in
          ok_of-bind (absorb_updates p game us) _
          ∙ (ap (λ o. after o (λ g. some (encode_state g)))
                (absorb_updates-Reorder p free game r (filter_valid-IsValid p s))
              ∙ sym (ok_of-bind (absorb_updates p game us') _))
