-- ===== src/Client/Watch/Order.antt =====
-- client/src/session.rs: the loop of `watch_label` on the same notifications in another order.
use adjourn.Prelude.{
  ◌≡◌, ◌⊎◌, refl, sym, ap, subst, ◌∙◌, true, List, [], ◌∷◌, ◌++◌, Option, none, some, inl, inr,
  arith, Bool-cases,
}
use adjourn.Prelude.Lists.{length, some-inj}
use adjourn.Prelude.Order.{nat_ord, list_ord, ==_self}
use adjourn.BTree.{values}
use adjourn.Types.{Bytes, KeyBytes, GameParams, Record}
use adjourn.Types.Crypto.{Crypto}
use adjourn.State.{GameState, merge, apply_delta}
use adjourn.State.Batches.{Reorder}
use adjourn.State.Merge.{IsValid}
use adjourn.State.Orders.{after, Adds, Adds-ext, Adds-then, add_all-IsValid, steps, steps-Reorder}
use adjourn.State.Union.{IsCollisionFree}
use adjourn.Project.{Status, is_over, project}
use adjourn.Project.Board.{Chess}
use adjourn.Project.Outcome.{project_total}
use adjourn.Contract.{UpdateData}
use adjourn.Contract.Cbor.{Codec}
use adjourn.Client.{failed, done, Failure, Reply}
use adjourn.Client.Node.{NodeClient}
use adjourn.Client.Open.{GameView}
use adjourn.Client.Watch.{
  decode_state_payload, decode_delta_payload, merge_some, apply_some, then_apply, take_in, Watcher,
  Event, Ended, recheck,
}
use adjourn.Client.Watch.Loop.{watch_loop, wake, wake_current, recheck_if, go_on}

abbrev pub done_of : {A : Type 0} → Reply A → Option A
done_of (failed f) = none
done_of (done a) = some a

-- An ignored notification leaves the state.
abbrev pub or_kept : GameState → Option (Reply GameState) → Option GameState
or_kept s none = some s
or_kept s (some reply) = done_of reply

module _ ⦃c : Crypto⦄ ⦃codec : Codec⦄ (p : GameParams) where
  abbrev pub taken : UpdateData → GameState → Option GameState
  taken update s = or_kept s (take_in p s update)

  merge_some-Adds : (r : Reply (Option GameState)) → Adds p (λ s. done_of (merge_some p s r))
  unfolding merge apply_delta
  merge_some-Adds (failed f) = inl (λ s. refl)
  merge_some-Adds (done none) = inr ([], λ s. refl)
  merge_some-Adds (done (some incoming)) = inr (values incoming.records ∷ [], λ s. refl)

  apply_some-Adds : (r : Reply (Option (List Record))) → Adds p (λ s. done_of (apply_some p s r))
  apply_some-Adds (failed f) = inl (λ s. refl)
  apply_some-Adds (done none) = inr ([], λ s. refl)
  apply_some-Adds (done (some delta)) = inr (delta ∷ [], λ s. refl)

  then_apply-after :
      (r : Reply GameState) (delta : Bytes)
      → done_of (then_apply p r delta)
        ≡ after (done_of r) (λ t. done_of (apply_some p t (decode_delta_payload delta)))
  then_apply-after (failed f) delta = refl
  then_apply-after (done t) delta = refl

  taken-Adds : (update : UpdateData) → Adds p (taken update)
  unfolding take_in
  taken-Adds (UpdateData.state bytes) = merge_some-Adds (decode_state_payload bytes)
  taken-Adds (UpdateData.delta bytes) = apply_some-Adds (decode_delta_payload bytes)
  taken-Adds (UpdateData.state_and_delta bytes delta) =
      Adds-ext p _ _ (λ s. then_apply-after (merge_some p s (decode_state_payload bytes)) delta)
        (Adds-then p _ _ (merge_some-Adds (decode_state_payload bytes))
          (apply_some-Adds (decode_delta_payload delta)))
  taken-Adds UpdateData.related_state = inr ([], λ s. refl)
  taken-Adds UpdateData.related_delta = inr ([], λ s. refl)
  taken-Adds UpdateData.related_state_and_delta = inr ([], λ s. refl)
  taken-Adds UpdateData.unknown = inr ([], λ s. refl)

  -- A notification leaves a valid state valid.
  taken-IsValid :
      (update : UpdateData) (s t : GameState) → taken update s ≡ some t → IsValid p s → IsValid p t
  taken-IsValid update s t e v = elim (taken-Adds update) [
    | inl none_there ↦ absurd (let q = none_there s in ground arith)
    | inr (batches, adds) ↦
        subst (IsValid p) (some-inj (sym (adds s) ∙ e)) (add_all-IsValid p s batches v)
  ]

recheck_if-state :
    (previous : Option Bytes) (view : GameView) (ours : KeyBytes) (w : Watcher)
    → (recheck_if previous view ours w).state ≡ w.state
unfolding recheck
recheck_if-state none view ours w = refl
recheck_if-state (some old) view ours w = refl

module _ ⦃c : Crypto⦄ ⦃chess : Chess⦄ ⦃codec : Codec⦄ {N : Type 0} ⦃client : NodeClient N⦄
    (view : GameView) (ours : KeyBytes) where
  -- The node gives these notifications of the game's contract, one after the other.
  abbrev pub Feeds : N → List UpdateData → Type 0
  Feeds n [] = Unit {0}
  Feeds n (u ∷ us) =
      (n' : N) × (client.next_update n ≡ (n', done (some (view.contract, u)))) × Feeds n' us

  -- The watch has returned, at a state in which the game is over.
  abbrev pub IsOver : N × Watcher × Ended → Type 0
  IsOver out =
      (out.2 ≡ Ended.returned)
      × ((st : Status) × (project out.1.state view.params ≡ some st) × (is_over st ≡ true))

  abbrev pub Broke : N × Watcher × Ended → Type 0
  Broke out = (f : Failure) × (out.2 ≡ Ended.broke f)

  -- The watch goes on and has the state of all the steps, or has ended early for a reason.
  abbrev Watched : Option GameState → N × Watcher × Ended → Type 0
  Watched o out =
      ((out.2 ≡ Ended.running) × (o ≡ some out.1.state)) ⊎ (IsOver out ⊎ (Broke out × (o ≡ none)))

  -- A notification is taken in, the status is shown, and the rest of the watch follows.
  woken :
      (us : List UpdateData) (rest : N → Watcher → N × Watcher × Ended) (n : N) (w : Watcher)
      (o : Option (Reply GameState))
      → ((t : GameState) → or_kept w.state o ≡ some t → IsValid view.params t)
      → ((v : Watcher)
          → IsValid view.params v.state
          → Watched (steps view.params (taken view.params) v.state us) (rest n v))
      → let (woken, ended) = wake_current view ours w o in
        Watched
          (after (or_kept w.state o) (λ t. steps view.params (taken view.params) t us))
          (go_on rest (n, woken, ended))
  unfolding wake_current
  woken us rest n w none valid ih = ih w (valid w.state refl)
  woken us rest n w (some (failed f)) valid ih = inr (inr ((f, refl), refl))
  woken us rest n w (some (done t)) valid ih =
      let v = recheck_if view.previous view ours (record w { state = t }) in
      let at : v.state ≡ t = recheck_if-state view.previous view ours (record w { state = t }) in
      let (st, shown) = project_total view.params t (valid t refl) in
      elim (Bool-cases (is_over st)) [
        | inl over ↦
            rw (shown, over)
              (inr (inl (refl, (st, ap (λ k. project k view.params) at ∙ shown, over))))
        | inr over ↦
            let told : Watcher = record v { events = v.events ++ Event.shown v.state st ∷ [] } in
            rw (shown, over)
              (subst (λ k. Watched (steps view.params (taken view.params) k us) (rest n told)) at
                (ih told (subst (IsValid view.params) (sym at) (valid t refl))))
      ]

  watch_loop-Watched :
      (us : List UpdateData) (n : N) (w : Watcher)
      → Feeds n us
      → IsValid view.params w.state
      → Watched
          (steps view.params (taken view.params) w.state us)
          (watch_loop (length us) view ours n w)
  unfolding watch_loop wake
  watch_loop-Watched [] n w h v = inl (refl, refl)
  watch_loop-Watched (u ∷ us) n w (n', e, rest) v =
      rw (e, ==_self view.contract)
        (woken us (watch_loop (length us) view ours) n' w (take_in view.params w.state u)
          (λ t q. taken-IsValid view.params u w.state t q v)
          (λ k valid. watch_loop-Watched us n' k rest valid))

  -- Two watches that hold the same valid state and are given the same notifications of the game's
  -- contract in two orders, be they whole states, deltas, both, or of a kind that is ignored, for as
  -- many rounds. Both go on and hold the same state; or one of them has returned, at a state in which
  -- the game is over; or both have stopped at an error. Among verified records ids do not collide.
  pub watch_loop-Reorder :
      IsCollisionFree view.params
      → {us us' : List UpdateData} → Reorder us us'
      → (n n' : N) (w : Watcher) → Feeds n us
      → Feeds n' us'
      → IsValid view.params w.state
      → let out = watch_loop (length us) view ours n w in
        let out' = watch_loop (length us') view ours n' w in
        ((out.2 ≡ Ended.running) × (out'.2 ≡ Ended.running) × (out.1.state ≡ out'.1.state))
        ⊎ ((IsOver out ⊎ IsOver out') ⊎ (Broke out × Broke out'))
  watch_loop-Reorder free {us} {us'} r n n' w feeds feeds' v =
      let same =
        steps-Reorder view.params (taken view.params) (taken-Adds view.params) free r w.state v in
      elim (watch_loop-Watched us n w feeds v) [
        | inr (inl over) ↦ inr (inl (inl over))
        | inl (goes, at) ↦ elim (watch_loop-Watched us' n' w feeds' v) [
          | inl (goes', at') ↦ inl (goes, goes', some-inj (sym at ∙ (same ∙ at')))
          | inr (inl over) ↦ inr (inl (inr over))
          | inr (inr (broke, at')) ↦ absurd (let q = sym at ∙ (same ∙ at') in ground arith)
        ]
        | inr (inr (broke, at)) ↦ elim (watch_loop-Watched us' n' w feeds' v) [
          | inl (goes', at') ↦ absurd (let q = sym at ∙ (same ∙ at') in ground arith)
          | inr (inl over) ↦ inr (inl (inr over))
          | inr (inr (broke', at')) ↦ inr (inr (broke, broke'))
        ]
      ]
