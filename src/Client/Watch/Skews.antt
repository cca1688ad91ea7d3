-- ===== src/Client/Watch/Skews.antt =====
-- client/src/session.rs: what `watch_label` tells of a skew between the two contracts.
pub mod Told
use adjourn.Prelude.{
  ℕ, zero, suc, ◌≡◌, refl, ap, Bool, true, false, List, [], ◌∷◌, ◌++◌, Option, none, some, if-elim,
  Bool-cases, inl, inr, nat_eq,
}
use mathlib.Core.List.{append-nil}
use adjourn.Prelude.Lists.{length}
use adjourn.Prelude.Order.{◌==◌, nat_ord, list_ord}
use adjourn.Types.{Bytes, KeyBytes, key_of}
use adjourn.Types.Crypto.{Crypto}
use adjourn.State.{GameState, merge}
use adjourn.Policy.{color_of_side}
use adjourn.Project.{Status, is_over, project}
use adjourn.Project.Board.{Chess}
use adjourn.Contract.{UpdateData}
use adjourn.Contract.Cbor.{Codec}
use adjourn.Client.{failed, done, Reply}
use adjourn.Client.Node.{Freenet, NodeClient}
use adjourn.Client.Open.{GameView, OpenGame, open_game}
use adjourn.Client.Watch.{
  Skew, Event, Ended, Watcher, opponent_moved_on_previous, turned, recompute_skew, skew_events,
  recheck, refresh_previous_state, cache_previous, decode_state_payload, take_in,
}
use adjourn.Client.Watch.Loop.{
  recheck_if, show, wake_current, merge_fresh, decode_subscribed, check_previous, wake_other, wake,
  go_on, on_update, watch_loop, watch_on, watch_subscribed, watch_view, watch_opened, watch_label,
}
use adjourn.Client.Watch.Skews.Told.{
  skews, Turns, IsTold, recheck-IsTold, recheck_if-IsTold, show-IsTold,
}

module _ ⦃c : Crypto⦄ ⦃chess : Chess⦄ where
  wake_current-IsTold :
      (view : GameView) (ours : KeyBytes) (w : Watcher) (taken : Option (Reply GameState))
      → IsTold w
      → IsTold (wake_current view ours w taken).0
  unfolding wake_current
  wake_current-IsTold view ours w none h = h
  wake_current-IsTold view ours w (some (failed f)) h = h
  wake_current-IsTold view ours w (some (done state)) h =
      let w' : Watcher = record w { state = state } in
      show-IsTold (recheck_if view.previous view ours w') _
        (recheck_if-IsTold view.previous view ours w' h)

  merge_fresh-IsTold :
      (view : GameView) (w : Watcher) (fresh : Reply (Option GameState))
      → IsTold w
      → IsTold (merge_fresh view w fresh).0
  unfolding merge_fresh
  merge_fresh-IsTold view w (failed f) h = h
  merge_fresh-IsTold view w (done none) h = h
  merge_fresh-IsTold view w (done (some fresh)) h =
      let state = merge view.params w.state fresh in
      if-elim (λ (out : Watcher × Option Ended). IsTold out.0)
        (nat_eq (length state.records) (length w.state.records)) _ _ h
        (show-IsTold (record w { state = state }) (project state view.params) h)

module _ ⦃c : Crypto⦄ ⦃codec : Codec⦄ where
  cache_previous-IsTold :
      (w : Watcher) (reply : Reply (Option Bytes)) → IsTold w → IsTold (cache_previous w reply)
  cache_previous-IsTold w (failed f) h = h
  cache_previous-IsTold w (done none) h = h
  cache_previous-IsTold w (done (some bytes)) h = cached (decode_state_payload bytes)
    where
      cached :
          (payload : Reply (Option GameState))
          → IsTold (elim payload as (λ _. Watcher) [
            | failed f ↦ record w { previous_unreachable = true }
            | done none ↦ w
            | done (some state) ↦ record w { previous_state = some state }
          ])
      cached (failed f) = h
      cached (done none) = h
      cached (done (some state)) = h

module _ ⦃c : Crypto⦄ ⦃codec : Codec⦄ {N : Type 0} ⦃client : NodeClient N⦄ where
  refresh-IsTold :
      (id : Bytes) (subscribe : Bool) (n : N) (w : Watcher)
      → IsTold w
      → IsTold (refresh_previous_state id subscribe n w).1
  unfolding refresh_previous_state
  refresh-IsTold id subscribe n w h =
      if-elim (λ (out : N × Watcher). IsTold out.1) w.previous_unreachable _ _ h
        (cache_previous-IsTold w (client.get id subscribe n).1 h)

  check_previous-IsTold :
      (old : Option Bytes) (subscribe : Bool) (view : GameView) (ours : KeyBytes) (n : N)
      (w : Watcher)
      → IsTold w
      → IsTold (check_previous old subscribe view ours n w).1
  unfolding check_previous
  check_previous-IsTold none subscribe view ours n w h = h
  check_previous-IsTold (some old) subscribe view ours n w h =
      recheck-IsTold view ours _ (refresh-IsTold old subscribe n w h)

  wake_other-IsTold :
      (old : Option Bytes) (id : Bytes) (view : GameView) (ours : KeyBytes) (n : N) (w : Watcher)
      → IsTold w
      → IsTold (wake_other old id view ours n w).1
  unfolding wake_other
  wake_other-IsTold none id view ours n w h = h
  wake_other-IsTold (some old) id view ours n w h = elim (Bool-cases (id == old)) [
    | inl e ↦ rw e (check_previous-IsTold (some old) false view ours n w h)
    | inr e ↦ rw e h
  ]

module _ ⦃c : Crypto⦄ ⦃chess : Chess⦄ ⦃codec : Codec⦄ {N : Type 0} ⦃client : NodeClient N⦄ where
  wake-IsTold :
      (view : GameView) (ours : KeyBytes) (n : N) (w : Watcher) (id : Bytes) (update : UpdateData)
      → IsTold w
      → IsTold (wake view ours n w id update).1
  unfolding wake
  wake-IsTold view ours n w id update h = elim (Bool-cases (id == view.contract)) [
    | inl e ↦ rw e (wake_current-IsTold view ours w (take_in view.params w.state update) h)
    | inr e ↦ rw e (wake_other-IsTold view.previous id view ours n w h)
  ]

  module _ (view : GameView) (ours : KeyBytes) (rest : N → Watcher → N × Watcher × Ended)
      (keeps : (n : N) (w : Watcher) → IsTold w → IsTold (rest n w).1) where
    go_on-IsTold :
        (n : N) (w : Watcher) (e : Option Ended) → IsTold w → IsTold (go_on rest (n, w, e)).1
    go_on-IsTold n w (some e) h = h
    go_on-IsTold n w none h = keeps n w h

    on_update-IsTold :
        (w : Watcher) (n : N) (reply : Reply (Option (Bytes × UpdateData)))
        → IsTold w
        → IsTold (on_update view ours w rest (n, reply)).1
    on_update-IsTold w n (failed f) h = h
    on_update-IsTold w n (done none) h = h
    on_update-IsTold w n (done (some (id, update))) h =
        let (n', w', ended) = wake view ours n w id update in
        go_on-IsTold n' w' ended (wake-IsTold view ours n w id update h)

  watch_loop-IsTold :
      (rounds : ℕ) (view : GameView) (ours : KeyBytes) (n : N) (w : Watcher)
      → IsTold w
      → IsTold (watch_loop rounds view ours n w).1
  unfolding watch_loop
  watch_loop-IsTold zero view ours n w h = h
  watch_loop-IsTold (suc rounds) view ours n w h =
      let (n', reply) = client.next_update n in
      on_update-IsTold view ours (watch_loop rounds view ours)
        (λ m v. watch_loop-IsTold rounds view ours m v) w n' reply h

  watch_on-IsTold :
      (rounds : ℕ) (view : GameView) (n : N) (w : Watcher) (ended : Option Ended)
      → IsTold w
      → IsTold (watch_on rounds view n (w, ended)).1
  watch_on-IsTold rounds view n w (some ended) h = h
  watch_on-IsTold rounds view n w none h =
      let ours = key_of view.params (color_of_side view.side) in
      watch_loop-IsTold rounds view ours _ _
        (check_previous-IsTold view.previous true view ours n w h)

  watch_subscribed-IsTold :
      (rounds : ℕ) (view : GameView) (w : Watcher) (n : N) (reply : Reply (Option Bytes))
      → IsTold w
      → IsTold (watch_subscribed rounds view w (n, reply)).1
  watch_subscribed-IsTold rounds view w n (failed f) h = h
  watch_subscribed-IsTold rounds view w n (done bytes) h =
      let (w', ended) = merge_fresh view w (decode_subscribed bytes) in
      watch_on-IsTold rounds view n w' ended (merge_fresh-IsTold view w (decode_subscribed bytes) h)

  watch_view-IsTold : (rounds : ℕ) (view : GameView) (n : N) → IsTold (watch_view rounds view n).1
  unfolding watch_view skews
  watch_view-IsTold rounds view n = elim (Bool-cases (is_over view.status)) [
    | inl e ↦ rw e refl
    | inr e ↦
        let (n', reply) = client.get view.contract true n in
        rw e (watch_subscribed-IsTold rounds view _ n' reply refl)
  ]

  watch_opened-Turns :
      (rounds : ℕ) (n : N) (reply : Reply OpenGame)
      → (to : Bool) × Turns false (skews (watch_opened rounds (n, reply)).1) to
  unfolding skews
  watch_opened-Turns rounds n (failed f) = (false, refl)
  watch_opened-Turns rounds n (done g) =
      let (n', w, ended) = watch_view rounds g.view n in
      (w.skewed, watch_view-IsTold rounds g.view n)

  -- Whatever the node answers and however the watch ends, the messages on a skew that it tells begin
  -- with a warning, and warnings and recoveries alternate: neither is told twice in a row.
  pub watch_label-Turns :
      ⦃freenet : Freenet⦄ (rounds : ℕ) (label wasm : Bytes) (n : N)
      → (to : Bool) × Turns false (skews (watch_label rounds label wasm n).1) to
  unfolding watch_label
  watch_label-Turns rounds label wasm n =
      let (n', reply) = open_game label wasm n in watch_opened-Turns rounds n' reply
