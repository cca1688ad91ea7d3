-- ===== src/Client/Keeps/Following.antt =====
-- client/src/session.rs: what `watch_label` keeps, however its loop ends.
use adjourn.Prelude.{ℕ, zero, suc, Bool, true, false, Option, none, some, Bool-cases, inl, inr}
use adjourn.Prelude.Order.{◌==◌, nat_ord, list_ord}
use adjourn.Types.{Bytes, KeyBytes, key_of}
use adjourn.Types.Crypto.{Crypto}
use adjourn.Policy.{color_of_side}
use adjourn.Project.{is_over}
use adjourn.Project.Board.{Chess}
use adjourn.Contract.{UpdateData}
use adjourn.Contract.Cbor.{Codec}
use adjourn.Client.{failed, done, Reply}
use adjourn.Client.Node.{Freenet, NodeClient}
use adjourn.Client.Open.{GameView, OpenGame, open_game}
use adjourn.Client.Watch.{Watcher, Ended, refresh_previous_state}
use adjourn.Client.Watch.Loop.{
  check_previous, wake_other, wake, go_on, on_update, watch_loop, watch_on, watch_subscribed,
  watch_view, watch_opened, watch_label, merge_fresh, decode_subscribed,
}
use adjourn.Client.Keeps.{Keeps, KeepsCalls}
use adjourn.Client.Keeps.Commands.{open_game-Keeps}

module _ ⦃c : Crypto⦄ ⦃codec : Codec⦄ {N : Type 0} ⦃client : NodeClient N⦄ {P : N → Type 0}
    (gets : (id : Bytes) (subscribe : Bool) → Keeps P (client.get id subscribe)) where
  refresh-Keeps :
      (id : Bytes) (subscribe : Bool) (n : N) (w : Watcher)
      → P n
      → P (refresh_previous_state id subscribe n w).0
  unfolding refresh_previous_state
  refresh-Keeps id subscribe n w h = elim (Bool-cases w.previous_unreachable) [
    | inl e ↦ rw e h
    | inr e ↦ rw e ((gets id subscribe).at n h)
  ]

  pub check_previous-Keeps :
      (old : Option Bytes) (subscribe : Bool) (view : GameView) (ours : KeyBytes) (n : N)
      (w : Watcher)
      → P n
      → P (check_previous old subscribe view ours n w).0
  unfolding check_previous
  check_previous-Keeps none subscribe view ours n w h = h
  check_previous-Keeps (some old) subscribe view ours n w h = refresh-Keeps old subscribe n w h

  wake_other-Keeps :
      (old : Option Bytes) (id : Bytes) (view : GameView) (ours : KeyBytes) (n : N) (w : Watcher)
      → P n
      → P (wake_other old id view ours n w).0
  unfolding wake_other
  wake_other-Keeps none id view ours n w h = h
  wake_other-Keeps (some old) id view ours n w h = elim (Bool-cases (id == old)) [
    | inl e ↦ rw e (check_previous-Keeps (some old) false view ours n w h)
    | inr e ↦ rw e h
  ]

module _ ⦃c : Crypto⦄ ⦃chess : Chess⦄ ⦃codec : Codec⦄ {N : Type 0} ⦃client : NodeClient N⦄
    {P : N → Type 0}
    (gets : (id : Bytes) (subscribe : Bool) → Keeps P (client.get id subscribe)) where
  pub wake-Keeps :
      (view : GameView) (ours : KeyBytes) (n : N) (w : Watcher) (id : Bytes) (update : UpdateData)
      → P n
      → P (wake view ours n w id update).0
  unfolding wake
  wake-Keeps view ours n w id update h = elim (Bool-cases (id == view.contract)) [
    | inl e ↦ rw e h
    | inr e ↦ rw e (wake_other-Keeps gets view.previous id view ours n w h)
  ]

module _ ⦃c : Crypto⦄ ⦃chess : Chess⦄ ⦃codec : Codec⦄ {N : Type 0} ⦃client : NodeClient N⦄
    {P : N → Type 0} (calls : KeepsCalls client P) where
  module _ (view : GameView) (ours : KeyBytes) (rest : N → Watcher → N × Watcher × Ended)
      (keeps : (n : N) (w : Watcher) → P n → P (rest n w).0) where
    go_on-Keeps : (n : N) (w : Watcher) (e : Option Ended) → P n → P (go_on rest (n, w, e)).0
    go_on-Keeps n w (some e) h = h
    go_on-Keeps n w none h = keeps n w h

    on_update-Keeps :
        (w : Watcher) (n : N) (reply : Reply (Option (Bytes × UpdateData)))
        → P n
        → P (on_update view ours w rest (n, reply)).0
    on_update-Keeps w n (failed f) h = h
    on_update-Keeps w n (done none) h = h
    on_update-Keeps w n (done (some (id, update))) h =
        let (n', w', ended) = wake view ours n w id update in
        go_on-Keeps n' w' ended (wake-Keeps calls.get view ours n w id update h)

  watch_loop-Keeps :
      (rounds : ℕ) (view : GameView) (ours : KeyBytes) (n : N) (w : Watcher)
      → P n
      → P (watch_loop rounds view ours n w).0
  unfolding watch_loop
  watch_loop-Keeps zero view ours n w h = h
  watch_loop-Keeps (suc rounds) view ours n w h =
      let (n', reply) = client.next_update n in
      on_update-Keeps view ours (watch_loop rounds view ours)
        (λ m v. watch_loop-Keeps rounds view ours m v) w n' reply (calls.next_update.at n h)

  watch_on-Keeps :
      (rounds : ℕ) (view : GameView) (n : N) (out : Watcher × Option Ended)
      → P n
      → P (watch_on rounds view n out).0
  watch_on-Keeps rounds view n (w, some ended) h = h
  watch_on-Keeps rounds view n (w, none) h =
      watch_loop-Keeps rounds view (key_of view.params (color_of_side view.side)) _ _
        (check_previous-Keeps calls.get view.previous true view _ n w h)

  watch_subscribed-Keeps :
      (rounds : ℕ) (view : GameView) (w : Watcher) (n : N) (reply : Reply (Option Bytes))
      → P n
      → P (watch_subscribed rounds view w (n, reply)).0
  watch_subscribed-Keeps rounds view w n (failed f) h = h
  watch_subscribed-Keeps rounds view w n (done bytes) h =
      watch_on-Keeps rounds view n (merge_fresh view w (decode_subscribed bytes)) h

  watch_view-Keeps : (rounds : ℕ) (view : GameView) (n : N) → P n → P (watch_view rounds view n).0
  unfolding watch_view
  watch_view-Keeps rounds view n h = elim (Bool-cases (is_over view.status)) [
    | inl e ↦ rw e h
    | inr e ↦
        let (n', reply) = client.get view.contract true n in
        rw e (watch_subscribed-Keeps rounds view _ n' reply ((calls.get view.contract true).at n h))
  ]

  watch_opened-Keeps :
      (rounds : ℕ) (n : N) (reply : Reply OpenGame) → P n → P (watch_opened rounds (n, reply)).0
  watch_opened-Keeps rounds n (failed f) h = h
  watch_opened-Keeps rounds n (done g) h = watch_view-Keeps rounds g.view n h

  pub watch_label-Keeps :
      ⦃freenet : Freenet⦄ (rounds : ℕ) (label wasm : Bytes) (n : N)
      → P n
      → P (watch_label rounds label wasm n).0
  unfolding watch_label
  watch_label-Keeps rounds label wasm n h =
      let (n', reply) = open_game label wasm n in
      watch_opened-Keeps rounds n' reply ((open_game-Keeps calls label wasm).at n h)
