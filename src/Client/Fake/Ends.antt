-- ===== src/Client/Fake/Ends.antt =====
-- client/src/session.rs on client/src/fake.rs: a watch comes to an end, since the log does.
pub mod Log
use adjourn.Prelude.{
  ℕ, zero, suc, ◌+◌, ◌≡◌, ◌≢◌, ◌≤◌, ◌<◌, refl, ap, subst, Bool, true, false, List, [], ◌∷◌, Option,
  none, some, arith, nat_eq, Bool-cases, inl, inr,
}
use adjourn.Prelude.Lists.{length, drop}
use adjourn.Prelude.Order.{◌==◌, nat_ord, list_ord}
use adjourn.BTree.{Map, get}
use adjourn.State.{GameState, merge}
use adjourn.Types.{Bytes, KeyBytes, key_of}
use adjourn.Types.Crypto.{Crypto}
use adjourn.Policy.{color_of_side}
use adjourn.Project.{Status, is_over}
use adjourn.Project.Board.{Chess}
use adjourn.Contract.{UpdateData}
use adjourn.Contract.Cbor.{Codec}
use adjourn.Delegate.{handle, handle_list_games}
use adjourn.Delegate.Api.{Request}
use adjourn.Delegate.Secrets.{SecretCodec}
use adjourn.Client.{failed, done, Reply}
use adjourn.Client.Node.{Freenet}
use adjourn.Client.Open.{GameView, OpenGame, open_game}
use adjourn.Client.Watch.{Watcher, Ended}
use adjourn.Client.Watch.Loop.{
  check_previous, wake, go_on, on_update, watch_loop, watch_on, watch_subscribed, watch_view,
  watch_opened, watch_label, wake_current, show, merge_fresh, decode_subscribed,
}
use adjourn.Client.Fake.{
  FakeNode, Broadcast, Host, log, subscribe_to, get_from, is_due, scan_log, next_from, ask_delegate,
  fake_node,
}
use adjourn.Client.Keeps.{Keeps}
use adjourn.Client.Keeps.Commands.{open_game_Keeps}
use adjourn.Client.Keeps.Following.{check_previous-Keeps, wake-Keeps}
use adjourn.Client.Fake.Ends.Log.{Unread, next_from-Unread, none_left}

show-ends : (w : Watcher) (o : Option Status) → (show w o).1 ≢ some Ended.running
show-ends w none e = absurd (ground arith)
show-ends w (some status) e = absurd (ground arith)

module _ ⦃c : Crypto⦄ ⦃chess : Chess⦄ where
  wake_current-ends :
      (view : GameView) (ours : KeyBytes) (w : Watcher) (o : Option (Reply GameState))
      → (wake_current view ours w o).1 ≢ some Ended.running
  unfolding wake_current
  wake_current-ends view ours w none e = absurd (ground arith)
  wake_current-ends view ours w (some (failed f)) e = absurd (ground arith)
  wake_current-ends view ours w (some (done state)) e = show-ends _ _ e

  merge_fresh-ends :
      (view : GameView) (w : Watcher) (r : Reply (Option GameState))
      → (merge_fresh view w r).1 ≢ some Ended.running
  unfolding merge_fresh
  merge_fresh-ends view w (failed f) e = absurd (ground arith)
  merge_fresh-ends view w (done none) e = absurd (ground arith)
  merge_fresh-ends view w (done (some fresh)) e =
      let state = merge view.params w.state fresh in
      elim (Bool-cases (nat_eq (length state.records) (length w.state.records))) [
        | inl h ↦ absurd (let e = rw h at e in ground arith)
        | inr h ↦ show-ends _ _ (rw h at e)
      ]

module _ ⦃c : Crypto⦄ ⦃chess : Chess⦄ ⦃codec : Codec⦄ ⦃secrets : SecretCodec⦄ ⦃host : Host⦄
    ⦃freenet : Freenet⦄ where
  wake-ends :
      (view : GameView) (ours : KeyBytes) (n : FakeNode) (w : Watcher) (id : Bytes)
      (update : UpdateData)
      → (wake view ours n w id update).2 ≢ some Ended.running
  unfolding wake
  wake-ends view ours n w id update e = elim (Bool-cases (id == view.contract)) [
    | inl h ↦ wake_current-ends view ours w _ (rw h at e)
    | inr h ↦ absurd (let e = rw h at e in ground arith)
  ]

  gets :
      (rounds : ℕ) (id : Bytes) (subscribe : Bool) → Keeps (Unread rounds) (get_from id subscribe)
  unfolding get_from subscribe_to
  gets rounds id true = record { at = λ n h. h }
  gets rounds id false = record { at = λ n h. h }

  listing : (rounds : ℕ) → Keeps (Unread rounds) (ask_delegate Request.list_games)
  unfolding ask_delegate handle handle_list_games
  listing rounds = record { at = λ n h. h }

  -- The end is not that the rounds run out.
  abbrev Ends : FakeNode × Watcher × Ended → Type 0
  Ends (n, w, ended) = ended ≢ Ended.running

  module _ (view : GameView) (ours : KeyBytes) where
    go_on-Ends :
        (rest : FakeNode → Watcher → FakeNode × Watcher × Ended) (n : FakeNode) (w : Watcher)
        (o : Option Ended)
        → o ≢ some Ended.running
        → Ends (rest n w)
        → Ends (go_on rest (n, w, o))
    go_on-Ends rest n w none h k = k
    go_on-Ends rest n w (some ended) h k = λ e. h (ap some e)

    replied-Ends :
        (rest : FakeNode → Watcher → FakeNode × Watcher × Ended) (n : FakeNode) (w : Watcher)
        → ((m : FakeNode) (id : Bytes) (update : UpdateData)
            → next_from n ≡ (m, done (some (id, update)))
            → Ends (go_on rest (wake view ours m w id update)))
        → (m : FakeNode) (reply : Reply (Option (Bytes × UpdateData))) → next_from n ≡ (m, reply)
        → Ends (on_update view ours w rest (m, reply))
    replied-Ends rest n w woken m (failed f) q = λ e. absurd (ground arith)
    replied-Ends rest n w woken m (done none) q = λ e. absurd (ground arith)
    replied-Ends rest n w woken m (done (some (id, update))) q = woken m id update q

    watch_loop-Ends :
        (rounds : ℕ) (n : FakeNode) (w : Watcher)
        → Unread rounds n
        → Ends (watch_loop (suc rounds) view ours n w)
    unfolding watch_loop
    watch_loop-Ends zero n w h =
        replied-Ends (watch_loop 0 view ours) n w
          (λ m id update q. absurd (none_left n (id, update) h (ap (λ o. o.1) q))) (next_from n).0
          (next_from n).1 refl
    watch_loop-Ends (suc rounds) n w h =
        replied-Ends (watch_loop (suc rounds) view ours) n w
          (λ m id update q.
            let (m', w', ended) = wake view ours m w id update in
            let here : Unread rounds m =
              subst (Unread rounds) (ap (λ o. o.0) q)
                (next_from-Unread rounds n (id, update) h (ap (λ o. o.1) q)) in
            go_on-Ends (watch_loop (suc rounds) view ours) m' w' ended
              (wake-ends view ours m w id update)
              (watch_loop-Ends rounds m' w'
                (wake-Keeps (gets rounds) view ours m w id update here)))
          (next_from n).0 (next_from n).1 refl

  watch_on-Ends :
      (rounds : ℕ) (view : GameView) (n : FakeNode) (w : Watcher) (o : Option Ended)
      → o ≢ some Ended.running
      → Unread rounds n
      → Ends (watch_on (suc rounds) view n (w, o))
  watch_on-Ends rounds view n w (some ended) h k = λ e. h (ap some e)
  watch_on-Ends rounds view n w none h k =
      let ours = key_of view.params (color_of_side view.side) in
      let (n', w') = check_previous view.previous true view ours n w in
      watch_loop-Ends view ours rounds n' w'
        (check_previous-Keeps (gets rounds) view.previous true view ours n w k)

  watch_subscribed-Ends :
      (rounds : ℕ) (view : GameView) (w : Watcher) (n : FakeNode) (reply : Reply (Option Bytes))
      → Unread rounds n
      → Ends (watch_subscribed (suc rounds) view w (n, reply))
  watch_subscribed-Ends rounds view w n (failed f) h = λ e. absurd (ground arith)
  watch_subscribed-Ends rounds view w n (done bytes) h =
      let fresh = decode_subscribed bytes in
      let (w', o) = merge_fresh view w fresh in
      watch_on-Ends rounds view n w' o (merge_fresh-ends view w fresh) h

  watch_view-Ends :
      (rounds : ℕ) (view : GameView) (n : FakeNode)
      → Unread rounds n
      → Ends (watch_view (suc rounds) view n)
  unfolding watch_view
  watch_view-Ends rounds view n h = elim (Bool-cases (is_over view.status)) [
    | inl e ↦ λ q. absurd (let q = rw e at q in ground arith)
    | inr e ↦
        let (n', reply) = get_from view.contract true n in
        rw e
          (watch_subscribed-Ends rounds view _ n' reply ((gets rounds view.contract true).at n h))
  ]

  watch_opened-Ends :
      (rounds : ℕ) (n : FakeNode) (reply : Reply OpenGame)
      → Unread rounds n
      → (watch_opened (suc rounds) (n, reply)).2 ≢ Ended.running
  watch_opened-Ends rounds n (failed f) h = λ e. absurd (ground arith)
  watch_opened-Ends rounds n (done g) h = watch_view-Ends rounds g.view n h

  -- On a node in memory, a watch comes to an end of its own, by a return or by an error, within one
  -- round more than the entries of the log that the node has not read: whatever the world holds,
  -- whatever has been subscribed to, and whichever of the two addresses the updates are for. The
  -- node has not read past the end of the log.
  pub watch_label-ends :
      (rounds : ℕ) (label wasm : Bytes) (n : FakeNode)
      → n.cursor ≤ length (log n)
      → length (log n) ≤ rounds + n.cursor
      → (watch_label (suc rounds) label wasm n).2 ≢ Ended.running
  unfolding watch_label
  watch_label-ends rounds label wasm n inside few =
      let (n', reply) = open_game label wasm n in
      watch_opened-Ends rounds n' reply
        ((open_game_Keeps (gets rounds) (listing rounds) label wasm).at n (inside, few))
