-- ===== src/Client/Watch/Loop.antt =====
-- client/src/session.rs: the loop of `watch_label`, from the opened game to the end of the watch.
use adjourn.Prelude.{
  ℕ, zero, suc, Bool, true, false, not, List, [], ◌∷◌, ◌++◌, Option, none, some, nat_eq,
  if◌then◌else◌,
}
use adjourn.Prelude.Lists.{length}
use adjourn.Prelude.Order.{◌==◌, nat_ord, list_ord}
use adjourn.Types.{Bytes, KeyBytes, key_of}
use adjourn.Types.Crypto.{Crypto}
use adjourn.State.{GameState, merge}
use adjourn.Policy.{color_of_side}
use adjourn.Project.{Status, is_over, project}
use adjourn.Project.Board.{Chess}
use adjourn.Contract.{UpdateData}
use adjourn.Contract.Cbor.{Codec}
use adjourn.Client.{failed, done, Failure, Reply}
use adjourn.Client.Node.{Freenet, NodeClient}
use adjourn.Client.Open.{GameView, OpenGame, open_game}
use adjourn.Client.Watch.{
  Watcher, Event, Ended, recheck, refresh_previous_state, decode_state_payload, take_in,
}

abbrev pub recheck_if : Option Bytes → GameView → KeyBytes → Watcher → Watcher
recheck_if none view ours w = w
recheck_if (some old) view ours w = recheck view ours w

-- Tell the status, and end if the game is over.
abbrev pub show : Watcher → Option Status → Watcher × Option Ended
show w none = (w, some (Ended.broke Failure.unfinished))
show w (some status) = (
  record w { events = w.events ++ Event.shown w.state status ∷ [] },
  if is_over status then some Ended.returned else none,
)

module _ ⦃c : Crypto⦄ ⦃chess : Chess⦄ where
  -- The round after a notification of the current contract; `none` to go on.
  unfoldable pub wake_current :
      GameView → KeyBytes → Watcher → Option (Reply GameState) → Watcher × Option Ended
  wake_current view ours w none = (w, none)
  wake_current view ours w (some (failed f)) = (w, some (Ended.broke f))
  wake_current view ours w (some (done state)) =
      show (recheck_if view.previous view ours (record w { state = state }))
        (project state view.params)

  -- The answer of the subscribing GET, merged; shown if it has brought a record.
  unfoldable pub merge_fresh :
      GameView → Watcher → Reply (Option GameState) → Watcher × Option Ended
  merge_fresh view w (failed f) = (w, some (Ended.broke f))
  merge_fresh view w (done none) = (w, none)
  merge_fresh view w (done (some fresh)) =
      let state = merge view.params w.state fresh in
      if nat_eq (length state.records) (length w.state.records)
      then (record w { state = state }, none)
      else show (record w { state = state }) (project state view.params)

module _ ⦃c : Crypto⦄ ⦃codec : Codec⦄ where
  abbrev pub decode_subscribed : Option Bytes → Reply (Option GameState)
  decode_subscribed none = done none
  decode_subscribed (some bytes) = decode_state_payload bytes

module _ ⦃c : Crypto⦄ ⦃codec : Codec⦄ {N : Type 0} ⦃client : NodeClient N⦄ where
  -- Refresh the previous contract, if there is one, and check for skew.
  unfoldable pub check_previous :
      Option Bytes → Bool → GameView → KeyBytes → N → Watcher → N × Watcher
  check_previous none subscribe view ours n w = (n, w)
  check_previous (some old) subscribe view ours n w =
      let (n', w') = refresh_previous_state old subscribe n w in (n', recheck view ours w')

  -- a notification of another contract
  unfoldable pub wake_other : Option Bytes → Bytes → GameView → KeyBytes → N → Watcher → N × Watcher
  wake_other none id view ours n w = (n, w)
  wake_other (some old) id view ours n w =
      if id == old then check_previous (some old) false view ours n w else (n, w)

module _ ⦃c : Crypto⦄ ⦃chess : Chess⦄ ⦃codec : Codec⦄ {N : Type 0} ⦃client : NodeClient N⦄ where
  -- What the loop does with an update.
  unfoldable pub wake :
      GameView → KeyBytes → N → Watcher → Bytes → UpdateData → N × Watcher × Option Ended
  wake view ours n w id update =
      let (n', other) = wake_other view.previous id view ours n w in
      let (current, ended) = wake_current view ours w (take_in view.params w.state update) in
      if not (id == view.contract) then (n', other, none) else (n, current, ended)

  -- The end of the watch, or the rounds that are left.
  abbrev pub go_on :
      (N → Watcher → N × Watcher × Ended) → N × Watcher × Option Ended → N × Watcher × Ended
  go_on rest (n, w, some ended) = (n, w, ended)
  go_on rest (n, w, none) = rest n w

  abbrev pub on_update :
      GameView
      → KeyBytes
      → Watcher
      → (N → Watcher → N × Watcher × Ended)
      → N × Reply (Option (Bytes × UpdateData))
      → N × Watcher × Ended
  on_update view ours w rest (n, failed f) = (n, w, Ended.broke f)
  on_update view ours w rest (n, done none) = (n, w, Ended.returned)
  on_update view ours w rest (n, done (some (id, update))) =
      go_on rest (wake view ours n w id update)

  -- `loop { .. }`, for a number of rounds
  unfoldable pub watch_loop : ℕ → GameView → KeyBytes → N → Watcher → N × Watcher × Ended
  watch_loop zero view ours n w = (n, w, Ended.running)
  watch_loop (suc rounds) view ours n w =
      on_update view ours w (watch_loop rounds view ours) (client.next_update n)

  -- The skew check before the loop, and the loop.
  abbrev pub watch_on : ℕ → GameView → N → Watcher × Option Ended → N × Watcher × Ended
  watch_on rounds view n (w, some ended) = (n, w, ended)
  watch_on rounds view n (w, none) =
      let ours = key_of view.params (color_of_side view.side) in
      let (n', w') = check_previous view.previous true view ours n w in
      watch_loop rounds view ours n' w'

  abbrev pub watch_subscribed :
      ℕ → GameView → Watcher → N × Reply (Option Bytes) → N × Watcher × Ended
  watch_subscribed rounds view w (n, failed f) = (n, w, Ended.broke f)
  watch_subscribed rounds view w (n, done bytes) =
      watch_on rounds view n (merge_fresh view w (decode_subscribed bytes))

  -- From the opened game on.
  unfoldable pub watch_view : ℕ → GameView → N → N × Watcher × Ended
  watch_view rounds view n =
      let w : Watcher = record {
        state = view.state;
        previous_state = none;
        previous_unreachable = false;
        skewed = false;
        events = Event.shown view.state view.status ∷ [];
      } in
      if is_over view.status
      then (n, w, Ended.returned)
      else watch_subscribed rounds view w (client.get view.contract true n)

  abbrev pub watch_opened : ℕ → N × Reply OpenGame → N × List Event × Ended
  watch_opened rounds (n, failed f) = (n, [], Ended.broke f)
  watch_opened rounds (n, done g) =
      let (n', w, ended) = watch_view rounds g.view n in (n', w.events, ended)

  -- What is told, and how it ends.
  unfoldable pub watch_label : ⦃freenet : Freenet⦄ → ℕ → Bytes → Bytes → N → N × List Event × Ended
  watch_label rounds label contract_wasm n = watch_opened rounds (open_game label contract_wasm n)
