-- ===== src/Client/Watch.antt =====
-- client/src/session.rs: `watch_label`, which follows a game by its notifications, and the check for
-- an opponent who moves on the contract that the game has left. What the callbacks are told is a
-- list of events.
pub mod Loop
pub mod Skews
pub mod Order
use adjourn.Prelude.{
  ℕ, zero, suc, ◌≡◌, Bool, true, false, not, ◌&&◌, List, [], ◌∷◌, ◌++◌, Option, none, some, nat_eq,
  if◌then◌else◌, is_some,
}
use adjourn.Prelude.Lists.{length, any}
use adjourn.Prelude.Order.{◌==◌, nat_ord, list_ord}
use adjourn.BTree.{get}
use adjourn.Types.{Bytes, RecordId, KeyBytes, GameParams, Record, key_of}
use adjourn.Types.Crypto.{Crypto}
use adjourn.State.{GameState, merge, apply_delta}
use adjourn.Policy.{color_of_side}
use adjourn.Project.{Status, is_over, project}
use adjourn.Project.Board.{Chess}
use adjourn.Contract.{UpdateData, read_state}
use adjourn.Contract.Cbor.{Codec}
use adjourn.Client.{Fallible, failed, done, Failure, Reply}
use adjourn.Client.Node.{Freenet, NodeClient}
use adjourn.Client.Open.{GameView, OpenGame, open_game}

-- SKEW_WARNING and SKEW_RESOLVED
pub data Skew : Type 0 where
  warning resolved : Skew

pub data Event : Type 0 where
  -- `on_status`
  shown : GameState → Status → Event
  -- `on_skew`
  skew : Skew → Event

-- Has the opponent a record on the previous contract that is not on the current one?
unfoldable pub opponent_moved_on_previous : GameState → GameState → KeyBytes → Bool
opponent_moved_on_previous current previous ours =
    any (λ e. not (e.1.signer == ours) && not (is_some (get e.0 current.records))) previous.records

-- The flag before, and now: a transition is told, and sets the flag.
abbrev pub turned : Bool → Bool → List Skew × Bool
turned true true = ([], true)
turned true false = (Skew.resolved ∷ [], false)
turned false true = (Skew.warning ∷ [], true)
turned false false = ([], false)

-- What `recompute_skew` tells, and the flag after it.
unfoldable pub recompute_skew : GameState → Option GameState → KeyBytes → Bool → List Skew × Bool
recompute_skew current none ours skewed = ([], skewed)
recompute_skew current (some previous) ours skewed =
    turned skewed (opponent_moved_on_previous current previous ours)

module _ ⦃c : Crypto⦄ ⦃codec : Codec⦄ where
  -- Zero bytes are nothing to merge; what does not decode is an error.
  unfoldable pub decode_state_payload : Bytes → Reply (Option GameState)
  decode_state_payload [] = done none
  decode_state_payload (b ∷ bytes) = elim (read_state (b ∷ bytes)) [
    | none ↦ failed Failure.undecodable
    | some state ↦ done (some state)
  ]

  unfoldable pub decode_delta_payload : Bytes → Reply (Option (List Record))
  decode_delta_payload [] = done none
  decode_delta_payload (b ∷ bytes) = elim (codec.read_records (b ∷ bytes)) [
    | none ↦ failed Failure.undecodable
    | some delta ↦ done (some delta)
  ]

  abbrev pub merge_some : GameParams → GameState → Reply (Option GameState) → Reply GameState
  merge_some params state (failed f) = failed f
  merge_some params state (done none) = done state
  merge_some params state (done (some incoming)) = done (merge params state incoming)

  abbrev pub apply_some : GameParams → GameState → Reply (Option (List Record)) → Reply GameState
  apply_some params state (failed f) = failed f
  apply_some params state (done none) = done state
  apply_some params state (done (some delta)) = done (apply_delta params state delta)

  abbrev pub then_apply : GameParams → Reply GameState → Bytes → Reply GameState
  then_apply params (failed f) delta = failed f
  then_apply params (done state) delta = apply_some params state (decode_delta_payload delta)

  -- A notification of the current contract, taken into the held state; `none` for one that is
  -- ignored.
  unfoldable pub take_in : GameParams → GameState → UpdateData → Option (Reply GameState)
  take_in params state (UpdateData.state bytes) =
      some (merge_some params state (decode_state_payload bytes))
  take_in params state (UpdateData.delta bytes) =
      some (apply_some params state (decode_delta_payload bytes))
  take_in params state (UpdateData.state_and_delta bytes delta) =
      some (then_apply params (merge_some params state (decode_state_payload bytes)) delta)
  take_in params state UpdateData.related_state = none
  take_in params state UpdateData.related_delta = none
  take_in params state UpdateData.related_state_and_delta = none
  take_in params state UpdateData.unknown = none

-- The variables of the loop.
pub record Watcher : Type 0 where
  pub state : GameState
  pub previous_state : Option GameState
  pub previous_unreachable : Bool
  pub skewed : Bool
  pub events : List Event

-- How a watch ends: it returns, it breaks on an error, or its rounds run out while updates come.
pub data Ended : Type 0 where
  returned running : Ended
  broke : Failure → Ended

abbrev pub skew_events : List Skew → List Event
skew_events [] = []
skew_events (s ∷ rest) = Event.skew s ∷ skew_events rest

-- `recompute_skew` on the loop's variables.
unfoldable pub recheck : GameView → KeyBytes → Watcher → Watcher
recheck view ours w =
    let (told, skewed) = recompute_skew w.state w.previous_state ours w.skewed in
    record w { skewed = skewed; events = w.events ++ skew_events told }

module _ ⦃c : Crypto⦄ ⦃codec : Codec⦄ where
  -- What the answer to a GET of the previous contract does to the cache.
  abbrev pub cache_previous : Watcher → Reply (Option Bytes) → Watcher
  cache_previous w (failed f) = record w { previous_unreachable = true }
  cache_previous w (done none) = w
  cache_previous w (done (some bytes)) = elim (decode_state_payload bytes) [
    | failed f ↦ record w { previous_unreachable = true }
    | done none ↦ w
    | done (some state) ↦ record w { previous_state = some state }
  ]

  unfoldable pub refresh_previous_state :
      {N : Type 0} ⦃client : NodeClient N⦄ → Bytes → Bool → N → Watcher → N × Watcher
  refresh_previous_state ⦃client = client⦄ id subscribe n w =
      if w.previous_unreachable
      then (n, w)
      else let (n', reply) = client.get id subscribe n in (n', cache_previous w reply)
