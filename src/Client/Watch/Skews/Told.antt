-- ===== src/Client/Watch/Skews/Told.antt =====
-- client/src/session.rs: `recompute_skew`, and what its messages say of the flag.
use adjourn.Prelude.{◌≡◌, refl, ap, Bool, true, false, List, [], ◌∷◌, ◌++◌, Option, none, some}
use mathlib.Core.List.{append-nil}
use adjourn.Prelude.Order.{nat_ord, list_ord}
use adjourn.Types.{Bytes, KeyBytes}
use adjourn.State.{GameState}
use adjourn.Project.{Status}
use adjourn.Client.Open.{GameView}
use adjourn.Client.Watch.{
  Skew, Event, Watcher, opponent_moved_on_previous, turned, recompute_skew, skew_events, recheck,
}
use adjourn.Client.Watch.Loop.{recheck_if, show}

-- What is told of skew, among all events.
unfoldable pub skews : List Event → List Skew
skews [] = []
skews (Event.shown state status ∷ events) = skews events
skews (Event.skew s ∷ events) = s ∷ skews events

-- From one value of the flag to another: a warning raises it, a recovery lowers it, so the two
-- alternate.
abbrev pub Turns : Bool → List Skew → Bool → Type 0
Turns from [] to = from ≡ to
Turns from (Skew.warning ∷ told) to = (from ≡ false) × Turns true told to
Turns from (Skew.resolved ∷ told) to = (from ≡ true) × Turns false told to

Turns-append :
    (from mid to : Bool) (told more : List Skew)
    → Turns from told mid
    → Turns mid more to
    → Turns from (told ++ more) to
Turns-append from mid to [] more h k = rw h k
Turns-append from mid to (Skew.warning ∷ told) more h k =
    (h.0, Turns-append true mid to told more h.1 k)
Turns-append from mid to (Skew.resolved ∷ told) more h k =
    (h.0, Turns-append false mid to told more h.1 k)

skews-append : (events more : List Event) → skews (events ++ more) ≡ skews events ++ skews more
unfolding skews
skews-append [] more = refl
skews-append (Event.shown state status ∷ events) more = skews-append events more
skews-append (Event.skew s ∷ events) more = ap (◌∷◌ s) (skews-append events more)

skews-skew_events : (told : List Skew) → skews (skew_events told) ≡ told
unfolding skews
skews-skew_events [] = refl
skews-skew_events (s ∷ told) = ap (◌∷◌ s) (skews-skew_events told)

turned-Turns : (skewed now : Bool) → let (told, flag) = turned skewed now in Turns skewed told flag
turned-Turns true true = refl
turned-Turns true false = (refl, refl)
turned-Turns false true = (refl, refl)
turned-Turns false false = refl

recompute_skew-Turns :
    (current : GameState) (previous : Option GameState) (ours : KeyBytes) (skewed : Bool)
    → let (told, flag) = recompute_skew current previous ours skewed in Turns skewed told flag
unfolding recompute_skew
recompute_skew-Turns current none ours skewed = refl
recompute_skew-Turns current (some previous) ours skewed =
    turned-Turns skewed (opponent_moved_on_previous current previous ours)

-- What has been told leads to the flag.
abbrev pub IsTold : Watcher → Type 0
IsTold w = Turns false (skews w.events) w.skewed

pub recheck-IsTold :
    (view : GameView) (ours : KeyBytes) (w : Watcher) → IsTold w → IsTold (recheck view ours w)
unfolding recheck
recheck-IsTold view ours w h =
    let (told, flag) = recompute_skew w.state w.previous_state ours w.skewed in
    rw (skews-append w.events (skew_events told), skews-skew_events told)
      (Turns-append false w.skewed flag (skews w.events) told h
        (recompute_skew-Turns w.state w.previous_state ours w.skewed))

pub recheck_if-IsTold :
    (old : Option Bytes) (view : GameView) (ours : KeyBytes) (w : Watcher)
    → IsTold w
    → IsTold (recheck_if old view ours w)
recheck_if-IsTold none view ours w h = h
recheck_if-IsTold (some old) view ours w h = recheck-IsTold view ours w h

pub show-IsTold : (w : Watcher) (status : Option Status) → IsTold w → IsTold (show w status).0
unfolding skews
show-IsTold w none h = h
show-IsTold w (some status) h =
    rw (skews-append w.events (Event.shown w.state status ∷ []), append-nil (skews w.events)) h
