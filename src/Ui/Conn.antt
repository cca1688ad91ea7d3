-- ===== src/Ui/Conn.antt =====
-- ui/src/conn.rs: the main actor of `use_conn`, which owns the connection, serves the commands of the
-- screens one after the other, and sets the signals that they read.
pub mod Steady
use adjourn.Prelude.{Bool, true, false, List, [], ◌∷◌, ◌++◌, Option, none, some, if◌then◌else◌}
use adjourn.Prelude.Order.{◌==◌, nat_ord, list_ord}
use adjourn.Types.{Bytes}
use adjourn.Types.Crypto.{Crypto}
use adjourn.Policy.{Side, opt_eq}
use adjourn.Project.Board.{Chess}
use adjourn.Contract.Cbor.{Codec}
use adjourn.Delegate.Api.{GameSummary, Request, Response}
use adjourn.Client.{Failure, failed, done, Reply, Session, Fallible, InviteError, ◌>>=◌}
use adjourn.Client.Invite.{
  Invite, GameOffer, Serde, Base58, encode_invite, decode_invite, encode_offer, decode_offer,
}
use adjourn.Client.Invite.Trim.{trim}
use adjourn.Client.Node.{Freenet, NodeClient}
use adjourn.Client.Setup
use adjourn.Client.Open.{GameView, games_in, open_game_view}
use adjourn.Client.Migrate.{migrate_label}
use adjourn.Client.Play

pub data Cmd : Type 0 where
  connect reconnect list_games : Cmd
  new_game : Bytes → Side → Cmd
  accept bind : Bytes → Bytes → Cmd
  migrate open_ : Bytes → Cmd
  play : Bytes → Bytes → Cmd
  resign draw_offer draw_accept draw_claim watch : Bytes → Cmd

-- The signals that the main actor sets, and what it has sent to the actor of the watch.
pub record Wires : Type 0 where
  pub games : List GameSummary
  pub view : Option GameView
  pub invite_blob : Option (Bytes × Bytes)
  pub offer_blob : Option (Bytes × Bytes)
  pub error : Option Failure
  pub watch_error : Option Failure
  pub mismatch : Option Bytes
  pub busy : Bool
  pub connected : Bool
  pub sent : List Cmd

-- What the browser gives to one command: a fresh connection with the delegate registered, and random
-- bytes.
pub record Browser (N : Type 0) : Type 0 where
  pub fresh : Reply N
  pub entropy : Reply Bytes
  pub nonce : Reply Bytes

-- The latch of a connection that has closed.
pub record Latch (N : Type 0) : Type 0 where
  pub is_disconnected : N → Bool

-- The client that the actor owns, and the signals.
pub record Actor (N : Type 0) : Type 0 where
  pub client : Option N
  pub wires : Wires

-- A build mismatch of the label: both callers ask of an error of `open_game_view` for this label,
-- whose message names it.
abbrev pub is_build_mismatch : Failure → Bool
is_build_mismatch (Failure.build_mismatch _ _) = true
is_build_mismatch _ = false

-- `match &result { .. }` of `Open` and `Migrate`
unfoldable pub classify : Bytes → Reply GameView → Wires → Wires
classify label (done v) w =
    if opt_eq w.mismatch (some label) then record w { mismatch = none } else w
classify label (failed f) w = if is_build_mismatch f then record w { mismatch = some label } else w

module _ {N : Type 0} where
  -- `view.set(Some(result?))`
  abbrev pub viewed : Wires → N × Reply GameView → N × Wires × Reply (Unit {0})
  viewed w (n, failed f) = (n, w, failed f)
  viewed w (n, done v) = (n, record w { view = some v }, done tt)

  -- What a flow sets once it has succeeded.
  abbrev pub then_set :
      {A : Type 0} → (A → Wires → Wires) → Wires → N × Reply A → N × Wires × Reply (Unit {0})
  then_set set w (n, failed f) = (n, w, failed f)
  then_set set w (n, done a) = (n, set a w, done tt)

  -- `?` on what the browser gives
  abbrev pub given : {A : Type 0} → Reply A → Session N A
  given reply n = (n, reply)

  -- `?` on a blob
  abbrev pub read : {A : Type 0} → Fallible InviteError A → Session N A
  read (failed e) n = (n, failed (Failure.blob e))
  read (done a) n = (n, done a)

-- `invite_blob.with_mut(..)`
abbrev pub clear_invite : Bytes → Option (Bytes × Bytes) → Option (Bytes × Bytes)
clear_invite label none = none
clear_invite label (some (l, blob)) = if l == label then none else some (l, blob)

abbrev pub send : Cmd → Wires → Wires
send cmd w = record w { sent = w.sent ++ cmd ∷ [] }

abbrev pub set_games : List GameSummary → Wires → Wires
set_games games w = record w { games = games }

abbrev pub set_invite : ⦃base : Base58⦄ ⦃serde : Serde Invite⦄ → Bytes → Invite → Wires → Wires
set_invite label inv w = record w { invite_blob = some (label, encode_invite inv) }

abbrev pub set_offer : ⦃base : Base58⦄ ⦃serde : Serde GameOffer⦄ → Bytes → GameOffer → Wires → Wires
set_offer label offer w = record w { offer_blob = some (label, encode_offer offer) }

abbrev pub set_bound : Bytes → Bytes → Wires → Wires
set_bound label contract w = record w { invite_blob = clear_invite label w.invite_blob }

-- `Migrate` once the migration has succeeded: if the game opens, it is watched anew.
abbrev pub rewatched : Bytes → Wires → Reply GameView → Wires
rewatched label w (failed f) = w
rewatched label w (done v) = send (Cmd.watch label) (record w { watch_error = none })

module _ ⦃c : Crypto⦄ ⦃chess : Chess⦄ ⦃codec : Codec⦄ ⦃freenet : Freenet⦄ {N : Type 0}
    ⦃client : NodeClient N⦄ where
  -- A flow, and the game opened again.
  abbrev pub then_open :
      {A : Type 0} → Bytes → Bytes → Wires → N × Reply A → N × Wires × Reply (Unit {0})
  then_open label wasm w (n, failed f) = (n, w, failed f)
  then_open label wasm w (n, done _) = viewed w (open_game_view label wasm n)

  -- The end of `Open` and of `Migrate`: classified, then shown.
  abbrev pub classified : Bytes → Wires → N × Reply GameView → N × Wires × Reply (Unit {0})
  classified label w (n, result) = viewed (classify label result w) (n, result)

  abbrev pub migrated_then :
      {A : Type 0} → Bytes → Bytes → Wires → N × Reply A → N × Wires × Reply (Unit {0})
  migrated_then label wasm w (n, failed f) = (n, w, failed f)
  migrated_then label wasm w (n, done _) =
      let (n', result) = open_game_view label wasm n in
      viewed (rewatched label (classify label result w) result) (n', result)

module _ ⦃c : Crypto⦄ ⦃chess : Chess⦄ ⦃codec : Codec⦄ ⦃freenet : Freenet⦄ ⦃base : Base58⦄
    ⦃invites : Serde Invite⦄ ⦃offers : Serde GameOffer⦄ {N : Type 0} ⦃client : NodeClient N⦄ where
  -- `NewGame`, `Accept` and `Bind`, up to what they set
  unfoldable pub new_invite_for : Browser N → Bytes → Side → Session N Invite
  new_invite_for browser label side = do
    entropy ← given browser.entropy
    nonce ← given browser.nonce
    Setup.invite_new label side entropy nonce

  unfoldable pub accept_for : Browser N → Bytes → Bytes → Bytes → Session N GameOffer
  accept_for browser wasm label invite = do
    inv ← read (decode_invite (trim invite))
    entropy ← given browser.entropy
    Setup.invite_accept label inv wasm entropy

  unfoldable pub bind_for : Bytes → Bytes → Bytes → Session N Bytes
  bind_for wasm label offer = do
    off ← read (decode_offer (trim offer))
    Setup.game_bind label off wasm

  -- `match cmd.clone() { .. }`
  unfoldable pub run_cmd : Browser N → Bytes → Cmd → Wires → N → N × Wires × Reply (Unit {0})
  run_cmd browser wasm Cmd.connect w n = (n, w, done tt)
  run_cmd browser wasm Cmd.reconnect w n = (n, w, done tt)
  run_cmd browser wasm Cmd.list_games w n =
      then_set set_games w ((client.delegate Request.list_games >>= games_in) n)
  run_cmd browser wasm (Cmd.new_game label side) w n =
      then_set (set_invite label) w (new_invite_for browser label side n)
  run_cmd browser wasm (Cmd.accept label invite) w n =
      then_set (set_offer label) w (accept_for browser wasm label invite n)
  run_cmd browser wasm (Cmd.bind label offer) w n =
      then_set (set_bound label) w (bind_for wasm label offer n)
  run_cmd browser wasm (Cmd.migrate label) w n =
      migrated_then label wasm w (migrate_label label wasm n)
  run_cmd browser wasm (Cmd.open_ label) w n =
      classified label (record w { view = none }) (open_game_view label wasm n)
  run_cmd browser wasm (Cmd.play label uci) w n =
      then_open label wasm w (Play.play_move label uci wasm n)
  run_cmd browser wasm (Cmd.resign label) w n = then_open label wasm w (Play.resign label wasm n)
  run_cmd browser wasm (Cmd.draw_offer label) w n =
      then_open label wasm w (Play.draw_offer label wasm n)
  run_cmd browser wasm (Cmd.draw_accept label) w n =
      then_open label wasm w (Play.draw_accept label wasm n)
  run_cmd browser wasm (Cmd.draw_claim label) w n =
      then_open label wasm w (Play.draw_claim label wasm n)
  run_cmd browser wasm (Cmd.watch label) w n = (n, send (Cmd.watch label) w, done tt)

  module _ ⦃latch : Latch N⦄ where
    -- `client.as_ref().is_none_or(BrowserClient::is_disconnected)`
    abbrev pub is_dead : Option N → Bool
    is_dead none = true
    is_dead (some n) = latch.is_disconnected n

    -- After an error: the client goes only if its transport is gone.
    abbrev pub torn_down : Option N → Wires → Failure → Actor N
    torn_down held w f =
        if is_dead held
        then record { client = none; wires = record w { connected = false; error = some f } }
        else record { client = held; wires = record w { error = some f } }

    -- `if let Err(e) = outcome { .. }`, and no longer busy
    unfoldable pub finish : Option N × Wires × Reply (Unit {0}) → Actor N
    finish (held, w, done _) = record { client = held; wires = record w { busy = false } }
    finish (held, w, failed f) = torn_down held (record w { busy = false }) f

    abbrev pub with_client : N × Wires × Reply (Unit {0}) → Option N × Wires × Reply (Unit {0})
    with_client (n, w, reply) = (some n, w, reply)

    -- The command, on the client that is held or on a fresh one.
    abbrev pub connected_run :
        Browser N → Bytes → Cmd → Wires → Option N → Reply N → Option N × Wires × Reply (Unit {0})
    connected_run browser wasm cmd w (some n) fresh = with_client (run_cmd browser wasm cmd w n)
    connected_run browser wasm cmd w none (failed f) = (none, w, failed f)
    connected_run browser wasm cmd w none (done n) =
        with_client (run_cmd browser wasm cmd (record w { connected = true }) n)

    unfoldable pub serve : Browser N → Bytes → Cmd → Actor N → Actor N
    serve browser wasm cmd a =
        let started = record a.wires { busy = true; error = none } in
        finish (connected_run browser wasm cmd started a.client browser.fresh)

    -- `Reconnect` drops the client and passes itself on to the watch.
    abbrev pub reset : Actor N → Actor N
    reset a = record {
      client = none;
      wires =
          send Cmd.reconnect (record a.wires { connected = false; error = none; mismatch = none });
    }

    -- One round of the actor's loop.
    unfoldable pub step : Browser N → Bytes → Cmd → Actor N → Actor N
    step browser wasm Cmd.reconnect a = reset a
    step browser wasm cmd a = serve browser wasm cmd a

    -- A history of commands, each with what the browser gives to it.
    abbrev pub steps_of : Bytes → List (Browser N × Cmd) → Actor N → Actor N
    steps_of wasm [] a = a
    steps_of wasm ((browser, cmd) ∷ rest) a = steps_of wasm rest (step browser wasm cmd a)
