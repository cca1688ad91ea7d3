-- ===== src/Cli.antt =====
-- cli/src/main.rs and cli/src/output.rs: the commands of the program `adjourn`, dispatched to the
-- session over one node, and the exit code. What is printed is left out.
pub mod Keeps
pub mod NoClash
use adjourn.Prelude.{ℕ, Bool, true, false, List, [], ◌∷◌, Option, none, some, if◌then◌else◌}
use adjourn.Types.{Bytes}
use adjourn.Types.Crypto.{Crypto}
use adjourn.Policy.{Side}
use adjourn.Project.Board.{Chess}
use adjourn.Contract.Cbor.{Codec}
use adjourn.Delegate.Api.{Request, Response, GameSummary}
use adjourn.Client.{
  Fallible, failed, done, InviteError, NodeError, Failure, Reply, Session, return, bail, bail_if,
  or_fail, ◌>>=◌, ◌>>◌,
}
use adjourn.Client.Invite.{Invite, GameOffer, Serde, Base58, decode_invite, decode_offer}
use adjourn.Client.Node.{Freenet, NodeClient}
use adjourn.Client.Setup
use adjourn.Client.Setup.{create_key}
use adjourn.Client.Open.{games_in, show_label}
use adjourn.Client.Migrate.{migrate_label}
use adjourn.Client.Play
use adjourn.Client.Watch.{Ended}
use adjourn.Client.Watch.Loop.{watch_label}

-- `Command`, with the subcommands of `Key`, `Invite`, `Game` and `Draw`.
pub data Command : Type 0 where
  init : Command
  key_new : Bytes → Command
  key_list : Command
  invite_new : Bytes → Side → Command
  invite_accept : Bytes → Bytes → Command
  game_bind : Bytes → Bytes → Command
  game_list : Command
  game_migrate show : Bytes → Command
  move : Bytes → Bytes → Command
  resign draw_offer draw_accept draw_claim watch : Bytes → Command

-- What a run finds: the two WASM files, whether the node takes the connection and the delegate, the
-- random bytes, and for how many rounds a watch is followed.
pub record Env : Type 0 where
  pub contract_wasm : Option Bytes
  pub delegate_wasm : Option Bytes
  pub connects : Bool
  pub registers : Bool
  pub random_entropy : Bytes
  pub random_nonce : Bytes
  pub rounds : ℕ

-- the return of a watch, or its error
abbrev pub ending : Ended → Reply (Unit {0})
ending Ended.returned = done tt
ending Ended.running = done tt
ending (Ended.broke f) = failed f

module _ {N : Type 0} where
  abbrev pub read_wasm : Option Bytes → Session N Bytes
  read_wasm file = or_fail file Failure.unreadable

  -- the delegate's WASM gives its key; then the connection
  unfoldable pub connect : Env → Session N (Unit {0})
  connect env = do
    read_wasm env.delegate_wasm
    (if env.connects then return tt else bail (Failure.node NodeError.transport))

  -- `.context("decoding ..")?`
  abbrev pub decoded : {T : Type 0} → Fallible InviteError T → Session N T
  decoded (failed e) = bail (Failure.blob e)
  decoded (done t) = return t

  -- the result is only printed
  abbrev pub print : {A : Type 0} → Session N A → Session N (Unit {0})
  print m = m >>= λ _. return tt

module _ {N : Type 0} ⦃client : NodeClient N⦄ where
  unfoldable pub list_games : Session N (List GameSummary)
  list_games = do response ← client.delegate Request.list_games; games_in response

module _ ⦃c : Crypto⦄ ⦃chess : Chess⦄ ⦃codec : Codec⦄ ⦃freenet : Freenet⦄ ⦃base : Base58⦄
    ⦃invites : Serde Invite⦄ ⦃offers : Serde GameOffer⦄ {N : Type 0} ⦃client : NodeClient N⦄ where
  -- A command of a bound game: the contract's WASM, the connection, and the session's flow.
  abbrev pub in_game : {A : Type 0} → Env → (Bytes → Session N A) → Session N (Unit {0})
  in_game env flow = do
    contract_wasm ← read_wasm env.contract_wasm
    connect env
    print (flow contract_wasm)

  abbrev pub watch_to_end : Env → Bytes → Bytes → Session N (Unit {0})
  watch_to_end env label contract_wasm n =
      let (n', told, ended) = watch_label env.rounds label contract_wasm n in (n', ending ended)

  unfoldable pub run : Env → Command → Session N (Unit {0})
  run env Command.init = do
    connect env
    (if env.registers then return tt else bail (Failure.node NodeError.transport))
  run env (Command.key_new label) = do connect env; print (create_key label env.random_entropy)
  run env Command.key_list = do connect env; print list_games
  run env (Command.invite_new label side) = do
    connect env
    print (Setup.invite_new label side env.random_entropy env.random_nonce)
  run env (Command.invite_accept text label) = in_game env (λ contract_wasm. do
    invite ← decoded (decode_invite text)
    Setup.invite_accept label invite contract_wasm env.random_entropy)
  run env (Command.game_bind label text) = in_game env (λ contract_wasm. do
    offer ← decoded (decode_offer text)
    Setup.game_bind label offer contract_wasm)
  run env Command.game_list = do connect env; print list_games
  run env (Command.game_migrate label) = in_game env (migrate_label label)
  run env (Command.show label) = in_game env (show_label label)
  run env (Command.move uci label) = in_game env (Play.play_move label uci)
  run env (Command.resign label) = in_game env (Play.resign label)
  run env (Command.draw_offer label) = in_game env (Play.draw_offer label)
  run env (Command.draw_accept label) = in_game env (Play.draw_accept label)
  run env (Command.draw_claim label) = in_game env (Play.draw_claim label)
  run env (Command.watch label) = in_game env (watch_to_end env label)

  -- A history of runs: the node after them, whatever each one reports.
  unfoldable pub run_all : List (Env × Command) → N → N
  run_all [] n = n
  run_all ((env, command) ∷ rest) n = run_all rest (run env command n).0

abbrev pub exit_ok : ℕ
exit_ok = 0

abbrev pub exit_refusal : ℕ
exit_refusal = 1

abbrev pub exit_transport : ℕ
exit_transport = 3

unfoldable pub is_transport_failure : Failure → Bool
is_transport_failure (Failure.node NodeError.transport) = true
is_transport_failure _ = false

-- `report_error`, and what `main` returns
unfoldable pub exit_code : Reply (Unit {0}) → ℕ
exit_code (done _) = exit_ok
exit_code (failed f) = if is_transport_failure f then exit_transport else exit_refusal
