-- ===== src/Cli/Keeps.antt =====
-- cli/src/main.rs: what every run of the program keeps, if each call on the node keeps it.
use adjourn.Prelude.{List, [], ◌∷◌}
use adjourn.Types.{Bytes}
use adjourn.Types.Crypto.{Crypto}
use adjourn.Project.Board.{Chess}
use adjourn.Contract.Cbor.{Codec}
use adjourn.Client.{Fallible, failed, done, InviteError, Session}
use adjourn.Client.Invite.{Invite, GameOffer, Serde, Base58}
use adjourn.Client.Node.{Freenet, NodeClient}
use adjourn.Client.Keeps.{Keeps, KeepsCalls, keeps_rules}
use adjourn.Client.Keeps.Commands.{
  create_key-Keeps, invite_new-Keeps, invite_accept-Keeps, game_bind-Keeps, migrate_label-Keeps,
  show_label-Keeps, play_move-Keeps, resign-Keeps, draw_offer-Keeps, draw_accept-Keeps,
  draw_claim-Keeps,
}
use adjourn.Client.Keeps.Following.{watch_label-Keeps}
use adjourn.Cli.{Command, Env, decoded, connect, list_games, in_game, run, run_all}

module _ {N : Type 0} {P : N → Type 0} where
  decoded-Keeps : {T : Type 0} (r : Fallible InviteError T) → Keeps P (decoded r)
  decoded-Keeps (failed e) = record { at = λ n h. h }
  decoded-Keeps (done t) = record { at = λ n h. h }

  connect-Keeps : (env : Env) → Keeps P (connect env)
  unfolding connect
  connect-Keeps env = search keeps_rules

module _ ⦃c : Crypto⦄ ⦃chess : Chess⦄ ⦃codec : Codec⦄ ⦃freenet : Freenet⦄ ⦃base : Base58⦄
    ⦃invites : Serde Invite⦄ ⦃offers : Serde GameOffer⦄ {N : Type 0} ⦃client : NodeClient N⦄
    {P : N → Type 0} (calls : KeepsCalls client P) where
  list_games-Keeps : Keeps P list_games
  unfolding list_games
  list_games-Keeps = search (keeps_rules, calls.delegate)

  in_game-Keeps :
      {A : Type 0} (env : Env) (flow : Bytes → Session N A)
      → ((wasm : Bytes) → Keeps P (flow wasm))
      → Keeps P (in_game env flow)
  in_game-Keeps env flow k = search (keeps_rules, connect-Keeps, k)

  run-Keeps : (env : Env) (command : Command) → Keeps P (run env command)
  unfolding run
  run-Keeps env Command.init = search (keeps_rules, connect-Keeps)
  run-Keeps env (Command.key_new label) =
      search (keeps_rules, connect-Keeps, create_key-Keeps calls)
  run-Keeps env Command.key_list = search (keeps_rules, connect-Keeps, list_games-Keeps)
  run-Keeps env (Command.invite_new label side) =
      search (keeps_rules, connect-Keeps, invite_new-Keeps calls)
  run-Keeps env (Command.invite_accept text label) =
      search (keeps_rules, in_game-Keeps, decoded-Keeps, invite_accept-Keeps calls)
  run-Keeps env (Command.game_bind label text) =
      search (keeps_rules, in_game-Keeps, decoded-Keeps, game_bind-Keeps calls)
  run-Keeps env Command.game_list = search (keeps_rules, connect-Keeps, list_games-Keeps)
  run-Keeps env (Command.game_migrate label) = search (in_game-Keeps, migrate_label-Keeps calls)
  run-Keeps env (Command.show label) = search (in_game-Keeps, show_label-Keeps calls)
  run-Keeps env (Command.move uci label) = search (in_game-Keeps, play_move-Keeps calls)
  run-Keeps env (Command.resign label) = search (in_game-Keeps, resign-Keeps calls)
  run-Keeps env (Command.draw_offer label) = search (in_game-Keeps, draw_offer-Keeps calls)
  run-Keeps env (Command.draw_accept label) = search (in_game-Keeps, draw_accept-Keeps calls)
  run-Keeps env (Command.draw_claim label) = search (in_game-Keeps, draw_claim-Keeps calls)
  run-Keeps env (Command.watch label) =
      in_game-Keeps env _
        (λ wasm. record { at = λ n h. watch_label-Keeps calls env.rounds label wasm n h })

  pub run_all-Keeps : (runs : List (Env × Command)) (n : N) → P n → P (run_all runs n)
  unfolding run_all
  run_all-Keeps [] n h = h
  run_all-Keeps ((env, command) ∷ rest) n h = run_all-Keeps rest _ ((run-Keeps env command).at n h)
