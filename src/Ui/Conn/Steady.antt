-- ===== src/Ui/Conn/Steady.antt =====
-- ui/src/conn.rs: what holds after every command of the main actor.
use adjourn.Prelude.{
  ◌≡◌, refl, sym, ap, subst, ◌∙◌, true, false, List, [], ◌∷◌, Option, none, some, is_some, arith,
  Bool-cases, inl, inr,
}
use adjourn.Prelude.Order.{nat_ord, list_ord}
use adjourn.Types.{Bytes}
use adjourn.Types.Crypto.{Crypto}
use adjourn.Policy.{opt_eq}
use adjourn.Project.{Status, project}
use adjourn.Project.Board.{Chess}
use adjourn.Contract.Cbor.{Codec}
use adjourn.Delegate.Api.{Request}
use adjourn.Client.{Failure, failed, done, Reply, or_fail, bind-done, Reply-inj, ◌>>=◌}
use adjourn.Client.Invite.{Invite, GameOffer, Serde, Base58}
use adjourn.Client.Node.{Freenet, NodeClient}
use adjourn.Client.Open.{
  GameView, bound_game, expected_container, fetch_state, projected, view_of, OpenGame, open_game,
  open_game_view, games_in,
}
use adjourn.Client.Migrate.{migrate_label}
use adjourn.Client.Play
use adjourn.Ui.Conn.{
  set_games, set_invite, set_offer, set_bound, Cmd, Wires, Browser, Latch, Actor, is_build_mismatch,
  classify, viewed, then_set, rewatched, then_open, classified, migrated_then, run_cmd, is_dead,
  finish, connected_run, serve, step, steps_of, new_invite_for, accept_for, bind_for,
}

module _ ⦃c : Crypto⦄ ⦃chess : Chess⦄ where
  -- A view shows the projection of its own state.
  abbrev pub IsShown : Option GameView → Type 0
  IsShown none = Unit {0}
  IsShown (some v) = project v.state v.params ≡ some v.status

-- The classification is of `mismatch` alone.
classify-keeps :
    (label : Bytes) (r : Reply GameView) (w : Wires)
    → ((classify label r w).connected ≡ w.connected) × ((classify label r w).view ≡ w.view)
unfolding classify
classify-keeps label (done v) w = elim (Bool-cases (opt_eq w.mismatch (some label))) [
  | inl e ↦ rw e (refl, refl)
  | inr e ↦ rw e (refl, refl)
]
classify-keeps label (failed f) w = elim (Bool-cases (is_build_mismatch f)) [
  | inl e ↦ rw e (refl, refl)
  | inr e ↦ rw e (refl, refl)
]

rewatched-keeps :
    (label : Bytes) (w : Wires) (r : Reply GameView)
    → ((rewatched label w r).connected ≡ w.connected) × ((rewatched label w r).view ≡ w.view)
rewatched-keeps label w (failed f) = (refl, refl)
rewatched-keeps label w (done v) = (refl, refl)

module _ ⦃c : Crypto⦄ ⦃chess : Chess⦄ {N : Type 0} where
  -- A command leaves `connected`, and a view that shows its own state.
  abbrev Tends : Wires → N × Wires × Reply (Unit {0}) → Type 0
  Tends w (n, w', reply) = (w'.connected ≡ w.connected) × (IsShown w.view → IsShown w'.view)

  then_set-Tends :
      {A : Type 0} (set : A → Wires → Wires) (w : Wires) (out : N × Reply A)
      → ((a : A) → ((set a w).connected ≡ w.connected) × ((set a w).view ≡ w.view))
      → Tends w (then_set set w out)
  then_set-Tends set w (n, failed f) h = (refl, λ k. k)
  then_set-Tends set w (n, done a) h = ((h a).0, λ k. subst IsShown (sym (h a).1) k)

module _ ⦃c : Crypto⦄ ⦃chess : Chess⦄ ⦃codec : Codec⦄ ⦃freenet : Freenet⦄ {N : Type 0}
    ⦃client : NodeClient N⦄ where
  projected-done :
      (o : Option Status) (n n' : N) (status : Status)
      → or_fail o Failure.unfinished n ≡ (n', done status)
      → o ≡ some status
  projected-done none n n' status e = absurd (ground arith)
  projected-done (some s) n n' status e = ground arith

  open_game_view-IsShown :
      (label wasm : Bytes) (n n' : N) (v : GameView)
      → open_game_view label wasm n ≡ (n', done v)
      → project v.state v.params ≡ some v.status
  unfolding open_game_view open_game
  open_game_view-IsShown label wasm n n' v e =
      let (n₁, g, step, e) = bind-done (open_game label wasm) _ n n' v e in
      let (n₂, game, _, step) = bind-done (bound_game label) _ n n₁ g step in
      let (n₃, container, _, step) =
        bind-done (expected_container wasm game.params game.contract) _ n₂ n₁ g step in
      let (n₄, state, _, step) = bind-done (fetch_state game.contract) _ n₃ n₁ g step in
      let (n₅, status, last, step) = bind-done (projected state game.params) _ n₄ n₁ g step in
      let shown = projected-done (project state game.params) n₄ n₅ status last in
      let opened : OpenGame = record { view = view_of game state status; container = container } in
      let same : opened ≡ g = Reply-inj (ap (λ o. o.1) step) in
      let seen : opened.view ≡ v = ap (λ k. k.view) same ∙ Reply-inj (ap (λ o. o.1) e) in
      subst (λ k. project k.state k.params ≡ some k.status) seen shown

  -- What is opened is shown, over signals that differ in other things.
  viewed-Tends :
      (label wasm : Bytes) (w u : Wires) (n m : N) (result : Reply GameView)
      → open_game_view label wasm n ≡ (m, result)
      → u.connected ≡ w.connected
      → (IsShown w.view → IsShown u.view)
      → Tends w (viewed u (m, result))
  viewed-Tends label wasm w u n m (failed f) e same kept = (same, kept)
  viewed-Tends label wasm w u n m (done v) e same kept =
      (same, λ k. open_game_view-IsShown label wasm n m v e)

  then_open-Tends :
      {A : Type 0} (label wasm : Bytes) (w : Wires) (out : N × Reply A)
      → Tends w (then_open label wasm w out)
  then_open-Tends label wasm w (n, failed f) = (refl, λ k. k)
  then_open-Tends label wasm w (n, done a) = viewed-Tends label wasm w w n _ _ refl refl (λ k. k)

  migrated_then-Tends :
      {A : Type 0} (label wasm : Bytes) (w : Wires) (out : N × Reply A)
      → Tends w (migrated_then label wasm w out)
  migrated_then-Tends label wasm w (n, failed f) = (refl, λ k. k)
  migrated_then-Tends label wasm w (n, done a) =
      let (m, result) = open_game_view label wasm n in
      let (same, view) = classify-keeps label result w in
      let (same', view') = rewatched-keeps label (classify label result w) result in
      viewed-Tends label wasm w _ n m result refl (same' ∙ same)
        (λ k. subst IsShown (sym (view' ∙ view)) k)

  classified-Tends :
      (label wasm : Bytes) (w : Wires) (n : N)
      → Tends w (classified label (record w { view = none }) (open_game_view label wasm n))
  classified-Tends label wasm w n =
      let (m, result) = open_game_view label wasm n in
      let (same, view) = classify-keeps label result (record w { view = none }) in
      viewed-Tends label wasm w _ n m result refl same (λ k. subst IsShown (sym view) tt)

module _ ⦃c : Crypto⦄ ⦃chess : Chess⦄ ⦃codec : Codec⦄ ⦃freenet : Freenet⦄ ⦃base : Base58⦄
    ⦃invites : Serde Invite⦄ ⦃offers : Serde GameOffer⦄ {N : Type 0} ⦃client : NodeClient N⦄ where
  run_cmd-Tends :
      (browser : Browser N) (wasm : Bytes) (cmd : Cmd) (w : Wires) (n : N)
      → Tends w (run_cmd browser wasm cmd w n)
  unfolding run_cmd
  run_cmd-Tends browser wasm Cmd.connect w n = (refl, λ k. k)
  run_cmd-Tends browser wasm Cmd.reconnect w n = (refl, λ k. k)
  run_cmd-Tends browser wasm Cmd.list_games w n =
      then_set-Tends set_games w ((client.delegate Request.list_games >>= games_in) n)
        (λ a. (refl, refl))
  run_cmd-Tends browser wasm (Cmd.new_game label side) w n =
      then_set-Tends (set_invite label) w (new_invite_for browser label side n) (λ a. (refl, refl))
  run_cmd-Tends browser wasm (Cmd.accept label invite) w n =
      then_set-Tends (set_offer label) w (accept_for browser wasm label invite n)
        (λ a. (refl, refl))
  run_cmd-Tends browser wasm (Cmd.bind label offer) w n =
      then_set-Tends (set_bound label) w (bind_for wasm label offer n) (λ a. (refl, refl))
  run_cmd-Tends browser wasm (Cmd.migrate label) w n =
      migrated_then-Tends label wasm w (migrate_label label wasm n)
  run_cmd-Tends browser wasm (Cmd.open_ label) w n = classified-Tends label wasm w n
  run_cmd-Tends browser wasm (Cmd.play label uci) w n =
      then_open-Tends label wasm w (Play.play_move label uci wasm n)
  run_cmd-Tends browser wasm (Cmd.resign label) w n =
      then_open-Tends label wasm w (Play.resign label wasm n)
  run_cmd-Tends browser wasm (Cmd.draw_offer label) w n =
      then_open-Tends label wasm w (Play.draw_offer label wasm n)
  run_cmd-Tends browser wasm (Cmd.draw_accept label) w n =
      then_open-Tends label wasm w (Play.draw_accept label wasm n)
  run_cmd-Tends browser wasm (Cmd.draw_claim label) w n =
      then_open-Tends label wasm w (Play.draw_claim label wasm n)
  run_cmd-Tends browser wasm (Cmd.watch label) w n = (refl, λ k. k)

  module _ ⦃latch : Latch N⦄ where
    -- Between two commands.
    pub record Steady (a : Actor N) : Type 0 where
      pub idle : a.wires.busy ≡ false
      pub linked : a.wires.connected ≡ is_some a.client
      pub shown : IsShown a.wires.view

    finish-Steady :
        (held : Option N) (w : Wires) (reply : Reply (Unit {0}))
        → w.connected ≡ is_some held
        → IsShown w.view
        → Steady (finish (held, w, reply))
    unfolding finish
    finish-Steady held w (done _) same k = record { idle = refl; linked = same; shown = k }
    finish-Steady held w (failed f) same k = elim (Bool-cases (is_dead held)) [
      | inl e ↦ rw e (record { idle = refl; linked = refl; shown = k })
      | inr e ↦ rw e (record { idle = refl; linked = same; shown = k })
    ]

    connected_run-Steady :
        (browser : Browser N) (wasm : Bytes) (cmd : Cmd) (w : Wires) (held : Option N)
        (fresh : Reply N)
        → w.connected ≡ is_some held
        → IsShown w.view
        → Steady (finish (connected_run browser wasm cmd w held fresh))
    connected_run-Steady browser wasm cmd w (some n) fresh same k =
        let (m, w', reply) = run_cmd browser wasm cmd w n in
        let (kept, shown) = run_cmd-Tends browser wasm cmd w n in
        finish-Steady (some m) w' reply (kept ∙ same) (shown k)
    connected_run-Steady browser wasm cmd w none (failed f) same k =
        finish-Steady none w (failed f) same k
    connected_run-Steady browser wasm cmd w none (done n) same k =
        let u = record w { connected = true } in
        let (m, w', reply) = run_cmd browser wasm cmd u n in
        let (kept, shown) = run_cmd-Tends browser wasm cmd u n in
        finish-Steady (some m) w' reply kept (shown k)

    serve-Steady :
        (browser : Browser N) (wasm : Bytes) (cmd : Cmd) (a : Actor N)
        → Steady a
        → Steady (serve browser wasm cmd a)
    unfolding serve
    serve-Steady browser wasm cmd a h =
        connected_run-Steady browser wasm cmd (record a.wires { busy = true; error = none })
          a.client browser.fresh h.linked h.shown

    step-Steady :
        (browser : Browser N) (wasm : Bytes) (cmd : Cmd) (a : Actor N)
        → Steady a
        → Steady (step browser wasm cmd a)
    unfolding step
    step-Steady browser wasm Cmd.reconnect a h = record {
      idle = h.idle;
      linked = refl;
      shown = h.shown;
    }
    step-Steady browser wasm Cmd.connect a h = serve-Steady browser wasm _ a h
    step-Steady browser wasm Cmd.list_games a h = serve-Steady browser wasm _ a h
    step-Steady browser wasm (Cmd.new_game label side) a h = serve-Steady browser wasm _ a h
    step-Steady browser wasm (Cmd.accept label invite) a h = serve-Steady browser wasm _ a h
    step-Steady browser wasm (Cmd.bind label offer) a h = serve-Steady browser wasm _ a h
    step-Steady browser wasm (Cmd.migrate label) a h = serve-Steady browser wasm _ a h
    step-Steady browser wasm (Cmd.open_ label) a h = serve-Steady browser wasm _ a h
    step-Steady browser wasm (Cmd.play label uci) a h = serve-Steady browser wasm _ a h
    step-Steady browser wasm (Cmd.resign label) a h = serve-Steady browser wasm _ a h
    step-Steady browser wasm (Cmd.draw_offer label) a h = serve-Steady browser wasm _ a h
    step-Steady browser wasm (Cmd.draw_accept label) a h = serve-Steady browser wasm _ a h
    step-Steady browser wasm (Cmd.draw_claim label) a h = serve-Steady browser wasm _ a h
    step-Steady browser wasm (Cmd.watch label) a h = serve-Steady browser wasm _ a h

    -- After any history of commands, whatever the node answers, whether or not connections are made
    -- and whenever they are lost: the actor is idle; the signal `connected` is set if and only if it
    -- has a client; and the view, if there is one, shows the projection of its own state under its
    -- own parameters, so that the list of moves and the position belong together. So it is at the
    -- start.
    pub steps_of-Steady :
        (wasm : Bytes) (history : List (Browser N × Cmd)) (a : Actor N)
        → Steady a
        → Steady (steps_of wasm history a)
    steps_of-Steady wasm [] a h = h
    steps_of-Steady wasm ((browser, cmd) ∷ rest) a h =
        steps_of-Steady wasm rest (step browser wasm cmd a) (step-Steady browser wasm cmd a h)
