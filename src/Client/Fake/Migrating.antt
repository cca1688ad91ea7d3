-- ===== src/Client/Fake/Migrating.antt =====
-- client/src/session.rs on client/src/fake.rs: a migration that fails.
pub mod Steps
pub mod Moved
use adjourn.Prelude.{
  ◌≡◌, ◌⊎◌, refl, ap, ◌∙◌, Bool, true, false, List, [], Option, none, some, arith, Bool-cases,
  Option-cases, inl, inr, if◌then◌else◌, if-elim, ℕ,
}
use adjourn.Prelude.Lists.{length}
use adjourn.Prelude.Order.{◌==◌, nat_ord, list_ord}
use adjourn.Types.{Bytes}
use adjourn.Types.Crypto.{Crypto}
use adjourn.Project.Board.{Chess}
use adjourn.Contract.Cbor.{Codec}
use adjourn.Policy.{GameRecord, RebindDecision, decide_rebind}
use adjourn.Delegate.{handle, handle_rebind_game, handle_list_games, rebind_decided, bound_to}
use adjourn.Delegate
use adjourn.Delegate.Api.{Request, Response}
use adjourn.Delegate.Secrets.{SecretStore, SecretCodec, store_game}
use adjourn.Client.{Failure, failed, done, Reply, Session, or_fail, continue, return, ◌>>=◌}
use adjourn.Client.Node.{Freenet, ContractContainer, NodeClient, contract_container}
use adjourn.Client.Setup.{expect_bound}
use adjourn.Client.Open.{BoundGame, bound_game, decode_fetched}
use adjourn.Client.Migrate.{MigrateOutcome, put_bytes, rebind_to, move_game, migrate_label}
use adjourn.Client.Keeps.{Keeps, keeps_rules, Keeps-or_fail, bound_game_Keeps, decode_fetched-Keeps}
use adjourn.Client.Fake.{
  FakeNode, WorldBackedStore, world_backed_store, Host, ask_delegate, fake_node, get_from, put_to,
}
use adjourn.Client.Fake.Audit.{SameSecrets, get_from-SameSecrets, put_to-SameSecrets}

-- The call succeeded, or the secrets are those of before.
abbrev pub AllOrNothing : {A : Type 0} → FakeNode → FakeNode × Reply A → Type 0
AllOrNothing {A} n (m, reply) = SameSecrets n m ⊎ ((a : A) × (reply ≡ done a))

continue-AllOrNothing :
    {A B : Type 0} (n : FakeNode) (out : FakeNode × Reply A) (next : A → Session FakeNode B)
    → SameSecrets n out.0
    → ((a : A) (m : FakeNode) → AllOrNothing m (next a m))
    → AllOrNothing n (continue out next)
continue-AllOrNothing n (m, failed f) next same k = inl same
continue-AllOrNothing n (m, done a) next same k = elim (k a m) [
  | inl same' ↦ inl (same' ∙ same)
  | inr d ↦ inr d
]

returned :
    {A : Type 0} (n : FakeNode) (out : FakeNode × Reply (Unit {0})) (a : A)
    → AllOrNothing n out
    → AllOrNothing n (continue out (λ _. return a))
returned n (m, failed f) a (inl same) = inl same
returned n (m, failed f) a (inr (b, e)) = absurd (ground arith)
returned n (m, done b) a h = inr (a, refl)

module _ ⦃c : Crypto⦄ ⦃chess : Chess⦄ ⦃codec : Codec⦄ ⦃secrets : SecretCodec⦄ ⦃host : Host⦄
    ⦃freenet : Freenet⦄ where
  list_games-Same : (n : FakeNode) → Keeps (SameSecrets n) (ask_delegate Request.list_games)
  unfolding ask_delegate handle handle_list_games
  list_games-Same n = record { at = λ m h. h }

  bound_game-Same : (n : FakeNode) (label : Bytes) → Keeps (SameSecrets n) (bound_game label)
  bound_game-Same n label = bound_game_Keeps (list_games-Same n) label

  rebind_decided-Response :
      (label contract : Bytes) (n : FakeNode) (d : RebindDecision)
      → let out = rebind_decided n.store d in
        AllOrNothing n (expect_bound out.1 (record n { store = out.0 }))
  unfolding store_game
  rebind_decided-Response label contract n (RebindDecision.refuse refusal) = inl refl
  rebind_decided-Response label contract n (RebindDecision.rebind rec) = inr (tt, refl)

  rebind_to-AllOrNothing :
      (label contract : Bytes) (n : FakeNode) → AllOrNothing n (rebind_to label contract n)
  unfolding rebind_to ask_delegate handle handle_rebind_game
  rebind_to-AllOrNothing label contract n =
      rebind_decided-Response label contract n
        (decide_rebind (Delegate.bound_game n.store label) label contract none)

  rebound :
      (label contract : Bytes) (n : FakeNode) (outcome : MigrateOutcome)
      → AllOrNothing n (continue (rebind_to label contract n) (λ _. return outcome))
  rebound label contract n outcome =
      let (m, reply) = rebind_to label contract n in
      returned n (m, reply) outcome (rebind_to-AllOrNothing label contract n)

  move_game-AllOrNothing :
      (label : Bytes) (game : BoundGame) (container : ContractContainer) (id : Bytes) (n : FakeNode)
      → AllOrNothing n (move_game label game container id n)
  unfolding move_game
  move_game-AllOrNothing label game container id n =
      continue-AllOrNothing n (get_from game.contract false n) _
        (get_from-SameSecrets game.contract false n)
        λ found m.
          continue-AllOrNothing m (or_fail found (Failure.gone game.contract) m) _
            ((Keeps-or_fail {A = Bytes} {P = SameSecrets m} found _).at m refl)
            λ raw m.
              continue-AllOrNothing m (decode_fetched raw m) _
                ((decode_fetched-Keeps {P = SameSecrets m} raw).at m refl)
                λ state m.
                  continue-AllOrNothing m (put_to container (put_bytes state state.records) m) _
                    (put_to-SameSecrets container _ m)
                    λ _ m.
                      rebound label id m
                        (MigrateOutcome.migrated game.contract id (length state.records))

  migrate_label-AllOrNothing :
      (label wasm : Bytes) (n : FakeNode) → AllOrNothing n (migrate_label label wasm n)
  unfolding migrate_label
  migrate_label-AllOrNothing label wasm n =
      continue-AllOrNothing n (bound_game label n) _ ((bound_game-Same n label).at n refl) λ game m.
        let (container, id) = contract_container wasm game.params in
        if-elim (λ (s : Session FakeNode MigrateOutcome). AllOrNothing m (s m))
          (id == game.contract) (return (MigrateOutcome.already_current game.contract))
          (move_game label game container id) (inl refl)
          (move_game-AllOrNothing label game container id m)

  -- On a node in memory, whose store does not fail and which loses no answer: a migration that fails,
  -- because no such game is bound, the old contract is gone or does not decode, the PUT fails or the
  -- delegate refuses the rebind, leaves every secret of the delegate as it was, so that the game
  -- stays bound to the contract that it was bound to.
  pub migrate_label-failed :
      (label wasm : Bytes) (n : FakeNode) (f : Failure)
      → (migrate_label label wasm n).1 ≡ failed f
      → SameSecrets n (migrate_label label wasm n).0
  migrate_label-failed label wasm n f e = elim (migrate_label-AllOrNothing label wasm n) [
    | inl same ↦ same
    | inr (a, h) ↦ absurd (ground arith)
  ]
