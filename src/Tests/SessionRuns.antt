-- ===== src/Tests/SessionRuns.antt =====
-- The theorems on the session and on the program, at a node with one key.
use adjourn.Prelude.{
  ◌≡◌, refl, inl, Bool, true, false, List, [], ◌∷◌, ◌++◌, some, arith, nat_eq, if◌then◌else◌,
}
use adjourn.Prelude.Order.{nat_ord, list_ord}
use adjourn.BTree.{get, insert}
use adjourn.Types.{Bytes, Body}
use adjourn.Types.Crypto.{game_id}
use adjourn.Policy.{Side, zeros, decide_rebind}
use adjourn.Policy.Guard.{NoClash}
use adjourn.Delegate.Guards.{IsKeyed}
use adjourn.Delegate.Secrets.{load_game}
use adjourn.Cli.{Command, Env, run, run_all, connect, list_games}
use adjourn.Cli.NoClash.{signed_over, run_all-NoClash}
use adjourn.Policy.Seed.{le_bytes, seed_of, derive_seed, classify_host_entropy}
use adjourn.Client.{NodeError, done, failed, InviteError, Failure}
use adjourn.Client.Invite.{
  Invite, GameOffer, new_invite, encode_invite, decode_invite, encode_blob, decode_blob,
  encode_offer, decode_offer, new_offer,
}
use adjourn.Client.Invite.Trim.{trim, trim_start, trim_end, strip}
use adjourn.Client.Open
use adjourn.Client.Open.{
  expected_container, fetch_state, open_game, open_game_view, submit, sign_and_submit, show_label,
  find_label, ucis_of, moves_in_order,
}
use adjourn.Client.Play.{find_offer, check_move, play_move}
use adjourn.Client.Invite.Roundtrip.{decode_invite-encode_invite}
use adjourn.Client.Node.{contract_container}
use adjourn.Client.Setup.{
  params_of, create_key, invite_new, bind_to, accept_as, invite_accept, join_game, game_bind,
}
use adjourn.Client.Setup.Agree.{Answers}
use adjourn.Client.Fake.Joining.Binds.{IsBound}
use adjourn.Client.Fake.Joining.{Placed, invite_accept-game_bind}
use adjourn.Client.Migrate.{MigrateOutcome, rebind_to, move_game, migrate_label}
use adjourn.Client.Fake.{
  shared_world, FakeNode, contracts, world_backed_store, fake_node, ask_delegate, put_to, update_to,
  new, fail_next_put, write_world, get_from, scan_log, next_from, subscribe_to,
}
use adjourn.Client.Fake.Audit.{SameSecrets}
use adjourn.Client.Fake.Migrating.{migrate_label-failed}
use adjourn.Client.Fake.Migrating.Moved.{HasMoved, NothingLost, migrate_label-HasMoved}
use adjourn.Client.Watch.Loop.{watch_label}
use adjourn.Client.Watch.Skews.{watch_label-Turns}
use adjourn.Client.Watch.Skews.Told.{Turns, skews}
use adjourn.Tests.Toy.{toy, game, white_key, hash-length}
use adjourn.Tests.Board.{plies}
use adjourn.Tests.Cbor.{framed, framed-IsCodec}
use adjourn.Tests.Vault.{vault, vault-IsSecretCodec, own_label, stocked}
use adjourn.Tests.DelegateRuns.{delegate}
use adjourn.Tests.Games.{root, opened}
use adjourn.Tests.ProjectRuns.{projection}
use adjourn.Project.{legal_moves}
use adjourn.Contract.{
  encode_state, update_state, decode_state, absorb_updates, absorb_update, absorb_delta,
  absorb_state, check_valid,
}
use adjourn.Tests.Cbor.{
  read_counted, read_game, write_game, read_all, read_record, write_all, write_record,
}
use adjourn.Tests.Toy.{read_body}
use adjourn.State.Wire.{to_sequence, from_sequence}
use adjourn.BTree.Distinct.{collect_new, insert_new}
use adjourn.Tests.Session.{
  letters_of, spell, unspell, read_offer, read_invite, spelled, spelled-IsBase58, invites,
  invites-IsSerde, offers, by_code, silent, wasm, next_wasm, seated,
}

abbrev sent : Invite
sent = new_invite Side.white white_key (9 ∷ [])

decode_invite-encode_invite_example :
    decode_invite ((32 ∷ []) ++ (encode_invite sent ++ (13 ∷ 10 ∷ [])))
    ≡ (if nat_eq sent.v 1 then done sent else failed (InviteError.version sent.v 1))
decode_invite-encode_invite_example =
    decode_invite-encode_invite spelled-IsBase58 (32 ∷ []) (13 ∷ 10 ∷ []) (refl, tt)
      (refl, (refl, tt)) invites-IsSerde sent

abbrev id : Bytes
id = game_id game

seated-IsKeyed : IsKeyed (seated []).store
unfolding load_game get insert
seated-IsKeyed id r e = absurd (ground arith)

abbrev env : Env
env = record {
  contract_wasm = some wasm;
  delegate_wasm = some [];
  connects = true;
  registers = true;
  random_entropy = 6 ∷ [];
  random_nonce = [];
  rounds = 5;
}

abbrev joined : GameOffer
joined = new_offer game wasm

abbrev runs : List (Env × Command)
runs =
    (env, Command.game_bind own_label (encode_offer joined))
    ∷ (env, Command.move (1 ∷ []) own_label)
    ∷ (env, Command.game_migrate own_label)
    ∷ (env, Command.move (2 ∷ []) own_label)
    ∷ []

-- What a run of the program unfolds.
unfoldable pub session : Unit {0}
unfolding projection derive_seed classify_host_entropy seed_of le_bytes legal_moves read_counted
    update_state read_game write_game decide_rebind decode_state absorb_updates absorb_update
    absorb_delta read_all read_record write_all write_record read_body to_sequence from_sequence
    collect_new insert_new absorb_state check_valid letters_of spell unspell read_offer read_invite
    delegate connect list_games run run_all put_to update_to ask_delegate encode_blob decode_blob
    encode_invite decode_invite encode_offer decode_offer rebind_to move_game migrate_label
    contract_container expected_container Open.bound_game fetch_state open_game open_game_view
    submit sign_and_submit show_label find_offer check_move play_move find_label ucis_of
    moves_in_order params_of create_key invite_new bind_to accept_as invite_accept join_game
    game_bind new_invite new_offer new fail_next_put write_world get_from scan_log next_from
    subscribe_to trim trim_start trim_end strip
session = tt

-- White's node, bound to the game, and after its first move.
abbrev bound : FakeNode
bound = (bind_to own_label game wasm (seated (encode_state opened))).0

moved_run :
    (migrate_label own_label next_wasm bound).1 ≡ done (MigrateOutcome.migrated wasm next_wasm 2)
unfolding session
moved_run = refl

abbrev migrated_node : FakeNode
migrated_node = (migrate_label own_label next_wasm bound).0

migrate_label-HasMoved_example :
    (h : HasMoved own_label next_wasm bound migrated_node wasm next_wasm 2) × NothingLost bound
      next_wasm h.state
unfolding session
migrate_label-HasMoved_example =
    migrate_label-HasMoved framed-IsCodec vault-IsSecretCodec hash-length own_label next_wasm bound
      migrated_node wasm next_wasm 2 (inl refl) refl

migrate_label-failed_example :
    SameSecrets (fail_next_put bound) (migrate_label own_label next_wasm (fail_next_put bound)).0
unfolding session
migrate_label-failed_example =
    migrate_label-failed own_label next_wasm (fail_next_put bound) (Failure.node NodeError.plain)
      refl

abbrev fresh : FakeNode
fresh = new shared_world

abbrev answered : FakeNode
answered = (invite_accept own_label sent wasm (6 ∷ []) fresh).0

abbrev answer : GameOffer
answer = new_offer (params_of sent (seed_of (zeros 32) (some (6 ∷ [])) own_label)) wasm

-- The inviter's node, in the world of the accepter's.
abbrev inviter : FakeNode
inviter = record fresh { store = record { secrets = stocked; world = answered.store.world } }

abbrev met : FakeNode
met = (game_bind own_label answer wasm inviter).0

invite_accept-game_bind_example :
    Answers sent answer
    × IsBound own_label answer.params answer.contract answered
    × (get answer.contract (contracts answered) ≡ some (framed.write_params answer.params, []))
    × (wasm ≡ answer.contract)
    × IsBound own_label answer.params answer.contract met
    × Placed answer.contract answer.params inviter met
unfolding session
invite_accept-game_bind_example =
    invite_accept-game_bind vault-IsSecretCodec hash-length own_label sent wasm (6 ∷ []) fresh
      answered answer own_label wasm wasm inviter met refl refl refl refl

signed_run :
    signed_over id
      ((env, Command.move (1 ∷ []) own_label) ∷ [])
      (bind_to own_label game wasm (seated [])).0
    ≡ Body.move 1 root (1 ∷ []) ∷ []
unfolding session
signed_run = refl

run_all-NoClash_example : NoClash (signed_over id runs (seated []))
run_all-NoClash_example =
    run_all-NoClash vault-IsSecretCodec hash-length id runs (seated []) seated-IsKeyed

watch_label-Turns_example :
    (to : Bool) × Turns false (skews (watch_label 5 own_label next_wasm migrated_node).1) to
watch_label-Turns_example = watch_label-Turns 5 own_label next_wasm migrated_node
