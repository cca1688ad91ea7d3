-- ===== src/Tests/DelegateRuns.antt =====
-- The theorems on the delegate, at a store with one key.
use adjourn.Prelude.{◌≡◌, refl, List, [], ◌∷◌, none}
use adjourn.Prelude.Order.{nat_ord, list_ord}
use adjourn.Types.{Bytes, Body}
use adjourn.Types.Crypto.{game_id}
use adjourn.Policy.{
  side_of, body_hash, bind_new, decide_bind, decide_move, decide_sign, migrate_record,
}
use adjourn.Policy.Guard.{NoClash, All}
use adjourn.Delegate.{
  store_key, handle, handle_create_game_key, handle_bind_game, handle_sign,
  locally_known_to_be_illegal, list_from, handle_list_games, handle_rebind_game,
}
use adjourn.Delegate.Api.{Request, GameSummary}
use adjourn.Delegate.Secrets.{
  strip_prefix, load_seed, load_bound_game_id, load_game, load_owner, load_quality, store_game,
  labels_of, list_labels,
}
use adjourn.Delegate.Guards.{IsKeyed}
use adjourn.Delegate.Memory.{
  MemoryStore, memory_store, memory_store-IsStore, starts_with, keys_with,
}
use adjourn.Delegate.Signing.{Released, handle-Released}
use adjourn.Delegate.History.{Call, handle-IsKeyed, signatures, signatures-NoClash}
use adjourn.Delegate.Visible.{Mine, handle_list_games-Mine}
use adjourn.Tests.Toy.{toy, white_key, game, hash-length}
use adjourn.Tests.Board.{plies}
use adjourn.Tests.Cbor.{framed, read_frame}
use adjourn.Tests.Games.{root, program}
use adjourn.Tests.Vault.{
  vault, vault-IsSecretCodec, frame_opt, read_opt, write_vault, read_vault, own_label, stocked,
  stocked-IsKeyed,
}

-- What a run of the delegate unfolds.
unfoldable pub delegate : Unit {0}
unfolding program side_of body_hash bind_new decide_bind decide_move decide_sign migrate_record
    store_key handle handle_create_game_key handle_bind_game handle_sign locally_known_to_be_illegal
    list_from handle_list_games handle_rebind_game strip_prefix load_seed load_bound_game_id
    load_game load_owner load_quality store_game labels_of list_labels starts_with keys_with
    signatures read_frame frame_opt read_opt write_vault read_vault
delegate = tt

abbrev call : Request → Call
call request = record { entropy = ([], []); origin = none; request = request }

abbrev id : Bytes
id = game_id game

abbrev first : Body
first = Body.move 1 root (5 ∷ [])

abbrev other_first : Body
other_first = Body.move 1 root (6 ∷ [])

abbrev calls : List Call
calls =
    call (Request.bind_game own_label game (4 ∷ []))
    ∷ call (Request.sign id first)
    ∷ call (Request.sign id other_first)
    ∷ call (Request.bind_game own_label game (4 ∷ []))
    ∷ call (Request.sign id other_first)
    ∷ call (Request.sign id first)
    ∷ []

-- Binding again does not let the other move be signed.
signatures_run : signatures id stocked calls ≡ first ∷ first ∷ []
unfolding delegate
signatures_run = refl

signatures-NoClash_example : NoClash (signatures id stocked calls)
signatures-NoClash_example =
    signatures-NoClash memory_store-IsStore vault-IsSecretCodec hash-length id stocked calls
      stocked-IsKeyed

abbrev bound : MemoryStore
bound = (handle ([], []) stocked none (Request.bind_game own_label game (4 ∷ []))).0

bound-IsKeyed : IsKeyed bound
bound-IsKeyed =
    handle-IsKeyed memory_store-IsStore vault-IsSecretCodec hash-length stocked ([], []) none
      (Request.bind_game own_label game (4 ∷ [])) stocked-IsKeyed

handle-Released_example :
    Released memory_store-IsStore vault-IsSecretCodec hash-length bound id none first
      (handle ([], []) bound none (Request.sign id first)).0
unfolding delegate
handle-Released_example =
    handle-Released memory_store-IsStore vault-IsSecretCodec hash-length bound ([], []) none
      (Request.sign id first) id first bound-IsKeyed refl

abbrev listed : GameSummary
listed = record {
  label = own_label;
  public_key = white_key;
  game_id = none;
  side = none;
  last_signed_ply = 0;
  entropy = none;
  params = none;
  contract = none;
  previous = none;
}

handle_list_games-Mine_example : All (Mine stocked none) (listed ∷ [])
unfolding delegate
handle_list_games-Mine_example = handle_list_games-Mine stocked none (listed ∷ []) refl
