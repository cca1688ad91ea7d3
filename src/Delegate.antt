-- ===== src/Delegate.antt =====
-- delegates/adjourn-delegate/src/lib.rs: the handlers of the delegate that holds signing keys. A
-- handler takes the store and returns the store after it with the response.
pub mod Secrets
pub mod Api
pub mod Laws
pub mod Guards
pub mod Steps
pub mod Handlers
pub mod Signing
pub mod Memory
pub mod Create
pub mod History
pub mod Visible
use adjourn.Prelude.{
  ℕ, ◌+◌, Bool, true, false, not, List, [], ◌∷◌, Option, none, some, nat_eq, is_some, map_some,
  ◌>>=◌, if◌then◌else◌,
}
use adjourn.Prelude.Lists.{any}
use adjourn.Prelude.Order.{◌==◌, nat_ord, list_ord}
use adjourn.Types.{Bytes, GameParams, Body}
use adjourn.Types.Crypto.{Crypto, game_id, sign}
use adjourn.State.{GameState}
use adjourn.Project.{Status, is_over, project, legal_moves}
use adjourn.Project.Board.{Chess}
use adjourn.Contract.{read_state}
use adjourn.Contract.Cbor.{Codec}
use adjourn.Policy.{
  EntropyQuality, Refusal, GameRecord, BindDecision, RebindDecision, SignDecision, opt_eq,
  decide_bind, decide_rebind, decide_sign,
}
use adjourn.Policy.Seed.{SeedResult, classify_host_entropy, derive_seed}
use Secrets.{
  SecretStore, SecretCodec, key_secret, quality_secret, owner_secret, load_seed, load_bound_game_id,
  load_game, load_owner, load_quality, store_game, list_labels, and_then,
}
use Api.{Request, Response, GameSummary}

-- `unwrap_or(EntropyQuality::Degraded)`
abbrev pub or_degraded : Option EntropyQuality → EntropyQuality
or_degraded none = EntropyQuality.degraded
or_degraded (some q) = q

abbrev pub refuse_with {ℓ} : {S : Type ℓ} → S → Refusal → S × Response
refuse_with s refusal = (s, Response.refused refusal)

-- Does another label hold this game? Asked of an unbound label alone.
abbrev pub held_by_other : Option GameRecord → Option GameRecord → Bytes → Bool
held_by_other (some existing) other label = false
held_by_other none none label = false
held_by_other none (some other) label = not (other.label == label)

module _ ⦃c : Crypto⦄ where
  abbrev pub summary_of : Bytes → Bytes → Option EntropyQuality → Option GameRecord → GameSummary
  summary_of label key quality (some rec) = record {
    label = label;
    public_key = key;
    game_id = some (game_id rec.params);
    side = some rec.side;
    last_signed_ply = rec.last_signed_ply;
    entropy = some rec.entropy;
    params = some rec.params;
    contract = some rec.contract;
    previous = rec.previous;
  }
  summary_of label key quality none = record {
    label = label;
    public_key = key;
    game_id = none;
    side = none;
    last_signed_ply = 0;
    entropy = quality;
    params = none;
    contract = none;
    previous = none;
  }

module _ ⦃c : Crypto⦄ ⦃secrets : SecretCodec⦄ {S : Type 0} ⦃store : SecretStore S⦄ where
  -- `origin.is_none_or(|origin_id| store.set(..))`
  abbrev pub set_owner : Bytes → Option Bytes → S → S × Bool
  set_owner label none s = (s, true)
  set_owner label (some origin) s = store.set s (owner_secret label) origin

  -- the chain of writes: the seed, its quality, its owner
  unfoldable pub store_key : S → Bytes → Bytes → EntropyQuality → Option Bytes → S × Bool
  store_key s label seed quality origin =
      and_then
        (and_then (store.set s (key_secret label) seed)
          (λ s. store.set s (quality_secret label) (secrets.write_quality quality)))
        (set_owner label origin)

  abbrev pub created : S × Bool → Bytes → Bytes → EntropyQuality → S × Response
  created (s, false) label seed quality = refuse_with s Refusal.store_failed
  created (s, true) label seed quality = (s, Response.game_key label (c.public_key seed) quality)

  abbrev pub create_seeded : S → Option Bytes → Bytes → SeedResult → S × Response
  create_seeded s origin label (SeedResult.err refusal) = refuse_with s refusal
  create_seeded s origin label (SeedResult.ok seed quality) =
      created (store_key s label seed quality origin) label seed quality

  -- The two draws of `probe_host_entropy` are arguments.
  unfoldable pub handle_create_game_key :
      Bytes × Bytes → S → Option Bytes → Bytes → Option Bytes → S × Response
  handle_create_game_key (first, second) s origin label caller_entropy =
      if is_some (store.get s (key_secret label))
      then refuse_with s Refusal.label_exists
      else create_seeded s origin label
          (derive_seed (classify_host_entropy first second) caller_entropy label)

  -- the record of the game that the label is bound to
  abbrev pub bound_game : S → Bytes → Option GameRecord
  bound_game s label = do id ← load_bound_game_id s label; load_game s id

  -- the answer to a bind or a rebind whose record has been written
  abbrev pub bound_to : Bytes → S × Bool → S × Response
  bound_to id (s, false) = refuse_with s Refusal.store_failed
  bound_to id (s, true) = (s, Response.bound id)

  abbrev pub bind_decided : S → BindDecision → S × Response
  bind_decided s (BindDecision.refuse refusal) = refuse_with s refusal
  bind_decided s (BindDecision.bind rec) = bound_to (game_id rec.params) (store_game s rec)

  abbrev pub bind_seeded :
      S → Option Bytes → Bytes → GameParams → Bytes → Option Bytes → S × Response
  bind_seeded s origin label params contract none = refuse_with s Refusal.unknown_label
  bind_seeded s origin label params contract (some seed) =
      if not (opt_eq (load_owner s label) origin)
      then refuse_with s Refusal.wrong_origin
      else if held_by_other (bound_game s label) (load_game s (game_id params)) label
      then refuse_with s (Refusal.already_bound (game_id params))
      else bind_decided s (
          decide_bind (bound_game s label) label (c.public_key seed) params contract
            (or_degraded (load_quality s label)) origin)

  unfoldable pub handle_bind_game : S → Option Bytes → Bytes → GameParams → Bytes → S × Response
  handle_bind_game s origin label params contract =
      bind_seeded s origin label params contract (load_seed s label)

  abbrev pub rebind_decided : S → RebindDecision → S × Response
  rebind_decided s (RebindDecision.refuse refusal) = refuse_with s refusal
  rebind_decided s (RebindDecision.rebind rec) = bound_to (game_id rec.params) (store_game s rec)

  unfoldable pub handle_rebind_game : S → Option Bytes → Bytes → Bytes → S × Response
  handle_rebind_game s origin label contract =
      rebind_decided s (decide_rebind (bound_game s label) label contract origin)

  -- One round of the loop over the labels, and what the rounds before it have pushed.
  unfoldable pub list_from : S → Option Bytes → List Bytes → List GameSummary
  list_from s origin [] = []
  list_from s origin (label ∷ labels) =
      let rest = list_from s origin labels in
      if not (opt_eq (load_owner s label) origin) then rest else elim (load_seed s label) [
        | none ↦ rest
        | some seed ↦
            summary_of label (c.public_key seed) (load_quality s label) (bound_game s label) ∷ rest
      ]

  unfoldable pub handle_list_games : S → Option Bytes → S × Response
  handle_list_games s origin = (s, Response.games (list_from s origin (list_labels s)))

module _ ⦃c : Crypto⦄ ⦃chess : Chess⦄ where
  -- The judgement of a projected game on a move at a ply; no projection, no judgement.
  abbrev pub judged : Option Status → Option (List Bytes) → ℕ → Bytes → Bool
  judged none legal ply uci = false
  judged (some status) legal ply uci =
      if is_over status
      then true
      else if not (nat_eq (status.ply + 1) ply)
      then false
      else elim legal [ none ↦ false | some moves ↦ not (any (λ m. m == uci) moves) ]

  abbrev pub judged_in : Option GameState → GameParams → ℕ → Bytes → Bool
  judged_in none params ply uci = false
  judged_in (some game) params ply uci =
      judged (project game params) (legal_moves game params) ply uci

module _ ⦃c : Crypto⦄ ⦃chess : Chess⦄ ⦃codec : Codec⦄ ⦃secrets : SecretCodec⦄ {S : Type 0}
    ⦃store : SecretStore S⦄ where
  unfoldable pub locally_known_to_be_illegal : S → GameRecord → Body → Bool
  locally_known_to_be_illegal s rec (Body.move ply parent uci) =
      judged_in (do bytes ← store.contract_state s rec.contract; read_state bytes) rec.params ply
        uci
  locally_known_to_be_illegal s rec Body.resign = false
  locally_known_to_be_illegal s rec (Body.draw_offer _ _) = false
  locally_known_to_be_illegal s rec (Body.draw_accept _ _) = false
  locally_known_to_be_illegal s rec (Body.draw_claim _ _) = false

  -- the signature, handed out only if the store has the updated record
  abbrev pub signed_with : Bytes → GameRecord → Body → S × Bool → S × Response
  signed_with seed rec body (s, false) = refuse_with s Refusal.store_failed
  signed_with seed rec body (s, true) = (s, Response.signed (sign seed rec.params body))

  abbrev pub sign_decided : S → Bytes → GameRecord → Body → SignDecision → S × Response
  sign_decided s seed rec body (SignDecision.refuse refusal) = refuse_with s refusal
  sign_decided s seed rec body (SignDecision.sign updated) =
      signed_with seed rec body (store_game s updated)

  abbrev pub sign_seeded : S → Option Bytes → Body → GameRecord → Option Bytes → S × Response
  sign_seeded s origin body rec none = refuse_with s Refusal.unknown_label
  sign_seeded s origin body rec (some seed) =
      if locally_known_to_be_illegal s rec body
      then refuse_with s Refusal.illegal_move
      else sign_decided s seed rec body (decide_sign rec body origin)

  abbrev pub sign_loaded : S → Option Bytes → Body → Option GameRecord → S × Response
  sign_loaded s origin body none = refuse_with s Refusal.unknown_game
  sign_loaded s origin body (some rec) = sign_seeded s origin body rec (load_seed s rec.label)

  unfoldable pub handle_sign : S → Option Bytes → Bytes → Body → S × Response
  handle_sign s origin id body = sign_loaded s origin body (load_game s id)

  -- `entropy` are the two host draws, made if a key is.
  unfoldable pub handle : Bytes × Bytes → S → Option Bytes → Request → S × Response
  handle entropy s origin (Request.create_game_key label caller) =
      handle_create_game_key entropy s origin label caller
  handle entropy s origin (Request.bind_game label params contract) =
      handle_bind_game s origin label params contract
  handle entropy s origin (Request.rebind label contract) =
      handle_rebind_game s origin label contract
  handle entropy s origin (Request.sign id body) = handle_sign s origin id body
  handle entropy s origin Request.list_games = handle_list_games s origin
