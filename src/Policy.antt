-- ===== src/Policy.antt =====
-- common/src/delegate_policy.rs and the wire types of common/src/delegate_api.rs that it uses: the
-- decisions of the delegate that holds a player's signing key.
pub mod Seed
pub mod Guard
pub mod Sign
pub mod Bind
use adjourn.Prelude.{
  ℕ, zero, suc, Bool, true, false, not, ◌&&◌, Option, none, some, nat_eq, ltb, List, [], ◌∷◌, ◌++◌,
  if◌then◌else◌,
}
use adjourn.Prelude.Order.{◌==◌, nat_ord, list_ord}
use adjourn.Types.{Bytes, bytes, KeyBytes, Color, GameParams, Body, max_ply, color_at_ply, color_of}
use adjourn.Types.Crypto.{Crypto, game_id}

pub data Side : Type 0 where
  white black : Side

-- `impl From<Color> for Side`, and back
unfoldable pub side_of : Color → Side
side_of Color.white = Side.white
side_of Color.black = Side.black

unfoldable pub color_of_side : Side → Color
color_of_side Side.white = Color.white
color_of_side Side.black = Color.black

abbrev pub side_eq : Side → Side → Bool
side_eq Side.white Side.white = true
side_eq Side.black Side.black = true
side_eq _ _ = false

pub data EntropyQuality : Type 0 where
  host_backed degraded : EntropyQuality

pub data Refusal : Type 0 where
  unknown_label label_exists unknown_game : Refusal
  already_bound : Bytes → Refusal
  key_not_in_params : Refusal
  wrong_side : Side → Side → Refusal
  ply_already_signed : ℕ → Refusal
  ply_out_of_range : ℕ → ℕ → Refusal
  wrong_origin not_bound no_entropy : Refusal
  stale_record_format : ℕ → ℕ → Refusal
  malformed : Bytes → Refusal
  store_failed illegal_move : Refusal

abbrev pub game_record_format : ℕ
game_record_format = 3

pub record GameRecord : Type 0 where
  pub format : ℕ
  pub label : Bytes
  pub params : GameParams
  pub side : Side
  pub origin : Option Bytes
  pub contract : Bytes
  pub previous : Option Bytes
  pub entropy : EntropyQuality
  pub last_signed_ply : ℕ
  pub last_move_body_hash : Bytes

-- `==` on `Option<[u8; 32]>`
abbrev pub opt_eq : Option Bytes → Option Bytes → Bool
opt_eq none none = true
opt_eq (some a) (some b) = a == b
opt_eq _ _ = false

unfoldable pub migrate_record : GameRecord → Option GameRecord
migrate_record rec =
    if nat_eq rec.format game_record_format
    then some rec
    else if nat_eq rec.format 2
    then some (record rec { format = game_record_format; previous = none })
    else none

abbrev pub domain_body : Bytes
domain_body = bytes "adjourn-v1/delegate-body"

-- The zero hash of a record that has signed nothing.
abbrev pub zeros : ℕ → Bytes
zeros zero = []
zeros (suc n) = 0 ∷ zeros n

pub data BindDecision : Type 0 where
  bind : GameRecord → BindDecision
  refuse : Refusal → BindDecision

pub data RebindDecision : Type 0 where
  rebind : GameRecord → RebindDecision
  refuse : Refusal → RebindDecision

pub data SignDecision : Type 0 where
  sign : GameRecord → SignDecision
  refuse : Refusal → SignDecision

module _ ⦃c : Crypto⦄ where
  unfoldable pub body_hash : Body → Bytes
  body_hash body = c.sha256 (domain_body ++ c.cbor_body body)

  unfoldable pub bind_new :
      Bytes
      → KeyBytes
      → GameParams
      → Bytes
      → EntropyQuality
      → Option Bytes
      → Option Color
      → BindDecision
  bind_new label public_key params contract entropy origin none =
      BindDecision.refuse Refusal.key_not_in_params
  bind_new label public_key params contract entropy origin (some color) =
      BindDecision.bind (record {
        format = game_record_format;
        label = label;
        params = params;
        side = side_of color;
        origin = origin;
        contract = contract;
        previous = none;
        entropy = entropy;
        last_signed_ply = 0;
        last_move_body_hash = zeros 32;
      })

  unfoldable pub decide_bind :
      Option GameRecord
      → Bytes
      → KeyBytes
      → GameParams
      → Bytes
      → EntropyQuality
      → Option Bytes
      → BindDecision
  unfolding bind_new
  decide_bind none label public_key params contract entropy origin =
      bind_new label public_key params contract entropy origin (color_of params public_key)
  decide_bind (some existing) label public_key params contract entropy origin =
      if not (nat_eq existing.format game_record_format)
      then BindDecision.refuse (Refusal.stale_record_format existing.format game_record_format)
      else if not (opt_eq existing.origin origin)
      then BindDecision.refuse Refusal.wrong_origin
      else if not (game_id existing.params == game_id params)
      then BindDecision.refuse (Refusal.already_bound (game_id existing.params))
      else BindDecision.bind existing

  -- The `Body::Move` arm of `decide_sign`.
  unfoldable pub decide_move : GameRecord → ℕ → Body → SignDecision
  decide_move rec ply body =
      if ltb max_ply ply
      then SignDecision.refuse (Refusal.ply_out_of_range ply max_ply)
      else if not (side_eq (side_of (color_at_ply ply)) rec.side)
      then SignDecision.refuse (Refusal.wrong_side rec.side (side_of (color_at_ply ply)))
      else if ltb ply rec.last_signed_ply
      then SignDecision.refuse (Refusal.ply_already_signed ply)
      else if nat_eq ply rec.last_signed_ply
      then (if not (nat_eq rec.last_signed_ply 0) && (body_hash body == rec.last_move_body_hash)
          then SignDecision.sign rec
          else SignDecision.refuse (Refusal.ply_already_signed ply))
      else SignDecision.sign
          (record rec { last_signed_ply = ply; last_move_body_hash = body_hash body })

  abbrev pub decide_body : GameRecord → Body → SignDecision
  decide_body rec (Body.move ply parent uci) = decide_move rec ply (Body.move ply parent uci)
  decide_body rec Body.resign = SignDecision.sign rec
  decide_body rec (Body.draw_offer _ _) = SignDecision.sign rec
  decide_body rec (Body.draw_accept _ _) = SignDecision.sign rec
  decide_body rec (Body.draw_claim _ _) = SignDecision.sign rec

  unfoldable pub decide_sign : GameRecord → Body → Option Bytes → SignDecision
  decide_sign rec body origin =
      if not (nat_eq rec.format game_record_format)
      then SignDecision.refuse (Refusal.stale_record_format rec.format game_record_format)
      else if not (opt_eq rec.origin origin)
      then SignDecision.refuse Refusal.wrong_origin
      else decide_body rec body

abbrev pub moved_from : GameRecord → Bytes → Option Bytes
moved_from existing contract =
    if existing.contract == contract then existing.previous else some existing.contract

unfoldable pub decide_rebind : Option GameRecord → Bytes → Bytes → Option Bytes → RebindDecision
decide_rebind none label contract origin = RebindDecision.refuse Refusal.not_bound
decide_rebind (some existing) label contract origin =
    if not (nat_eq existing.format game_record_format)
    then RebindDecision.refuse (Refusal.stale_record_format existing.format game_record_format)
    else if not (opt_eq existing.origin origin)
    then RebindDecision.refuse Refusal.wrong_origin
    else if not (existing.label == label)
    then RebindDecision.refuse Refusal.unknown_label
    else RebindDecision.rebind
        (record existing { contract = contract; previous = moved_from existing contract })
