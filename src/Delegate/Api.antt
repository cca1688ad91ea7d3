-- ===== src/Delegate/Api.antt =====
-- common/src/delegate_api.rs: the requests to the delegate and its responses.
use adjourn.Prelude.{ℕ, List, Option}
use adjourn.Types.{Bytes, KeyBytes, GameParams, Body, Record}
use adjourn.Policy.{Side, EntropyQuality, Refusal}

pub data Request : Type 0 where
  create_game_key : Bytes → Option Bytes → Request
  bind_game : Bytes → GameParams → Bytes → Request
  rebind : Bytes → Bytes → Request
  sign : Bytes → Body → Request
  list_games : Request

pub record GameSummary : Type 0 where
  pub label : Bytes
  pub public_key : KeyBytes
  pub game_id : Option Bytes
  pub side : Option Side
  pub last_signed_ply : ℕ
  pub entropy : Option EntropyQuality
  pub params : Option GameParams
  pub contract : Option Bytes
  pub previous : Option Bytes

pub data Response : Type 0 where
  game_key : Bytes → KeyBytes → EntropyQuality → Response
  bound : Bytes → Response
  signed : Record → Response
  games : List GameSummary → Response
  refused : Refusal → Response
