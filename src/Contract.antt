-- ===== src/Contract.antt =====
-- contracts/adjourn-contract/src/lib.rs: the `ContractInterface` adapter, bytes in and bytes out.
pub mod Cbor
pub mod Reread
pub mod Orders
pub mod Update
pub mod Sync
use adjourn.Prelude.{
  ℕ, ◌≡◌, Bool, true, false, not, List, [], ◌∷◌, Option, none, some, if◌then◌else◌,
}
use adjourn.Prelude.Lists.{all}
use adjourn.Types.{Bytes, GameParams, Record}
use adjourn.Types.Crypto.{Crypto, verify}
use adjourn.State.{GameState, empty, merge, filter_valid, all_valid, apply_delta}
use adjourn.State.Summary.{Summary, summarize, delta_against}
use adjourn.State.Wire.{to_sequence, from_sequence, pack, unpack}
use Cbor.{Codec}

pub data ContractError : Type 0 where
  deser invalid_update invalid_update_with_info : ContractError

pub data Result {ℓ} (T : Type ℓ) : Type ℓ where
  err : ContractError → Result T
  ok : T → Result T

-- the operator `?`
infixl 5 ◌>>=◌
abbrev pub ◌>>=◌ {ℓ κ} : {T : Type ℓ} {U : Type κ} → Result T → (T → Result U) → Result U
err e >>= next = err e
ok t >>= next = next t

-- `map_err(|e| ContractError::Deser(..))`
abbrev pub or_deser {ℓ} : {A : Type ℓ} → Option A → Result A
or_deser none = err ContractError.deser
or_deser (some a) = ok a

pub data ValidateResult : Type 0 where
  valid invalid : ValidateResult

-- `freenet_stdlib::UpdateData`, with its unknown variants as one.
pub data UpdateData : Type 0 where
  state : Bytes → UpdateData
  delta : Bytes → UpdateData
  state_and_delta : Bytes → Bytes → UpdateData
  related_state related_delta related_state_and_delta : UpdateData
  unknown : UpdateData

module _ ⦃c : Crypto⦄ ⦃codec : Codec⦄ where
  -- `Deserialize for GameState` through CBOR
  abbrev pub read_state : Bytes → Option GameState
  read_state bytes = elim (codec.read_records bytes) [
    | none ↦ none
    | some records ↦ from_sequence records
  ]

  unfoldable pub decode_state : Bytes → Result GameState
  decode_state [] = ok empty
  decode_state (b ∷ bytes) = or_deser (read_state (b ∷ bytes))

  abbrev pub decode_params : Bytes → Result GameParams
  decode_params bytes = or_deser (codec.read_params bytes)

  abbrev pub encode_state : GameState → Bytes
  encode_state s = codec.write_records (to_sequence s)

  unfoldable pub check_valid : GameState → GameParams → Result (Unit {0})
  check_valid game params =
      if all_valid params game then ok tt else err ContractError.invalid_update_with_info

  unfoldable pub validate_state : Bytes → Bytes → Result ValidateResult
  validate_state parameters [] = ok ValidateResult.valid
  validate_state parameters (b ∷ bytes) = do
    params ← decode_params parameters
    game ← decode_state (b ∷ bytes)
    ok (if all_valid params game then ValidateResult.valid else ValidateResult.invalid)

  -- `for rec in &delta { if !rec.verify(&params) { return Err(..) } }`
  abbrev pub check_delta : GameParams → List Record → Result (Unit {0})
  check_delta params recs =
      if all (verify params) recs then ok tt else err ContractError.invalid_update_with_info

  unfoldable pub absorb_state : GameParams → GameState → Bytes → Result GameState
  absorb_state params game bytes = do
    incoming ← decode_state bytes
    _ ← check_valid incoming params
    ok (merge params game incoming)

  unfoldable pub absorb_delta : GameParams → GameState → Bytes → Result GameState
  absorb_delta params game [] = ok game
  absorb_delta params game (b ∷ bytes) = do
    recs ← or_deser (codec.read_records (b ∷ bytes))
    _ ← check_delta params recs
    ok (apply_delta params game recs)

  unfoldable pub absorb_update : GameParams → GameState → UpdateData → Result GameState
  absorb_update params game (UpdateData.state bytes) = absorb_state params game bytes
  absorb_update params game (UpdateData.delta bytes) = absorb_delta params game bytes
  absorb_update params game (UpdateData.state_and_delta bytes recs) = do
    game' ← absorb_state params game bytes
    absorb_delta params game' recs
  absorb_update params game UpdateData.related_state = ok game
  absorb_update params game UpdateData.related_delta = ok game
  absorb_update params game UpdateData.related_state_and_delta = ok game
  absorb_update params game UpdateData.unknown = err ContractError.invalid_update

  -- `for update in data { .. }`
  unfoldable pub absorb_updates : GameParams → GameState → List UpdateData → Result GameState
  absorb_updates params game [] = ok game
  absorb_updates params game (update ∷ updates) = do
    game' ← absorb_update params game update
    absorb_updates params game' updates

  unfoldable pub update_state : Bytes → Bytes → List UpdateData → Result Bytes
  update_state parameters bytes updates = do
    params ← decode_params parameters
    base ← decode_state bytes
    game ← absorb_updates params (filter_valid params base) updates
    ok (encode_state game)

  unfoldable pub summarize_state : Bytes → Bytes → Result Bytes
  summarize_state parameters bytes = do
    params ← decode_params parameters
    game ← decode_state bytes
    ok (codec.write_bytes (pack (summarize (filter_valid params game))))

  -- An empty summary is a peer that holds nothing.
  unfoldable pub decode_summary : Bytes → Result Summary
  decode_summary [] = ok []
  decode_summary (b ∷ bytes) =
      or_deser (elim (codec.read_bytes (b ∷ bytes)) [ none ↦ none | some packed ↦ unpack packed ])

  -- An empty delta is zero bytes.
  abbrev pub encode_delta : List Record → Bytes
  encode_delta [] = []
  encode_delta (r ∷ recs) = codec.write_records (r ∷ recs)

  unfoldable pub get_state_delta : Bytes → Bytes → Bytes → Result Bytes
  get_state_delta parameters bytes summary = do
    params ← decode_params parameters
    game ← decode_state bytes
    known ← decode_summary summary
    ok (encode_delta (delta_against (filter_valid params game) known))
