-- ===== src/Client/Invite.antt =====
-- client/src/invite.rs: the two blobs that the players exchange, base58 of CBOR.
pub mod Trim
pub mod Roundtrip
use adjourn.Prelude.{ℕ, ◌≡◌, not, Option, none, some, nat_eq, if◌then◌else◌}
use adjourn.Types.{Bytes, KeyBytes, GameParams}
use adjourn.Policy.{Side}
use adjourn.Client.{Fallible, failed, done, InviteError}
use Trim.{trim}

abbrev pub invite_format : ℕ
invite_format = 1

abbrev pub offer_format : ℕ
offer_format = 1

pub record Invite : Type 0 where
  pub v : ℕ
  pub side : Side
  pub public_key : KeyBytes
  pub nonce : Bytes

pub record GameOffer : Type 0 where
  pub v : ℕ
  pub params : GameParams
  pub contract : Bytes

-- `Serialize` and `Deserialize` of a type, through ciborium.
pub record Serde (T : Type 0) : Type 0 where
  pub write : T → Bytes
  pub read : Bytes → Option T

-- The functions called of bs58.
pub record Base58 : Type 0 where
  pub encode : Bytes → Bytes
  pub decode : Bytes → Option Bytes

module _ ⦃base : Base58⦄ {T : Type 0} ⦃serde : Serde T⦄ where
  unfoldable pub encode_blob : T → Bytes
  encode_blob value = base.encode (serde.write value)

  abbrev pub read_blob : Option Bytes → Fallible InviteError T
  read_blob none = failed InviteError.base58
  read_blob (some bytes) = elim (serde.read bytes) [
    | none ↦ failed InviteError.malformed
    | some t ↦ done t
  ]

  unfoldable pub decode_blob : Bytes → Fallible InviteError T
  decode_blob text = read_blob (base.decode (trim text))

unfoldable pub new_invite : Side → KeyBytes → Bytes → Invite
new_invite side public_key nonce = record {
  v = invite_format;
  side = side;
  public_key = public_key;
  nonce = nonce;
}

unfoldable pub new_offer : GameParams → Bytes → GameOffer
new_offer params contract = record { v = offer_format; params = params; contract = contract }

-- `if me.v != FORMAT { return Err(Version { .. }) }`
abbrev pub check_version :
    {T : Type 0} → (T → ℕ) → ℕ → Fallible InviteError T → Fallible InviteError T
check_version v format (failed e) = failed e
check_version v format (done me) =
    if not (nat_eq (v me) format) then failed (InviteError.version (v me) format) else done me

module _ ⦃base : Base58⦄ ⦃serde : Serde Invite⦄ where
  unfoldable pub encode_invite : Invite → Bytes
  encode_invite me = encode_blob me

  unfoldable pub decode_invite : Bytes → Fallible InviteError Invite
  decode_invite text = check_version (λ me. me.v) invite_format (decode_blob text)

module _ ⦃base : Base58⦄ ⦃serde : Serde GameOffer⦄ where
  unfoldable pub encode_offer : GameOffer → Bytes
  encode_offer me = encode_blob me

  unfoldable pub decode_offer : Bytes → Fallible InviteError GameOffer
  decode_offer text = check_version (λ me. me.v) offer_format (decode_blob text)
