-- ===== src/Types/Crypto.antt =====
-- common/src/types.rs: content addresses, signing payloads, signing and `Record::verify`, over the
-- functions of sha2, ciborium and ed25519_dalek that they call.
use adjourn.Prelude.{
  ℕ, ◌≡◌, Bool, false, not, ◌++◌, Option, none, some, nat_eq, ltb, is_some, if◌then◌else◌,
}
use adjourn.Prelude.Lists.{length}
use adjourn.Types.{
  Bytes, bytes, RecordId, max_ply, GameParams, color_of, Color, Body, ply_of, Record,
}

-- The third-party functions.
pub record Crypto : Type 0 where
  -- `Sha256::digest` of the bytes that the `update` calls feed in
  pub sha256 : Bytes → Bytes
  -- `ciborium::into_writer` of a body
  pub cbor_body : Body → Bytes
  -- `VerifyingKey::from_bytes` and `Signature::from_slice`
  pub verifying_key : Bytes → Option Bytes
  pub signature : Bytes → Option Bytes
  -- `VerifyingKey::verify`: key, message, signature
  pub check : Bytes → Bytes → Bytes → Bool
  -- `SigningKey::from_bytes(..).verifying_key().to_bytes()` and `SigningKey::sign`
  pub public_key : Bytes → Bytes
  pub sign_bytes : Bytes → Bytes → Bytes

abbrev pub domain_game : Bytes
domain_game = bytes "adjourn-v1/game"

abbrev pub domain_genesis : Bytes
domain_genesis = bytes "adjourn-v1/genesis"

abbrev pub domain_rec : Bytes
domain_rec = bytes "adjourn-v1/rec"

abbrev pub domain_sig : Bytes
domain_sig = bytes "adjourn-v1/sig"

abbrev pub domain_sigdigest : Bytes
domain_sigdigest = bytes "adjourn-v1/sigdigest"

-- `self.body.ply().is_some_and(|p| p > MAX_PLY)`
abbrev pub past_cap : Option ℕ → Bool
past_cap none = false
past_cap (some p) = ltb max_ply p

module _ ⦃c : Crypto⦄ where
  unfoldable pub game_id : GameParams → Bytes
  game_id p = c.sha256 (domain_game ++ (p.white ++ (p.black ++ p.nonce)))

  unfoldable pub genesis : GameParams → RecordId
  genesis p = c.sha256 (domain_genesis ++ game_id p)

  unfoldable pub signing_payload : Bytes → Body → Bytes
  signing_payload id body = domain_sig ++ (id ++ c.cbor_body body)

  unfoldable pub id_of : Record → RecordId
  id_of r = c.sha256 (domain_rec ++ (r.signer ++ c.cbor_body r.body))

  unfoldable pub sig_digest : Record → Bytes
  sig_digest r = c.sha256 (domain_sigdigest ++ r.sig)

  unfoldable pub sign : Bytes → GameParams → Body → Record
  sign key params body = record {
    body = body;
    signer = c.public_key key;
    sig = c.sign_bytes key (signing_payload (game_id params) body);
  }

  unfoldable pub verify : GameParams → Record → Bool
  verify params r =
      if not (is_some (color_of params r.signer))
      then false
      else if past_cap (ply_of r.body)
      then false
      else if not (nat_eq (length r.sig) 64)
      then false
      else elim (c.verifying_key r.signer) [
        | none ↦ false
        | some vk ↦ elim (c.signature r.sig) [
          | none ↦ false
          | some s ↦ c.check vk (signing_payload (game_id params) r.body) s
        ]
      ]

  abbrev pub record_color : GameParams → Record → Option Color
  record_color params r = color_of params r.signer

  -- SHA-256 has 32 bytes.
  abbrev pub IsWideHash : Type 0
  IsWideHash = (b : Bytes) → length (c.sha256 b) ≡ 32
