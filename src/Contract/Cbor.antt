-- ===== src/Contract/Cbor.antt =====
-- What the contract calls of ciborium: CBOR of a sequence of records, of the parameters and of one
-- byte string; and what it relies on, that reading gives back what was written.
use adjourn.Prelude.{◌≡◌, ◌≢◌, List, [], Option, some}
use adjourn.Types.{Bytes, GameParams, Record}

pub record Codec : Type 0 where
  pub write_records : List Record → Bytes
  pub read_records : Bytes → Option (List Record)
  pub write_params : GameParams → Bytes
  pub read_params : Bytes → Option GameParams
  pub write_bytes : Bytes → Bytes
  pub read_bytes : Bytes → Option Bytes

-- Every CBOR item has a byte at least, and decodes to what it was made from.
pub record IsCodec (codec : Codec) : Type 0 where
  pub records_nonempty : (rs : List Record) → codec.write_records rs ≢ []
  pub read_write_records :
      (rs : List Record) → codec.read_records (codec.write_records rs) ≡ some rs
  pub read_write_params : (p : GameParams) → codec.read_params (codec.write_params p) ≡ some p
  pub bytes_nonempty : (b : Bytes) → codec.write_bytes b ≢ []
  pub read_write_bytes : (b : Bytes) → codec.read_bytes (codec.write_bytes b) ≡ some b
