-- ===== src/Delegate/Secrets.antt =====
-- delegates/adjourn-delegate/src/secrets.rs: the names of the secrets and the typed access to them.
use adjourn.Prelude.{
  Bool, true, false, List, [], ◌∷◌, ◌++◌, Option, none, some, nat_eq, ◌>>=◌, if◌then◌else◌,
}
use adjourn.Prelude.Lists.{length}
use adjourn.Types.{Bytes, bytes}
use adjourn.Types.Crypto.{Crypto, game_id}
use adjourn.Policy.{EntropyQuality, GameRecord, migrate_record}

-- `trait SecretStore`: a write returns the store after it, and whether it succeeded.
pub record SecretStore (S : Type 0) : Type 0 where
  pub get : S → Bytes → Option Bytes
  pub set : S → Bytes → Bytes → S × Bool
  pub list : S → Bytes → List Bytes
  pub contract_state : S → Bytes → Option Bytes

-- What is called of ciborium and of `String` for the values of the secrets.
pub record SecretCodec : Type 0 where
  pub write_record : GameRecord → Bytes
  pub read_record : Bytes → Option GameRecord
  pub write_quality : EntropyQuality → Bytes
  pub read_quality : Bytes → Option EntropyQuality
  -- `String::from_utf8`
  pub from_utf8 : Bytes → Option Bytes

abbrev pub key_prefix : Bytes
key_prefix = bytes "chess/key/"

abbrev pub bind_prefix : Bytes
bind_prefix = bytes "chess/bind/"

abbrev pub game_prefix : Bytes
game_prefix = bytes "chess/game/"

abbrev pub owner_prefix : Bytes
owner_prefix = bytes "chess/owner/"

abbrev pub quality_prefix : Bytes
quality_prefix = bytes "chess/quality/"

abbrev pub key_secret : Bytes → Bytes
key_secret label = key_prefix ++ label

abbrev pub bind_secret : Bytes → Bytes
bind_secret label = bind_prefix ++ label

abbrev pub game_secret : Bytes → Bytes
game_secret id = game_prefix ++ id

abbrev pub owner_secret : Bytes → Bytes
owner_secret label = owner_prefix ++ label

abbrev pub quality_secret : Bytes → Bytes
quality_secret label = quality_prefix ++ label

-- `<[u8; 32]>::try_from(..).ok()`
abbrev pub as_32 : Bytes → Option Bytes
as_32 b = if nat_eq (length b) 32 then some b else none

-- `&&` between two writes: the second is not tried after a failure.
abbrev pub and_then {ℓ} : {S : Type ℓ} → S × Bool → (S → S × Bool) → S × Bool
and_then (s, false) next = (s, false)
and_then (s, true) next = next s

-- `strip_prefix`
unfoldable pub strip_prefix : Bytes → Bytes → Option Bytes
strip_prefix [] b = some b
strip_prefix (x ∷ prefix) [] = none
strip_prefix (x ∷ prefix) (y ∷ b) = if nat_eq x y then strip_prefix prefix b else none

module _ ⦃secrets : SecretCodec⦄ where
  abbrev pub label_of : Bytes → Option Bytes
  label_of key = do suffix ← strip_prefix key_prefix key; secrets.from_utf8 suffix

  abbrev pub push_label : Option Bytes → List Bytes → List Bytes
  push_label none labels = labels
  push_label (some label) labels = label ∷ labels

  -- `filter_map` over the keys
  unfoldable pub labels_of : List Bytes → List Bytes
  labels_of [] = []
  labels_of (key ∷ keys) = push_label (label_of key) (labels_of keys)

module _ ⦃c : Crypto⦄ ⦃secrets : SecretCodec⦄ {S : Type 0} ⦃store : SecretStore S⦄ where
  unfoldable pub load_seed : S → Bytes → Option Bytes
  load_seed s label = do b ← store.get s (key_secret label); as_32 b

  unfoldable pub load_bound_game_id : S → Bytes → Option Bytes
  load_bound_game_id s label = do b ← store.get s (bind_secret label); as_32 b

  unfoldable pub load_game : S → Bytes → Option GameRecord
  load_game s id = do
    b ← store.get s (game_secret id)
    rec ← secrets.read_record b
    migrate_record rec

  unfoldable pub load_owner : S → Bytes → Option Bytes
  load_owner s label = do b ← store.get s (owner_secret label); as_32 b

  unfoldable pub load_quality : S → Bytes → Option EntropyQuality
  load_quality s label = do b ← store.get s (quality_secret label); secrets.read_quality b

  unfoldable pub store_game : S → GameRecord → S × Bool
  store_game s rec =
      and_then (store.set s (game_secret (game_id rec.params)) (secrets.write_record rec))
        (λ s. store.set s (bind_secret rec.label) (game_id rec.params))

  unfoldable pub list_labels : S → List Bytes
  list_labels s = labels_of (store.list s key_prefix)
