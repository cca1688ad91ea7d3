-- ===== src/Tests/Vault.antt =====
-- An encoding of the delegate's secrets, a store with one key, and a store that refuses owners, for
-- the examples.
use adjourn.Prelude.{
  ℕ, zero, suc, ◌≡◌, refl, Bool, true, false, [], ◌∷◌, Option, none, some, ◌>>=◌, if◌then◌else◌,
  arith, Bool-cases, inl, inr,
}
use adjourn.Prelude.Order.{nat_ord, list_ord}
use adjourn.BTree.{get, insert}
use adjourn.BTree.Laws.{get-insert}
use adjourn.Types.{Bytes}
use adjourn.Policy.{Side, EntropyQuality, GameRecord}
use adjourn.Delegate.Secrets.{SecretStore, SecretCodec, key_secret, owner_prefix, load_game}
use adjourn.Delegate.Laws.{IsStore, IsSecretCodec}
use adjourn.Delegate.Guards.{IsKeyed}
use adjourn.Delegate.Memory.{MemoryStore, memory_store, starts_with}
use adjourn.Tests.Cbor.{frame, read_frame, read_frame-frame}
use adjourn.Tests.Toy.{toy, white_key}

abbrev pub side_code : Side → ℕ
side_code Side.white = 0
side_code Side.black = 1

abbrev pub side_at : ℕ → Side
side_at zero = Side.white
side_at (suc _) = Side.black

abbrev quality_code : EntropyQuality → ℕ
quality_code EntropyQuality.host_backed = 0
quality_code EntropyQuality.degraded = 1

abbrev quality_at : ℕ → EntropyQuality
quality_at zero = EntropyQuality.host_backed
quality_at (suc _) = EntropyQuality.degraded

pub side_at-side_code : (x : Side) → side_at (side_code x) ≡ x
side_at-side_code Side.white = refl
side_at-side_code Side.black = refl

quality_at-quality_code : (x : EntropyQuality) → quality_at (quality_code x) ≡ x
quality_at-quality_code EntropyQuality.host_backed = refl
quality_at-quality_code EntropyQuality.degraded = refl

unfoldable pub frame_opt : Option Bytes → Bytes → Bytes
frame_opt none rest = 0 ∷ rest
frame_opt (some b) rest = 1 ∷ frame b rest

unfoldable pub read_opt : Bytes → Option (Option Bytes × Bytes)
read_opt [] = none
read_opt (zero ∷ rest) = some (none, rest)
read_opt (suc _ ∷ rest) = do (b, rest) ← read_frame rest; some (some b, rest)

read_opt-frame_opt :
    (o : Option Bytes) (rest : Bytes) → read_opt (frame_opt o rest) ≡ some (o, rest)
unfolding read_opt frame_opt
read_opt-frame_opt none rest = refl
read_opt-frame_opt (some b) rest = rw (read_frame-frame b rest) refl

unfoldable pub write_vault : GameRecord → Bytes
write_vault r =
    r.format
    ∷ side_code r.side
    ∷ quality_code r.entropy
    ∷ r.last_signed_ply
    ∷ frame r.label (
        frame r.params.white (
          frame r.params.black (
            frame r.params.nonce (
              frame_opt r.origin
                (frame r.contract (frame_opt r.previous (frame r.last_move_body_hash [])))))))

unfoldable pub read_vault : Bytes → Option GameRecord
read_vault (format ∷ side ∷ entropy ∷ ply ∷ b) = do
  (label, b) ← read_frame b
  (white, b) ← read_frame b
  (black, b) ← read_frame b
  (nonce, b) ← read_frame b
  (origin, b) ← read_opt b
  (contract, b) ← read_frame b
  (previous, b) ← read_opt b
  (hash, b) ← read_frame b
  some (record {
    format = format;
    label = label;
    params = record { white = white; black = black; nonce = nonce };
    side = side_at side;
    origin = origin;
    contract = contract;
    previous = previous;
    entropy = quality_at entropy;
    last_signed_ply = ply;
    last_move_body_hash = hash;
  })
read_vault _ = none

instance abbrev pub vault : SecretCodec
vault = record {
  write_record = write_vault;
  read_record = read_vault;
  write_quality = λ q. quality_code q ∷ [];
  read_quality = λ b. none;
  from_utf8 = λ b. some b;
}

pub vault-IsSecretCodec : IsSecretCodec vault
unfolding read_vault write_vault
vault-IsSecretCodec = record {
  read_write_record = λ r.
      rw
        (
          read_frame-frame r.label _,
          read_frame-frame r.params.white _,
          read_frame-frame r.params.black _,
          read_frame-frame r.params.nonce _,
          read_opt-frame_opt r.origin _,
          read_frame-frame r.contract _,
          read_opt-frame_opt r.previous _,
          read_frame-frame r.last_move_body_hash [],
          side_at-side_code r.side,
          quality_at-quality_code r.entropy,
        )
        refl;
}

abbrev pub own_label : Bytes
own_label = 1 ∷ []

abbrev pub ada : Bytes
ada = 65 ∷ []

-- a store with white's key, which nobody owns
abbrev pub stocked : MemoryStore
stocked = insert (key_secret own_label) white_key []

pub stocked-IsKeyed : IsKeyed stocked
unfolding load_game get insert
stocked-IsKeyed id r e = absurd (ground arith)

-- a store that refuses to write an owner
abbrev pub refuses : Bytes → Bool
refuses k = starts_with owner_prefix k

abbrev pub forgetful : SecretStore MemoryStore
forgetful = record {
  get = λ m k. get k m;
  set = λ m k v. if refuses k then (m, false) else (insert k v m, true);
  list = λ m prefix. [];
  contract_state = λ m id. none;
}

pub forgetful-IsStore : IsStore forgetful
forgetful-IsStore = record {
  get_set = λ m k v j. elim (Bool-cases (refuses k)) [
    | inl e ↦ rw e refl
    | inr e ↦ rw e (get-insert j k v m)
  ];
}
