-- ===== src/Delegate/Create.antt =====
-- delegates/adjourn-delegate/src/lib.rs: the writes of `handle_create_game_key`.
use adjourn.Prelude.{◌≡◌, refl, ap, true, false, Option, none, some, ◌>>=◌, arith}
use adjourn.Prelude.Order.{nat_ord, list_ord, ==_self}
use adjourn.Types.{Bytes}
use adjourn.Types.Crypto.{Crypto}
use adjourn.Policy.{EntropyQuality, Refusal}
use adjourn.Policy.Seed.{SeedResult, classify_host_entropy, derive_seed}
use adjourn.Delegate.{handle_create_game_key, store_key}
use adjourn.Delegate.Api.{Response}
use adjourn.Delegate.Secrets.{
  SecretStore, SecretCodec, key_secret, quality_secret, owner_secret, load_owner, as_32,
}
use adjourn.Delegate.Laws.{IsStore}

module _ ⦃c : Crypto⦄ ⦃secrets : SecretCodec⦄ {S : Type 0} ⦃store : SecretStore S⦄ where
  -- The writes of the seed and of its quality succeed, and that of the owner fails.
  abbrev pub OwnerFails : S → Bytes → Bytes → EntropyQuality → Bytes → Type 0
  OwnerFails s label seed quality origin =
      let first = store.set s (key_secret label) seed in
      let second = store.set first.0 (quality_secret label) (secrets.write_quality quality) in
      (first.1 ≡ true)
      × (second.1 ≡ true)
      × ((store.set second.0 (owner_secret label) origin).1 ≡ false)

  module _ (laws : IsStore store) where
    -- what the three writes leave
    abbrev left_by : S → Bytes → Bytes → EntropyQuality → Bytes → S
    left_by s label seed quality origin =
        (store.set
          (store.set (store.set s (key_secret label) seed).0 (quality_secret label)
            (secrets.write_quality quality)).0
          (owner_secret label) origin).0

    store_key-failed :
        (s : S) (label seed : Bytes) (quality : EntropyQuality) (origin : Bytes)
        → OwnerFails s label seed quality origin
        → store_key s label seed quality (some origin)
          ≡ (left_by s label seed quality origin, false)
    unfolding store_key
    store_key-failed s label seed quality origin (a, b, d) =
        rw (a, b) (ap (λ ok. (left_by s label seed quality origin, ok)) d)

    abbrev owner_in : Option Bytes → Option Bytes
    owner_in o = do b ← o; as_32 b

    after_failure :
        (s : S) (label seed : Bytes) (quality : EntropyQuality) (origin : Bytes)
        → OwnerFails s label seed quality origin
        → (store.get (left_by s label seed quality origin) (key_secret label) ≡ some seed)
          × (load_owner (left_by s label seed quality origin) label ≡ load_owner s label)
    unfolding load_owner
    after_failure s label seed quality origin (a, b, d) =
        let first = store.set s (key_secret label) seed in
        let second = store.set first.0 (quality_secret label) (secrets.write_quality quality) in
        let key = key_secret label in
        let owner = owner_secret label in
        let self = ==_self key in
        let key_first = laws.get_set s key seed key in
        let key_second =
          laws.get_set first.0 (quality_secret label) (secrets.write_quality quality) key in
        let key_third = laws.get_set second.0 owner origin key in
        let owner_first = laws.get_set s key seed owner in
        let owner_second =
          laws.get_set first.0 (quality_secret label) (secrets.write_quality quality) owner in
        let owner_third = laws.get_set second.0 owner origin owner in
        let same : store.get (left_by s label seed quality origin) owner ≡ store.get s owner =
          ground arith in
        (ground arith, ap owner_in same)

    -- If a label has no key and a seed is derived for it, but of the three writes the last one, of
    -- the owner, fails, then the caller is refused with a failed store, yet the seed stays in the
    -- store, the label's owner is read as before, and a creation under the label that comes next is
    -- refused because the label exists. The store keeps its law.
    pub handle_create_game_key-owner_failed :
        (s : S) (first second : Bytes) (origin label seed : Bytes) (caller : Option Bytes)
        (quality : EntropyQuality) (entropy : Bytes × Bytes) (again retry : Option Bytes)
        → store.get s (key_secret label) ≡ none
        → derive_seed (classify_host_entropy first second) caller label ≡ SeedResult.ok seed quality
        → OwnerFails s label seed quality origin
        → let out = handle_create_game_key (first, second) s (some origin) label caller in
          (out.1 ≡ Response.refused Refusal.store_failed)
          × (store.get out.0 (key_secret label) ≡ some seed)
          × (load_owner out.0 label ≡ load_owner s label)
          × ((handle_create_game_key entropy out.0 again label retry).1
              ≡ Response.refused Refusal.label_exists)
    unfolding handle_create_game_key
    handle_create_game_key-owner_failed s first second origin label seed caller quality entropy
          again retry free made fails =
        let failed = store_key-failed s label seed quality origin fails in
        let left = after_failure s label seed quality origin fails in
        rw (free, made, failed) (refl, left.0, left.1, locked left.0)
      where
        locked :
            store.get (left_by s label seed quality origin) (key_secret label) ≡ some seed
            → (handle_create_game_key entropy
                (left_by s label seed quality origin)
                again
                label
                retry).1
              ≡ Response.refused Refusal.label_exists
        locked e = rw e refl
