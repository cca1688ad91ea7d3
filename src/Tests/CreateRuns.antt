-- ===== src/Tests/CreateRuns.antt =====
-- A creation of a key in a store that refuses to write owners.
use adjourn.Prelude.{◌≡◌, refl, [], ◌∷◌, none, some}
use adjourn.Prelude.Order.{nat_ord, list_ord}
use adjourn.BTree.{get}
use adjourn.Types.{Bytes}
use adjourn.Policy.{EntropyQuality, Refusal}
use adjourn.Policy.Seed.{seed_of, classify_host_entropy, derive_seed}
use adjourn.Delegate.{handle_create_game_key}
use adjourn.Delegate.Api.{Response}
use adjourn.Delegate.Create.{handle_create_game_key-owner_failed}
use adjourn.Delegate.Memory.{starts_with}
use adjourn.Delegate.Secrets.{key_secret, load_owner}
use adjourn.Tests.Toy.{toy}
use adjourn.Tests.Vault.{vault, own_label, ada, forgetful, forgetful-IsStore}

abbrev draw : Bytes
draw = 3 ∷ []

abbrev seed : Bytes
seed = seed_of draw none own_label

handle_create_game_key-owner_failed_example :
    let out = handle_create_game_key ⦃store = forgetful⦄ (draw, []) [] (some ada) own_label none in
    (out.1 ≡ Response.refused Refusal.store_failed)
    × (get (key_secret own_label) out.0 ≡ some seed)
    × (load_owner ⦃store = forgetful⦄ out.0 own_label ≡ load_owner ⦃store = forgetful⦄ [] own_label)
    × ((handle_create_game_key ⦃store = forgetful⦄ (draw, []) out.0 (some ada) own_label none).1
        ≡ Response.refused Refusal.label_exists)
unfolding get starts_with derive_seed classify_host_entropy
handle_create_game_key-owner_failed_example =
    handle_create_game_key-owner_failed ⦃store = forgetful⦄ forgetful-IsStore [] draw [] ada
      own_label seed none EntropyQuality.host_backed (draw, []) (some ada) none refl refl
      (refl, refl, refl)
