-- ===== src/Delegate/Memory.antt =====
-- delegates/adjourn-delegate/src/secrets.rs: `MemoryStore`, the store in memory.
use adjourn.Prelude.{Bool, true, false, List, [], ◌∷◌, map, none, nat_eq, if◌then◌else◌}
use adjourn.Prelude.Lists.{retain}
use adjourn.Prelude.Order.{nat_ord, list_ord}
use adjourn.BTree.{Map, get, insert}
use adjourn.BTree.Laws.{get-insert}
use adjourn.Types.{Bytes}
use adjourn.Delegate.Secrets.{SecretStore}
use adjourn.Delegate.Laws.{IsStore}

abbrev pub MemoryStore : Type 0
MemoryStore = Map Bytes Bytes

unfoldable pub starts_with : Bytes → Bytes → Bool
starts_with [] b = true
starts_with (x ∷ prefix) [] = false
starts_with (x ∷ prefix) (y ∷ b) = if nat_eq x y then starts_with prefix b else false

-- `keys().filter(..)`
unfoldable pub keys_with : Bytes → MemoryStore → List Bytes
keys_with prefix m = retain (starts_with prefix) (map (λ e. e.0) m)

instance abbrev pub memory_store : SecretStore MemoryStore
memory_store = record {
  get = λ m k. get k m;
  set = λ m k v. (insert k v m, true);
  list = λ m prefix. keys_with prefix m;
  contract_state = λ m id. none;
}

pub memory_store-IsStore : IsStore memory_store
memory_store-IsStore = record { get_set = λ m k v j. get-insert j k v m }
