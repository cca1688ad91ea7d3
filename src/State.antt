-- ===== src/State.antt =====
-- common/src/state.rs: the set of signed records, and the operations of its algebra.
pub mod Groups
pub mod Holds
pub mod Union
pub mod Members
pub mod Evict
pub mod TopK
pub mod Merge
pub mod Batches
pub mod Orders
pub mod Summary
pub mod Wire
use adjourn.Prelude.{
  ℕ, ◌≡◌, Bool, true, false, not, ◌&&◌, List, [], ◌∷◌, ◌++◌, map, Option, none, some, ltb, is_some,
  if◌then◌else◌,
}
use adjourn.Prelude.Lists.{length, drop, all}
use adjourn.Prelude.Order.{◌==◌, ◌≼◌, nat_ord, list_ord}
use adjourn.BTree.{Map, get, insert, remove, values}
use adjourn.Types.{Bytes, RecordId, Kind, k_of, GameParams, Record}
use adjourn.Types.Crypto.{Crypto, id_of, sig_digest, verify}
use Groups.{Group, group_of, group_ord}

abbrev pub Records : Type 0
Records = Map RecordId Record

pub record GameState : Type 0 where
  pub records : Records

-- `impl Default`
abbrev pub empty : GameState
empty = record { records = [] }

-- `held.sig == rec.sig` under `is_some_and`
abbrev pub held_same : Option Record → Record → Bool
held_same none r = false
held_same (some held) r = held.sig == r.sig

-- `for (id, rec) in &self.records { .. groups.entry(g).or_default().push(*id) }`
abbrev pub ids_or_empty : Option (List RecordId) → List RecordId
ids_or_empty none = []
ids_or_empty (some ids) = ids

unfoldable pub push_id :
    Map Group (List RecordId) → RecordId → Option Group → Map Group (List RecordId)
push_id groups id none = groups
push_id groups id (some g) = insert g (ids_or_empty (get g groups) ++ id ∷ []) groups

unfoldable pub build_groups : Map Group (List RecordId) → Records → Map Group (List RecordId)
build_groups groups [] = groups
build_groups groups ((id, rec) ∷ m) = build_groups (push_id groups id (group_of rec)) m

-- `for id in ids { self.records.remove(id) }`
unfoldable pub remove_all : List RecordId → Records → Records
remove_all [] s = s
remove_all (id ∷ ids) s = remove_all ids (remove id s)

-- `for ((_, kind, _), ids) in groups { .. }`
unfoldable pub sweep : Map Group (List RecordId) → Records → Records
sweep [] s = s
sweep (((_, kind, _), ids) ∷ groups) s =
    sweep groups (if ltb (k_of kind) (length ids) then remove_all (drop (k_of kind) ids) s else s)

unfoldable pub evict : Records → Records
evict s = sweep (build_groups [] s) s

module _ ⦃c : Crypto⦄ where
  -- The insertion of a verified record that is not there byte for byte.
  abbrev pub settle : GameParams → Records → Record → Option Record → Records
  settle params s rec none = insert (id_of rec) rec s
  settle params s rec (some existing) =
      if verify params existing && (existing.sig ≼ rec.sig) then s else insert (id_of rec) rec s

  unfoldable pub absorb : GameParams → Records → Record → Records
  absorb params s rec =
      if held_same (get (id_of rec) s) rec
      then s
      else if not (verify params rec)
      then s
      else settle params s rec (get (id_of rec) s)

  -- `for rec in .. { self.absorb(rec, params) }`
  unfoldable pub absorb_all : GameParams → Records → List Record → Records
  absorb_all params s [] = s
  absorb_all params s (rec ∷ recs) = absorb_all params (absorb params s rec) recs

  -- `merge`, and `merged` on a copy
  unfoldable pub merge : GameParams → GameState → GameState → GameState
  merge params self other = record {
    records = evict (absorb_all params self.records (values other.records));
  }

  unfoldable pub insert_verified : GameParams → GameState → Record → GameState × Bool
  insert_verified params self rec =
      (record { records = evict (absorb params self.records rec) }, verify params rec)

  unfoldable pub filter_valid : GameParams → GameState → GameState
  filter_valid params self = merge params empty self

  unfoldable pub all_valid : GameParams → GameState → Bool
  all_valid params self = all (verify params) (values self.records)

  unfoldable pub apply_delta : GameParams → GameState → List Record → GameState
  apply_delta params self delta = record { records = evict (absorb_all params self.records delta) }
