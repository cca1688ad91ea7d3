-- ===== src/Policy/Bind.antt =====
-- common/src/delegate_policy.rs: `decide_bind`, `decide_rebind` and `migrate_record`, field by
-- field.
use adjourn.Prelude.{◌≡◌, ◌⊎◌, inl, inr, refl, ap, true, Option, none, some, arith, Option-cases}
use adjourn.Prelude.Order.{nat_ord, list_ord, eq_of_==}
use adjourn.Types.{Bytes, GameParams, color_of, Color, KeyBytes}
use adjourn.Types.Crypto.{Crypto, game_id}
use adjourn.Policy.{
  GameRecord, side_of, EntropyQuality, migrate_record, moved_from, BindDecision, decide_bind,
  RebindDecision, decide_rebind, opt_eq,
}

pub opt_eq→eq : (a b : Option Bytes) → opt_eq a b ≡ true → a ≡ b
opt_eq→eq none none h = refl
opt_eq→eq none (some b) h = cc
opt_eq→eq (some a) none h = cc
opt_eq→eq (some a) (some b) h = ap some (eq_of_== a b h)

-- What may not change in the record of a game once it is bound.
pub record SameGuard (a b : GameRecord) : Type 0 where
  pub params : b.params ≡ a.params
  pub side : b.side ≡ a.side
  pub origin : b.origin ≡ a.origin
  pub label : b.label ≡ a.label
  pub entropy : b.entropy ≡ a.entropy
  pub last_signed_ply : b.last_signed_ply ≡ a.last_signed_ply
  pub last_move_body_hash : b.last_move_body_hash ≡ a.last_move_body_hash

-- A rebind that succeeds is by the owner and under the record's own label. It sets the contract,
-- remembers the old one unless it is the same, and keeps the parameters, the side, the owner, the
-- label, the entropy, the last signed ply and the hash.
pub decide_rebind-SameGuard :
    (existing updated : GameRecord) (label contract : Bytes) (origin : Option Bytes)
    → decide_rebind (some existing) label contract origin ≡ RebindDecision.rebind updated
    → SameGuard existing updated
      × (existing.origin ≡ origin)
      × (existing.label ≡ label)
      × (updated.contract ≡ contract)
      × (updated.previous ≡ moved_from existing contract)
unfolding decide_rebind
decide_rebind-SameGuard existing updated label contract origin e = (
  record {
    params = ground arith;
    side = ground arith;
    origin = ground arith;
    label = ground arith;
    entropy = ground arith;
    last_signed_ply = ground arith;
    last_move_body_hash = ground arith;
  },
  opt_eq→eq existing.origin origin (ground arith),
  eq_of_== existing.label label (ground arith),
  ground arith,
  ground arith,
)

pub decide_rebind-format :
    (existing : Option GameRecord) (updated : GameRecord) (label contract : Bytes)
    (origin : Option Bytes)
    → decide_rebind existing label contract origin ≡ RebindDecision.rebind updated
    → updated.format ≡ 3
unfolding decide_rebind
decide_rebind-format none updated label contract origin e = absurd (ground arith)
decide_rebind-format (some existing) updated label contract origin e = ground arith

-- A record that migrates had layout 2 or 3, and has layout 3 after it, with the same contract,
-- parameters, side, owner, label, entropy, last signed ply and hash.
pub migrate_record-SameGuard :
    (old new : GameRecord)
    → migrate_record old ≡ some new
    → SameGuard old new
      × (new.format ≡ 3)
      × (new.contract ≡ old.contract)
      × ((old.format ≡ 2) ⊎ (old.format ≡ 3))
unfolding migrate_record
migrate_record-SameGuard old new e = (
  record {
    params = ground arith;
    side = ground arith;
    origin = ground arith;
    label = ground arith;
    entropy = ground arith;
    last_signed_ply = ground arith;
    last_move_body_hash = ground arith;
  },
  ground arith,
  ground arith,
  ground arith,
)

module _ ⦃c : Crypto⦄ where
  -- A first bind that succeeds is for a key that the game names, and the record that it makes has
  -- layout 3, has signed nothing, and has that key's side and the caller's parameters, origin and
  -- label.
  pub decide_bind_new :
      (label : Bytes) (key : KeyBytes) (params : GameParams) (contract : Bytes)
      (entropy : EntropyQuality) (origin : Option Bytes) (made : GameRecord)
      → decide_bind none label key params contract entropy origin ≡ BindDecision.bind made
      → (color : Color) × (color_of params key ≡ some color)
        × (made.side ≡ side_of color)
        × (made.params ≡ params)
        × (made.origin ≡ origin)
        × (made.label ≡ label)
        × (made.last_signed_ply ≡ 0)
        × (made.format ≡ 3)
  unfolding decide_bind
  decide_bind_new label key params contract entropy origin made e =
      elim (Option-cases (color_of params key)) [
        | inl f ↦ absurd (ground arith)
        | inr (color, f) ↦ (
          color,
          f,
          ground arith,
          ground arith,
          ground arith,
          ground arith,
          ground arith,
          ground arith,
        )
      ]

  -- A bind of a bound label that succeeds hands back the record that is there, and the caller is
  -- its owner and the game id its own.
  pub decide_bind_again :
      (existing : GameRecord) (label : Bytes) (key : KeyBytes) (params : GameParams)
      (contract : Bytes) (entropy : EntropyQuality) (origin : Option Bytes) (made : GameRecord)
      → decide_bind (some existing) label key params contract entropy origin
        ≡ BindDecision.bind made
      → (made ≡ existing) × (existing.origin ≡ origin) × (game_id existing.params ≡ game_id params)
  unfolding decide_bind
  decide_bind_again existing label key params contract entropy origin made e = (
    ground arith,
    opt_eq→eq existing.origin origin (ground arith),
    eq_of_== (game_id existing.params) (game_id params) (ground arith),
  )
