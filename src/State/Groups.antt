-- ===== src/State/Groups.antt =====
-- common/src/state.rs: the eviction group of a record, `(signer, kind, ply)`, and its derived order.
use Prim.Native.Nat.{compare, Ordering}
use adjourn.Prelude.{ℕ, ◌≡◌, Option, some, ◌>>=◌, arith}
use adjourn.Prelude.Order.{Ord, IsTotal, nat_ord, bytes_ord, list_cmp, then_by}
use adjourn.Types.{KeyBytes, Kind, Record, ply_of, kind_of}

abbrev pub Group : Type 0
Group = KeyBytes × Kind × ℕ

unfoldable pub group_of : Record → Option Group
group_of rec = do ply ← ply_of rec.body; some (rec.signer, kind_of rec.body, ply)

-- `#[derive(PartialOrd, Ord)]` goes by the place in the declaration.
abbrev pub place : Kind → ℕ
place Kind.move = 0
place Kind.resign = 1
place Kind.draw_offer = 2
place Kind.draw_accept = 3
place Kind.draw_claim = 4

place-injective : (a b : Kind) → place a ≡ place b → a ≡ b
place-injective a b h = ground arith

abbrev pub group_cmp : Group → Group → Ordering
group_cmp (s, k, p) (t, l, q) =
    then_by (list_cmp s t) (then_by (compare (place k) (place l)) (compare p q))

group_self : (a : Group) → group_cmp a a ≡ Ordering.eq
group_self (s, k, p) = ground (arith, bytes_ord.cmp_self s)

group_eq : (a b : Group) → group_cmp a b ≡ Ordering.eq → a ≡ b
group_eq (s, k, p) (t, l, q) h = ground (arith, bytes_ord.eq_of_cmp s t, place-injective k l)

group_swap_lt : (a b : Group) → group_cmp a b ≡ Ordering.lt → group_cmp b a ≡ Ordering.gt
group_swap_lt (s, k, p) (t, l, q) h =
    ground (arith, bytes_ord.eq_of_cmp s t, bytes_ord.cmp_self s, bytes_ord.cmp_swap_lt s t)

group_swap_gt : (a b : Group) → group_cmp a b ≡ Ordering.gt → group_cmp b a ≡ Ordering.lt
group_swap_gt (s, k, p) (t, l, q) h =
    ground (arith, bytes_ord.eq_of_cmp s t, bytes_ord.cmp_self s, bytes_ord.cmp_swap_gt s t)

group_trans :
    (a b c : Group)
    → group_cmp a b ≡ Ordering.lt
    → group_cmp b c ≡ Ordering.lt
    → group_cmp a c ≡ Ordering.lt
group_trans (s, k, p) (t, l, q) (u, m, r) h i = ground (
  arith,
  bytes_ord.eq_of_cmp s t,
  bytes_ord.eq_of_cmp t u,
  bytes_ord.cmp_trans s t u,
  bytes_ord.cmp_self s,
)

pub group-IsTotal : IsTotal group_cmp
group-IsTotal = record {
  cmp_self = group_self;
  eq_of_cmp = group_eq;
  cmp_swap_lt = group_swap_lt;
  cmp_swap_gt = group_swap_gt;
  cmp_trans = group_trans;
}

instance abbrev pub group_ord : Ord Group
group_ord = record { cmp = group_cmp; total = group-IsTotal }
