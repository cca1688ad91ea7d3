-- ===== src/Project/DoubleSign/Counts.antt =====
-- common/src/project.rs: what the counting loop of `double_signed` counts, before and after
-- `evict`.
use adjourn.Prelude.{
  ℕ, zero, suc, ◌+◌, ◌≡◌, refl, sym, ap, ◌∙◌, Bool, false, List, [], ◌∷◌, Option, none, some, ltb,
  if◌then◌else◌, arith, map_some, Bool-cases, inl, inr,
}
use adjourn.Prelude.Lists.{length, take}
use adjourn.Prelude.Order.{◌==◌, nat_ord, list_ord, pair_ord, eq_of_==}
use adjourn.BTree.{Map, get, IsSorted}
use adjourn.BTree.Laws.{get-insert, insert-IsSorted, map_ext}
use adjourn.BTree.Scan.{map_values, get-map_values, map_values-IsSorted}
use adjourn.Types.{KeyBytes, Kind, k_of, GameParams, color_of, Body, Record, ply_of, kind_of}
use adjourn.State.{Records, evict}
use adjourn.State.Groups.{Group, group_of, group_ord}
use adjourn.State.Members.{is_group, members}
use adjourn.State.Merge.{members-evict}
use adjourn.Project.DoubleSign.{
  Seat, or_zero, seat_of, count_seat, count_moves, Tally, charge, tally, no_charge, double_signed,
}

-- The eviction group of the moves of a seat.
abbrev pub moves_of : Seat → Group
moves_of (signer, ply) = (signer, Kind.move, ply)

abbrev pub is_seat : Seat → Option Seat → Bool
is_seat seat none = false
is_seat seat (some other) = seat == other

seat-group :
    (seat : Seat) (body : Body) (signer sig : KeyBytes)
    → let r : Record = record { body = body; signer = signer; sig = sig } in
      is_group (moves_of seat) (group_of r) ≡ is_seat seat (seat_of r)
unfolding group_of seat_of ply_of kind_of
seat-group (a, p) (Body.move q t u) signer sig = ground arith
seat-group (a, p) Body.resign signer sig = ground arith
seat-group (a, p) (Body.draw_offer q t) signer sig = ground arith
seat-group (a, p) (Body.draw_accept q t) signer sig = ground arith
seat-group (a, p) (Body.draw_claim q t) signer sig = ground arith

-- A count raised by `n`, entered only if there is something to count.
abbrev pub raised : Option ℕ → ℕ → Option ℕ
raised o zero = o
raised none (suc n) = some (suc n)
raised (some m) (suc n) = some (m + suc n)

get-count_seat :
    (seat : Seat) (counts : Map Seat ℕ) (o : Option Seat)
    → get seat (count_seat counts o)
      ≡ (if is_seat seat o then raised (get seat counts) 1 else get seat counts)
unfolding count_seat
get-count_seat seat counts none = refl
get-count_seat seat counts (some other) =
    ground
      (arith, get-insert seat other (or_zero (get other counts) + 1) counts, eq_of_== seat other)

raised_again : (o : Option ℕ) (n : ℕ) → raised (raised o 1) n ≡ raised o (suc n)
raised_again none zero = refl
raised_again none (suc n) = ap some (omega arith)
raised_again (some m) zero = refl
raised_again (some m) (suc n) = ap some (omega arith)

-- The count of a seat is the number of its moves in the state.
pub get-count_moves :
    (seat : Seat) (counts : Map Seat ℕ) (s : Records)
    → get seat (count_moves counts s)
      ≡ raised (get seat counts) (length (members (moves_of seat) s))
unfolding count_moves members
get-count_moves seat counts [] = refl
get-count_moves seat counts ((k, r) ∷ s) =
    let ih = get-count_moves seat (count_seat counts (seat_of r)) s in
    let step = get-count_seat seat counts (seat_of r) in
    let n = length (members (moves_of seat) s) in
    elim (Bool-cases (is_seat seat (seat_of r))) [
      | inl e ↦
          rw (ih, step, seat-group seat r.body r.signer r.sig, e) (raised_again (get seat counts) n)
      | inr e ↦ rw (ih, step, seat-group seat r.body r.signer r.sig, e) refl
    ]

count_seat-IsSorted :
    (counts : Map Seat ℕ) (o : Option Seat) → IsSorted counts → IsSorted (count_seat counts o)
unfolding count_seat
count_seat-IsSorted counts none h = h
count_seat-IsSorted counts (some seat) h = insert-IsSorted seat _ counts h

pub count_moves-IsSorted :
    (counts : Map Seat ℕ) (s : Records) → IsSorted counts → IsSorted (count_moves counts s)
unfolding count_moves
count_moves-IsSorted counts [] h = h
count_moves-IsSorted counts ((k, r) ∷ s) h =
    count_moves-IsSorted (count_seat counts (seat_of r)) s
      (count_seat-IsSorted counts (seat_of r) h)

-- A count as `evict` leaves it.
abbrev floored : ℕ → ℕ
floored n = if ltb n 2 then n else 2

length-take_two : {A : Type 0} (xs : List A) → length (take 2 xs) ≡ floored (length xs)
unfolding take
length-take_two [] = refl
length-take_two (x ∷ []) = refl
length-take_two (x ∷ y ∷ xs) = ground arith

raised-floored : (n : ℕ) → raised none (floored n) ≡ map_some floored (raised none n)
raised-floored zero = refl
raised-floored (suc zero) = refl
raised-floored (suc (suc n)) = ground arith

counts-evict :
    (s : Records) → IsSorted s → count_moves [] (evict s) ≡ map_values floored (count_moves [] s)
unfolding get k_of
counts-evict s h =
    map_ext _ _ (count_moves-IsSorted [] (evict s) tt)
      (map_values-IsSorted floored _ (count_moves-IsSorted [] s tt))
      (λ seat.
        get-count_moves seat [] (evict s)
        ∙ (ap (raised none) (
              ap length (members-evict s h (moves_of seat))
              ∙ length-take_two (members (moves_of seat) s))
            ∙ (raised-floored (length (members (moves_of seat) s))
                ∙ sym (
                    get-map_values floored seat (count_moves [] s)
                    ∙ ap (map_some floored) (get-count_moves seat [] s)))))

tally-floored :
    (p : GameParams) (t : Tally) (counts : Map Seat ℕ)
    → tally p t (map_values floored counts) ≡ tally p t counts
unfolding tally
tally-floored p t [] = refl
tally-floored p t (((signer, ply), n) ∷ counts) =
    let after = λ (b : Bool). if b then t else charge t ply (color_of p signer) in
    let same : ltb (floored n) 2 ≡ ltb n 2 = ground arith in
    ap (λ b. tally p (after b) (map_values floored counts)) same
    ∙ tally-floored p (after (ltb n 2)) counts

-- Of a state in key order, `double_signed` has the same verdict before and after `evict`, whatever
-- else the groups hold.
pub double_signed-evict :
    (s : Records) (p : GameParams) → IsSorted s → double_signed (evict s) p ≡ double_signed s p
unfolding double_signed
double_signed-evict s p h = rw (counts-evict s h, tally-floored p no_charge (count_moves [] s))
