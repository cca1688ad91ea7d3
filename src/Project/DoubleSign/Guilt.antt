-- ===== src/Project/DoubleSign/Guilt.antt =====
-- common/src/project.rs: whom `double_signed` convicts.
use adjourn.Prelude.{
  ℕ, zero, suc, ◌≡◌, ◌≤◌, ◌⊎◌, sym, ap, ◌∙◌, true, [], ◌∷◌, none, some, ltb, if◌then◌else◌, arith,
  is_some, Bool-cases, Option-cases, inl, inr,
}
use adjourn.Prelude.Lists.{length, length-retain-le, length-take_min}
use adjourn.Prelude.Order.{◌==◌, nat_ord, list_ord, pair_ord, eq_of_==, ==_self}
use adjourn.BTree.{Map, get, IsSorted}
use adjourn.BTree.Laws.{get-Above}
use adjourn.Types.{KeyBytes, k_of, Color, GameParams, color_of}
use adjourn.Types.Crypto.{Crypto}
use adjourn.State.{Records, GameState, evict, merge}
use adjourn.State.Groups.{group_ord}
use adjourn.State.Members.{members}
use adjourn.State.Merge.{IsValid, members-evict}
use adjourn.State.TopK.{s-Within, members-retain}
use adjourn.State.Union.{IsCollisionFree, union, union-IsSorted}
use adjourn.Project.DoubleSign.{
  Seat, Fraud, count_moves, Tally, charge, tally, fraud_of, no_charge, double_signed,
}
use adjourn.Project.DoubleSign.Counts.{moves_of, get-count_moves, raised, count_moves-IsSorted}
use adjourn.Project.DoubleSign.Tallies.{
  AtMost, AtMost-some, fraud_of-AtMost, fraud_of-tally, raised-two, tally-hit,
}

-- A player of the game holds two or more moves at the ply.
pub record Guilty (p : GameParams) (s : Records) (ply : ℕ) : Type 0 where
  pub signer : KeyBytes
  pub color : Color
  pub player : color_of p signer ≡ some color
  pub twice : 2 ≤ length (members (moves_of (signer, ply)) s)

-- If a player of the game holds two or more moves at a ply, `double_signed` finds a fraud, whose
-- first ply is no later.
pub Guilty-double_signed :
    (p : GameParams) (s : Records) (ply : ℕ)
    → Guilty p s ply
    → (f : Fraud) × (double_signed s p ≡ some f) × (f.first_ply ≤ ply)
unfolding double_signed get
Guilty-double_signed p s ply g =
    let counts = count_moves [] s in
    let t = tally p no_charge counts in
    let seat : Seat = (g.signer, ply) in
    let n = length (members (moves_of seat) s) in
    let hit : AtMost ply t.first_ply =
      tally-hit p no_charge counts g.signer ply n g.color
        (get-count_moves seat [] s ∙ raised-two n g.twice) g.twice g.player in
    elim (Option-cases (fraud_of t.white t.black t.first_ply)) [
      | inl e ↦
          let some_ply = AtMost-some ply t.first_ply hit in
          let same = fraud_of-tally p counts in absurd (ground arith)
      | inr (f, e) ↦ (f, e, fraud_of-AtMost t.white t.black t.first_ply ply f e hit)
    ]

-- The first charge is of a player with two moves.
tally-found :
    (p : GameParams) (t : Tally) (counts : Map Seat ℕ)
    → IsSorted counts
    → is_some (tally p t counts).first_ply ≡ true
    → (is_some t.first_ply ≡ true)
      ⊎ ((signer : KeyBytes) × (ply : ℕ) × (n : ℕ) × (color : Color) × (get (signer, ply) counts
            ≡ some n)
          × (2 ≤ n)
          × (color_of p signer ≡ some color))
unfolding tally get
tally-found p t [] o e = inl e
tally-found p t (((s, q), k) ∷ counts) o e =
    let here : Seat = (s, q) in
    elim (tally-found p (if ltb k 2 then t else charge t q (color_of p s)) counts o.1 e) [
      | inl found ↦ elim (Option-cases (color_of p s)) [
        | inl f ↦ inl (ground arith)
        | inr (color, f) ↦ elim (Bool-cases (ltb k 2)) [
          | inl few ↦ inl (rw few at found)
          | inr many ↦ inr (s, q, k, color, rw (==_self here), ground arith, f)
        ]
      ]
      | inr (signer, ply, n, color, stored, two, c) ↦
          let seat : Seat = (signer, ply) in
          inr (
            signer,
            ply,
            n,
            color,
            elim (Bool-cases (seat == here)) [
              | inl same ↦
                  let gone : get here counts ≡ none = get-Above here counts o.0 in
                  absurd (ground (arith, eq_of_== seat here same))
              | inr other ↦ rw other stored
            ],
            two,
            c,
          )
    ]

raised-some : (m n : ℕ) → raised none m ≡ some n → m ≡ n
raised-some zero n e = absurd (ground arith)
raised-some (suc m) n e = ground arith

-- If `double_signed` finds a fraud, some player of the game holds two or more moves at one ply.
pub double_signed-Guilty :
    (p : GameParams) (s : Records) (f : Fraud)
    → double_signed s p ≡ some f
    → (ply : ℕ) × Guilty p s ply
unfolding double_signed get
double_signed-Guilty p s f e =
    let counts = count_moves [] s in
    let t = tally p no_charge counts in
    let noted : is_some t.first_ply ≡ true = sym (fraud_of-tally p counts) ∙ ap is_some e in
    elim (tally-found p no_charge counts (count_moves-IsSorted [] s tt) noted) [
      | inl never ↦ absurd (ground arith)
      | inr (signer, ply, n, color, stored, two, c) ↦
          let seat : Seat = (signer, ply) in
          let m = length (members (moves_of seat) s) in
          let q : m ≡ n = raised-some m n (sym (get-count_moves seat [] s) ∙ stored) in
          (ply, record { signer = signer; color = color; player = c; twice = omega arith })
    ]

module _ ⦃c : Crypto⦄ (p : GameParams) (free : IsCollisionFree p) where
  -- A forfeit is permanent: if a valid state has a double-sign, so has its merge with any other
  -- valid state. Among verified records ids do not collide.
  pub double_signed-merge :
      (s t : GameState) (f : Fraud)
      → IsValid p s
      → IsValid p t
      → double_signed s.records p ≡ some f
      → (g : Fraud) × (double_signed (merge p s t).records p ≡ some g)
  unfolding merge k_of
  double_signed-merge s t f v w e =
      let (ply, guilty) = double_signed-Guilty p s.records f e in
      let g = moves_of (guilty.signer, ply) in
      let u = union p s.records t.records in
      let ou = union-IsSorted p s.records t.records v.sorted in
      let part =
        members-retain s.records u v.sorted ou
          (s-Within p free s.records t.records v.holds w.holds v.sorted w.sorted) g in
      let two = guilty.twice in
      let big : 2 ≤ length (members g u) =
        omega (
          arith,
          ap length part,
          length-retain-le (λ k. is_some (get k s.records)) (members g u),
        ) in
      let kept : 2 ≤ length (members g (evict u)) =
        omega (arith, ap length (members-evict u ou g), length-take_min 2 (members g u) big) in
      let (h, found, _) = Guilty-double_signed p (evict u) ply (record {
        signer = guilty.signer;
        color = guilty.color;
        player = guilty.player;
        twice = kept;
      }) in
      (h, found)
