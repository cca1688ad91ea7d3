-- ===== src/Project/DoubleSign/Tallies.antt =====
-- common/src/project.rs: the loop of `double_signed` over the counts.
use adjourn.Prelude.{
  ℕ, zero, suc, ◌≡◌, ◌≤◌, refl, sym, ap, subst, Bool, true, false, ◌||◌, [], ◌∷◌, Option, none,
  some, ltb, if◌then◌else◌, arith, is_some, Bool-cases, inl, inr,
}
use adjourn.Prelude.Order.{◌==◌, nat_ord, list_ord, pair_ord, eq_of_==}
use adjourn.BTree.{Map, get}
use adjourn.Types.{KeyBytes, Color, GameParams, color_of}
use adjourn.State.Groups.{group_ord}
use adjourn.Project.DoubleSign.{Seat, Fraud, Tally, charge, tally, fraud_of, no_charge}
use adjourn.Project.DoubleSign.Counts.{raised}

abbrev pub AtMost : ℕ → Option ℕ → Type 0
AtMost n none = ⊥
AtMost n (some q) = q ≤ n

-- A ply is noted exactly when a player is charged.
abbrev Charged : Tally → Type 0
Charged t = is_some t.first_ply ≡ (t.white || t.black)

charge-Charged : (t : Tally) (ply : ℕ) (o : Option Color) → Charged t → Charged (charge t ply o)
charge-Charged t ply none h = h
charge-Charged t ply (some Color.white) h = ground arith
charge-Charged t ply (some Color.black) h = ground arith

tally-Charged :
    (p : GameParams) (t : Tally) (counts : Map Seat ℕ) → Charged t → Charged (tally p t counts)
unfolding tally
tally-Charged p t [] h = h
tally-Charged p t (((signer, ply), n) ∷ counts) h =
    tally-Charged p (if ltb n 2 then t else charge t ply (color_of p signer)) counts
      (ground (arith, charge-Charged t ply (color_of p signer) h))

-- The source's `unreachable!` is unreachable.
pub fraud_of-tally :
    (p : GameParams) (counts : Map Seat ℕ)
    → let t = tally p no_charge counts in
      is_some (fraud_of t.white t.black t.first_ply) ≡ is_some t.first_ply
fraud_of-tally p counts =
    let t = tally p no_charge counts in
    let h : Charged t = tally-Charged p no_charge counts refl in ground arith

charge-AtMost :
    (n : ℕ) (t : Tally) (ply : ℕ) (o : Option Color)
    → AtMost n t.first_ply
    → AtMost n (charge t ply o).first_ply
charge-AtMost n t ply none h = h
charge-AtMost n t ply (some Color.white) h = ground arith
charge-AtMost n t ply (some Color.black) h = ground arith

tally-AtMost :
    (p : GameParams) (n : ℕ) (t : Tally) (counts : Map Seat ℕ)
    → AtMost n t.first_ply
    → AtMost n (tally p t counts).first_ply
unfolding tally
tally-AtMost p n t [] h = h
tally-AtMost p n t (((signer, ply), k) ∷ counts) h = elim (Bool-cases (ltb k 2)) [
  | inl e ↦ rw (tally, e) (tally-AtMost p n t counts h)
  | inr e ↦
      rw (tally, e)
        (tally-AtMost p n (charge t ply (color_of p signer)) counts
          (charge-AtMost n t ply (color_of p signer) h))
]

charge-player :
    (t : Tally) (ply : ℕ) (color : Color) → AtMost ply (charge t ply (some color)).first_ply
charge-player t ply Color.white = ground arith
charge-player t ply Color.black = ground arith

pub tally-hit :
    (p : GameParams) (t : Tally) (counts : Map Seat ℕ) (signer : KeyBytes) (ply n : ℕ)
    (color : Color)
    → get (signer, ply) counts ≡ some n
    → 2 ≤ n
    → color_of p signer ≡ some color
    → AtMost ply (tally p t counts).first_ply
unfolding tally get
tally-hit p t [] signer ply n color e two q = absurd (ground arith)
tally-hit p t (((s, q), k) ∷ counts) signer ply n color e two c =
    let seat : Seat = (signer, ply) in
    let here : Seat = (s, q) in
    elim (Bool-cases (seat == here)) [
      | inl same ↦
          let r : seat ≡ here = eq_of_== seat here same in
          let rs : s ≡ signer = sym (ap (λ z. z.0) r) in
          let rq : q ≡ ply = sym (ap (λ z. z.1) r) in
          let rk : ltb k 2 ≡ false = ground arith in
          let charged = charge t q (some color) in
          rw (tally, rk, rs, c)
            (tally-AtMost p ply charged counts
              (subst (λ z. AtMost z charged.first_ply) rq (charge-player t q color)))
      | inr other ↦
          tally-hit p (if ltb k 2 then t else charge t q (color_of p s)) counts signer ply n color
            (ground arith) two c
    ]

pub raised-two : (n : ℕ) → 2 ≤ n → raised none n ≡ some n
raised-two zero h = absurd (omega arith)
raised-two (suc n) h = refl

pub fraud_of-AtMost :
    (w b : Bool) (o : Option ℕ) (n : ℕ) (f : Fraud)
    → fraud_of w b o ≡ some f
    → AtMost n o
    → f.first_ply ≤ n
fraud_of-AtMost true true (some q) n f e h = ground arith
fraud_of-AtMost true false (some q) n f e h = ground arith
fraud_of-AtMost false true (some q) n f e h = ground arith
fraud_of-AtMost false false (some q) n f e h = absurd (ground arith)
fraud_of-AtMost w b none n f e h = absurd h

pub AtMost-some : (n : ℕ) (o : Option ℕ) → AtMost n o → is_some o ≡ true
AtMost-some n none h = absurd h
AtMost-some n (some q) h = refl
