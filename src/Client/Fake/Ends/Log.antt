-- ===== src/Client/Fake/Ends/Log.antt =====
-- client/src/fake.rs: the entries of the log that `next_update` has not reached.
use adjourn.Prelude.{
  ℕ, zero, suc, ◌+◌, ◌≡◌, ◌≢◌, ◌≤◌, ◌<◌, List, [], ◌∷◌, some, arith, Bool-cases, inl, inr,
}
use adjourn.Prelude.Lists.{length, drop}
use adjourn.Prelude.Order.{nat_ord, list_ord}
use adjourn.BTree.{Map, get}
use adjourn.Types.{Bytes}
use adjourn.Contract.{UpdateData}
use adjourn.Client.{done}
use adjourn.Client.Fake.{FakeNode, Broadcast, log, is_due, scan_log, next_from, fake_node}

length-drop {ℓ} :
    {A : Type ℓ} (n : ℕ) (xs : List A) → n ≤ length xs → n + length (drop n xs) ≡ length xs
unfolding drop
length-drop zero xs h = omega arith
length-drop (suc n) [] h = absurd (omega arith)
length-drop (suc n) (x ∷ xs) h = let ih = length-drop n xs (omega arith) in omega arith

-- A scan that finds an update passes it, and stays in the log.
scan_log-some :
    (subscribed : Map Bytes ℕ) (at : ℕ) (rest : List (Bytes × Broadcast)) (u : Bytes × UpdateData)
    → (scan_log subscribed at rest).1 ≡ some u
    → (at < (scan_log subscribed at rest).0) × ((scan_log subscribed at rest).0 ≤ at + length rest)
unfolding scan_log
scan_log-some subscribed at [] u e = absurd (ground arith)
scan_log-some subscribed at ((id, broadcast) ∷ rest) u e =
    elim (Bool-cases (is_due (get id subscribed) at)) [
      | inl h ↦ rw h (omega arith, omega arith)
      | inr h ↦
          let later : (scan_log subscribed (at + 1) rest).1 ≡ some u = rw h at e in
          let (passed, within) = scan_log-some subscribed (at + 1) rest u later in
          rw h (omega arith, omega arith)
    ]

-- The entries that a node has not read yet are at most so many.
abbrev pub Unread : ℕ → FakeNode → Type 0
Unread rounds n = (n.cursor ≤ length (log n)) × (length (log n) ≤ rounds + n.cursor)

pub next_from-Unread :
    (rounds : ℕ) (n : FakeNode) (u : Bytes × UpdateData)
    → Unread (suc rounds) n
    → (next_from n).1 ≡ done (some u)
    → Unread rounds (next_from n).0
unfolding next_from
next_from-Unread rounds n u (inside, few) e =
    let rest = drop n.cursor (log n) in
    let whole = length-drop n.cursor (log n) inside in
    let found : (scan_log n.subscribed n.cursor rest).1 ≡ some u = ground arith in
    let (passed, within) = scan_log-some n.subscribed n.cursor rest u found in
    (omega arith, omega arith)

pub none_left :
    (n : FakeNode) (u : Bytes × UpdateData) → Unread 0 n → (next_from n).1 ≢ done (some u)
unfolding next_from
none_left n u (inside, few) e =
    let whole = length-drop n.cursor (log n) inside in
    let (passed, within) =
      scan_log-some n.subscribed n.cursor (drop n.cursor (log n)) u (ground arith) in
    absurd (omega arith)
