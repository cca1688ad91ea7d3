-- ===== src/State/Holds.antt =====
-- common/src/state.rs: states whose records are stored under their own ids and verify, and `absorb`
-- on them.
use adjourn.Prelude.{
  ◌≡◌, refl, true, List, [], ◌∷◌, Option, none, some, if◌then◌else◌, arith, Bool-cases,
  Option-cases, inl, inr,
}
use adjourn.Prelude.Order.{◌==◌, ◌≼◌, bytes_ord, nat_ord, list_ord, eq_of_==}
use adjourn.BTree.{get, insert, remove, IsSorted}
use adjourn.BTree.Laws.{get-insert, insert-IsSorted}
use adjourn.Types.{RecordId, GameParams, Record}
use adjourn.Types.Crypto.{Crypto, id_of, verify}
use adjourn.State.{Records, absorb, absorb_all}

-- The tiebreak: of two records under one id, the one with the smaller signature.
abbrev pub better : Option Record → Option Record → Option Record
better none y = y
better (some a) none = some a
better (some a) (some b) = if a.sig ≼ b.sig then some a else some b

module _ ⦃c : Crypto⦄ where
  -- Every entry is a record that verifies, under its own id.
  abbrev pub Holds : GameParams → Records → Type 0
  Holds p [] = Unit
  Holds p ((k, r) ∷ s) = (id_of r ≡ k) × (verify p r ≡ true) × Holds p s

  pub get-Holds :
      (p : GameParams) (k : RecordId) (s : Records) (r : Record)
      → Holds p s
      → get k s ≡ some r
      → (id_of r ≡ k) × (verify p r ≡ true)
  unfolding get
  get-Holds p k [] r h e = absurd (ground arith)
  get-Holds p k ((j, w) ∷ s) r h e = ground (arith, get-Holds p k s r h.2, eq_of_== k j)

  pub insert-Holds :
      (p : GameParams) (k : RecordId) (r : Record) (s : Records)
      → Holds p s
      → id_of r ≡ k
      → verify p r ≡ true
      → Holds p (insert k r s)
  unfolding insert
  insert-Holds p k r [] h e v = (e, v, tt)
  insert-Holds p k r ((j, w) ∷ s) h e v = ground (arith, insert-Holds p k r s h.2 e v)

  pub remove-Holds :
      (p : GameParams) (k : RecordId) (s : Records) → Holds p s → Holds p (remove k s)
  unfolding remove
  remove-Holds p k [] h = tt
  remove-Holds p k ((j, w) ∷ s) h = ground (arith, remove-Holds p k s h.2)

  -- What one incoming record offers for an id.
  abbrev pub offer : GameParams → RecordId → Record → Option Record
  offer p k r = if verify p r then (if k == id_of r then some r else none) else none

  -- On a state of verified records under their own ids, `absorb` of any record changes at most what
  -- is read under the record's own id: there, if the record verifies, the one of the smaller
  -- signature is read, and the held one if they are equal.
  pub get-absorb :
      (p : GameParams) (s : Records) (r : Record) (k : RecordId)
      → Holds p s
      → get k (absorb p s r) ≡ better (get k s) (offer p k r)
  unfolding absorb
  get-absorb p s r k h = elim (Bool-cases (k == id_of r)) [
    | inl e ↦
        let q = eq_of_== k (id_of r) e in
        let put = get-insert k (id_of r) r s in
        elim (Option-cases (get k s)) [
          | inl f ↦ ground (arith, q, put)
          | inr (held, f) ↦
              let (_, v) = get-Holds p k s held h f in
              ground (arith, q, put, bytes_ord.eq_of_cmp held.sig r.sig)
        ]
    | inr e ↦
        let put = get-insert k (id_of r) r s in
        elim (Option-cases (get k s)) [
          | inl f ↦ ground (arith, put)
          | inr (held, f) ↦ ground (arith, put)
        ]
  ]

  pub absorb-Holds :
      (p : GameParams) (s : Records) (r : Record) → Holds p s → Holds p (absorb p s r)
  unfolding absorb
  absorb-Holds p s r h = ground (arith, insert-Holds p (id_of r) r s h refl)

  pub absorb-IsSorted :
      (p : GameParams) (s : Records) (r : Record) → IsSorted s → IsSorted (absorb p s r)
  unfolding absorb
  absorb-IsSorted p s r h = ground (arith, insert-IsSorted (id_of r) r s h)

  pub absorb_all-Holds :
      (p : GameParams) (s : Records) (rs : List Record) → Holds p s → Holds p (absorb_all p s rs)
  unfolding absorb_all
  absorb_all-Holds p s [] h = h
  absorb_all-Holds p s (r ∷ rs) h = absorb_all-Holds p (absorb p s r) rs (absorb-Holds p s r h)

  pub absorb_all-IsSorted :
      (p : GameParams) (s : Records) (rs : List Record) → IsSorted s → IsSorted (absorb_all p s rs)
  unfolding absorb_all
  absorb_all-IsSorted p s [] h = h
  absorb_all-IsSorted p s (r ∷ rs) h =
      absorb_all-IsSorted p (absorb p s r) rs (absorb-IsSorted p s r h)
