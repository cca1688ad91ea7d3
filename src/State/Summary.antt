-- ===== src/State/Summary.antt =====
-- common/src/state.rs: summaries, and deltas against them.
use adjourn.Prelude.{
  ◌≡◌, refl, sym, ap, ◌∙◌, Bool, true, false, not, List, [], ◌∷◌, Option, none, some, arith,
  Option-cases, inl, inr, or_else-none, map_some,
}
use adjourn.Prelude.Lists.{retain}
use adjourn.Prelude.Order.{◌==◌, nat_ord, list_ord, eq_of_==, ==_self}
use adjourn.BTree.{Map, get, IsSorted, values}
use adjourn.BTree.Laws.{map_ext}
use adjourn.BTree.Scan.{
  collect, get-collect, retain-IsSorted, get-retain, filtered, map_values, get-map_values,
  map_values-IsSorted,
}
use adjourn.Types.{Bytes, RecordId, Record, GameParams}
use adjourn.Types.Crypto.{Crypto, verify, sig_digest}
use adjourn.State.{Records, GameState, evict, merge, apply_delta}
use adjourn.State.Holds.{Holds, get-Holds}
use adjourn.State.Union.{
  union, get-union, IsCollisionFree, same_record, union-IsSorted, better_self,
}
use adjourn.State.Merge.{IsValid, state_path, merge_comm}

abbrev pub SigDigest : Type 0
SigDigest = Bytes

-- `Summary`, a newtype over the map.
abbrev pub Summary : Type 0
Summary = Map RecordId SigDigest

abbrev pub is_digest : Option SigDigest → SigDigest → Bool
is_digest none d = false
is_digest (some e) d = e == d

module _ ⦃c : Crypto⦄ where
  unfoldable pub summarize : GameState → Summary
  summarize self = collect [] (map_values sig_digest self.records)

  -- the test of `delta_against`: `summary.get(*id) != Some(&rec.sig_digest())`
  abbrev pub is_news : Summary → RecordId × Record → Bool
  is_news summary (id, rec) = not (is_digest (get id summary) (sig_digest rec))

  unfoldable pub delta_against : GameState → Summary → List Record
  delta_against self summary = values (retain (is_news summary) self.records)

  -- Different signatures have different digests: what SHA-256 is relied on for.
  abbrev pub IsDigestFree : GameParams → Type 0
  IsDigestFree p =
      (r s : Record)
      → verify p r ≡ true
      → verify p s ≡ true
      → sig_digest r ≡ sig_digest s
      → r.sig ≡ s.sig

  -- A summary has, under each id, the digest of the signature held there.
  pub get-summarize :
      (s : GameState) (k : RecordId)
      → IsSorted s.records
      → get k (summarize s) ≡ map_some sig_digest (get k s.records)
  unfolding summarize get
  get-summarize s k h =
      let digests = map_values sig_digest s.records in
      get-collect k [] digests (map_values-IsSorted sig_digest s.records h)
      ∙ (or_else-none (get k digests) ∙ get-map_values sig_digest k s.records)

  pub retain-Holds :
      (p : GameParams) (t : RecordId × Record → Bool) (s : Records)
      → Holds p s
      → Holds p (retain t s)
  unfolding retain
  retain-Holds p t [] h = tt
  retain-Holds p t ((k, r) ∷ s) h = ground (arith, retain-Holds p t s h.2)

  module _ (p : GameParams) (free : IsCollisionFree p) (digest_free : IsDigestFree p) where
    -- Applying what a peer sends against our summary gives the merge of the two states, both valid.
    -- Among verified records neither ids nor signature digests collide.
    pub apply_delta-delta_against :
        (ours theirs : GameState)
        → IsValid p ours
        → IsValid p theirs
        → apply_delta p ours (delta_against theirs (summarize ours)) ≡ merge p ours theirs
    unfolding apply_delta delta_against merge
    apply_delta-delta_against ours theirs v w = state_path (
        ap evict (
          map_ext _ _ (union-IsSorted p ours.records news v.sorted)
            (union-IsSorted p ours.records theirs.records v.sorted) same))
      where
        news : Records
        news = retain (is_news (summarize ours)) theirs.records

        same :
            (k : RecordId)
            → get k (union p ours.records news) ≡ get k (union p ours.records theirs.records)
        same k =
            let left =
              get-union p ours.records news k v.holds (retain-Holds p _ theirs.records w.holds)
                (retain-IsSorted _ theirs.records w.sorted) in
            let right = get-union p ours.records theirs.records k v.holds w.holds w.sorted in
            let sent = get-retain (is_news (summarize ours)) k theirs.records w.sorted in
            let known = get-summarize ours k v.sorted in
            elim (Option-cases (get k theirs.records)) [
              | inl e ↦ ground arith
              | inr (b, e) ↦ elim (Option-cases (get k ours.records)) [
                | inl f ↦ ground arith
                | inr (a, f) ↦
                    let (ia, va) = get-Holds p k ours.records a v.holds f in
                    let (ib, vb) = get-Holds p k theirs.records b w.holds e in
                    ground (
                      arith,
                      eq_of_== (sig_digest a) (sig_digest b),
                      digest_free a b va vb,
                      same_record p free a b va vb (ia ∙ sym ib),
                      better_self (some a),
                    )
              ]
            ]

    -- Two peers with valid states, each of which has applied the other's delta against its own
    -- summary, hold the same state. Among verified records neither ids nor signature digests
    -- collide.
    pub sync_converges :
        (ours theirs : GameState)
        → IsValid p ours
        → IsValid p theirs
        → apply_delta p ours (delta_against theirs (summarize ours))
          ≡ apply_delta p theirs (delta_against ours (summarize theirs))
    sync_converges ours theirs v w =
        apply_delta-delta_against ours theirs v w
        ∙ (merge_comm p free ours theirs v w ∙ sym (apply_delta-delta_against theirs ours w v))

  -- A peer that is up to date is sent nothing.
  pub delta_against_self : (s : GameState) → IsSorted s.records → delta_against s (summarize s) ≡ []
  unfolding delta_against get
  delta_against_self s h = ap values (
      map_ext (retain (is_news (summarize s)) s.records) [] (retain-IsSorted _ s.records h) tt (λ k.
        get-retain (is_news (summarize s)) k s.records h
        ∙ known k (get k s.records) (get-summarize s k h)))
    where
      known :
          (k : RecordId) (o : Option Record)
          → get k (summarize s) ≡ map_some sig_digest o
          → filtered (is_news (summarize s)) k o ≡ none
      known k none e = refl
      known k (some r) e = ground (arith, ==_self (sig_digest r))
