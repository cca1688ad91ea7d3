-- ===== src/Client/Fake/Bound.antt =====
-- client/src/session.rs on client/src/fake.rs: what `bound_game` finds is the record of the delegate.
use adjourn.Prelude.{
  ◌≡◌, refl, sym, ap, subst, ◌∙◌, List, [], ◌∷◌, Option, none, some, arith, Bool-cases,
  Option-cases, inl, inr, if◌then◌else◌,
}
use adjourn.Prelude.Order.{◌==◌, nat_ord, list_ord, eq_of_==}
use adjourn.Types.{Bytes}
use adjourn.Types.Crypto.{Crypto, game_id}
use adjourn.Project.Board.{Chess}
use adjourn.Contract.Cbor.{Codec}
use adjourn.Policy.{GameRecord, EntropyQuality, opt_eq}
use adjourn.Delegate.{summary_of, list_from, handle_list_games, handle}
use adjourn.Delegate
use adjourn.Delegate.Api.{GameSummary}
use adjourn.Delegate.Secrets.{
  SecretStore, SecretCodec, load_owner, load_seed, load_quality, list_labels,
}
use adjourn.Client.{done}
use adjourn.Client.Node.{Freenet}
use adjourn.Client.Open.{BoundGame, find_label, all_fields, bound_game}
use adjourn.Client.Fake.{FakeNode, world_backed_store, Host, ask_delegate, fake_node}

-- The bound game of a record.
abbrev pub game_of : ⦃c : Crypto⦄ → Bytes → GameRecord → BoundGame
game_of label rec = record {
  label = label;
  game_id = game_id rec.params;
  side = rec.side;
  params = rec.params;
  contract = rec.contract;
  previous = rec.previous;
}

abbrev fields_of : GameSummary → Option BoundGame
fields_of g = all_fields g g.game_id g.side g.params g.contract

module _ ⦃c : Crypto⦄ where
  summary_of-label :
      (label key : Bytes) (q : Option EntropyQuality) (o : Option GameRecord)
      → (summary_of label key q o).label ≡ label
  summary_of-label label key q none = refl
  summary_of-label label key q (some rec) = refl

  fields_of-summary_of :
      (label key : Bytes) (q : Option EntropyQuality) (o : Option GameRecord) (g : BoundGame)
      → fields_of (summary_of label key q o) ≡ some g
      → (rec : GameRecord) × (o ≡ some rec) × (g ≡ game_of label rec)
  fields_of-summary_of label key q none g e = absurd (ground arith)
  fields_of-summary_of label key q (some rec) g e = (rec, refl, ground arith)

module _ ⦃c : Crypto⦄ ⦃secrets : SecretCodec⦄ {S : Type 0} ⦃store : SecretStore S⦄ where
  find_label-list_from :
      (s : S) (origin : Option Bytes) (label : Bytes) (labels : List Bytes) (g : GameSummary)
      → find_label label (list_from s origin labels) ≡ some g
      → (key : Bytes) × (g
          ≡ summary_of label key (load_quality s label) (Delegate.bound_game s label))
  unfolding find_label list_from
  find_label-list_from s origin label [] g e = absurd (ground arith)
  find_label-list_from s origin label (l ∷ labels) g e =
      elim (Bool-cases (opt_eq (load_owner s l) origin)) [
        | inr f ↦ find_label-list_from s origin label labels g (rw f at e)
        | inl f ↦ elim (Option-cases (load_seed s l)) [
          | inl h ↦ find_label-list_from s origin label labels g (rw (f, h) at e)
          | inr (seed, h) ↦
              let key = c.public_key seed in
              let first = summary_of l key (load_quality s l) (Delegate.bound_game s l) in
              let named = summary_of-label l key (load_quality s l) (Delegate.bound_game s l) in
              let e' : (if first.label == label
                    then some first
                    else find_label label (list_from s origin labels))
                  ≡ some g =
                rw (f, h) at e in
              elim (Bool-cases (l == label)) [
                | inl k ↦
                    let same = eq_of_== l label k in
                    let got : first ≡ g = ground arith in
                    (
                      key,
                      sym got
                          ∙ ap (λ m. summary_of m key (load_quality s m) (Delegate.bound_game s m))
                              same,
                    )
                | inr k ↦ find_label-list_from s origin label labels g (ground arith)
              ]
        ]
      ]

module _ ⦃c : Crypto⦄ ⦃chess : Chess⦄ ⦃codec : Codec⦄ ⦃secrets : SecretCodec⦄ ⦃host : Host⦄
    ⦃freenet : Freenet⦄ where
  -- A listing leaves the node, and `bound_game` finds the record of the label in it.
  pub bound_game-record :
      (label : Bytes) (n n' : FakeNode) (g : BoundGame)
      → bound_game label n ≡ (n', done g)
      → (n' ≡ n)
        × ((rec : GameRecord) × (Delegate.bound_game n.store label ≡ some rec)
            × (g ≡ game_of label rec))
  unfolding bound_game ask_delegate handle handle_list_games
  bound_game-record label n n' g e =
      let games = list_from n.store none (list_labels n.store) in
      elim (Option-cases (find_label label games)) [
        | inl f ↦ absurd (let e' = rw f at e in ground arith)
        | inr (summary, f) ↦
            let e' = rw f at e in
            elim (Option-cases (fields_of summary)) [
              | inl h ↦ absurd (ground arith)
              | inr (found, h) ↦
                  let (key, q) =
                    find_label-list_from n.store none label (list_labels n.store) summary f in
                  let same : found ≡ g = ground arith in
                  (
                    ground arith,
                    subst
                        (λ b.
                          (rec : GameRecord) × (Delegate.bound_game n.store label ≡ some rec)
                          × (b ≡ game_of label rec))
                        same
                        (fields_of-summary_of label key (load_quality n.store label)
                          (Delegate.bound_game n.store label) found
                          (subst (λ t. fields_of t ≡ some found) q h)),
                  )
            ]
      ]
