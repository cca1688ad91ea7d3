-- ===== src/Delegate/Guards.antt =====
-- delegates/adjourn-delegate/src/lib.rs: the record that guards a game, and the writes of records
-- that handlers make.
use adjourn.Prelude.{
  ◌≡◌, refl, sym, ap, subst, ◌∙◌, Bool, true, ◌&&◌, none, some, is_some, arith, Bool-cases,
  Option-cases, inl, inr,
}
use adjourn.Prelude.Order.{◌==◌, nat_ord, list_ord, eq_of_==, ==_self}
use adjourn.Types.{Bytes}
use adjourn.Types.Crypto.{Crypto, game_id}
use adjourn.Policy.{GameRecord}
use adjourn.Policy.Guard.{Advances}
use adjourn.Delegate.{bound_game}
use adjourn.Delegate.Secrets.{SecretStore, SecretCodec, load_game, load_bound_game_id}
use adjourn.Delegate.Laws.{SameGames, Stored}

pub Advances-self : (r : GameRecord) → Advances r r
Advances-self r = record { rises = omega arith; same_hash = λ _. refl }

module _ ⦃c : Crypto⦄ ⦃secrets : SecretCodec⦄ {S : Type 0} ⦃store : SecretStore S⦄ where
  -- Every record is stored under the id of its own game.
  abbrev pub IsKeyed : S → Type 0
  IsKeyed s = (id : Bytes) (r : GameRecord) → load_game s id ≡ some r → game_id r.params ≡ id

  -- The records that a handler writes: a new one for an unbound label, or the one that is there
  -- with a guard at least as strict.
  pub data Write (s : S) (r : GameRecord) : Type 0 where
    fresh :
        bound_game s r.label ≡ none
        → ((old : GameRecord) → load_game s (game_id r.params) ≡ some old → old.label ≡ r.label)
        → Write s r
    update :
        (old : GameRecord)
        → load_game s (game_id r.params) ≡ some old
        → r.label ≡ old.label
        → Advances old r
        → Write s r

  -- The record that guards a game: it is there, and its label is bound to a game that is there.
  pub record Guards (s : S) (id : Bytes) (rec : GameRecord) : Type 0 where
    pub there : load_game s id ≡ some rec
    pub held : is_some (bound_game s rec.label) ≡ true

  -- The guard of a game after a step.
  abbrev pub Guarded : S → Bytes → GameRecord → Type 0
  Guarded t id rec = (next : GameRecord) × Guards t id next × Advances rec next

  pub SameGames-IsKeyed : (s t : S) → SameGames s t → IsKeyed s → IsKeyed t
  SameGames-IsKeyed s t same keyed id r e = keyed id r (sym (same.games id) ∙ e)

  SameGames-held :
      (s t : S) (label : Bytes)
      → SameGames s t
      → is_some (bound_game s label) ≡ true
      → is_some (bound_game t label) ≡ true
  SameGames-held s t label same h =
      let i = same.index label in
      elim (Option-cases (load_bound_game_id s label)) [
        | inl e ↦ absurd (ground arith)
        | inr (id, e) ↦ let g = same.games id in ground arith
      ]

  pub SameGames-Guarded :
      (s t : S) (id : Bytes) (rec : GameRecord) → SameGames s t → Guards s id rec → Guarded t id rec
  SameGames-Guarded s t id rec same g = (
    rec,
    record { there = same.games id ∙ g.there; held = SameGames-held s t rec.label same g.held },
    Advances-self rec,
  )

  module _ (s : S) (r : GameRecord) (out : S × Bool) (stored : Stored s r out) where
    pub Stored-IsKeyed : IsKeyed s → IsKeyed out.0
    Stored-IsKeyed keyed id q e =
        let games = stored.games id in
        elim (Bool-cases (stored.game_written && (id == game_id r.params))) [
          | inl w ↦
              let same : q ≡ r = ground arith in
              let at : id ≡ game_id r.params = eq_of_== id (game_id r.params) (ground arith) in
              rw same (sym at)
          | inr w ↦ keyed id q (ground arith)
        ]

    Stored-held :
        (label : Bytes)
        → is_some (bound_game s label) ≡ true
        → is_some (bound_game out.0 label) ≡ true
    Stored-held label h =
        let index = stored.index label in
        let new = stored.games (game_id r.params) in
        elim (Bool-cases (stored.index_written && (label == r.label))) [
          | inl w ↦
              let written = stored.in_order (ground arith) in
              let self = ==_self (game_id r.params) in ground arith
          | inr w ↦ elim (Option-cases (load_bound_game_id s label)) [
            | inl e ↦ absurd (ground arith)
            | inr (id, e) ↦ let games = stored.games id in ground arith
          ]
        ]

    pub Stored-Guarded :
        (id : Bytes) (rec : GameRecord) → Write s r → Guards s id rec → Guarded out.0 id rec
    Stored-Guarded id rec w g =
        elim (Bool-cases (stored.game_written && (id == game_id r.params))) [
          | inl h ↦
              overwritten w
                (subst (λ j. load_game s j ≡ some rec)
                  (eq_of_== id (game_id r.params) (ground arith)) g.there)
                (let games = stored.games id in ground arith)
          | inr h ↦ (
            rec,
            record {
              there = let games = stored.games id in let t = g.there in ground arith;
              held = Stored-held rec.label g.held;
            },
            Advances-self rec,
          )
        ]
      where
        overwritten :
            Write s r
            → load_game s (game_id r.params) ≡ some rec
            → load_game out.0 id ≡ some r
            → Guarded out.0 id rec
        overwritten (fresh unbound mine) there now =
            let label = mine rec there in
            let held = subst (λ l. is_some (bound_game s l) ≡ true) label g.held in
            absurd (ground arith)
        overwritten (update old there' label advances) there now =
            let same : old ≡ rec = ground arith in
            (
              r,
              record {
                there = now;
                held = Stored-held r.label (
                    subst (λ l. is_some (bound_game s l) ≡ true)
                      (sym (label ∙ ap (λ q. q.label) same)) g.held);
              },
              subst (λ q. Advances q r) same advances,
            )

    -- After a write that succeeds the record guards its game.
    pub Stored-Guards : out.1 ≡ true → Guards out.0 (game_id r.params) r
    Stored-Guards ok =
        let written = stored.in_order (sym stored.success ∙ ok) in
        let games = stored.games (game_id r.params) in
        let index = stored.index r.label in
        let same_id = ==_self (game_id r.params) in
        let same_label = ==_self r.label in
        let both = sym stored.success ∙ ok in record { there = ground arith; held = ground arith }
