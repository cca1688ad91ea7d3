-- ===== src/Delegate/Steps.antt =====
-- delegates/adjourn-delegate/src/lib.rs: the steps of the store, and the records that the decisions
-- hand to `store_game`.
use adjourn.Prelude.{
  ◌≡◌, refl, sym, ◌∙◌, Bool, true, false, Option, some, arith, Option-cases, inl, inr,
}
use adjourn.Prelude.Order.{nat_ord, list_ord, eq_of_==}
use adjourn.Types.{Bytes, GameParams, Body}
use adjourn.Types.Crypto.{Crypto, game_id}
use adjourn.Policy.{
  EntropyQuality, GameRecord, BindDecision, RebindDecision, SignDecision, decide_bind,
  decide_rebind, decide_sign,
}
use adjourn.Policy.Guard.{Advances, decide_sign-Signs, decide_sign-kept}
use adjourn.Policy.Bind.{
  decide_bind_new, decide_bind_again, decide_rebind-SameGuard, decide_rebind-format, SameGuard,
  migrate_record-SameGuard,
}
use adjourn.Delegate.{bound_game, held_by_other}
use adjourn.Delegate.Secrets.{
  SecretStore, SecretCodec, load_game, load_bound_game_id, and_then, game_secret,
}
use adjourn.Delegate.Laws.{SameGames, Stored}
use adjourn.Delegate.Guards.{IsKeyed, Write, Advances-self}

SameGuard-Advances : (old new : GameRecord) → SameGuard old new → Advances old new
SameGuard-Advances old new g =
    let ply = g.last_signed_ply in
    let hash = g.last_move_body_hash in record { rises = omega arith; same_hash = λ _. hash }

module _ ⦃c : Crypto⦄ ⦃secrets : SecretCodec⦄ {S : Type 0} ⦃store : SecretStore S⦄ where
  pub data Step (s t : S) : Type 0 where
    quiet : SameGames s t → Step s t
    wrote : (r : GameRecord) (out : S × Bool) → Write s r → Stored s r out → out.0 ≡ t → Step s t

  pub SameGames-self : (s : S) → SameGames s s
  SameGames-self s = record { games = λ id. refl; index = λ label. refl }

  pub and_then-SameGames :
      (s : S) (out : S × Bool) (next : S → S × Bool)
      → SameGames s out.0
      → ((t : S) → SameGames t (next t).0)
      → SameGames s (and_then out next).0
  and_then-SameGames s (t, false) next a b = a
  and_then-SameGames s (t, true) next a b = record {
    games = λ id. (b t).games id ∙ a.games id;
    index = λ label. (b t).index label ∙ a.index label;
  }

  -- What is read of a game is in the current layout.
  pub load_game-format :
      (s : S) (id : Bytes) (r : GameRecord) → load_game s id ≡ some r → r.format ≡ 3
  unfolding load_game
  load_game-format s id r e = elim (Option-cases (store.get s (game_secret id))) [
    | inl f ↦ absurd (ground arith)
    | inr (b, f) ↦ elim (Option-cases (secrets.read_record b)) [
      | inl g ↦ absurd (ground arith)
      | inr (old, g) ↦
          let (_, format, _, _) = migrate_record-SameGuard old r (ground arith) in format
    ]
  ]

  -- The game that a label is bound to is stored under the id of its own parameters.
  bound_game-load_game :
      (s : S) (label : Bytes) (r : GameRecord)
      → IsKeyed s
      → bound_game s label ≡ some r
      → load_game s (game_id r.params) ≡ some r
  bound_game-load_game s label r keyed e = elim (Option-cases (load_bound_game_id s label)) [
    | inl f ↦ absurd (ground arith)
    | inr (id, f) ↦
        let there : load_game s id ≡ some r = ground arith in rw (keyed id r there) there
  ]

  pub bind-Write :
      (s : S) (label key : Bytes) (params : GameParams) (contract : Bytes)
      (entropy : EntropyQuality) (origin : Option Bytes) (made : GameRecord)
      → IsKeyed s
      → held_by_other (bound_game s label) (load_game s (game_id params)) label ≡ false
      → decide_bind (bound_game s label) label key params contract entropy origin
        ≡ BindDecision.bind made
      → Write s made × (made.format ≡ 3)
  bind-Write s label key params contract entropy origin made keyed free e =
      elim (Option-cases (bound_game s label)) [
        | inl f ↦
            let (_, _, _, same_params, _, same_label, _, format) =
              decide_bind_new label key params contract entropy origin made (ground arith) in
            (
              Write.fresh (rw same_label f) (λ old there.
                  let there : load_game s (game_id params) ≡ some old = ground arith in
                  eq_of_== old.label label (ground arith) ∙ sym same_label),
              format,
            )
        | inr (r, f) ↦
            let (same, _, _) =
              decide_bind_again r label key params contract entropy origin made (ground arith) in
            let there = bound_game-load_game s label r keyed f in
            rw same (Write.update r there refl (Advances-self r), load_game-format s _ r there)
      ]

  -- A write of a record that is there already, under its own label.
  kept-Write :
      (s : S) (old made : GameRecord)
      → load_game s (game_id old.params) ≡ some old
      → made.params ≡ old.params
      → made.label ≡ old.label
      → Advances old made
      → Write s made
  kept-Write s old made there same_params same_label a =
      Write.update old (rw same_params there) same_label a

  pub rebind-Write :
      (s : S) (label contract : Bytes) (origin : Option Bytes) (made : GameRecord)
      → IsKeyed s
      → decide_rebind (bound_game s label) label contract origin ≡ RebindDecision.rebind made
      → Write s made × (made.format ≡ 3)
  unfolding decide_rebind
  rebind-Write s label contract origin made keyed e = elim (Option-cases (bound_game s label)) [
    | inl f ↦ absurd (ground arith)
    | inr (r, f) ↦
        let (guard, _, _, _, _) =
          decide_rebind-SameGuard r made label contract origin (ground arith) in
        (
          kept-Write s r made (bound_game-load_game s label r keyed f) guard.params guard.label
              (SameGuard-Advances r made guard),
          decide_rebind-format (bound_game s label) made label contract origin e,
        )
  ]

  pub sign-Write :
      (s : S) (id : Bytes) (rec : GameRecord) (body : Body) (origin : Option Bytes)
      (updated : GameRecord)
      → IsKeyed s
      → load_game s id ≡ some rec
      → decide_sign rec body origin ≡ SignDecision.sign updated
      → Write s updated × (updated.format ≡ 3)
  sign-Write s id rec body origin updated keyed there e =
      let (same_label, same_params, format) = decide_sign-kept rec body origin updated e in
      let signs = decide_sign-Signs rec body origin updated e in
      (
        kept-Write s rec updated (rw (keyed id rec there) there) same_params same_label
            signs.advances,
        format,
      )
