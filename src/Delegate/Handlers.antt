-- ===== src/Delegate/Handlers.antt =====
-- delegates/adjourn-delegate/src/lib.rs: the steps of the store that the handlers of keys and
-- bindings make.
use adjourn.Prelude.{
  ◌≡◌, refl, sym, Bool, true, false, Option, none, some, is_some, Bool-cases, inl, inr,
}
use adjourn.Prelude.Order.{nat_ord, list_ord}
use adjourn.Types.{Bytes, GameParams}
use adjourn.Types.Crypto.{Crypto, game_id, IsWideHash}
use adjourn.Policy.{EntropyQuality, GameRecord, opt_eq, BindDecision, RebindDecision, decide_rebind}
use adjourn.Policy.Seed.{SeedResult, classify_host_entropy, derive_seed}
use adjourn.Delegate.{
  bound_game, held_by_other, bound_to, bind_decided, bind_seeded, rebind_decided, or_degraded,
  store_key, created, create_seeded, set_owner, handle_create_game_key, handle_bind_game,
  handle_rebind_game,
}
use adjourn.Delegate.Secrets.{
  SecretStore, SecretCodec, load_game, load_seed, load_owner, load_quality, store_game, and_then,
  key_secret, quality_secret, owner_secret,
}
use adjourn.Delegate.Laws.{IsStore, IsSecretCodec, SameGames, set-SameGames, store_game-Stored}
use adjourn.Delegate.Guards.{IsKeyed, Write}
use adjourn.Delegate.Steps.{Step, SameGames-self, and_then-SameGames, bind-Write, rebind-Write}

module _ ⦃c : Crypto⦄ ⦃secrets : SecretCodec⦄ {S : Type 0} ⦃store : SecretStore S⦄ where
  bound_to-first : (id : Bytes) (out : S × Bool) → (bound_to id out).0 ≡ out.0
  bound_to-first id (t, false) = refl
  bound_to-first id (t, true) = refl

  created-first :
      (out : S × Bool) (label seed : Bytes) (quality : EntropyQuality)
      → (created out label seed quality).0 ≡ out.0
  created-first (t, false) label seed quality = refl
  created-first (t, true) label seed quality = refl

  module _ (laws : IsStore store) (codec_laws : IsSecretCodec secrets) (wide : IsWideHash) where
    pub store_game-Step :
        (s : S) (r : GameRecord) (t : S)
        → Write s r × (r.format ≡ 3)
        → (store_game s r).0 ≡ t
        → Step s t
    store_game-Step s r t (w, f) e =
        Step.wrote r (store_game s r) w (store_game-Stored laws codec_laws wide s r f) e

    set_owner-SameGames :
        (label : Bytes) (origin : Option Bytes) (s : S) → SameGames s (set_owner label origin s).0
    set_owner-SameGames label none s = SameGames-self s
    set_owner-SameGames label (some origin) s =
        set-SameGames laws s (owner_secret label) origin (λ id. refl) (λ label. refl)

    store_key-SameGames :
        (s : S) (label seed : Bytes) (quality : EntropyQuality) (origin : Option Bytes)
        → SameGames s (store_key s label seed quality origin).0
    unfolding store_key
    store_key-SameGames s label seed quality origin =
        and_then-SameGames s
          (and_then (store.set s (key_secret label) seed)
            (λ s. store.set s (quality_secret label) (secrets.write_quality quality)))
          (set_owner label origin)
          (and_then-SameGames s (store.set s (key_secret label) seed)
            (λ s. store.set s (quality_secret label) (secrets.write_quality quality))
            (set-SameGames laws s (key_secret label) seed (λ id. refl) (λ label. refl))
            (λ t.
              set-SameGames laws t (quality_secret label) (secrets.write_quality quality)
                (λ id. refl) (λ label. refl)))
          (set_owner-SameGames label origin)

    pub handle_create_game_key-SameGames :
        (entropy : Bytes × Bytes) (s : S) (origin : Option Bytes) (label : Bytes)
        (caller : Option Bytes)
        → SameGames s (handle_create_game_key entropy s origin label caller).0
    unfolding handle_create_game_key
    handle_create_game_key-SameGames (first, second) s origin label caller =
        elim (Bool-cases (is_some (store.get s (key_secret label)))) [
          | inl e ↦ rw e (SameGames-self s)
          | inr e ↦ rw e (seeded (derive_seed (classify_host_entropy first second) caller label))
        ]
      where
        seeded : (d : SeedResult) → SameGames s (create_seeded s origin label d).0
        seeded (SeedResult.err refusal) = SameGames-self s
        seeded (SeedResult.ok seed quality) =
            rw (created-first (store_key s label seed quality origin) label seed quality)
              (store_key-SameGames s label seed quality origin)

    pub handle_create_game_key-Step :
        (entropy : Bytes × Bytes) (s : S) (origin : Option Bytes) (label : Bytes)
        (caller : Option Bytes)
        → Step s (handle_create_game_key entropy s origin label caller).0
    handle_create_game_key-Step entropy s origin label caller =
        Step.quiet (handle_create_game_key-SameGames entropy s origin label caller)

    bind_decided-Step :
        (s : S) (d : BindDecision)
        → ((made : GameRecord) → d ≡ BindDecision.bind made → Write s made × (made.format ≡ 3))
        → Step s (bind_decided s d).0
    bind_decided-Step s (BindDecision.refuse refusal) w = Step.quiet (SameGames-self s)
    bind_decided-Step s (BindDecision.bind made) w =
        store_game-Step s made _ (w made refl)
          (sym (bound_to-first (game_id made.params) (store_game s made)))

    pub handle_bind_game-Step :
        (s : S) (origin : Option Bytes) (label : Bytes) (params : GameParams) (contract : Bytes)
        → IsKeyed s
        → Step s (handle_bind_game s origin label params contract).0
    unfolding handle_bind_game
    handle_bind_game-Step s origin label params contract keyed = seeded (load_seed s label)
      where
        seeded : (seed : Option Bytes) → Step s (bind_seeded s origin label params contract seed).0
        seeded none = Step.quiet (SameGames-self s)
        seeded (some seed) = elim (Bool-cases (opt_eq (load_owner s label) origin)) [
          | inr e ↦ rw e (Step.quiet (SameGames-self s))
          | inl e ↦
              elim (Bool-cases
                (held_by_other (bound_game s label) (load_game s (game_id params)) label)) [
                  | inl f ↦ rw (e, f) (Step.quiet (SameGames-self s))
                  | inr f ↦
                      rw (e, f)
                        (bind_decided-Step s _ (λ made d.
                          bind-Write s label (c.public_key seed) params contract
                            (or_degraded (load_quality s label)) origin made keyed f d))
                ]
        ]

    rebind_decided-Step :
        (s : S) (d : RebindDecision)
        → ((made : GameRecord) → d ≡ RebindDecision.rebind made → Write s made × (made.format ≡ 3))
        → Step s (rebind_decided s d).0
    rebind_decided-Step s (RebindDecision.refuse refusal) w = Step.quiet (SameGames-self s)
    rebind_decided-Step s (RebindDecision.rebind made) w =
        store_game-Step s made _ (w made refl)
          (sym (bound_to-first (game_id made.params) (store_game s made)))

    pub handle_rebind_game-Step :
        (s : S) (origin : Option Bytes) (label contract : Bytes)
        → IsKeyed s
        → Step s (handle_rebind_game s origin label contract).0
    unfolding handle_rebind_game
    handle_rebind_game-Step s origin label contract keyed =
        rebind_decided-Step s (decide_rebind (bound_game s label) label contract origin)
          (λ made d. rebind-Write s label contract origin made keyed d)
