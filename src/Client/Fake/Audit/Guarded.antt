-- ===== src/Client/Fake/Audit/Guarded.antt =====
-- client/src/fake.rs: what each call on a `FakeNode` does to the guard of a game, and to what has
-- been signed of it.
use adjourn.Prelude.{
  ◌≡◌, ◌⊎◌, refl, sym, subst, List, [], ◌∷◌, none, some, arith, Option-cases, inl, inr,
}
use adjourn.Prelude.Order.{nat_ord, list_ord}
use adjourn.Types.{Bytes, Body}
use adjourn.Types.Crypto.{Crypto, IsWideHash}
use adjourn.Project.Board.{Chess}
use adjourn.Contract.Cbor.{Codec}
use adjourn.Policy.{GameRecord}
use adjourn.Policy.Guard.{
  All, All-map, Later, Later-first, Later-rest, Agree, Agree-first, NoClash, Advances,
  decide_sign-Signs,
}
use adjourn.Delegate.{handle}
use adjourn.Delegate.Api.{Request}
use adjourn.Delegate.Secrets.{SecretCodec, load_game, load_bound_game_id}
use adjourn.Delegate.Laws.{IsSecretCodec, SameGames}
use adjourn.Delegate.Guards.{IsKeyed, Guards, SameGames-IsKeyed, SameGames-Guarded}
use adjourn.Delegate.Signing.{released, handle-Step, handle-Released}
use adjourn.Delegate.History.{handle-IsKeyed, Step-Guarded}
use adjourn.Client.{Reply}
use adjourn.Client.Node.{Freenet}
use adjourn.Client.Keeps.{Keeps, KeepsCalls}
use adjourn.Client.Fake.Audit.{
  Audited, audit, audited, ask_audited, unsigned, world_backed_store-IsStore, SameSecrets,
  get_from-SameSecrets, put_to-SameSecrets, update_to-SameSecrets, next_from-SameSecrets,
}
use adjourn.Client.Fake.{FakeNode, world_backed_store, Host, ask_delegate, fake_node}

Agree-sym : ⦃c : Crypto⦄ (a b : Body) → Agree a b → Agree b a
Agree-sym a b h ply mb ma = sym (h ply ma mb)

module _ ⦃c : Crypto⦄ ⦃chess : Chess⦄ ⦃codec : Codec⦄ ⦃secrets : SecretCodec⦄ ⦃host : Host⦄
    ⦃freenet : Freenet⦄ where
  -- What may still be signed agrees with the body.
  abbrev Settled : GameRecord → Body → Type 0
  Settled rec b = (later : Body) → Later rec later → Agree later b

  Settled-later :
      (rec next : GameRecord) (bodies : List Body)
      → Advances rec next
      → All (Settled rec) bodies
      → All (Settled next) bodies
  Settled-later rec next bodies advances settled =
      All-map (Settled rec) (Settled next) bodies
        (λ b h later l. h later (Later-rest rec next advances later l)) settled

  -- The game's record guards it against whatever clashes with a body signed so far.
  pub record IsGuarded (id : Bytes) (n : Audited) : Type 0 where
    pub keyed : IsKeyed n.node.store
    pub agree : NoClash n.signed
    pub guard :
        (n.signed ≡ [])
        ⊎ ((rec : GameRecord) × Guards n.node.store id rec × All (Settled rec) n.signed)

  SameSecrets-SameGames : (n m : FakeNode) → SameSecrets n m → SameGames n.store m.store
  unfolding load_game load_bound_game_id
  SameSecrets-SameGames n m e = record { games = λ id. rw e refl; index = λ label. rw e refl }

  SameSecrets-IsGuarded :
      (id : Bytes) (n : Audited) (m : FakeNode)
      → SameSecrets n.node m
      → IsGuarded id n
      → IsGuarded id (record n { node = m })
  SameSecrets-IsGuarded id n m e g =
      let same = SameSecrets-SameGames n.node m e in
      record {
        keyed = SameGames-IsKeyed n.node.store m.store same g.keyed;
        agree = g.agree;
        guard = elim g.guard [
          | inl none_signed ↦ inl none_signed
          | inr (rec, guards, settled) ↦
              let (next, guards', advances) =
                SameGames-Guarded n.node.store m.store id rec same guards in
              inr (next, guards', Settled-later rec next n.signed advances settled)
        ];
      }

  unsigned-Keeps :
      {A : Type 0} (id : Bytes) (call : FakeNode → FakeNode × Reply A)
      → ((n : FakeNode) → SameSecrets n (call n).0)
      → Keeps (IsGuarded id) (unsigned call)
  unsigned-Keeps id call same = record {
    at = λ n g. SameSecrets-IsGuarded id n (call n.node).0 (same n.node) g;
  }

  module _ (codec_laws : IsSecretCodec secrets) (wide : IsWideHash) where
    -- A call that signs a body of the game.
    signed-IsGuarded :
        (id : Bytes) (request : Request) (n : Audited) (b : Body)
        → IsGuarded id n
        → let out = handle host.draws n.node.store none request in
          released id request out.1 ≡ some b
          → IsGuarded id (record { node = record n.node { store = out.0 }; signed = b ∷ n.signed })
    signed-IsGuarded id request n b g e =
        let store_laws = world_backed_store-IsStore in
        let (old, updated, there, decision, guards) =
          handle-Released store_laws codec_laws wide n.node.store host.draws none request id b
            g.keyed e in
        let signs = decide_sign-Signs old b none updated decision in
        let fresh : Settled updated b =
          λ later l. Agree-sym b later (Agree-first old b updated signs later l) in
        record {
          keyed =
              handle-IsKeyed store_laws codec_laws wide n.node.store host.draws none request
                g.keyed;
          agree = elim g.guard [
            | inl none_signed ↦ rw none_signed (tt, tt)
            | inr (rec, held, settled) ↦
                let same : old ≡ rec = let t = held.there in ground arith in
                (
                  All-map (Settled rec) (Agree b) n.signed
                      (λ a h. h b (subst (λ r. Later r b) same (Later-first old b updated signs)))
                      settled,
                  g.agree,
                )
          ];
          guard = inr (
            updated,
            guards,
            (
              fresh,
              elim g.guard [
                | inl none_signed ↦ rw none_signed tt
                | inr (rec, held, settled) ↦
                    let same : old ≡ rec = let t = held.there in ground arith in
                    Settled-later rec updated n.signed
                      (subst (λ r. Advances r updated) same signs.advances) settled
              ],
            ),
          );
        }

    -- A call that signs nothing of the game.
    quiet-IsGuarded :
        (id : Bytes) (request : Request) (n : Audited)
        → IsGuarded id n
        → IsGuarded id (record n {
          node = record n.node { store = (handle host.draws n.node.store none request).0 };
        })
    quiet-IsGuarded id request n g =
        let store_laws = world_backed_store-IsStore in
        let out = handle host.draws n.node.store none request in
        let step =
          handle-Step store_laws codec_laws wide n.node.store host.draws none request g.keyed in
        record {
          keyed =
              handle-IsKeyed store_laws codec_laws wide n.node.store host.draws none request
                g.keyed;
          agree = g.agree;
          guard = elim g.guard [
            | inl none_signed ↦ inl none_signed
            | inr (rec, held, settled) ↦
                let (next, guards, advances) =
                  Step-Guarded store_laws codec_laws wide n.node.store out.0 id rec step held in
                inr (next, guards, Settled-later rec next n.signed advances settled)
          ];
        }

    ask_audited-IsGuarded :
        (id : Bytes) (request : Request) (n : Audited)
        → IsGuarded id n
        → IsGuarded id (ask_audited id request n).0
    unfolding ask_delegate
    ask_audited-IsGuarded id request n g =
        elim (Option-cases (released id request (handle host.draws n.node.store none request).1)) [
          | inl e ↦ rw e (quiet-IsGuarded id request n g)
          | inr (b, e) ↦ rw e (signed-IsGuarded id request n b g e)
        ]

    pub audited-KeepsCalls : (id : Bytes) → KeepsCalls (audited id) (IsGuarded id)
    audited-KeepsCalls id = record {
      get = λ key subscribe. unsigned-Keeps id _ (get_from-SameSecrets key subscribe);
      put = λ container bytes. unsigned-Keeps id _ (put_to-SameSecrets container bytes);
      update = λ key payload. unsigned-Keeps id _ (update_to-SameSecrets key payload);
      delegate = λ request. record { at = ask_audited-IsGuarded id request };
      next_update = unsigned-Keeps id _ next_from-SameSecrets;
    }

    pub audit-IsGuarded : (id : Bytes) (n : FakeNode) → IsKeyed n.store → IsGuarded id (audit n)
    audit-IsGuarded id n keyed = record { keyed = keyed; agree = tt; guard = inl refl }
