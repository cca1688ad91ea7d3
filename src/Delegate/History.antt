-- ===== src/Delegate/History.antt =====
-- delegates/adjourn-delegate/src/lib.rs: `handle` over histories of requests.
use adjourn.Prelude.{◌≡◌, subst, List, [], ◌∷◌, Option, none, some, arith, Option-cases, inl, inr}
use adjourn.Prelude.Order.{nat_ord, list_ord}
use adjourn.Types.{Bytes, Body}
use adjourn.Types.Crypto.{Crypto, IsWideHash}
use adjourn.Project.Board.{Chess}
use adjourn.Contract.Cbor.{Codec}
use adjourn.Policy.{GameRecord, SignDecision, decide_sign}
use adjourn.Policy.Guard.{
  Later, Later-first, Later-rest, Agree, Agree-first, All, All-map, NoClash, decide_sign-Signs,
}
use adjourn.Delegate.{handle}
use adjourn.Delegate.Api.{Request}
use adjourn.Delegate.Secrets.{SecretStore, SecretCodec}
use adjourn.Delegate.Laws.{IsStore, IsSecretCodec}
use adjourn.Delegate.Guards.{
  IsKeyed, Guards, Guarded, SameGames-IsKeyed, SameGames-Guarded, Stored-IsKeyed, Stored-Guarded,
}
use adjourn.Delegate.Steps.{Step}
use adjourn.Delegate.Signing.{released, handle-Step, handle-Released}

-- A request as it arrives: the caller's origin, and the host's draws if a key is made.
pub record Call : Type 0 where
  pub entropy : Bytes × Bytes
  pub origin : Option Bytes
  pub request : Request

abbrev pub push_body : Option Body → List Body → List Body
push_body none bodies = bodies
push_body (some body) bodies = body ∷ bodies

module _ ⦃c : Crypto⦄ ⦃chess : Chess⦄ ⦃codec : Codec⦄ ⦃secrets : SecretCodec⦄ {S : Type 0}
    ⦃store : SecretStore S⦄ where
  -- The bodies of one game that are signed when a history of calls meets a store.
  unfoldable pub signatures : Bytes → S → List Call → List Body
  signatures id s [] = []
  signatures id s (call ∷ calls) =
      let out = handle call.entropy s call.origin call.request in
      push_body (released id call.request out.1) (signatures id out.0 calls)

  module _ (laws : IsStore store) (codec_laws : IsSecretCodec secrets) (wide : IsWideHash) where
    Step-IsKeyed : (s t : S) → Step s t → IsKeyed s → IsKeyed t
    Step-IsKeyed s t (Step.quiet same) keyed = SameGames-IsKeyed s t same keyed
    Step-IsKeyed s t (Step.wrote r out w stored e) keyed =
        subst IsKeyed e (Stored-IsKeyed s r out stored keyed)

    pub Step-Guarded :
        (s t : S) (id : Bytes) (rec : GameRecord) → Step s t → Guards s id rec → Guarded t id rec
    Step-Guarded s t id rec (Step.quiet same) g = SameGames-Guarded s t id rec same g
    Step-Guarded s t id rec (Step.wrote r out w stored e) g =
        subst (λ u. Guarded u id rec) e (Stored-Guarded s r out stored id rec w g)

    -- Every call leaves each record under the id of its own game.
    pub handle-IsKeyed :
        (s : S) (entropy : Bytes × Bytes) (origin : Option Bytes) (request : Request)
        → IsKeyed s
        → IsKeyed (handle entropy s origin request).0
    handle-IsKeyed s entropy origin request keyed =
        Step-IsKeyed s _ (handle-Step laws codec_laws wide s entropy origin request keyed) keyed

    signatures-Later :
        (id : Bytes) (s : S) (calls : List Call) (rec : GameRecord)
        → IsKeyed s
        → Guards s id rec
        → All (Later rec) (signatures id s calls)
    unfolding signatures
    signatures-Later id s [] rec keyed g = tt
    signatures-Later id s (call ∷ calls) rec keyed g =
        let out = handle call.entropy s call.origin call.request in
        let keyed' = handle-IsKeyed s call.entropy call.origin call.request keyed in
        let rest = signatures id out.0 calls in
        elim (Option-cases (released id call.request out.1)) [
          | inl e ↦
              let (next, g', advances) =
                Step-Guarded s out.0 id rec
                  (handle-Step laws codec_laws wide s call.entropy call.origin call.request keyed)
                  g in
              rw e (
                All-map (Later next) (Later rec) rest (Later-rest rec next advances)
                  (signatures-Later id out.0 calls next keyed' g'))
          | inr (b, e) ↦
              let (old, updated, there, decision, g') =
                handle-Released laws codec_laws wide s call.entropy call.origin call.request id b
                  keyed e in
              let same : old ≡ rec = let t = g.there in ground arith in
              let signs = decide_sign-Signs rec b call.origin updated (
                subst (λ r. decide_sign r b call.origin ≡ SignDecision.sign updated) same
                  decision) in
              rw e (
                Later-first rec b updated signs,
                All-map (Later updated) (Later rec) rest (Later-rest rec updated signs.advances)
                    (signatures-Later id out.0 calls updated keyed' g'),
              )
        ]

    -- Over any history of requests to the delegate (creating keys, binding, rebinding, signing,
    -- listing), from any callers, with any failures of the store's writes, the moves of one game
    -- that it hands out signatures of have, at each ply, one body hash. At the start each record is
    -- stored under the id of its own game; the store keeps its law, records are read back as they
    -- were written, and hashes have 32 bytes.
    pub signatures-NoClash :
        (id : Bytes) (s : S) (calls : List Call) → IsKeyed s → NoClash (signatures id s calls)
    unfolding signatures
    signatures-NoClash id s [] keyed = tt
    signatures-NoClash id s (call ∷ calls) keyed =
        let out = handle call.entropy s call.origin call.request in
        let keyed' = handle-IsKeyed s call.entropy call.origin call.request keyed in
        let rest = signatures id out.0 calls in
        let later = signatures-NoClash id out.0 calls keyed' in
        elim (Option-cases (released id call.request out.1)) [
          | inl e ↦ rw e later
          | inr (b, e) ↦
              let (old, updated, _, decision, g') =
                handle-Released laws codec_laws wide s call.entropy call.origin call.request id b
                  keyed e in
              let signs = decide_sign-Signs old b call.origin updated decision in
              rw e (
                All-map (Later updated) (Agree b) rest (Agree-first old b updated signs)
                    (signatures-Later id out.0 calls updated keyed' g'),
                later,
              )
        ]
