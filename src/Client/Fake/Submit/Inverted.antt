-- ===== src/Client/Fake/Submit/Inverted.antt =====
-- client/src/session.rs and client/src/fake.rs: calls that succeed, and what they have done.
use adjourn.Prelude.{◌≡◌, refl, [], ◌∷◌, Option, none, some, arith}
use adjourn.Prelude.Order.{nat_ord, list_ord}
use adjourn.Types.{Bytes, Record}
use adjourn.Types.Crypto.{Crypto}
use adjourn.Contract.{Result, err, ok, UpdateData, update_state}
use adjourn.Contract.Cbor.{Codec}
use adjourn.Delegate.Api.{Response}
use adjourn.Client.{done}
use adjourn.Client.Open.{record_in}
use adjourn.Client.Fake.{
  FakeNode, world_backed_store, Broadcast, write_world, fake_node, update_entry, store_update,
}

pub entry-inj :
    {a b x y : Bytes}
    → ◌≡◌ {A = Option (Bytes × Bytes)} (some (a, b)) (some (x, y))
    → (a ≡ x) × (b ≡ y)
entry-inj e = (cc, cc)

pub ok-inj : {A : Type 0} {a b : A} → ◌≡◌ {A = Result A} (ok a) (ok b) → a ≡ b
ok-inj e = cc

pub record_in-done :
    {N : Type 0} (response : Response) (n n' : N) (r : Record)
    → record_in response n ≡ (n', done r)
    → (n ≡ n') × (response ≡ Response.signed r)
record_in-done (Response.signed s) n n' r e = (ground arith, ground arith)
record_in-done (Response.refused q) n n' r e = absurd (ground arith)
record_in-done (Response.game_key label key quality) n n' r e = absurd (ground arith)
record_in-done (Response.bound id) n n' r e = absurd (ground arith)
record_in-done (Response.games gs) n n' r e = absurd (ground arith)

module _ ⦃c : Crypto⦄ ⦃codec : Codec⦄ where
  -- An update that succeeds, inverted.
  unfoldable pub Updated : Bytes → Bytes → FakeNode → FakeNode → Option (Bytes × Bytes) → Type 0
  Updated id payload n n' entry =
      (params : Bytes) × (current : Bytes) × (out : Bytes) × (entry ≡ some (params, current))
      × (update_state params current (UpdateData.delta payload ∷ []) ≡ ok out)
      × (write_world id (params, out) (Broadcast.delta payload) n ≡ n')

  store_update-done :
      (id params current payload : Bytes) (n n' : FakeNode) (r : Result Bytes)
      → update_state params current (UpdateData.delta payload ∷ []) ≡ r
      → store_update id params payload n r ≡ (n', done tt)
      → Updated id payload n n' (some (params, current))
  unfolding Updated
  store_update-done id params current payload n n' (err f) q e = absurd (ground arith)
  store_update-done id params current payload n n' (ok out) q e =
      (params, current, out, refl, q, ground arith)

  pub update_entry-done :
      (id payload : Bytes) (n n' : FakeNode) (entry : Option (Bytes × Bytes))
      → update_entry id payload n entry ≡ (n', done tt)
      → Updated id payload n n' entry
  update_entry-done id payload n n' none e = absurd (ground arith)
  update_entry-done id payload n n' (some (params, current)) e =
      store_update-done id params current payload n n' _ refl e
