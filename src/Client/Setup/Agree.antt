-- ===== src/Client/Setup/Agree.antt =====
-- client/src/session.rs: the offer that answers an invite.
use adjourn.Prelude.{ℕ, ◌≡◌, refl, [], arith}
use adjourn.Prelude.Order.{nat_ord, list_ord}
use adjourn.Types.{Bytes, KeyBytes, key_of}
use adjourn.Policy.{Side, color_of_side}
use adjourn.Contract.Cbor.{Codec}
use adjourn.Client.{done, bind-done}
use adjourn.Client.Invite.{Invite, GameOffer, new_offer}
use adjourn.Client.Node.{Freenet, NodeClient, contract_container}
use adjourn.Client.Setup.{params_of, bind_to, accept_as}

-- What an offer says of the invite that it answers.
pub record Answers (invite : Invite) (offer : GameOffer) : Type 0 where
  pub format : offer.v ≡ 1
  pub inviter : key_of offer.params (color_of_side invite.side) ≡ invite.public_key
  pub nonce : offer.params.nonce ≡ invite.nonce

-- by the side
params_of-side :
    (v : ℕ) (side : Side) (key nonce : Bytes) (ours : KeyBytes)
    → let p = params_of (record { v = v; side = side; public_key = key; nonce = nonce }) ours in
      (key_of p (color_of_side side) ≡ key) × (p.nonce ≡ nonce)
unfolding params_of key_of color_of_side
params_of-side v Side.white key nonce ours = (refl, refl)
params_of-side v Side.black key nonce ours = (refl, refl)

pub params_of-Answers :
    (invite : Invite) (ours : KeyBytes) (contract : Bytes)
    → Answers invite (new_offer (params_of invite ours) contract)
unfolding new_offer
params_of-Answers invite ours contract =
    let (inviter, nonce) =
      params_of-side invite.v invite.side invite.public_key invite.nonce ours in
    record { format = refl; inviter = inviter; nonce = nonce }

module _ ⦃codec : Codec⦄ ⦃freenet : Freenet⦄ {N : Type 0} ⦃client : NodeClient N⦄ where
  pub accept_as-offer :
      (label wasm : Bytes) (invite : Invite) (ours : KeyBytes) (n n' : N) (offer : GameOffer)
      → accept_as label wasm invite ours n ≡ (n', done offer)
      → new_offer (params_of invite ours) (contract_container wasm (params_of invite ours)).1
        ≡ offer
  unfolding accept_as
  accept_as-offer label wasm invite ours n n' offer e =
      let params = params_of invite ours in
      let (container, id) = contract_container wasm params in
      let (n₁, _, put, e) = bind-done (client.put container []) _ n n' offer e in
      let (n₂, _, bound, e) = bind-done (bind_to label params id) _ n₁ n' offer e in ground arith
