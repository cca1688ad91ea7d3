-- ===== src/Client/Keeps.antt =====
-- client/src/session.rs: what every command of the session keeps, if each call on the node keeps it.
pub mod Commands
pub mod Following
use adjourn.Prelude.{
  ℕ, Bool, true, false, List, [], ◌∷◌, Option, none, some, if◌then◌else◌, ◌≡◌, refl,
}
use adjourn.Types.{Bytes, GameParams, Body, Record}
use adjourn.Types.Crypto.{Crypto}
use adjourn.State.{GameState}
use adjourn.Policy.{Side}
use adjourn.Project.Board.{Chess}
use adjourn.Contract.Cbor.{Codec}
use adjourn.Delegate.Api.{Request, Response}
use adjourn.Client.{
  Failure, failed, done, Reply, Session, return, bail, or_fail, bail_if, continue, ◌>>=◌,
}
use adjourn.Client.Invite.{Invite, GameOffer}
use adjourn.Client.Node.{Freenet, ContractContainer, NodeClient}
use adjourn.Client.Setup.{
  key_in, expect_bound, create_key, invite_new, bind_to, accept_as, invite_accept, game_bind,
}
use adjourn.Client.Open.{
  BoundGame, GameView, OpenGame, games_in, record_in, expected_container, bound_game,
  decode_fetched, fetch_state, open_game, submit, sign_and_submit, show_label,
}

-- The command keeps `P`, whether it returns or fails.
pub record Keeps {N A : Type 0} (P : N → Type 0) (m : Session N A) : Type 0 where
  pub at : (n : N) → P n → P (m n).0

-- Each call on the node keeps `P`.
pub record KeepsCalls {N : Type 0} (client : NodeClient N) (P : N → Type 0) : Type 0 where
  pub get : (id : Bytes) (subscribe : Bool) → Keeps P (client.get id subscribe)
  pub put : (container : ContractContainer) (bytes : Bytes) → Keeps P (client.put container bytes)
  pub update : (key delta : Bytes) → Keeps P (client.update key delta)
  pub delegate : (request : Request) → Keeps P (client.delegate request)
  pub next_update : Keeps P client.next_update

module _ {N A : Type 0} {P : N → Type 0} where
  pub Keeps-return : (a : A) → Keeps P (return a)
  Keeps-return a = record { at = λ n h. h }

  pub Keeps-or_fail : (o : Option A) (f : Failure) → Keeps P (or_fail o f)
  Keeps-or_fail none f = record { at = λ n h. h }
  Keeps-or_fail (some a) f = record { at = λ n h. h }

  pub Keeps-if :
      (b : Bool) (m k : Session N A) → Keeps P m → Keeps P k → Keeps P (if b then m else k)
  Keeps-if true m k km kk = km
  Keeps-if false m k km kk = kk

module _ {N : Type 0} {P : N → Type 0} where
  pub Keeps-bail_if : (b : Bool) (f : Failure) → Keeps P (bail_if b f)
  Keeps-bail_if true f = record { at = λ n h. h }
  Keeps-bail_if false f = record { at = λ n h. h }

  pub Keeps-key_in : (r : Response) → Keeps P (key_in r)
  Keeps-key_in (Response.game_key _ _ _) = record { at = λ n h. h }
  Keeps-key_in (Response.bound _) = record { at = λ n h. h }
  Keeps-key_in (Response.signed _) = record { at = λ n h. h }
  Keeps-key_in (Response.games _) = record { at = λ n h. h }
  Keeps-key_in (Response.refused _) = record { at = λ n h. h }

  pub Keeps-expect_bound : (r : Response) → Keeps P (expect_bound r)
  Keeps-expect_bound (Response.game_key _ _ _) = record { at = λ n h. h }
  Keeps-expect_bound (Response.bound _) = record { at = λ n h. h }
  Keeps-expect_bound (Response.signed _) = record { at = λ n h. h }
  Keeps-expect_bound (Response.games _) = record { at = λ n h. h }
  Keeps-expect_bound (Response.refused _) = record { at = λ n h. h }

  pub Keeps-games_in : (r : Response) → Keeps P (games_in r)
  Keeps-games_in (Response.game_key _ _ _) = record { at = λ n h. h }
  Keeps-games_in (Response.bound _) = record { at = λ n h. h }
  Keeps-games_in (Response.signed _) = record { at = λ n h. h }
  Keeps-games_in (Response.games _) = record { at = λ n h. h }
  Keeps-games_in (Response.refused _) = record { at = λ n h. h }

  pub Keeps-record_in : (r : Response) → Keeps P (record_in r)
  Keeps-record_in (Response.game_key _ _ _) = record { at = λ n h. h }
  Keeps-record_in (Response.bound _) = record { at = λ n h. h }
  Keeps-record_in (Response.signed _) = record { at = λ n h. h }
  Keeps-record_in (Response.games _) = record { at = λ n h. h }
  Keeps-record_in (Response.refused _) = record { at = λ n h. h }

module _ {N A B : Type 0} {P : N → Type 0} where
  Keeps-continue :
      (n : N) (r : Reply A) (next : A → Session N B)
      → ((a : A) → Keeps P (next a))
      → P n
      → P (continue (n, r) next).0
  Keeps-continue n (failed f) next k h = h
  Keeps-continue n (done a) next k h = (k a).at n h

  pub Keeps-bind :
      (m : Session N A) (next : A → Session N B)
      → Keeps P m
      → ((a : A) → Keeps P (next a))
      → Keeps P (m >>= next)
  Keeps-bind m next km k = record {
    at = λ n h. let (n', r) = m n in Keeps-continue n' r next k (km.at n h);
  }

pub ruleset keeps_rules = (
  Keeps-return, Keeps-or_fail, Keeps-if, Keeps-bail_if, Keeps-key_in, Keeps-expect_bound,
  Keeps-games_in, Keeps-record_in, Keeps-bind,
)

module _ ⦃c : Crypto⦄ ⦃codec : Codec⦄ {N : Type 0} {P : N → Type 0} where
  pub decode_fetched-Keeps : (bytes : Bytes) → Keeps P (decode_fetched bytes)
  decode_fetched-Keeps [] = search keeps_rules
  decode_fetched-Keeps (b ∷ bytes) = search keeps_rules

module _ {N : Type 0} ⦃client : NodeClient N⦄ {P : N → Type 0} where
  -- The one call of `bound_game` is for the list of the games.
  pub bound_game_Keeps :
      Keeps P (client.delegate Request.list_games) → (label : Bytes) → Keeps P (bound_game label)
  unfolding bound_game
  bound_game_Keeps listing label =
      Keeps-bind (client.delegate Request.list_games) _ listing (λ response. search keeps_rules)
