-- ===== src/Client.antt =====
-- client/src: the session flows of a player over a node. A call on a node takes the node and returns
-- the node after it with its result.
pub mod Invite
pub mod Node
pub mod Setup
pub mod Open
pub mod Migrate
pub mod Play
pub mod Watch
pub mod Fake
pub mod Keeps
use adjourn.Prelude.{ℕ, ◌≡◌, refl, ap, Bool, true, false, Option, none, some, arith}
use adjourn.Types.{Bytes}
use adjourn.Policy.{Refusal}
use adjourn.Delegate.Api.{Response}

-- A result that may be an error.
pub data Fallible {ℓ κ} (E : Type ℓ) (A : Type κ) : Type (ℓ ⊔ κ) where
  failed : E → Fallible E A
  done : A → Fallible E A

pub data InviteError : Type 0 where
  base58 malformed : InviteError
  -- the format found, and the one expected
  version : ℕ → ℕ → InviteError

-- An error that a call on the node returns: of the transport, or one that is only a text.
pub data NodeError : Type 0 where
  transport plain : NodeError

-- The errors of the session and of the command line, without their texts.
pub data Failure : Type 0 where
  node : NodeError → Failure
  blob : InviteError → Failure
  -- a WASM file that cannot be read
  unreadable : Failure
  refused : Refusal → Failure
  unexpected : Response → Failure
  build_mismatch : Bytes → Bytes → Failure
  no_key : Bytes → Failure
  not_bound : Bytes → Failure
  gone : Bytes → Failure
  undecodable : Failure
  game_over : Failure
  not_your_turn : Failure
  not_legal : Bytes → Failure
  no_offer : Failure
  not_to_move : Failure
  no_claim : ℕ → ℕ → Failure
  no_parent : ℕ → Failure
  -- the walk of the projection ran out of its rounds
  unfinished : Failure

abbrev pub Reply : Type 0 → Type 0
Reply A = Fallible Failure A

abbrev pub Session : Type 0 → Type 0 → Type 0
Session N A = N → N × Reply A

module _ {N A : Type 0} where
  abbrev pub return : A → Session N A
  return a n = (n, done a)

  abbrev pub bail : Failure → Session N A
  bail f n = (n, failed f)

  -- `ok_or_else`
  abbrev pub or_fail : Option A → Failure → Session N A
  or_fail none f = bail f
  or_fail (some a) f = return a

module _ {N A B : Type 0} where
  abbrev pub continue : N × Reply A → (A → Session N B) → N × Reply B
  continue (n, failed f) next = (n, failed f)
  continue (n, done a) next = next a n

  -- the operator `?` after an awaited call: what the node has done stays done
  infixl 5 ◌>>=◌ ◌>>◌
  abbrev pub ◌>>=◌ : Session N A → (A → Session N B) → Session N B
  ◌>>=◌ m next n = continue (m n) next

  abbrev pub ◌>>◌ : Session N A → Session N B → Session N B
  m >> next = m >>= λ _. next

-- `if test { bail!(..) }`
abbrev pub bail_if : {N : Type 0} → Bool → Failure → Session N (Unit {0})
bail_if true f = bail f
bail_if false f = return tt

-- A reply is an error or a result, and what a reply says of both.
pub Reply-inj : {A : Type 0} {a b : A} → ◌≡◌ {A = Reply A} (done a) (done b) → a ≡ b
Reply-inj e = cc

module _ {N A B : Type 0} where
  continue-done :
      (out : N × Reply A) (next : A → Session N B) (n'' : N) (b : B)
      → continue out next ≡ (n'', done b)
      → (n' : N) × (a : A) × (out ≡ (n', done a)) × (next a n' ≡ (n'', done b))
  continue-done (n', failed f) next n'' b e = absurd (ground arith)
  continue-done (n', done a) next n'' b e = (n', a, refl, e)

  -- Inversion of a successful step.
  pub bind-done :
      (m : Session N A) (next : A → Session N B) (n n'' : N) (b : B)
      → (m >>= next) n ≡ (n'', done b)
      → (n' : N) × (a : A) × (m n ≡ (n', done a)) × (next a n' ≡ (n'', done b))
  bind-done m next n n'' b e = continue-done (m n) next n'' b e
