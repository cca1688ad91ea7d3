-- ===== src/Tests/Session.antt =====
-- Base58, the blobs, the ids of contracts and the host of two players, for the examples.
use adjourn.Prelude.{
  ℕ, zero, suc, ◌+◌, ◌≡◌, refl, ap, ◌∙◌, true, false, [], ◌∷◌, Option, none, some, ◌>>=◌, nat_eq,
  arith,
}
use adjourn.Prelude.Order.{nat_ord, list_ord}
use adjourn.BTree.{insert}
use adjourn.Policy.Guard.{All}
use adjourn.Types.{Bytes}
use adjourn.Client.Invite.{Invite, GameOffer, Serde, Base58}
use adjourn.Client.Invite.Roundtrip.{IsLetter, IsBase58, IsSerde}
use adjourn.Client.Node.{Freenet}
use adjourn.Client.Fake.{FakeNode, Host}
use adjourn.Tests.Cbor.{framed, frame, read_frame, read_frame-frame, write_game}
use adjourn.Tests.Toy.{toy, game}
use adjourn.Tests.Vault.{side_code, side_at, side_at-side_code, stocked}

-- A byte is as many letters A, and a B.
unfoldable pub letters_of : ℕ → Bytes → Bytes
letters_of zero rest = 66 ∷ rest
letters_of (suc n) rest = 65 ∷ letters_of n rest

unfoldable pub spell : Bytes → Bytes
spell [] = []
spell (n ∷ b) = letters_of n (spell b)

abbrev cons_some : ℕ → Option Bytes → Option Bytes
cons_some n none = none
cons_some n (some b) = some (n ∷ b)

unfoldable pub unspell : ℕ → Bytes → Option Bytes
unspell n [] = some []
unspell n (a ∷ text) = elim (nat_eq a 65) [
  | true ↦ unspell (n + 1) text
  | false ↦ cons_some n (unspell 0 text)
]

unspell-letters_of :
    (n k : ℕ) (text : Bytes) → unspell k (letters_of n text) ≡ cons_some (k + n) (unspell 0 text)
unfolding letters_of unspell
unspell-letters_of zero k text = ap (λ m. cons_some m (unspell 0 text)) (omega arith)
unspell-letters_of (suc n) k text =
    unspell-letters_of n (k + 1) text ∙ ap (λ m. cons_some m (unspell 0 text)) (omega arith)

unspell-spell : (b : Bytes) → unspell 0 (spell b) ≡ some b
unfolding spell unspell
unspell-spell [] = refl
unspell-spell (n ∷ b) =
    unspell-letters_of n 0 (spell b) ∙ rw (unspell-spell b) (ap (λ m. some (m ∷ b)) (omega arith))

letters_of-Letters : (n : ℕ) (text : Bytes) → All IsLetter text → All IsLetter (letters_of n text)
unfolding letters_of
letters_of-Letters zero text h = ((omega arith, omega arith), h)
letters_of-Letters (suc n) text h = ((omega arith, omega arith), letters_of-Letters n text h)

spell-Letters : (b : Bytes) → All IsLetter (spell b)
unfolding spell
spell-Letters [] = tt
spell-Letters (n ∷ b) = letters_of-Letters n (spell b) (spell-Letters b)

instance abbrev pub spelled : Base58
spelled = record { encode = spell; decode = unspell 0 }

pub spelled-IsBase58 : IsBase58 spelled
spelled-IsBase58 = record { decode_encode = unspell-spell; alphabet = spell-Letters }

unfoldable pub read_invite : Bytes → Option Invite
read_invite (v ∷ side ∷ b) = do
  (key, b) ← read_frame b
  (nonce, b) ← read_frame b
  some (record { v = v; side = side_at side; public_key = key; nonce = nonce })
read_invite _ = none

instance abbrev pub invites : Serde Invite
invites = record {
  write = λ me. me.v ∷ side_code me.side ∷ frame me.public_key (frame me.nonce []);
  read = read_invite;
}

pub invites-IsSerde : IsSerde invites
unfolding read_invite
invites-IsSerde = record {
  read_write = λ me.
      rw
        (
          read_frame-frame me.public_key (frame me.nonce []),
          read_frame-frame me.nonce [],
          side_at-side_code me.side,
        )
        refl;
}

unfoldable pub read_offer : Bytes → Option GameOffer
read_offer [] = none
read_offer (v ∷ b) = do
  (white, b) ← read_frame b
  (black, b) ← read_frame b
  (nonce, b) ← read_frame b
  (contract, b) ← read_frame b
  some (record {
    v = v;
    params = record { white = white; black = black; nonce = nonce };
    contract = contract;
  })

instance abbrev pub offers : Serde GameOffer
offers = record {
  write = λ me.
      me.v
      ∷ frame me.params.white
          (frame me.params.black (frame me.params.nonce (frame me.contract [])));
  read = read_offer;
}

-- The id of a contract is its code.
instance abbrev pub by_code : Freenet
by_code = record { instance_id = λ params code. code }

-- A host without randomness.
instance abbrev pub silent : Host
silent = record { draws = ([], []) }

abbrev pub wasm : Bytes
wasm = 4 ∷ []

abbrev pub next_wasm : Bytes
next_wasm = 8 ∷ []

-- A node that has white's key, in a world that holds these bytes for the game's contract.
abbrev pub seated : Bytes → FakeNode
seated bytes = record {
  store = record {
    secrets = stocked;
    world = record { contracts = insert wasm (write_game game, bytes) []; log = [] };
  };
  cursor = 0;
  subscribed = [];
  fails_next_put = false;
}
