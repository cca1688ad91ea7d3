-- ===== src/Types.antt =====
-- common/src/types.rs: game parameters, bodies, signed records. A byte string (`[u8; 32]`,
-- `Vec<u8>`, a `String` by its UTF-8 bytes) is the list of its bytes.
pub mod Crypto
pub mod Verify
use Prim.Native.Char.{code}
use Prim.Native.String.{String}
use adjourn.Prelude.{
  ℕ, ◌+◌, ◌*◌, ◌%◌, ◌≡◌, Bool, true, false, not, List, [], ◌∷◌, ◌++◌, Option, none, some, nat_eq,
  ltb, if◌then◌else◌,
}
use adjourn.Prelude.Order.{◌==◌, nat_ord, list_ord}

abbrev pub Bytes : Type 0
Bytes = List ℕ

abbrev pub RecordId : Type 0
RecordId = Bytes

abbrev pub KeyBytes : Type 0
KeyBytes = Bytes

-- A byte-string literal.
abbrev pub bytes : String → Bytes
bytes String.[] = []
bytes (String.◌∷◌ c s) = code c ∷ bytes s

abbrev pub max_ply : ℕ
max_ply = 4096

pub data Kind : Type 0 where
  move resign draw_offer draw_accept draw_claim : Kind

-- `Kind::k`: how many records one signer may hold in one group.
unfoldable pub k_of : Kind → ℕ
k_of Kind.move = 2
k_of _ = 1

-- shakmaty's two-valued enumeration.
pub data Color : Type 0 where
  white black : Color

-- `!color`
abbrev pub other : Color → Color
other Color.white = Color.black
other Color.black = Color.white

abbrev pub color_eq : Color → Color → Bool
color_eq Color.white Color.white = true
color_eq Color.black Color.black = true
color_eq _ _ = false

pub record GameParams : Type 0 where
  pub white : KeyBytes
  pub black : KeyBytes
  pub nonce : Bytes

unfoldable pub color_of : GameParams → KeyBytes → Option Color
color_of p key =
    if key == p.white then some Color.white else if key == p.black then some Color.black else none

unfoldable pub key_of : GameParams → Color → KeyBytes
key_of p Color.white = p.white
key_of p Color.black = p.black

unfoldable pub color_at_ply : ℕ → Color
color_at_ply ply = if nat_eq (ply % 2) 1 then Color.white else Color.black

-- The fields in the source's order: `Move { ply, parent, uci }`, `DrawOffer { ply, at }`,
-- `DrawAccept { ply, offer }`, `DrawClaim { ply, at }`.
pub data Body : Type 0 where
  move : ℕ → RecordId → Bytes → Body
  resign : Body
  draw_offer draw_accept draw_claim : ℕ → RecordId → Body

unfoldable pub ply_of : Body → Option ℕ
ply_of (Body.move ply _ _) = some ply
ply_of (Body.draw_offer ply _) = some ply
ply_of (Body.draw_accept ply _) = some ply
ply_of (Body.draw_claim ply _) = some ply
ply_of Body.resign = none

unfoldable pub kind_of : Body → Kind
kind_of (Body.move _ _ _) = Kind.move
kind_of Body.resign = Kind.resign
kind_of (Body.draw_offer _ _) = Kind.draw_offer
kind_of (Body.draw_accept _ _) = Kind.draw_accept
kind_of (Body.draw_claim _ _) = Kind.draw_claim

pub record Record : Type 0 where
  pub body : Body
  pub signer : KeyBytes
  pub sig : Bytes
