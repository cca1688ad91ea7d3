-- ===== src/Tests/Cbor.antt =====
-- An encoding by lengths, as a codec for the examples.
use adjourn.Prelude.{ℕ, zero, suc, ◌≡◌, refl, List, [], ◌∷◌, ◌++◌, Option, none, some, ◌>>=◌, arith}
use adjourn.Prelude.Lists.{length, take, drop, take-append, drop-append}
use adjourn.Types.{Bytes, GameParams, Record}
use adjourn.Contract.Cbor.{Codec, IsCodec}
use adjourn.Tests.Toy.{write_body, read_body, read_body-write_body}

abbrev pub frame : Bytes → Bytes → Bytes
frame x rest = length x ∷ (x ++ rest)

unfoldable pub read_frame : Bytes → Option (Bytes × Bytes)
read_frame [] = none
read_frame (n ∷ b) = some (take n b, drop n b)

pub read_frame-frame : (x rest : Bytes) → read_frame (frame x rest) ≡ some (x, rest)
unfolding read_frame
read_frame-frame x rest =
    rw (take-append (length x) x rest refl, drop-append (length x) x rest refl) refl

unfoldable pub write_record : Record → Bytes → Bytes
write_record r rest = frame (write_body r.body) (frame r.signer (frame r.sig rest))

unfoldable pub read_record : Bytes → Option (Record × Bytes)
read_record b = do
  (body_bytes, b) ← read_frame b
  body ← read_body body_bytes
  (signer, b) ← read_frame b
  (sig, b) ← read_frame b
  some (record { body = body; signer = signer; sig = sig }, b)

read_record-write_record :
    (r : Record) (rest : Bytes) → read_record (write_record r rest) ≡ some (r, rest)
unfolding read_record write_record
read_record-write_record r rest =
    rw
      (
        read_frame-frame (write_body r.body) (frame r.signer (frame r.sig rest)),
        read_body-write_body r.body,
        read_frame-frame r.signer (frame r.sig rest),
        read_frame-frame r.sig rest,
      )
      refl

unfoldable pub write_all : List Record → Bytes
write_all [] = []
write_all (r ∷ rs) = write_record r (write_all rs)

unfoldable pub read_all : ℕ → Bytes → Option (List Record)
read_all zero b = some []
read_all (suc n) b = do (r, b) ← read_record b; rs ← read_all n b; some (r ∷ rs)

read_all-write_all : (rs : List Record) → read_all (length rs) (write_all rs) ≡ some rs
unfolding read_all write_all
read_all-write_all [] = refl
read_all-write_all (r ∷ rs) =
    rw (read_record-write_record r (write_all rs), read_all-write_all rs) refl

unfoldable pub read_counted : Bytes → Option (List Record)
read_counted [] = none
read_counted (n ∷ b) = read_all n b

unfoldable pub write_game : GameParams → Bytes
write_game p = frame p.white (frame p.black (frame p.nonce []))

unfoldable pub read_game : Bytes → Option GameParams
read_game b = do
  (w, b) ← read_frame b
  (k, b) ← read_frame b
  (n, b) ← read_frame b
  some (record { white = w; black = k; nonce = n })

unfoldable pub read_one : Bytes → Option Bytes
read_one b = do (x, _) ← read_frame b; some x

instance abbrev pub framed : Codec
framed = record {
  write_records = λ rs. length rs ∷ write_all rs;
  read_records = read_counted;
  write_params = write_game;
  read_params = read_game;
  write_bytes = λ b. frame b [];
  read_bytes = read_one;
}

pub framed-IsCodec : IsCodec framed
unfolding read_counted read_game write_game read_one
framed-IsCodec = record {
  records_nonempty = λ rs e. absurd (ground arith);
  read_write_records = λ rs. read_all-write_all rs;
  read_write_params = λ p.
      rw
        (
          read_frame-frame p.white (frame p.black (frame p.nonce [])),
          read_frame-frame p.black (frame p.nonce []),
          read_frame-frame p.nonce [],
        )
        refl;
  bytes_nonempty = λ b e. absurd (ground arith);
  read_write_bytes = λ b. rw (read_frame-frame b []) refl;
}
