-- ===== src/Client/Invite/Roundtrip.antt =====
-- client/src/invite.rs: a blob that is pasted back is the one that was made.
use adjourn.Prelude.{
  ℕ, ◌≡◌, ◌≤◌, refl, sym, ap, ◌∙◌, true, List, [], ◌∷◌, ◌++◌, some, nat_eq, if◌then◌else◌, arith,
}
use mathlib.Core.List.{reverse, reverse-append, reverse-reverse, append-nil}
use adjourn.Policy.Guard.{All, All-append}
use adjourn.Types.{Bytes}
use adjourn.Client.{failed, done, InviteError}
use adjourn.Client.Invite.{
  Invite, GameOffer, Serde, Base58, encode_blob, decode_blob, encode_invite, decode_invite,
  encode_offer, decode_offer,
}
use adjourn.Client.Invite.Trim.{is_blank, width, width_back, strip, trim_start, trim_end, trim}

-- a byte from the digit 1 to the letter z
abbrev pub IsLetter : ℕ → Type 0
IsLetter b = (49 ≤ b) × (b ≤ 122)

abbrev pub AllBlank : Bytes → Type 0
AllBlank text = All (λ b. is_blank b ≡ true) text

-- What is relied on of bs58: it decodes what it encoded, into the alphabet of base58.
pub record IsBase58 (base : Base58) : Type 0 where
  pub decode_encode : (b : Bytes) → base.decode (base.encode b) ≡ some b
  pub alphabet : (b : Bytes) → All IsLetter (base.encode b)

-- A value is read back as it was written.
pub record IsSerde {T : Type 0} (serde : Serde T) : Type 0 where
  pub read_write : (t : T) → serde.read (serde.write t) ≡ some t

-- A measure of the white space at hand, at a letter and at ASCII white space.
record Measures (measure : Bytes → ℕ) : Type 0 where
  letter : (a : ℕ) (text : Bytes) → IsLetter a → measure (a ∷ text) ≡ 0
  blank : (a : ℕ) (text : Bytes) → is_blank a ≡ true → measure (a ∷ text) ≡ 1

width-letter : (a : ℕ) (text : Bytes) → IsLetter a → width (a ∷ text) ≡ 0
width-letter a [] h = ground arith
width-letter a (b ∷ []) h = ground arith
width-letter a (b ∷ d ∷ text) h = ground arith

width-blank : (a : ℕ) (text : Bytes) → is_blank a ≡ true → width (a ∷ text) ≡ 1
width-blank a [] h = rw h refl
width-blank a (b ∷ []) h = rw h refl
width-blank a (b ∷ d ∷ text) h = rw h refl

width_back-letter : (a : ℕ) (text : Bytes) → IsLetter a → width_back (a ∷ text) ≡ 0
width_back-letter a [] h = ground arith
width_back-letter a (b ∷ []) h = ground arith
width_back-letter a (b ∷ d ∷ text) h = ground arith

width_back-blank : (a : ℕ) (text : Bytes) → is_blank a ≡ true → width_back (a ∷ text) ≡ 1
width_back-blank a [] h = rw h refl
width_back-blank a (b ∷ []) h = rw h refl
width_back-blank a (b ∷ d ∷ text) h = rw h refl

width-Measures : Measures width
width-Measures = record { letter = width-letter; blank = width-blank }

width_back-Measures : Measures width_back
width_back-Measures = record { letter = width_back-letter; blank = width_back-blank }

module _ (measure : Bytes → ℕ) (m : Measures measure) where
  strip-blank :
      (before text : Bytes)
      → AllBlank before
      → strip measure 0 (before ++ text) ≡ strip measure 0 text
  unfolding strip
  strip-blank [] text h = refl
  strip-blank (a ∷ before) text h =
      rw (m.blank a (before ++ text) h.0) (strip-blank before text h.1)

  strip-letters :
      (letters after : Bytes)
      → All IsLetter letters
      → AllBlank after
      → strip measure 0 (letters ++ after)
        ≡ (elim letters as (λ _. Bytes) [ [] ↦ [] | a ∷ rest ↦ (a ∷ rest) ++ after ])
  unfolding strip
  strip-letters [] after h k =
      ap (strip measure 0) (sym (append-nil after)) ∙ strip-blank after [] k
  strip-letters (a ∷ letters) after h k = rw (m.letter a (letters ++ after) h.0) refl

  strip_letters : (text : Bytes) → All IsLetter text → strip measure 0 text ≡ text
  unfolding strip
  strip_letters [] h = refl
  strip_letters (a ∷ text) h = rw (m.letter a text h.0, strip) refl

All-reverse {ℓ} : {A : Type ℓ} (P : A → Type 0) (xs : List A) → All P xs → All P (reverse xs)
All-reverse P [] h = tt
All-reverse P (x ∷ xs) h =
    rw (reverse-append (x ∷ []) xs)
      (All-append P (reverse xs) (x ∷ []) (All-reverse P xs h.1) (h.0, tt))

trim_start-letters :
    (before letters after : Bytes)
    → AllBlank before
    → All IsLetter letters
    → AllBlank after
    → trim_start (before ++ (letters ++ after))
      ≡ (elim letters as (λ _. Bytes) [ [] ↦ [] | a ∷ rest ↦ (a ∷ rest) ++ after ])
unfolding trim_start
trim_start-letters before letters after h k l =
    strip-blank width width-Measures before (letters ++ after) h
    ∙ strip-letters width width-Measures letters after k l

trim_end-letters :
    (a : ℕ) (letters after : Bytes)
    → All IsLetter (a ∷ letters)
    → AllBlank after
    → trim_end ((a ∷ letters) ++ after) ≡ a ∷ letters
unfolding trim_end
trim_end-letters a letters after h k =
    ap (λ t. reverse (strip width_back 0 t)) (reverse-append (a ∷ letters) after)
    ∙ (ap reverse (
          strip-blank width_back width_back-Measures (reverse after) (reverse (a ∷ letters))
            (All-reverse _ after k))
        ∙ (ap reverse (
              strip_letters width_back width_back-Measures (reverse (a ∷ letters))
                (All-reverse IsLetter (a ∷ letters) h))
            ∙ reverse-reverse (a ∷ letters)))

-- White space round letters is taken off.
trim-letters :
    (before letters after : Bytes)
    → AllBlank before
    → All IsLetter letters
    → AllBlank after
    → trim (before ++ (letters ++ after)) ≡ letters
unfolding trim trim_end strip
trim-letters before [] after h k l = ap trim_end (trim_start-letters before [] after h k l)
trim-letters before (a ∷ letters) after h k l =
    ap trim_end (trim_start-letters before (a ∷ letters) after h k l)
    ∙ trim_end-letters a letters after k l

module _ ⦃base : Base58⦄ (base_laws : IsBase58 base) {T : Type 0} ⦃serde : Serde T⦄
    (laws : IsSerde serde) where
  decode_blob-encode_blob :
      (before after : Bytes) (t : T)
      → AllBlank before
      → AllBlank after
      → decode_blob (before ++ (encode_blob t ++ after)) ≡ done t
  unfolding decode_blob encode_blob
  decode_blob-encode_blob before after t h k =
      rw
        (
          trim-letters before (base.encode (serde.write t)) after h
              (base_laws.alphabet (serde.write t)) k,
          base_laws.decode_encode (serde.write t),
        )
        (let read = laws.read_write t in ground arith)

module _ ⦃base : Base58⦄ (base_laws : IsBase58 base) (before after : Bytes) (h : AllBlank before)
    (k : AllBlank after) where
  -- An invite that is pasted back, with any ASCII white space round it, is read as it was made, and
  -- if it is of another format than 1, it is refused, with the two formats named. Base58 decodes
  -- what it encoded, into letters and digits, and an invite is read back as it was written.
  pub decode_invite-encode_invite :
      ⦃serde : Serde Invite⦄ (laws : IsSerde serde) (me : Invite)
      → decode_invite (before ++ (encode_invite me ++ after))
        ≡ (if nat_eq me.v 1 then done me else failed (InviteError.version me.v 1))
  unfolding decode_invite encode_invite
  decode_invite-encode_invite laws me =
      rw (decode_blob-encode_blob base_laws laws before after me h k) (ground arith)

  -- An offer that is pasted back, with any ASCII white space round it, is read as it was made, and if
  -- it is of another format than 1, it is refused, with the two formats named.
  pub decode_offer-encode_offer :
      ⦃serde : Serde GameOffer⦄ (laws : IsSerde serde) (me : GameOffer)
      → decode_offer (before ++ (encode_offer me ++ after))
        ≡ (if nat_eq me.v 1 then done me else failed (InviteError.version me.v 1))
  unfolding decode_offer encode_offer
  decode_offer-encode_offer laws me =
      rw (decode_blob-encode_blob base_laws laws before after me h k) (ground arith)
