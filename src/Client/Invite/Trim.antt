-- ===== src/Client/Invite/Trim.antt =====
-- `str::trim` on UTF-8 bytes: what decode_blob of client/src/invite.rs takes off a pasted blob.
use adjourn.Prelude.{ℕ, zero, suc, Bool, ◌&&◌, ◌||◌, [], ◌∷◌, nat_eq, leb, if◌then◌else◌}
use mathlib.Core.List.{reverse}
use adjourn.Types.{Bytes}

-- ASCII white space: tab to carriage return, and the blank.
abbrev pub is_blank : ℕ → Bool
is_blank b = (leb 9 b && leb b 13) || nat_eq b 32

-- U+0085 and U+00A0
abbrev pub is_blank_2 : ℕ → ℕ → Bool
is_blank_2 a b = nat_eq a 0xc2 && (nat_eq b 0x85 || nat_eq b 0xa0)

-- U+1680, U+2000 to U+200A, U+2028, U+2029, U+202F, U+205F and U+3000
abbrev pub is_blank_3 : ℕ → ℕ → ℕ → Bool
is_blank_3 a b c =
    (nat_eq a 0xe1 && (nat_eq b 0x9a && nat_eq c 0x80))
    || ((nat_eq a 0xe2
          && (nat_eq b 0x80
              && ((leb 0x80 c && leb c 0x8a)
                  || (nat_eq c 0xa8 || (nat_eq c 0xa9 || nat_eq c 0xaf)))))
        || ((nat_eq a 0xe2 && (nat_eq b 0x81 && nat_eq c 0x9f))
            || (nat_eq a 0xe3 && (nat_eq b 0x80 && nat_eq c 0x80))))

-- How many bytes the white space takes that a text begins with, 0 if it begins with none; and the
-- same of a text read backwards.
abbrev pub width : Bytes → ℕ
width [] = 0
width (a ∷ []) = if is_blank a then 1 else 0
width (a ∷ b ∷ []) = if is_blank a then 1 else if is_blank_2 a b then 2 else 0
width (a ∷ b ∷ c ∷ _) =
    if is_blank a then 1 else if is_blank_2 a b then 2 else if is_blank_3 a b c then 3 else 0

abbrev pub width_back : Bytes → ℕ
width_back [] = 0
width_back (a ∷ []) = if is_blank a then 1 else 0
width_back (b ∷ a ∷ []) = if is_blank b then 1 else if is_blank_2 a b then 2 else 0
width_back (c ∷ b ∷ a ∷ _) =
    if is_blank c then 1 else if is_blank_2 b c then 2 else if is_blank_3 a b c then 3 else 0

-- Takes white space off the front; the first number counts the bytes left of the one at hand.
unfoldable pub strip : (Bytes → ℕ) → ℕ → Bytes → Bytes
strip measure n [] = []
strip measure (suc n) (b ∷ text) = strip measure n text
strip measure zero (b ∷ text) = elim (measure (b ∷ text)) [
  | zero ↦ b ∷ text
  | suc n ↦ strip measure n text
]

unfoldable pub trim_start : Bytes → Bytes
trim_start text = strip width 0 text

unfoldable pub trim_end : Bytes → Bytes
trim_end text = reverse (strip width_back 0 (reverse text))

unfoldable pub trim : Bytes → Bytes
trim text = trim_end (trim_start text)
