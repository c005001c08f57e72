-- ===== src/Go/Text.antt =====
-- Go strings as lists of bytes: the literals of the source, `==`, the order of their bytes (which
-- is also SQLite's order of TEXT), and the functions of `strings` that the source calls.
use Prim.Native.Char.{code}
use Prim.Native.String.{String}
use mathlib.Core.List.{reverse}
use mesthastic_caltopo_bridg.Prelude.{
  ℕ, zero, suc, ◌+◌, ◌≡◌, ◌↔◌, refl, Bool, true, false, ◌&&◌, ◌||◌, Option, none, some, List, [],
  ◌∷◌, map, length, arith, ltb, leb, ◌==◌, if◌then◌else◌,
}

abbrev pub Text : Type 0
Text = List ℕ

-- A literal of the source; all of them are ASCII.
abbrev pub text : String → Text
text String.[] = []
text (String.◌∷◌ c s) = code c ∷ text s

unfoldable pub text_eq : Text → Text → Bool
text_eq [] [] = true
text_eq [] (y ∷ ys) = false
text_eq (x ∷ xs) [] = false
text_eq (x ∷ xs) (y ∷ ys) = let rest = text_eq xs ys in x == y && rest

-- The order of `memcmp`.
unfoldable pub text_lt : Text → Text → Bool
text_lt [] [] = false
text_lt [] (y ∷ ys) = true
text_lt (x ∷ xs) [] = false
text_lt (x ∷ xs) (y ∷ ys) = let rest = text_lt xs ys in ltb x y || (x == y && rest)

abbrev pub is_empty : Text → Bool
is_empty [] = true
is_empty (x ∷ xs) = false

-- `strings.TrimPrefix`, by way of the rest behind the prefix.
unfoldable pub strip_prefix : Text → Text → Option Text
strip_prefix [] xs = some xs
strip_prefix (p ∷ ps) [] = none
strip_prefix (p ∷ ps) (x ∷ xs) = let rest = strip_prefix ps xs in if p == x then rest else none

unfoldable pub trim_prefix : Text → Text → Text
unfolding strip_prefix
trim_prefix prefix xs = elim (strip_prefix prefix xs) [ none ↦ xs | some rest ↦ rest ]

-- `strings.Contains` for a separator of one byte.
unfoldable pub contains_byte : ℕ → Text → Bool
contains_byte b [] = false
contains_byte b (x ∷ xs) = let rest = contains_byte b xs in x == b || rest

-- `strings.Split(xs, sep)[0]` for a separator of one byte.
unfoldable pub before_byte : ℕ → Text → Text
before_byte b [] = []
before_byte b (x ∷ xs) = let rest = before_byte b xs in if x == b then [] else x ∷ rest

-- The UTF-8 bytes of the code points that `unicode.IsSpace` holds of.
abbrev pub spaces : List Text
spaces =
    (0x20 ∷ [])
    ∷ (0x09 ∷ [])
    ∷ (0x0a ∷ [])
    ∷ (0x0b ∷ [])
    ∷ (0x0c ∷ [])
    ∷ (0x0d ∷ [])
    ∷ (0xc2 ∷ 0x85 ∷ [])
    ∷ (0xc2 ∷ 0xa0 ∷ [])
    ∷ (0xe1 ∷ 0x9a ∷ 0x80 ∷ [])
    ∷ (0xe2 ∷ 0x80 ∷ 0x80 ∷ [])
    ∷ (0xe2 ∷ 0x80 ∷ 0x81 ∷ [])
    ∷ (0xe2 ∷ 0x80 ∷ 0x82 ∷ [])
    ∷ (0xe2 ∷ 0x80 ∷ 0x83 ∷ [])
    ∷ (0xe2 ∷ 0x80 ∷ 0x84 ∷ [])
    ∷ (0xe2 ∷ 0x80 ∷ 0x85 ∷ [])
    ∷ (0xe2 ∷ 0x80 ∷ 0x86 ∷ [])
    ∷ (0xe2 ∷ 0x80 ∷ 0x87 ∷ [])
    ∷ (0xe2 ∷ 0x80 ∷ 0x88 ∷ [])
    ∷ (0xe2 ∷ 0x80 ∷ 0x89 ∷ [])
    ∷ (0xe2 ∷ 0x80 ∷ 0x8a ∷ [])
    ∷ (0xe2 ∷ 0x80 ∷ 0xa8 ∷ [])
    ∷ (0xe2 ∷ 0x80 ∷ 0xa9 ∷ [])
    ∷ (0xe2 ∷ 0x80 ∷ 0xaf ∷ [])
    ∷ (0xe2 ∷ 0x81 ∷ 0x9f ∷ [])
    ∷ (0xe3 ∷ 0x80 ∷ 0x80 ∷ [])
    ∷ []

-- The rest behind the first of the given prefixes that the text has.
unfoldable pub strip_any : List Text → Text → Option Text
unfolding strip_prefix
strip_any [] xs = none
strip_any (p ∷ ps) xs =
    let later = strip_any ps xs in elim (strip_prefix p xs) [ none ↦ later | some rest ↦ some rest ]

-- A step takes a byte or more, so that the text's length is enough fuel.
unfoldable pub trim_left : ℕ → List Text → Text → Text
unfolding strip_any
trim_left zero prefixes xs = xs
trim_left (suc fuel) prefixes xs = elim (strip_any prefixes xs) [
  | none ↦ xs
  | some rest ↦ trim_left fuel prefixes rest
]

-- `strings.TrimSpace`. No encoding of a space is the end of another code point's.
unfoldable pub trim_space : Text → Text
unfolding trim_left
trim_space xs =
    let front = trim_left (length xs) spaces xs in
    reverse (trim_left (length front) (map reverse spaces) (reverse front))

-- What a first byte of a code point asks for: how many more bytes, and the range of the next.
pub data Lead : Type 0 where
  bad : Lead
  lead : ℕ → ℕ → ℕ → Lead

unfoldable pub lead_of : ℕ → Lead
lead_of b =
    if ltb b 0x80
    then lead 0 0 0
    else if ltb b 0xc2
    then bad
    else if ltb b 0xe0
    then lead 1 0x80 0xbf
    else if b == 0xe0
    then lead 2 0xa0 0xbf
    else if b == 0xed
    then lead 2 0x80 0x9f
    else if ltb b 0xf0
    then lead 2 0x80 0xbf
    else if b == 0xf0
    then lead 3 0x90 0xbf
    else if ltb b 0xf4
    then lead 3 0x80 0xbf
    else if b == 0xf4
    then lead 3 0x80 0x8f
    else bad

-- `utf8.Valid`, with the bytes that are due of the code point at hand.
unfoldable pub utf8_from : ℕ → ℕ → ℕ → Text → Bool
unfolding lead_of
utf8_from zero lo hi [] = true
utf8_from (suc n) lo hi [] = false
utf8_from zero lo hi (b ∷ xs) = elim (lead_of b) [
  | bad ↦ false
  | lead n lo' hi' ↦ utf8_from n lo' hi' xs
]
utf8_from (suc n) lo hi (b ∷ xs) =
    let rest = utf8_from n 0x80 0xbf xs in leb lo b && leb b hi && rest

unfoldable pub utf8_valid : Text → Bool
unfolding utf8_from
utf8_valid xs = utf8_from 0 0 0 xs

-- `strings.ToLower` on ASCII. Bytes above it stand for code points that no host name here has.
unfoldable pub to_lower : Text → Text
to_lower [] = []
to_lower (x ∷ xs) = (if leb 65 x && leb x 90 then x + 32 else x) ∷ to_lower xs

pub text_eq_iff : (xs ys : Text) → (text_eq xs ys ≡ true) ↔ (xs ≡ ys)
unfolding text_eq
text_eq_iff [] [] = ground arith
text_eq_iff [] (y ∷ ys) = ground arith
text_eq_iff (x ∷ xs) [] = ground arith
text_eq_iff (x ∷ xs) (y ∷ ys) = ground (arith, text_eq_iff xs ys)

pub text_lt_irrefl : (xs : Text) → text_lt xs xs ≡ false
unfolding text_lt
text_lt_irrefl [] = refl
text_lt_irrefl (x ∷ xs) = ground (arith, text_lt_irrefl xs)

pub text_lt_trans :
    (xs ys zs : Text) → text_lt xs ys ≡ true → text_lt ys zs ≡ true → text_lt xs zs ≡ true
unfolding text_lt
text_lt_trans [] [] [] h k = cc
text_lt_trans [] (y ∷ ys) [] h k = cc
text_lt_trans [] ys (z ∷ zs) h k = refl
text_lt_trans (x ∷ xs) [] zs h k = cc
text_lt_trans (x ∷ xs) (y ∷ ys) [] h k = cc
text_lt_trans (x ∷ xs) (y ∷ ys) (z ∷ zs) h k = ground (arith, text_lt_trans xs ys zs)

-- Of two texts, one comes first or they are the same.
pub text_lt_total : (xs ys : Text) → text_lt xs ys ≡ false → text_lt ys xs ≡ false → xs ≡ ys
unfolding text_lt
text_lt_total [] [] h k = refl
text_lt_total [] (y ∷ ys) h k = cc
text_lt_total (x ∷ xs) [] h k = cc
text_lt_total (x ∷ xs) (y ∷ ys) h k = ground (arith, text_lt_total xs ys)
