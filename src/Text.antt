-- ===== src/Text.antt =====
-- Go strings as lists of bytes: the functions of Go's packages `strings`, `strconv` and `fmt` that
-- the program calls. `len` counts bytes, and a slice cuts bytes.
use Prim.Native.Char.{code}
use Prim.Native.String.{String}
use ai_cloudhub.Common.{
  ℕ, zero, suc, ◌+◌, ◌-◌, ◌*◌, ◌/◌, ◌%◌, ◌^◌, Bool, true, false, ◌&&◌, ◌||◌, List, [], ◌∷◌, ◌++◌,
  reverse, Option, none, some, ltb, leb, ◌==◌ as nat_eq, if◌then◌else◌, length, drop,
}
pub mod Laws
pub mod Runes
pub mod Parts

abbrev pub Text : Type 0
Text = List ℕ

-- A text literal, as its bytes; the program's literals are ASCII.
abbrev pub codes : String → Text
codes String.[] = []
codes (String.◌∷◌ c s) = code c ∷ codes s

infix 50 ◌==◌
unfoldable pub ◌==◌ : Text → Text → Bool
[] == [] = true
[] == (d ∷ ds) = false
(c ∷ cs) == [] = false
(c ∷ cs) == (d ∷ ds) = nat_eq c d && cs == ds

-- Byte order, as Go compares strings.
unfoldable pub text_lt : Text → Text → Bool
text_lt cs [] = false
text_lt [] (d ∷ ds) = true
text_lt (c ∷ cs) (d ∷ ds) = ltb c d || (nat_eq c d && text_lt cs ds)

abbrev pub is_empty : Text → Bool
is_empty [] = true
is_empty (c ∷ cs) = false

is_ascii_space : ℕ → Bool
is_ascii_space c = (leb 9 c && leb c 13) || nat_eq c 32

-- The white space of two and of three bytes in UTF-8: U+0085, U+00A0; U+1680, U+2000 to U+200A,
-- U+2028, U+2029, U+202F, U+205F, U+3000.
is_space2 : ℕ → ℕ → Bool
is_space2 a b = nat_eq a 0xC2 && (nat_eq b 0x85 || nat_eq b 0xA0)

is_space3 : ℕ → ℕ → ℕ → Bool
is_space3 a b c =
    (nat_eq a 0xE1 && nat_eq b 0x9A && nat_eq c 0x80)
    || (nat_eq a 0xE2
        && nat_eq b 0x80
        && ((leb 0x80 c && leb c 0x8A) || nat_eq c 0xA8 || nat_eq c 0xA9 || nat_eq c 0xAF))
    || (nat_eq a 0xE2 && nat_eq b 0x81 && nat_eq c 0x9F)
    || (nat_eq a 0xE3 && nat_eq b 0x80 && nat_eq c 0x80)

-- How many bytes the white space at the front of a text takes, read forwards or, for a text whose
-- bytes stand in reverse, backwards.
space_len : Text → ℕ
unfolding is_ascii_space is_space2 is_space3
space_len [] = 0
space_len (a ∷ []) = if is_ascii_space a then 1 else 0
space_len (a ∷ b ∷ []) = if is_ascii_space a then 1 else if is_space2 a b then 2 else 0
space_len (a ∷ b ∷ c ∷ cs) =
    if is_ascii_space a then 1 else if is_space2 a b then 2 else if is_space3 a b c then 3 else 0

space_len_back : Text → ℕ
unfolding is_ascii_space is_space2 is_space3
space_len_back [] = 0
space_len_back (a ∷ []) = if is_ascii_space a then 1 else 0
space_len_back (a ∷ b ∷ []) = if is_ascii_space a then 1 else if is_space2 b a then 2 else 0
space_len_back (a ∷ b ∷ c ∷ cs) =
    if is_ascii_space a then 1 else if is_space2 b a then 2 else if is_space3 c b a then 3 else 0

-- `skip` bytes of the current white space are still to be dropped.
trim_from : (Text → ℕ) → ℕ → Text → Text
trim_from spaces skip [] = []
trim_from spaces (suc skip) (c ∷ cs) = trim_from spaces skip cs
trim_from spaces zero (c ∷ cs) = elim (spaces (c ∷ cs)) [
  | zero ↦ c ∷ cs
  | suc n ↦ trim_from spaces n cs
]

-- strings.TrimSpace
unfoldable pub trim_space : Text → Text
unfolding trim_from space_len space_len_back
trim_space s = reverse (trim_from space_len_back 0 (reverse (trim_from space_len 0 s)))

-- strings.HasPrefix, HasSuffix, Contains, TrimPrefix
unfoldable pub has_prefix : Text → Text → Bool
has_prefix s [] = true
has_prefix [] (p ∷ ps) = false
has_prefix (c ∷ cs) (p ∷ ps) = nat_eq c p && has_prefix cs ps

unfoldable pub has_suffix : Text → Text → Bool
unfolding has_prefix
has_suffix s p = has_prefix (reverse s) (reverse p)

unfoldable pub contains_text : Text → Text → Bool
unfolding has_prefix
contains_text [] p = has_prefix [] p
contains_text (c ∷ cs) p = has_prefix (c ∷ cs) p || contains_text cs p

unfoldable pub trim_prefix : Text → Text → Text
unfolding has_prefix
trim_prefix s p = if has_prefix s p then drop (length p) s else s

-- The last `n` bytes, `s[len(s)-n:]`; the whole text where it is no longer than that.
unfoldable pub tail_bytes : ℕ → Text → Text
tail_bytes n s = drop (length s - n) s

digits_from : ℕ → ℕ → Text → Text
digits_from zero n acc = acc
digits_from (suc fuel) n acc =
    let rest = digits_from fuel (n / 10) ((48 + n % 10) ∷ acc) in
    if ltb n 10 then (48 + n) ∷ acc else rest

-- The `%d` of fmt.Sprintf for a number that is not negative. A number has at most as many digits as
-- its successor, so the fuel is enough.
unfoldable pub itoa : ℕ → Text
unfolding digits_from
itoa n = digits_from (suc n) n []

-- The value of a run of digits; `none` where another byte stands.
unfoldable pub read_digits : ℕ → Text → Option ℕ
read_digits acc [] = some acc
read_digits acc (c ∷ cs) =
    let rest = read_digits (acc * 10 + (c - 48)) cs in if leb 48 c && leb c 57 then rest else none
