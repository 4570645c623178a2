-- ===== src/Text/Runes.antt =====
-- Go's utf8.RuneCountInString and strings.Split at one byte.
use ai_cloudhub.Common.{
  ℕ, zero, suc, Bool, ◌&&◌, ◌||◌, List, [], ◌∷◌, leb, ◌==◌ as nat_eq, if◌then◌else◌,
}
use ai_cloudhub.Text.{Text}

within : ℕ → ℕ → ℕ → Bool
within a b c = leb a c && leb c b

is_continuation : ℕ → Bool
is_continuation c = leb 0x80 c && leb c 0xBF

-- What may follow the first byte of a rune: the second byte's range depends on the first.
starts2 : ℕ → ℕ → Bool
unfolding within is_continuation
starts2 a b = within 0xC2 0xDF a && is_continuation b

starts3 : ℕ → ℕ → Bool
unfolding within is_continuation
starts3 a b =
    (nat_eq a 0xE0 && within 0xA0 0xBF b)
    || (nat_eq a 0xED && within 0x80 0x9F b)
    || ((within 0xE1 0xEC a || within 0xEE 0xEF a) && is_continuation b)

starts4 : ℕ → ℕ → Bool
unfolding within is_continuation
starts4 a b =
    (nat_eq a 0xF0 && within 0x90 0xBF b)
    || (nat_eq a 0xF4 && within 0x80 0x8F b)
    || (within 0xF1 0xF3 a && is_continuation b)

-- How many bytes stand behind the first one of the rune at the front; an invalid byte is a rune of
-- its own.
rest_len : Text → ℕ
unfolding starts2 starts3 starts4 is_continuation
rest_len (a ∷ b ∷ c ∷ d ∷ cs) =
    if starts2 a b
    then 1
    else if starts3 a b && is_continuation c
    then 2
    else if starts4 a b && is_continuation c && is_continuation d
    then 3
    else 0
rest_len (a ∷ b ∷ c ∷ []) =
    if starts2 a b then 1 else if starts3 a b && is_continuation c then 2 else 0
rest_len (a ∷ b ∷ []) = if starts2 a b then 1 else 0
rest_len (a ∷ []) = 0
rest_len [] = 0

-- `skip` bytes of the current rune are still to be passed.
count_from : ℕ → Text → ℕ
count_from skip [] = 0
count_from (suc skip) (c ∷ cs) = count_from skip cs
count_from zero (c ∷ cs) = suc (count_from (rest_len (c ∷ cs)) cs)

unfoldable pub rune_count : Text → ℕ
unfolding count_from rest_len
rune_count s = count_from 0 s

unfoldable pub add_first : ℕ → List Text → List Text
add_first c [] = (c ∷ []) ∷ []
add_first c (s ∷ ss) = (c ∷ s) ∷ ss

unfoldable pub split_at : ℕ → Text → List Text
unfolding add_first
split_at sep [] = [] ∷ []
split_at sep (c ∷ cs) =
    let rest = split_at sep cs in if nat_eq c sep then [] ∷ rest else add_first c rest
