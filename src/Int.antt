-- ===== src/Int.antt =====
-- Go's `int`, `int64` and `time.Duration`: integers, the wrap-around of 64 bits where a product can
-- leave them, and strconv.Atoi.
use ai_cloudhub.Common.{
  ℕ, zero, suc, ◌+◌, ◌-◌, ◌*◌, ◌%◌, ◌^◌, Bool, true, false, Option, none, some, [], ◌∷◌, ltb, leb,
  ◌==◌, if◌then◌else◌,
}
use ai_cloudhub.Text.{Text, read_digits}

-- `negsuc n` is -(n + 1).
pub data ℤ : Type 0 where
  pos : ℕ → ℤ
  negsuc : ℕ → ℤ

abbrev pub pos_part : ℤ → ℕ
pos_part (pos n) = n
pos_part (negsuc n) = 0

abbrev pub neg_part : ℤ → ℕ
neg_part (pos n) = 0
neg_part (negsuc n) = suc n

abbrev pub ltb_ℤ : ℤ → ℤ → Bool
ltb_ℤ a b = ltb (pos_part a + neg_part b) (pos_part b + neg_part a)

abbrev pub eqb_ℤ : ℤ → ℤ → Bool
eqb_ℤ a b = pos_part a + neg_part b == pos_part b + neg_part a

abbrev pub neg : ℕ → ℤ
neg zero = pos 0
neg (suc n) = negsuc n

-- `if x < 0 { x = 0 }`
abbrev pub floor_zero : ℤ → ℕ
floor_zero (pos n) = n
floor_zero (negsuc n) = 0

-- `x > 0`
abbrev pub is_positive : ℤ → Bool
is_positive (pos n) = ltb 0 n
is_positive (negsuc n) = false

-- A number that is not negative, stored in an int64.
unfoldable pub to_int64 : ℕ → ℤ
to_int64 n = let r = n % 2 ^ 64 in if ltb r (2 ^ 63) then pos r else negsuc (2 ^ 64 - 1 - r)

abbrev pub second : ℕ
second = 1_000_000_000

-- `time.Duration(n) * time.Second`
unfoldable pub seconds : ℕ → ℤ
unfolding to_int64
seconds n = to_int64 (n * second)

-- The result of strconv.Atoi: `none` stands for any error, a value out of range included.
check_range : Bool → Option ℕ → Option ℤ
check_range negative none = none
check_range true (some n) = if leb n (2 ^ 63) then some (neg n) else none
check_range false (some n) = if ltb n (2 ^ 63) then some (pos n) else none

digits_of : Text → Option ℕ
unfolding read_digits
digits_of [] = none
digits_of (c ∷ cs) = read_digits 0 (c ∷ cs)

unfoldable pub atoi : Text → Option ℤ
unfolding check_range digits_of
atoi [] = none
atoi (c ∷ cs) =
    if c == b'-'
    then check_range true (digits_of cs)
    else if c == b'+'
    then check_range false (digits_of cs)
    else check_range false (digits_of (c ∷ cs))
