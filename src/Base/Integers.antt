-- ===== src/Base/Integers.antt =====
-- Go's `int` where it may be negative: the settings that a JSON file gives.
use Prim.Native.Nat.{ℕ, zero, suc, ◌+◌, ◌-◌, ◌*◌, ◌^◌}
use mathlib.Core.Bool.{Bool, true, false, ◌&&◌}
use mathlib.Core.List.{[], ◌∷◌, ◌++◌}
use mathlib.Core.Option.{Option, none, some}
use sidero_proxy.Base.Tests.{ltb, leb, ◌==◌, if◌then◌else◌}
use sidero_proxy.Base.Strings.{Bytes, codes}
use sidero_proxy.Base.Text.{itoa}

pub data ℤ : Type 0 where
  pos : ℕ → ℤ
  negsuc : ℕ → ℤ

-- `x <= 0`
abbrev pub is_not_positive : ℤ → Bool
is_not_positive (pos n) = n == 0
is_not_positive (negsuc n) = true

-- `x < 0`
abbrev pub is_negative : ℤ → Bool
is_negative (pos n) = false
is_negative (negsuc n) = true

-- `x > limit`
abbrev pub exceeds : ℤ → ℕ → Bool
exceeds (pos n) limit = ltb limit n
exceeds (negsuc n) limit = false

-- `x < y`
abbrev pub is_less : ℤ → ℤ → Bool
is_less (pos n) (pos m) = ltb n m
is_less (pos n) (negsuc m) = false
is_less (negsuc n) (pos m) = true
is_less (negsuc n) (negsuc m) = ltb m n

-- `x == y`
abbrev pub is_same : ℤ → ℤ → Bool
is_same (pos n) (pos m) = n == m
is_same (pos n) (negsuc m) = false
is_same (negsuc n) (pos m) = false
is_same (negsuc n) (negsuc m) = n == m

-- `%d`
abbrev pub itoa_int : ℤ → Bytes
itoa_int (pos n) = itoa n
itoa_int (negsuc n) = codes "-" ++ itoa (n + 1)

unfoldable pub is_decimal : ℕ → Bool
is_decimal c = leb b'0' c && leb c b'9'

-- The digits behind the sign, at least one, with the value so far.
unfoldable pub atoi_digits : Bytes → ℕ → Option ℕ
unfolding is_decimal
atoi_digits [] val = some val
atoi_digits (c ∷ s) val =
    let more = atoi_digits s (val * 10 + (c - b'0')) in if is_decimal c then more else none

abbrev positive : Option ℕ → Option ℤ
positive none = none
positive (some n) = if ltb n (2 ^ 63) then some (pos n) else none

abbrev negative : Option ℕ → Option ℤ
negative none = none
negative (some zero) = some (pos zero)
negative (some (suc n)) = if ltb n (2 ^ 63) then some (negsuc n) else none

abbrev unsigned : Bytes → Option ℕ
unsigned [] = none
unsigned (c ∷ s) = atoi_digits (c ∷ s) 0

-- `strconv.Atoi`: a sign or none, digits, and a value that 64 bits hold.
unfoldable pub atoi : Bytes → Option ℤ
unfolding atoi_digits
atoi [] = none
atoi (c ∷ s) =
    if c == b'-'
    then negative (unsigned s)
    else if c == b'+'
    then positive (unsigned s)
    else positive (unsigned (c ∷ s))
