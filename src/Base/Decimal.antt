-- ===== src/Base/Decimal.antt =====
-- That the fuel of `itoa` is enough: the text denotes the number.
use Prim.Native.Nat.{ℕ, zero, suc, ◌+◌, ◌-◌, ◌*◌, ◌/◌, ◌%◌, ◌≤◌, ◌<◌}
use mathlib.Core.Path.{◌≡◌, ap, ◌∙◌}
use mathlib.Core.Bool.{true}
use mathlib.Core.List.{[], ◌∷◌}
use native.Mathlib.Omega.{arith}
use sidero_proxy.Base.Tests.{ltb, if_cases}
use sidero_proxy.Base.Strings.{Bytes}
use sidero_proxy.Base.Text.{digits, itoa}

-- The number that decimal digits denote behind the number `n`.
unfoldable pub decimal_value : Bytes → ℕ → ℕ
decimal_value [] n = n
decimal_value (c ∷ s) n = decimal_value s (n * 10 + (c - b'0'))

last_digit :
    (n : ℕ) (out : Bytes) → decimal_value ((b'0' + n % 10) ∷ out) (n / 10) ≡ decimal_value out n
unfolding decimal_value
last_digit n out =
    let same : n / 10 * 10 + (b'0' + n % 10 - b'0') ≡ n = omega arith in ap (decimal_value out) same

only_digit :
    (n : ℕ) (out : Bytes) → n < 10 → decimal_value ((b'0' + n % 10) ∷ out) 0 ≡ decimal_value out n
unfolding decimal_value
only_digit n out h =
    let same : 0 * 10 + (b'0' + n % 10 - b'0') ≡ n = omega (arith, h) in ap (decimal_value out) same

decimal_value-digits :
    (fuel n : ℕ) (out : Bytes)
    → n ≤ fuel
    → decimal_value (digits fuel n out) 0 ≡ decimal_value out n
unfolding digits
decimal_value-digits zero n out h = only_digit n out (omega (arith, h))
decimal_value-digits (suc fuel) n out h =
    if_cases (λ s. decimal_value s 0 ≡ decimal_value out n) (ltb n 10) ((b'0' + n % 10) ∷ out)
      (digits fuel (n / 10) ((b'0' + n % 10) ∷ out)) (λ e. only_digit n out (ltb_lt n e))
      (λ e.
        decimal_value-digits fuel (n / 10) ((b'0' + n % 10) ∷ out) (omega (arith, h))
        ∙ last_digit n out)
  where
    ltb_lt : (m : ℕ) → ltb m 10 ≡ true → m < 10
    ltb_lt m k = ground (arith, k)

-- The text of a number denotes it, however large it is.
pub decimal_value-itoa : (n : ℕ) → decimal_value (itoa n) 0 ≡ n
unfolding itoa decimal_value
decimal_value-itoa n = decimal_value-digits n n [] (omega arith)
