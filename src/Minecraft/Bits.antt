-- ===== src/Minecraft/Bits.antt =====
-- The bit operations of the VarInt readers as arithmetic.
use Prim.Native.Nat.{max, digits, bit_or-bitwise}
use sidero_proxy.Base.{
  ℕ, zero, suc, ◌+◌, ◌*◌, ◌/◌, ◌%◌, ◌^◌, ◌≤◌, ◌<◌, bit_and, bit_or, ◌≡◌, refl, ap, arith, Bool,
  true, ◌&&◌, ◌==◌, ==_iff,
}
use native.Mathlib.Nat.{pow-suc}

-- The functions `f` and `g` agree on every number below `top`.
agree_below : (f g : ℕ → ℕ) (top : ℕ) → Bool
agree_below f g zero = true
agree_below f g (suc top) = agree_below f g top && (f top == g top)

at_byte : (f g : ℕ → ℕ) (top b : ℕ) → b < top → agree_below f g top ≡ true → f b ≡ g b
unfolding agree_below
at_byte f g zero b below agree = absurd (omega arith)
at_byte f g (suc top) b below agree =
    ground (arith, at_byte f g top b, ==_iff (f top) (g top), ap f, ap g)

-- `b & 0x7F` of a byte.
pub low_bits : (b : ℕ) → b < 256 → bit_and b 0x7f ≡ b % 128
unfolding agree_below
low_bits b h = at_byte (λ b. bit_and b 0x7f) (λ b. b % 128) 256 b h refl

-- `b & 0x80` of a byte.
pub top_bit : (b : ℕ) → b < 256 → bit_and b 0x80 ≡ b / 128 * 128
unfolding agree_below
top_bit b h = at_byte (λ b. bit_and b 0x80) (λ b. b / 128 * 128) 256 b h refl

-- The definition behind `|`, digit by digit.
abbrev or_digits : ℕ → ℕ → ℕ → ℕ
or_digits n a b = digits (λ c. c) max n a b

-- More fuel than digits changes nothing.
or_digits_fuel : (a b n m : ℕ) → a ≤ n → a ≤ m → or_digits n a b ≡ or_digits m a b
or_digits_fuel zero b zero zero hn hm = refl
or_digits_fuel zero b zero (suc m) hn hm = refl
or_digits_fuel zero b (suc n) zero hn hm = refl
or_digits_fuel zero b (suc n) (suc m) hn hm = refl
or_digits_fuel (suc a) b zero m hn hm = absurd (omega arith)
or_digits_fuel (suc a) b (suc n) zero hn hm = absurd (omega arith)
or_digits_fuel (suc a) b (suc n) (suc m) hn hm =
    let half_n : suc a / 2 ≤ n = omega arith in
    omega (arith, or_digits_fuel (suc a / 2) (b / 2) n m half_n (omega arith))

pub zero-bit_or : (b : ℕ) → bit_or 0 b ≡ b
zero-bit_or b = bit_or-bitwise 0 b

bit_or_step : (a b : ℕ) → bit_or a b ≡ bit_or (a / 2) (b / 2) * 2 + max (a % 2) (b % 2)
bit_or_step zero b = omega (arith, zero-bit_or b, zero-bit_or (b / 2))
bit_or_step (suc a) b = omega (
  arith,
  bit_or-bitwise (suc a) b,
  bit_or-bitwise (suc a / 2) (b / 2),
  or_digits_fuel (suc a / 2) (b / 2) a (suc a / 2) (omega arith) (omega arith),
)

two_pow-suc : (k : ℕ) → 2 ^ suc k ≡ 2 * 2 ^ k
two_pow-suc k = omega (arith, pow-suc 2 k)

-- `result |= value << k` adds when the bits of `result` lie below bit `k`.
pub bit_or_shifted : (k r v : ℕ) → r < 2 ^ k → bit_or r (v * 2 ^ k) ≡ r + v * 2 ^ k
bit_or_shifted zero r v h = let e : r ≡ 0 = omega arith in rw e (omega (arith, zero-bit_or (v * 1)))
bit_or_shifted (suc k) r v h = omega (
  arith,
  two_pow-suc k,
  ap (λ (t : ℕ). v * t) (two_pow-suc k),
  bit_or_step r (v * 2 ^ suc k),
  bit_or_shifted k (r / 2) v (omega (arith, two_pow-suc k)),
  ap (λ (t : ℕ). bit_or (r / 2) t) (half v k),
)
  where
    half : (v k : ℕ) → v * 2 ^ suc k / 2 ≡ v * 2 ^ k
    half v k = omega (arith, ap (λ (t : ℕ). v * t) (two_pow-suc k))
