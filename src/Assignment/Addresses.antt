-- ===== src/Assignment/Addresses.antt =====
-- The internal addresses as texts: which counters give the same one.
use sidero_proxy.Base.{
  ℕ, zero, suc, ◌+◌, ◌-◌, ◌*◌, ◌/◌, ◌%◌, ◌<◌, ◌≡◌, refl, sym, ap, ◌∙◌, Bool, true, not, ◌&&◌, [],
  ◌∷◌, ◌++◌, ◌==◌, ==_iff, Bytes, codes, itoa, arith,
}
use sidero_proxy.Assignment.{internal_ip}
use mathlib.Core.List.{foldl}

-- The number that decimal digits spell.
abbrev value : Bytes → ℕ
value = foldl (λ n c. n * 10 + (c - b'0')) 0

lacks_dot : Bytes → Bool
lacks_dot [] = true
lacks_dot (c ∷ s) = not (c == b'.') && lacks_dot s

itoa_good : ℕ → Bool
itoa_good n = (value (itoa n) == n) && lacks_dot (itoa n)

all_good : ℕ → Bool
all_good zero = true
all_good (suc n) = itoa_good n && all_good n

itoa_table : all_good 256 ≡ true
unfolding all_good itoa_good lacks_dot itoa
itoa_table = refl

all_good_sound : (k n : ℕ) → all_good k ≡ true → n < k → itoa_good n ≡ true
unfolding all_good
all_good_sound zero n h lt = absurd (omega arith)
all_good_sound (suc k) n h lt = ground (arith, all_good_sound k n)

octet_facts : (n : ℕ) → n < 256 → (value (itoa n) ≡ n) × (lacks_dot (itoa n) ≡ true)
unfolding itoa_good
octet_facts n h = ground (arith, all_good_sound 256 n itoa_table h, ==_iff (value (itoa n)) n)

itoa-injective : (n m : ℕ) → n < 256 → m < 256 → itoa n ≡ itoa m → n ≡ m
itoa-injective n m hn hm e = sym ((octet_facts n hn).0) ∙ ap value e ∙ (octet_facts m hm).0

-- Texts that are equal up to their first dots are equal before and behind them.
split_at_dot :
    (a b r t : Bytes)
    → lacks_dot a ≡ true
    → lacks_dot b ≡ true
    → a ++ b'.' ∷ r ≡ b ++ b'.' ∷ t
    → (a ≡ b) × (r ≡ t)
unfolding lacks_dot
split_at_dot [] [] r t ha hb e = (refl, cc)
split_at_dot [] (c ∷ b) r t ha hb e = absurd (ground arith)
split_at_dot (c ∷ a) [] r t ha hb e = absurd (ground arith)
split_at_dot (c ∷ a) (d ∷ b) r t ha hb e = ground (arith, split_at_dot a b r t)

-- Up to 65535 assignments, an internal address as a text belongs to one proxy number and one value of
-- its counter.
pub internal_ip-injective :
    (p q n m : ℕ)
    → p < 256
    → q < 256
    → n < 65536
    → m < 65536
    → internal_ip p n ≡ internal_ip q m
    → (p ≡ q) × (n ≡ m)
unfolding internal_ip
internal_ip-injective p q n m hp hq hn hm e =
    let (same_num, rest) =
      split_at_dot (itoa p) (itoa q) _ _ ((octet_facts p hp).1) ((octet_facts q hq).1)
        (drop_ten e) in
    let (high, low) =
      split_at_dot (itoa (n / 256 % 256)) (itoa (m / 256 % 256)) _ _
        ((octet_facts (n / 256 % 256) (omega arith)).1)
        ((octet_facts (m / 256 % 256) (omega arith)).1) rest in
    let high' = itoa-injective (n / 256 % 256) (m / 256 % 256) (omega arith) (omega arith) high in
    let low' = itoa-injective (n % 256) (m % 256) (omega arith) (omega arith) low in
    (itoa-injective p q hp hq same_num, omega arith)
  where
    drop_ten : {s t : Bytes} → codes "10." ++ s ≡ codes "10." ++ t → s ≡ t
    drop_ten h = cc
