-- ===== src/Base/Dotted.antt =====
-- `net.ParseIP` reads back what `IP.String` prints of an IPv4 address.
use Prim.Native.Nat.{ℕ, zero, suc, ◌+◌, ◌-◌, ◌*◌, ◌<◌}
use mathlib.Core.Path.{◌≡◌, refl, ap, sym, ◌∙◌}
use mathlib.Core.Bool.{Bool, true, false, ◌&&◌}
use mathlib.Core.List.{[], ◌∷◌, ◌++◌, append-nil}
use mathlib.Core.Option.{Option, none, some}
use native.Mathlib.Omega.{arith}
use sidero_proxy.Base.Tests.{ltb, ◌==◌, ==_iff, if◌then◌else◌}
use sidero_proxy.Base.Strings.{Bytes, codes}
use sidero_proxy.Base.Text.{itoa}
use sidero_proxy.Base.Lists.{length}
use sidero_proxy.Base.Addresses.{
  Ip, v4, Ipv6, is_digit, parse_ipv4_loop, dotted, coloned, neither, notation, parse_ip, ip_string,
}

-- What the loop has read of a field after some digits, if they are the start of one.
unfoldable scan : Bytes → ℕ → ℕ → Option (ℕ × ℕ)
unfolding is_digit
scan [] val digit_count = some (val, digit_count)
scan (c ∷ s) val digit_count =
    let val' = val * 10 + (c - b'0') in
    let more = scan s val' (digit_count + 1) in
    if is_digit c
    then if (digit_count == 1) && (val == 0) then none else if ltb 255 val' then none else more
    else none

parse_ipv4_loop-scan :
    (t rest fields : Bytes) (val digit_count v k : ℕ)
    → scan t val digit_count ≡ some (v, k)
    → parse_ipv4_loop (t ++ rest) val digit_count fields ≡ parse_ipv4_loop rest v k fields
unfolding scan parse_ipv4_loop is_digit
parse_ipv4_loop-scan [] rest fields val digit_count v k h = ground (arith, h)
parse_ipv4_loop-scan (c ∷ t) rest fields val digit_count v k h =
    ground
      (arith, h, parse_ipv4_loop-scan t rest fields (val * 10 + (c - b'0')) (digit_count + 1) v k)

notation-scan :
    (t rest : Bytes) (val digit_count v k : ℕ)
    → scan t val digit_count ≡ some (v, k)
    → notation (t ++ b'.' ∷ rest) ≡ dotted
unfolding scan notation is_digit
notation-scan [] rest val digit_count v k h = refl
notation-scan (c ∷ t) rest val digit_count v k h =
    ground (arith, h, notation-scan t rest (val * 10 + (c - b'0')) (digit_count + 1) v k)

abbrev is_field : ℕ → Option (ℕ × ℕ) → Bool
is_field n none = false
is_field n (some (v, k)) = (v == n) && ltb 0 k

all_fields : ℕ → Bool
all_fields zero = true
all_fields (suc n) = is_field n (scan (itoa n) 0 0) && all_fields n

field_table : all_fields 256 ≡ true
unfolding all_fields scan itoa
field_table = refl

field_of : (m n : ℕ) → all_fields m ≡ true → n < m → is_field n (scan (itoa n) 0 0) ≡ true
unfolding all_fields
field_of zero n h lt = absurd (omega arith)
field_of (suc m) n h lt = ground (arith, field_of m n)

-- The text of a byte is a whole field.
record IsField (n : ℕ) : Type 0 where
  digit_count : ℕ
  has_digits : (digit_count == 0) ≡ false
  scanned : scan (itoa n) 0 0 ≡ some (n, digit_count)

IsField-byte : (n : ℕ) → n < 256 → IsField n
IsField-byte n small = scan_cases (scan (itoa n) 0 0) refl (field_of 256 n field_table small)
  where
    scan_cases : (o : Option (ℕ × ℕ)) → scan (itoa n) 0 0 ≡ o → is_field n o ≡ true → IsField n
    scan_cases none e h = absurd (ground (arith, h))
    scan_cases (some (v, k)) e h = record {
      digit_count = k;
      has_digits = ground (arith, h);
      scanned = e ∙ ap (λ x. some (x, k)) ((==_iff v n).0 (ground (arith, h)));
    }

-- A field with a dot behind it, unless it is the fourth; and the last field.
next_field :
    (n : ℕ) (rest fields : Bytes)
    → n < 256
    → (length fields == 3) ≡ false
    → parse_ipv4_loop (itoa n ++ b'.' ∷ rest) 0 0 fields
      ≡ parse_ipv4_loop rest 0 0 (fields ++ n ∷ [])
unfolding parse_ipv4_loop is_digit
next_field n rest fields small few =
    let field = IsField-byte n small in
    parse_ipv4_loop-scan (itoa n) (b'.' ∷ rest) fields 0 0 n field.digit_count field.scanned
    ∙ ground (arith, few, field.has_digits)

last_field :
    (n a b c : ℕ) → n < 256 → parse_ipv4_loop (itoa n) 0 0 (a ∷ b ∷ c ∷ []) ≡ some (v4 a b c n)
unfolding parse_ipv4_loop
last_field n a b c small =
    let field = IsField-byte n small in
    ap (λ s. parse_ipv4_loop s 0 0 (a ∷ b ∷ c ∷ [])) (sym (append-nil (itoa n)))
    ∙ parse_ipv4_loop-scan (itoa n) [] (a ∷ b ∷ c ∷ []) 0 0 n field.digit_count field.scanned
    ∙ ground (arith, field.has_digits)

pub parse_ip-ip_string :
    (ipv6 : Ipv6) (a b c d : ℕ)
    → a < 256
    → b < 256
    → c < 256
    → d < 256
    → parse_ip ipv6 (ip_string ipv6 (v4 a b c d)) ≡ some (v4 a b c d)
unfolding parse_ip ip_string
parse_ip-ip_string ipv6 a b c d ha hb hc hd =
    let field = IsField-byte a ha in
    let rest = itoa b ++ (codes "." ++ (itoa c ++ (codes "." ++ itoa d))) in
    ap
      (λ o. elim o as (λ _. Option Ip) [
        | dotted ↦ parse_ipv4_loop (itoa a ++ b'.' ∷ rest) 0 0 []
        | coloned ↦ ipv6.parse (itoa a ++ b'.' ∷ rest)
        | neither ↦ none
      ])
      (notation-scan (itoa a) rest 0 0 a field.digit_count field.scanned)
    ∙ next_field a rest [] ha refl
    ∙ next_field b (itoa c ++ (codes "." ++ itoa d)) (a ∷ []) hb refl
    ∙ next_field c (itoa d) (a ∷ b ∷ []) hc refl
    ∙ last_field d a b c hd
