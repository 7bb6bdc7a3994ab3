-- ===== src/Base/Addresses.antt =====
-- Go's `net.ParseIP`, `IP.To4`, `IP.String` and `net.ParseCIDR` on IPv4 texts. An IPv6 text is left to
-- a parameter.
use Prim.Native.Nat.{ℕ, ◌+◌, ◌-◌, ◌*◌}
use mathlib.Core.Path.{◌≡◌, refl}
use mathlib.Core.Bool.{Bool, ◌&&◌}
use mathlib.Core.List.{[], ◌∷◌, ◌++◌}
use mathlib.Core.Option.{Option, none, some}
use sidero_proxy.Base.Tests.{ltb, leb, ◌==◌, if◌then◌else◌}
use sidero_proxy.Base.Strings.{Bytes, codes}
use sidero_proxy.Base.Text.{itoa}
use sidero_proxy.Base.Lists.{length}

-- An IPv4 address (also one mapped into IPv6), or any other with its 16 bytes.
pub data Ip : Type 0 where
  v4 : ℕ → ℕ → ℕ → ℕ → Ip
  v6 : Bytes → Ip

-- The IPv6 half of the package `net`.
pub record Ipv6 : Type 0 where
  pub parse : Bytes → Option Ip
  pub print : Bytes → Bytes
  pub parse_prefix : Bytes → Bytes → Option (Ip × ℕ × ℕ)

unfoldable pub is_digit : ℕ → Bool
is_digit c = leb b'0' c && leb c b'9'

abbrev octets : Bytes → ℕ → Option Ip
octets (a ∷ b ∷ c ∷ []) d = some (v4 a b c d)
octets fields d = none

-- `parseIPv4Fields`: the number read so far in this field, how many digits it has, and the fields
-- before it.
unfoldable pub parse_ipv4_loop : Bytes → ℕ → ℕ → Bytes → Option Ip
unfolding is_digit
parse_ipv4_loop [] val digit_count fields = if digit_count == 0 then none else octets fields val
parse_ipv4_loop (c ∷ s) val digit_count fields =
    let val' = val * 10 + (c - b'0') in
    let more = parse_ipv4_loop s val' (digit_count + 1) fields in
    let next = parse_ipv4_loop s 0 0 (fields ++ val ∷ []) in
    if is_digit c
    then if (digit_count == 1) && (val == 0) then none else if ltb 255 val' then none else more
    else if c == b'.'
    then if digit_count == 0 then none else if length fields == 3 then none else next
    else none

-- Which separator a text has first decides how it is read.
pub data Notation : Type 0 where
  dotted : Notation
  coloned : Notation
  neither : Notation

unfoldable pub notation : Bytes → Notation
notation [] = neither
notation (c ∷ s) =
    let rest = notation s in
    if c == b'.' then dotted else if c == b':' then coloned else if c == b'%' then neither else rest

module _ (n : Ipv6) where
  -- `net.ParseIP`
  unfoldable pub parse_ip : Bytes → Option Ip
  unfolding notation parse_ipv4_loop
  parse_ip s = elim (notation s) [
    | dotted ↦ parse_ipv4_loop s 0 0 []
    | coloned ↦ n.parse s
    | neither ↦ none
  ]

  -- `IP.String`
  unfoldable pub ip_string : Ip → Bytes
  unfolding itoa
  ip_string (v4 a b c d) =
      itoa a ++ (codes "." ++ (itoa b ++ (codes "." ++ (itoa c ++ (codes "." ++ itoa d)))))
  ip_string (v6 bytes) = n.print bytes

-- `dtoi`: a decimal number below 0xFFFFFF, and nothing behind it.
unfoldable pub dtoi_loop : Bytes → ℕ → Option ℕ
unfolding is_digit
dtoi_loop [] val = some val
dtoi_loop (c ∷ s) val =
    let val' = val * 10 + (c - b'0') in
    let more = dtoi_loop s val' in
    if is_digit c then if leb 0xffffff val' then none else more else none

unfoldable pub dtoi : Bytes → Option ℕ
unfolding dtoi_loop
dtoi [] = none
dtoi (c ∷ s) = dtoi_loop (c ∷ s) 0

-- The texts before and behind the first slash.
unfoldable pub cut_slash : Bytes → Bytes → Option (Bytes × Bytes)
cut_slash [] before = none
cut_slash (c ∷ s) before =
    let rest = cut_slash s (before ++ c ∷ []) in if c == b'/' then some (before, s) else rest

abbrev with_mask : Ip → ℕ → Option (Ip × ℕ × ℕ)
with_mask ip ones = if ltb 32 ones then none else some (ip, ones, 32)

module _ (n : Ipv6) where
  abbrev parse_cidr_parts : Bytes × Bytes → Option (Ip × ℕ × ℕ)
  parse_cidr_parts (addr, mask) = elim (notation addr) [
    | dotted ↦ elim (parse_ipv4_loop addr 0 0 []) [
      | none ↦ none
      | some ip ↦ elim (dtoi mask) [ none ↦ none | some ones ↦ with_mask ip ones ]
    ]
    | coloned ↦ n.parse_prefix addr mask
    | neither ↦ none
  ]

  -- `net.ParseCIDR`: the address, and the size of the mask as `Mask.Size` gives it.
  unfoldable pub parse_cidr : Bytes → Option (Ip × ℕ × ℕ)
  unfolding cut_slash notation parse_ipv4_loop dtoi
  parse_cidr s = elim (cut_slash s []) [ none ↦ none | some parts ↦ parse_cidr_parts parts ]

parse_runs : (n : Ipv6) → parse_ip n (codes "10.7.0.255") ≡ some (v4 10 7 0 255)
unfolding parse_ip
parse_runs n = refl

parse_refuses : (n : Ipv6) → parse_ip n (codes "10.07.0.1") ≡ none
unfolding parse_ip
parse_refuses n = refl

parse_cidr_runs : (n : Ipv6) → parse_cidr n (codes "10.7.0.0/16") ≡ some (v4 10 7 0 0, 16, 32)
unfolding parse_cidr
parse_cidr_runs n = refl
