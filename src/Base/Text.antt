-- ===== src/Base/Text.antt =====
-- The functions of Go's `strings`, `strconv` and `fmt` that the program calls on its texts.
use Prim.Native.Nat.{ℕ, zero, suc, ◌+◌, ◌/◌, ◌%◌}
use mathlib.Core.Path.{◌≡◌, refl}
use mathlib.Core.Bool.{Bool, true, false, ◌&&◌, ◌||◌}
use mathlib.Core.List.{List, [], ◌∷◌, ◌++◌, map}
use mathlib.Core.Option.{Option, none, some}
use sidero_proxy.Base.Tests.{ltb, leb, ◌==◌, if◌then◌else◌}
use sidero_proxy.Base.Strings.{Bytes, codes}

-- What the program uses of Go's Unicode tables and of `%q`. The functions below handle ASCII
-- themselves, as Go's do, and call these on a text with a byte from 0x80 up.
pub record Unicode : Type 0 where
  pub to_lower_utf8 : Bytes → Bytes
  pub trim_utf8 : Bytes → Bytes
  pub trim_right_utf8 : Bytes → Bytes
  pub quote : Bytes → Bytes
  pub fields_utf8 : Bytes → List Bytes

unfoldable pub starts_with : Bytes → Bytes → Bool
starts_with [] s = true
starts_with (c ∷ p) [] = false
starts_with (c ∷ p) (b ∷ s) = (c == b) && starts_with p s

-- The text behind the prefix `p`.
unfoldable pub strip_prefix : Bytes → Bytes → Option Bytes
strip_prefix [] s = some s
strip_prefix (c ∷ p) [] = none
strip_prefix (c ∷ p) (b ∷ s) = let rest = strip_prefix p s in if c == b then rest else none

-- `strings.Contains(s, p)`
unfoldable pub contains : Bytes → Bytes → Bool
unfolding starts_with
contains [] p = starts_with p []
contains (b ∷ s) p = starts_with p (b ∷ s) || contains s p

-- The text before the first byte `c`, or the whole text: `strings.IndexByte` and the slice to it.
unfoldable pub before_byte : ℕ → Bytes → Bytes
before_byte c [] = []
before_byte c (b ∷ s) = if b == c then [] else b ∷ before_byte c s

-- `strings.TrimSuffix(s, suffix)` for a suffix of one byte.
unfoldable pub trim_suffix_byte : ℕ → Bytes → Bytes
trim_suffix_byte c [] = []
trim_suffix_byte c (b ∷ []) = if b == c then [] else b ∷ []
trim_suffix_byte c (b ∷ d ∷ s) = b ∷ trim_suffix_byte c (d ∷ s)

-- The ASCII bytes that `strings.TrimSpace` removes: tab, newline, vertical tab, form feed, return
-- and space.
unfoldable pub is_ascii_space : ℕ → Bool
is_ascii_space b = (leb 9 b && leb b 13) || (b == 32)

unfoldable pub lower_byte : ℕ → ℕ
lower_byte b = if leb b'A' b && leb b b'Z' then b + 32 else b

unfoldable pub is_ascii : Bytes → Bool
is_ascii [] = true
is_ascii (b ∷ s) = ltb b 0x80 && is_ascii s

abbrev end_field : Bytes → List Bytes → List Bytes
end_field [] rest = rest
end_field (c ∷ field) rest = (c ∷ field) ∷ rest

-- The texts between the spaces, with the bytes read so far of the current one.
unfoldable pub ascii_fields : Bytes → Bytes → List Bytes
unfolding is_ascii_space
ascii_fields [] field = end_field field []
ascii_fields (c ∷ s) field =
    let next = ascii_fields s [] in
    let more = ascii_fields s (field ++ c ∷ []) in
    if is_ascii_space c then end_field field next else more

unfoldable pub drop_leading_spaces : Bytes → Bytes
unfolding is_ascii_space
drop_leading_spaces [] = []
drop_leading_spaces (b ∷ s) =
    let rest = drop_leading_spaces s in if is_ascii_space b then rest else b ∷ s

-- A byte in front of a text whose trailing spaces are gone.
unfoldable pub before_trimmed : ℕ → Bytes → Bytes
unfolding is_ascii_space
before_trimmed b [] = if is_ascii_space b then [] else b ∷ []
before_trimmed b (c ∷ t) = b ∷ c ∷ t

unfoldable pub drop_trailing_spaces : Bytes → Bytes
unfolding before_trimmed
drop_trailing_spaces [] = []
drop_trailing_spaces (b ∷ s) = before_trimmed b (drop_trailing_spaces s)

-- A text whose first or last byte belongs to a character beyond ASCII.
unfoldable pub starts_beyond_ascii : Bytes → Bool
starts_beyond_ascii [] = false
starts_beyond_ascii (b ∷ s) = leb 0x80 b

unfoldable pub ends_beyond_ascii : Bytes → Bool
ends_beyond_ascii [] = false
ends_beyond_ascii (b ∷ []) = leb 0x80 b
ends_beyond_ascii (b ∷ c ∷ s) = ends_beyond_ascii (c ∷ s)

module _ (u : Unicode) where
  -- `strings.TrimSpace`: the ASCII spaces in front, then those behind; it leaves the rest to the
  -- Unicode functions as soon as it stops at a byte beyond ASCII.
  unfoldable pub trim_space : Bytes → Bytes
  unfolding drop_leading_spaces drop_trailing_spaces starts_beyond_ascii ends_beyond_ascii
  trim_space s =
      let t = drop_leading_spaces s in
      let w = drop_trailing_spaces t in
      if starts_beyond_ascii t
      then u.trim_utf8 t
      else if ends_beyond_ascii w
      then u.trim_right_utf8 w
      else w

  -- `strings.Fields`
  unfoldable pub fields : Bytes → List Bytes
  unfolding is_ascii ascii_fields
  fields s = if is_ascii s then ascii_fields s [] else u.fields_utf8 s

  -- `strings.ToLower`
  unfoldable pub to_lower : Bytes → Bytes
  unfolding lower_byte is_ascii
  to_lower s = if is_ascii s then map lower_byte s else u.to_lower_utf8 s

-- `strconv.Itoa` and `%d` of a number that is not negative. The fuel `n` is enough for `n`, which
-- falls to a tenth in each round.
unfoldable pub digits : ℕ → ℕ → Bytes → Bytes
digits zero n out = (b'0' + n % 10) ∷ out
digits (suc fuel) n out =
    let out' = (b'0' + n % 10) ∷ out in
    let rest = digits fuel (n / 10) out' in if ltb n 10 then out' else rest

unfoldable pub itoa : ℕ → Bytes
unfolding digits
itoa n = digits n n []

-- `strings.Join(parts, ", ")` as a loop writes it, the comma before all but the first.
unfoldable pub join_comma : List Bytes → Bytes
join_comma [] = []
join_comma (p ∷ []) = p
join_comma (p ∷ q ∷ ps) = p ++ codes ", " ++ join_comma (q ∷ ps)

itoa_runs : itoa 25565 ≡ codes "25565"
unfolding itoa
itoa_runs = refl

contains_runs : contains (codes "nft: File exists (os)") (codes "File exists") ≡ true
unfolding contains
contains_runs = refl
