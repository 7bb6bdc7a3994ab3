-- ===== src/Nft/Command.antt =====
-- The commands that the managers of the chains issue, one in each script: which texts these are.
use sidero_proxy.Base.{
  ℕ, zero, suc, ◌+◌, ◌%◌, ◌/◌, ◌≡◌, refl, Bool, true, false, ◌&&◌, ◌||◌, not, List, [], ◌∷◌, ◌++◌,
  if◌then◌else◌, if_cases, ltb, ◌==◌, Bytes, codes, bytes_eq, bytes_le, starts_with, digits, itoa,
  join_comma, sort, sort_strings, insert_sorted, arith,
}
use sidero_proxy.Base.Integers.{ℤ, pos, negsuc, itoa_int}
use sidero_proxy.Base.Members.{elem}

-- A byte that ends no command of nft.
abbrev is_plain : ℕ → Bool
is_plain c = not (c == b'\n') && not (c == b';')

unfoldable pub is_word : Bytes → Bool
is_word [] = true
is_word (c ∷ s) = is_plain c && is_word s

abbrev is_end : Bytes → Bool
is_end [] = true
is_end (c ∷ s) = false

-- One line, with a line break at its end and no semicolon.
unfoldable pub is_line : Bytes → Bool
is_line [] = false
is_line (c ∷ s) =
    let rest = is_line s in if c == b'\n' then is_end s else if c == b';' then false else rest

-- The scripts that create a table, a set, a map or a chain.
abbrev creations : List Bytes
creations =
    codes "add table ip mcproxy_nat\n"
    ∷ codes "add map ip mcproxy_nat nat_map { type ipv4_addr : ipv4_addr; }\n"
    ∷ codes "add chain ip mcproxy_nat postrouting { type nat hook postrouting priority srcnat; }\n"
    ∷ codes "add table ip mcproxy_filter\n"
    ∷ codes "add set ip mcproxy_filter public_ips { type ipv4_addr; }\n"
    ∷ codes "add set ip mcproxy_filter blocklist { type ipv4_addr; }\n"
    ∷ codes
        "add chain ip mcproxy_filter prerouting { type filter hook prerouting priority -150; }\n"
    ∷ codes "add table ip mcproxy_intercept\n"
    ∷ codes "add set ip mcproxy_intercept public_ips { type ipv4_addr; }\n"
    ∷ codes
        "add chain ip mcproxy_intercept prerouting { type nat hook prerouting priority dstnat; }\n"
    ∷ codes "add table ip mcproxy_node\n"
    ∷ codes "add chain ip mcproxy_node prerouting { type nat hook prerouting priority dstnat; }\n"
    ∷ []

-- One of these, or one line that adds a rule or an element, or flushes a chain or a set.
unfoldable pub is_command : Bytes → Bool
unfolding elem bytes_eq starts_with is_line
is_command text =
    elem text creations
    || ((starts_with (codes "add rule ip ") text
          || starts_with (codes "add element ip ") text
          || starts_with (codes "flush chain ip ") text
          || starts_with (codes "flush set ip ") text)
        && is_line text)

pub is_word-append : (s t : Bytes) → is_word s ≡ true → is_word t ≡ true → is_word (s ++ t) ≡ true
unfolding is_word
is_word-append [] t h k = k
is_word-append (c ∷ s) t h k = ground (arith, h, is_word-append s t (ground (arith, h)) k)

pub is_line-append : (s t : Bytes) → is_word s ≡ true → is_line t ≡ true → is_line (s ++ t) ≡ true
unfolding is_word is_line
is_line-append [] t h k = k
is_line-append (c ∷ s) t h k = ground (arith, h, is_line-append s t (ground (arith, h)) k)

is_word-digits :
    (fuel n : ℕ) (out : Bytes) → is_word out ≡ true → is_word (digits fuel n out) ≡ true
unfolding is_word digits
is_word-digits zero n out h = ground (arith, h)
is_word-digits (suc fuel) n out h =
    let out' = (b'0' + n % 10) ∷ out in
    let plain : is_word out' ≡ true = ground (arith, h) in
    if_cases (λ s. is_word s ≡ true) (ltb n 10) out' (digits fuel (n / 10) out') (λ _. plain)
      (λ _. is_word-digits fuel (n / 10) out' plain)

pub is_word-itoa : (n : ℕ) → is_word (itoa n) ≡ true
unfolding itoa is_word
is_word-itoa n = is_word-digits n n [] refl

pub is_word-itoa_int : (z : ℤ) → is_word (itoa_int z) ≡ true
unfolding is_word
is_word-itoa_int (pos n) = is_word-itoa n
is_word-itoa_int (negsuc n) = is_word-append (codes "-") (itoa (n + 1)) refl (is_word-itoa (n + 1))

unfoldable pub are_words : List Bytes → Bool
are_words [] = true
are_words (s ∷ ss) = is_word s && are_words ss

are_words-insert_sorted :
    (s : Bytes) (ss : List Bytes)
    → are_words (insert_sorted bytes_le s ss) ≡ (is_word s && are_words ss)
unfolding are_words insert_sorted
are_words-insert_sorted s [] = refl
are_words-insert_sorted s (t ∷ ss) = ground (arith, are_words-insert_sorted s ss)

pub are_words-sort : (ss : List Bytes) → are_words (sort_strings ss) ≡ are_words ss
unfolding are_words sort
are_words-sort [] = refl
are_words-sort (s ∷ ss) =
    ground (arith, are_words-insert_sorted s (sort_strings ss), are_words-sort ss)

pub is_word-join_comma : (ss : List Bytes) → are_words ss ≡ true → is_word (join_comma ss) ≡ true
unfolding are_words join_comma is_word
is_word-join_comma [] h = refl
is_word-join_comma (s ∷ []) h = ground (arith, h)
is_word-join_comma (s ∷ t ∷ ss) h =
    let spaced : is_word (s ++ codes ", ") ≡ true =
      is_word-append s (codes ", ") (ground (arith, h)) refl in
    is_word-append (s ++ codes ", ") (join_comma (t ∷ ss)) spaced
      (is_word-join_comma (t ∷ ss) (ground (arith, h)))
