-- ===== src/Minecraft/Hostname.antt =====
-- `NormalizeHostname`: what hostnames the router takes for one and the same.
use sidero_proxy.Base.{
  ℕ, ◌<◌, ◌≡◌, refl, sym, ap, ◌∙◌, [], ◌∷◌, ◌++◌, map, All, Bytes, Unicode, true, false,
  before_byte, drop_leading_spaces, before_trimmed, drop_trailing_spaces, starts_beyond_ascii,
  ends_beyond_ascii, trim_space, trim_suffix_byte, is_ascii_space, is_ascii, ◌==◌, lower_byte,
  to_lower, arith,
}
use sidero_proxy.Minecraft.{normalize_hostname}
use mathlib.Core.Path.{ap₂}

abbrev pub IsAscii : Bytes → Type 0
IsAscii = All (λ b. b < 128)

before_byte-append : (c : ℕ) (s rest : Bytes) → before_byte c (s ++ c ∷ rest) ≡ before_byte c s
unfolding before_byte
before_byte-append c [] rest = ground arith
before_byte-append c (b ∷ s) rest = ground (arith, before_byte-append c s rest)

lower_byte_facts :
    (b : ℕ)
    → b < 128
    → (lower_byte b < 128)
      × (is_ascii_space (lower_byte b) ≡ is_ascii_space b)
      × (lower_byte (lower_byte b) ≡ lower_byte b)
      × ((lower_byte b == 0) ≡ (b == 0))
unfolding lower_byte is_ascii_space
lower_byte_facts b h = ground arith

map-lower_byte-IsAscii : (s : Bytes) → IsAscii s → IsAscii (map lower_byte s)
map-lower_byte-IsAscii [] h = tt
map-lower_byte-IsAscii (b ∷ s) (hb, hs) = ((lower_byte_facts b hb).0, map-lower_byte-IsAscii s hs)

drop_leading_spaces_lower :
    (s : Bytes)
    → IsAscii s
    → (drop_leading_spaces (map lower_byte s) ≡ map lower_byte (drop_leading_spaces s))
      × IsAscii (drop_leading_spaces s)
      × (starts_beyond_ascii (drop_leading_spaces s) ≡ false)
unfolding drop_leading_spaces starts_beyond_ascii
drop_leading_spaces_lower [] h = (refl, tt, refl)
drop_leading_spaces_lower (b ∷ s) (hb, hs) =
    ground (arith, lower_byte_facts b hb, drop_leading_spaces_lower s hs)

before_trimmed_lower :
    (b : ℕ) (t : Bytes)
    → b < 128
    → IsAscii t
    → (before_trimmed (lower_byte b) (map lower_byte t) ≡ map lower_byte (before_trimmed b t))
      × IsAscii (before_trimmed b t)
unfolding before_trimmed
before_trimmed_lower b [] hb ht = ground (arith, lower_byte_facts b hb)
before_trimmed_lower b (c ∷ t) hb ht = (refl, (hb, ht))

drop_trailing_spaces_lower :
    (s : Bytes)
    → IsAscii s
    → (drop_trailing_spaces (map lower_byte s) ≡ map lower_byte (drop_trailing_spaces s))
      × IsAscii (drop_trailing_spaces s)
unfolding drop_trailing_spaces
drop_trailing_spaces_lower [] h = (refl, tt)
drop_trailing_spaces_lower (b ∷ s) (hb, hs) =
    let (lowered, ascii) = drop_trailing_spaces_lower s hs in
    rw lowered (before_trimmed_lower b (drop_trailing_spaces s) hb ascii)

ends_beyond_ascii_lem : (s : Bytes) → IsAscii s → ends_beyond_ascii s ≡ false
unfolding ends_beyond_ascii
ends_beyond_ascii_lem [] h = refl
ends_beyond_ascii_lem (b ∷ []) h = ground arith
ends_beyond_ascii_lem (b ∷ c ∷ s) (hb, hs) = ends_beyond_ascii_lem (c ∷ s) hs

-- On ASCII text `TrimSpace` is what it says, whatever the Unicode functions do.
trim_space_lem :
    (u : Unicode) (s : Bytes)
    → IsAscii s
    → trim_space u s ≡ drop_trailing_spaces (drop_leading_spaces s)
unfolding trim_space
trim_space_lem u s h =
    let (lowered, ascii, first) = drop_leading_spaces_lower s h in
    let (lowered', ascii') = drop_trailing_spaces_lower (drop_leading_spaces s) ascii in
    rw (first, ends_beyond_ascii_lem _ ascii')

trim_space_lower :
    (u : Unicode) (s : Bytes)
    → IsAscii s
    → (trim_space u (map lower_byte s) ≡ map lower_byte (trim_space u s)) × IsAscii (trim_space u s)
trim_space_lower u s h =
    let (lowered, ascii, first) = drop_leading_spaces_lower s h in
    let (lowered', ascii') = drop_trailing_spaces_lower (drop_leading_spaces s) ascii in
    (
      trim_space_lem u (map lower_byte s) (map-lower_byte-IsAscii s h)
          ∙ ap drop_trailing_spaces lowered
          ∙ lowered'
          ∙ ap (map lower_byte) (sym (trim_space_lem u s h)),
      rw (trim_space_lem u s h) ascii',
    )

trim_suffix_byte_lower :
    (s : Bytes)
    → IsAscii s
    → (trim_suffix_byte b'.' (map lower_byte s) ≡ map lower_byte (trim_suffix_byte b'.' s))
      × IsAscii (trim_suffix_byte b'.' s)
unfolding trim_suffix_byte
trim_suffix_byte_lower [] h = (refl, tt)
trim_suffix_byte_lower (b ∷ []) h = unfold lower_byte in ground arith
trim_suffix_byte_lower (b ∷ c ∷ s) (hb, hs) =
    let (lowered, ascii) = trim_suffix_byte_lower (c ∷ s) hs in
    (ap (λ t. lower_byte b ∷ t) lowered, (hb, ascii))

before_byte_lower :
    (s : Bytes)
    → IsAscii s
    → (before_byte 0 (map lower_byte s) ≡ map lower_byte (before_byte 0 s))
      × IsAscii (before_byte 0 s)
unfolding before_byte
before_byte_lower [] h = (refl, tt)
before_byte_lower (b ∷ s) (hb, hs) = ground (arith, lower_byte_facts b hb, before_byte_lower s hs)

to_lower_lem : (u : Unicode) (s : Bytes) → IsAscii s → to_lower u s ≡ map lower_byte s
unfolding to_lower
to_lower_lem u s h = rw (is_ascii_lem s h)
  where
    is_ascii_lem : (s : Bytes) → IsAscii s → is_ascii s ≡ true
    is_ascii_lem [] h = refl
    is_ascii_lem (b ∷ s) (hb, hs) = ground (arith, is_ascii_lem s hs)

map-lower_byte_idem : (s : Bytes) → IsAscii s → map lower_byte (map lower_byte s) ≡ map lower_byte s
map-lower_byte_idem [] h = refl
map-lower_byte_idem (b ∷ s) (hb, hs) = ap₂ ◌∷◌ (lower_byte_facts b hb).2 (map-lower_byte_idem s hs)

-- The normal form of an ASCII hostname in plain steps.
stages :
    (u : Unicode) (h : Bytes)
    → IsAscii h
    → (normalize_hostname u h
        ≡ map lower_byte (trim_suffix_byte b'.' (trim_space u (before_byte 0 h))))
      × (normalize_hostname u (map lower_byte h)
          ≡ map lower_byte
              (map lower_byte (trim_suffix_byte b'.' (trim_space u (before_byte 0 h)))))
      × IsAscii (trim_suffix_byte b'.' (trim_space u (before_byte 0 h)))
unfolding normalize_hostname
stages u h ascii =
    let (low₁, ascii₁) = before_byte_lower h ascii in
    let (low₂, ascii₂) = trim_space_lower u (before_byte 0 h) ascii₁ in
    let (low₃, ascii₃) = trim_suffix_byte_lower (trim_space u (before_byte 0 h)) ascii₂ in
    (
      to_lower_lem u _ ascii₃,
      rw (low₁, low₂, low₃) (to_lower_lem u _ (map-lower_byte-IsAscii _ ascii₃)),
      ascii₃,
    )

-- Two ASCII hostnames that differ in the case of letters have the same normal form, so an ingress
-- hostname is found whatever case the client or the configuration writes it in.
pub normalize_hostname_case :
    (u : Unicode) (h k : Bytes)
    → IsAscii h
    → IsAscii k
    → map lower_byte h ≡ map lower_byte k
    → normalize_hostname u h ≡ normalize_hostname u k
normalize_hostname_case u h k hh hk e =
    lowered h hh ∙ ap (normalize_hostname u) e ∙ sym (lowered k hk)
  where
    lowered :
        (s : Bytes) → IsAscii s → normalize_hostname u s ≡ normalize_hostname u (map lower_byte s)
    lowered s hs =
        let (plain, low, ascii) = stages u s hs in
        plain ∙ sym (map-lower_byte_idem _ ascii) ∙ sym low

-- What a client appends to the hostname behind a zero byte, as modded clients do, does not count.
pub normalize_hostname_marker :
    (u : Unicode) (h marker : Bytes)
    → normalize_hostname u (h ++ 0 ∷ marker) ≡ normalize_hostname u h
unfolding normalize_hostname
normalize_hostname_marker u h marker = rw (before_byte-append 0 h marker)
