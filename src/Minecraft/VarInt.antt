-- ===== src/Minecraft/VarInt.antt =====
-- `readVarInt` and `parseVarInt`: what they take, what they return, and that they agree.
use sidero_proxy.Base.{
  ℕ, zero, suc, ◌+◌, ◌*◌, ◌/◌, ◌%◌, ◌^◌, ◌≤◌, ◌<◌, bit_and, ◌≡◌, refl, ap, ◌∙◌, [], ◌∷◌, ◌++◌,
  append_assoc, length, length-append, All, ltb, leb, ◌==◌, Bool, true, false, if◌then◌else◌,
  Bool-cases, Result, ok, err, ◌⊎◌, inl, inr, Bytes, arith,
}
use sidero_proxy.Minecraft.{
  HandshakeError, varint_too_long, unexpected_eof, read_failed, add_group, read_var_int_loop,
  read_var_int, parse_var_int_loop, parse_var_int,
}
use sidero_proxy.Minecraft.Bits.{low_bits, top_bit, bit_or_shifted}
use native.Mathlib.Nat.{div-add-mod}
use native.Mathlib.Numerals.{towards_suc}

abbrev pub IsByte : ℕ → Type 0
IsByte b = b < 256

-- The VarInt of the protocol: groups of seven bits, lowest first, the top bit set on all but the
-- last. `var_int k v` takes at most `k + 1` bytes, for `v` below 128 ^ (k + 1).
unfoldable pub var_int : ℕ → ℕ → Bytes
var_int zero v = v ∷ []
var_int (suc k) v =
    let rest = var_int k (v / 128) in if ltb v 128 then v ∷ [] else (v % 128 + 128) ∷ rest

-- 2 ^ (7 * n), the weight of group `n`.
abbrev weight : ℕ → ℕ
weight n = 2 ^ (7 * n)

weight-suc : (n : ℕ) → weight (n + 1) ≡ 128 * weight n
weight-suc n = ap (λ (t : ℕ). 2 ^ t) (omega arith) ∙ shift_seven (7 * n)
  where
    shift_seven : (s : ℕ) → 2 ^ (s + 7) ≡ 128 * 2 ^ s
    shift_seven s = simp towards_suc (omega arith)

weight_bound : (n : ℕ) → n ≤ 4 → weight (n + 1) ≤ 2 ^ 35
weight_bound zero h = omega arith
weight_bound (suc zero) h = omega arith
weight_bound (suc (suc zero)) h = omega arith
weight_bound (suc (suc (suc zero))) h = omega arith
weight_bound (suc (suc (suc (suc zero)))) h = omega arith
weight_bound (suc (suc (suc (suc (suc n))))) h = absurd (omega arith)

add_group_lem :
    (result n b : ℕ)
    → result < weight n
    → b < 256
    → add_group result n b ≡ result + b % 128 * weight n
unfolding add_group
add_group_lem result n b h hb = ground (arith, low_bits b, bit_or_shifted (7 * n) result (b % 128))

add_group-lt :
    (result n b : ℕ) → result < weight n → b < 256 → add_group result n b < weight (n + 1)
add_group-lt result n b h hb = grind (arith, add_group_lem result n b h hb, weight-suc n)

-- On success the bytes taken are those returned, one to five of them, and the value is below 2 ^ 35.
read_var_int_loop_takes :
    (r : Bytes) (n result v : ℕ) (raw raw' r' : Bytes)
    → All IsByte r
    → n ≤ 5
    → result < weight n
    → read_var_int_loop n result raw r ≡ (ok (v, raw'), r')
    → (raw' ++ r' ≡ raw ++ r)
      × (v < 2 ^ 35)
      × (length raw < length raw')
      × (length raw' + n ≤ length raw + 5)
unfolding read_var_int_loop
read_var_int_loop_takes [] n result v raw raw' r' hr hn hres e = cc
read_var_int_loop_takes (b ∷ r) n result v raw raw' r' (hb, hr) hn hres e = ground (
  arith,
  add_group-lt result n b hres hb,
  weight_bound n,
  append_assoc raw (b ∷ []) r,
  append_assoc raw (b ∷ []) r',
  length-append raw (b ∷ []),
  read_var_int_loop_takes r (n + 1) (add_group result n b) v (raw ++ b ∷ []) raw' r' hr,
)

-- When `readVarInt` succeeds, the bytes that it returns are those that it took off the reader, in
-- their order: one to five bytes. The value is below 2 ^ 35, so that an `int` holds it and it is
-- never negative.
pub read_var_int_takes :
    (r : Bytes) {v : ℕ} {raw r' : Bytes}
    → All IsByte r
    → read_var_int r ≡ (ok (v, raw), r')
    → (raw ++ r' ≡ r) × (v < 2 ^ 35) × (1 ≤ length raw) × (length raw ≤ 5)
unfolding read_var_int
read_var_int_takes r {v} {raw} {r'} hr e =
    let (taken, bound, some_byte, few) =
      read_var_int_loop_takes r 0 0 v [] raw r' hr (omega arith) (omega arith) e in
    (taken, bound, omega arith, omega arith)

split_group : (v w : ℕ) → v * w ≡ v % 128 * w + v / 128 * (128 * w)
split_group v w = omega (arith, ap (λ (t : ℕ). t * w) (div-add-mod v 128))

read_var_int_loop-var_int :
    (k n v result : ℕ) (raw rest : Bytes)
    → n + k ≤ 4
    → v < 128 ^ suc k
    → result < weight n
    → read_var_int_loop n result raw (var_int k v ++ rest)
      ≡ (ok (result + v * weight n, raw ++ var_int k v), rest)
unfolding read_var_int_loop var_int
read_var_int_loop-var_int zero n v result raw rest hn hv hres =
    ground (arith, add_group_lem result n v, top_bit v)
read_var_int_loop-var_int (suc k) n v result raw rest hn hv hres = ground (
  arith,
  add_group_lem result n v hres,
  add_group_lem result n (v % 128 + 128) hres (omega arith),
  add_group-lt result n (v % 128 + 128) hres (omega arith),
  top_bit v,
  top_bit (v % 128 + 128) (omega arith),
  weight-suc n,
  split_group v (weight n),
  append_assoc raw ((v % 128 + 128) ∷ []) (var_int k (v / 128)),
  read_var_int_loop-var_int k (n + 1) (v / 128) (add_group result n (v % 128 + 128))
      (raw ++ (v % 128 + 128) ∷ []) rest (omega arith) (omega arith),
)

-- A result of `readVarInt` as `parseVarInt` would give it: the end of the input is io.EOF for the
-- reader and io.ErrUnexpectedEOF for the slice.
abbrev pub as_parsed : Result HandshakeError (ℕ × Bytes) × Bytes → Result HandshakeError ℕ × Bytes
as_parsed (ok (v, raw), r) = (ok v, r)
as_parsed (err read_failed, r) = (err unexpected_eof, r)
as_parsed (err e, r) = (err e, r)

-- An input of `k` bytes that all have the top bit.
abbrev pub AreContinued : ℕ → Bytes → Type 0
AreContinued zero [] = Unit
AreContinued zero (b ∷ r) = ⊥
AreContinued (suc k) [] = ⊥
AreContinued (suc k) (b ∷ r) = ((bit_and b 0x80 == 0) ≡ false) × AreContinued k r

agree_loop :
    (k : ℕ) (r : Bytes) (n result : ℕ) (raw : Bytes)
    → n + k ≡ 5
    → (parse_var_int_loop n result r ≡ as_parsed (read_var_int_loop n result raw r))
      ⊎ (AreContinued k r
          × (parse_var_int_loop n result r ≡ (err unexpected_eof, []))
          × (read_var_int_loop n result raw r ≡ (err varint_too_long, [])))
unfolding read_var_int_loop parse_var_int_loop
agree_loop zero [] n result raw h =
    let full : leb 5 n ≡ true = ground (arith, h) in inr (tt, refl, rw full refl)
agree_loop zero (b ∷ r) n result raw h =
    let full : leb 5 n ≡ true = ground (arith, h) in inl (rw full refl)
agree_loop (suc k) [] n result raw h =
    let more : leb 5 n ≡ false = ground (arith, h) in inl (rw more refl)
agree_loop (suc k) (b ∷ r) n result raw h =
    let more : leb 5 n ≡ false = ground (arith, h) in
    elim (Bool-cases (bit_and b 0x80 == 0)) [
      | inl f ↦ inl (rw (more, f) refl)
      | inr f ↦
          rw (more, f)
            (continued (AreContinued k r) _ _ _
              (agree_loop k r (n + 1) (add_group result n b) (raw ++ b ∷ []) (omega (arith, h))))
    ]
  where
    continued :
        (P Q S T : Type 0) → Q ⊎ (P × S × T) → Q ⊎ ((◌≡◌ {A = Bool} false false × P) × S × T)
    continued P Q S T (inl q) = inl q
    continued P Q S T (inr (p, s, t)) = inr ((refl, p), s, t)

-- `parseVarInt` on a slice and `readVarInt` on a reader of the same bytes agree on every input: in
-- the value, in the bytes left and in the error, but for the end of the input, which is io.EOF for
-- the one and io.ErrUnexpectedEOF for the other. The one exception is an input of exactly five bytes,
-- all with the top bit set: `parseVarInt` reports the end of the input, and `readVarInt` a VarInt that
-- is too long.
pub parse_var_int-read_var_int :
    (r : Bytes)
    → (parse_var_int r ≡ as_parsed (read_var_int r))
      ⊎ (AreContinued 5 r
          × (parse_var_int r ≡ (err unexpected_eof, []))
          × (read_var_int r ≡ (err varint_too_long, [])))
unfolding read_var_int parse_var_int
parse_var_int-read_var_int r = agree_loop 5 r 0 0 [] refl

-- `readVarInt` reads back every number below 2 ^ 35 from its VarInt, returns the VarInt's bytes, and
-- leaves what follows on the reader.
pub read_var_int-var_int :
    (v : ℕ) (rest : Bytes)
    → v < 2 ^ 35
    → read_var_int (var_int 4 v ++ rest) ≡ (ok (v, var_int 4 v), rest)
unfolding read_var_int
read_var_int-var_int v rest h =
    ground (arith, read_var_int_loop-var_int 4 0 v 0 [] rest (omega arith) (omega arith))

pub parse_var_int-var_int :
    (v : ℕ) (rest : Bytes) → v < 2 ^ 35 → parse_var_int (var_int 4 v ++ rest) ≡ (ok v, rest)
parse_var_int-var_int v rest h = elim (parse_var_int-read_var_int (var_int 4 v ++ rest)) [
  | inl e ↦ e ∙ ap as_parsed (read_var_int-var_int v rest h)
  | inr e ↦ cc (e.2, read_var_int-var_int v rest h)
]
