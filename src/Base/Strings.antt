-- ===== src/Base/Strings.antt =====
-- Go strings as lists of bytes: equality and the order of `sort.Strings`.
use Prim.Native.Nat.{ℕ}
use Prim.Native.Char.{code}
use Prim.Native.String.{String}
use mathlib.Core.Path.{◌≡◌, refl}
use mathlib.Core.Logic.{◌↔◌, ◌⊎◌, inl, inr}
use mathlib.Core.Bool.{Bool, true, false, ◌&&◌}
use mathlib.Core.List.{List, [], ◌∷◌}
use native.Mathlib.Omega.{arith}
use sidero_proxy.Base.Tests.{ltb, ◌==◌, if◌then◌else◌}

abbrev pub Bytes : Type 0
Bytes = List ℕ

-- The code points of a literal, which are its bytes: every literal of the source is ASCII.
abbrev pub codes : String → Bytes
codes String.[] = []
codes (String.◌∷◌ c s) = code c ∷ codes s

unfoldable pub bytes_eq : Bytes → Bytes → Bool
bytes_eq [] [] = true
bytes_eq [] (c ∷ t) = false
bytes_eq (b ∷ s) [] = false
bytes_eq (b ∷ s) (c ∷ t) = (b == c) && bytes_eq s t

pub bytes_eq→eq : (s t : Bytes) → bytes_eq s t ≡ true → s ≡ t
unfolding bytes_eq
bytes_eq→eq [] [] h = refl
bytes_eq→eq [] (c ∷ t) h = cc
bytes_eq→eq (b ∷ s) [] h = cc
bytes_eq→eq (b ∷ s) (c ∷ t) h = ground (arith, bytes_eq→eq s t)

pub bytes_eq_refl : (s : Bytes) → bytes_eq s s ≡ true
unfolding bytes_eq
bytes_eq_refl [] = refl
bytes_eq_refl (b ∷ s) = ground (arith, bytes_eq_refl s)

pub bytes_eq_iff : (s t : Bytes) → (bytes_eq s t ≡ true) ↔ (s ≡ t)
bytes_eq_iff s t = (bytes_eq→eq s t, λ e. rw e (bytes_eq_refl t))

-- `s <= t` on Go strings: bytewise, and a prefix comes first.
unfoldable pub bytes_le : Bytes → Bytes → Bool
bytes_le [] t = true
bytes_le (b ∷ s) [] = false
bytes_le (b ∷ s) (c ∷ t) =
    let later = bytes_le s t in if ltb b c then true else if b == c then later else false

pub bytes_le_total : (s t : Bytes) → (bytes_le s t ≡ true) ⊎ (bytes_le t s ≡ true)
unfolding bytes_le
bytes_le_total [] t = inl refl
bytes_le_total (b ∷ s) [] = inr refl
bytes_le_total (b ∷ s) (c ∷ t) = ground (arith, bytes_le_total s t)

pub bytes_le_trans :
    (s t u : Bytes) → bytes_le s t ≡ true → bytes_le t u ≡ true → bytes_le s u ≡ true
unfolding bytes_le
bytes_le_trans [] t u h k = refl
bytes_le_trans (b ∷ s) [] u h k = cc
bytes_le_trans (b ∷ s) (c ∷ t) [] h k = cc
bytes_le_trans (b ∷ s) (c ∷ t) (d ∷ u) h k = ground (arith, bytes_le_trans s t u)

pub bytes_le_antisymm : (s t : Bytes) → bytes_le s t ≡ true → bytes_le t s ≡ true → s ≡ t
unfolding bytes_le
bytes_le_antisymm [] [] h k = refl
bytes_le_antisymm [] (c ∷ t) h k = cc
bytes_le_antisymm (b ∷ s) [] h k = cc
bytes_le_antisymm (b ∷ s) (c ∷ t) h k = ground (arith, bytes_le_antisymm s t)
