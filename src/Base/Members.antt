-- ===== src/Base/Members.antt =====
-- Membership of texts as a test, in lists and as keys of maps.
use mathlib.Core.Path.{◌≡◌, refl}
use mathlib.Core.Bool.{Bool, true, false, ◌||◌}
use mathlib.Core.List.{List, [], ◌∷◌, map}
use mathlib.Core.Option.{Option, none, some}
use native.Mathlib.Omega.{arith}
use mathlib.Core.Logic.{inl, inr}
use sidero_proxy.Base.Tests.{Option-cases}
use sidero_proxy.Base.Strings.{Bytes, bytes_eq, bytes_le}
use sidero_proxy.Base.Order.{sort, insert_sorted, sort_strings}
use sidero_proxy.Base.Dict.{Dict, lookup, insert, lookup-insert}

unfoldable pub elem : Bytes → List Bytes → Bool
elem x [] = false
elem x (y ∷ ys) = bytes_eq y x || elem x ys

elem-insert_sorted :
    (x y : Bytes) (ys : List Bytes)
    → elem x (insert_sorted bytes_le y ys) ≡ (bytes_eq y x || elem x ys)
unfolding elem insert_sorted
elem-insert_sorted x y [] = refl
elem-insert_sorted x y (z ∷ ys) = ground (arith, elem-insert_sorted x y ys)

pub elem-sort : (x : Bytes) (ys : List Bytes) → elem x (sort_strings ys) ≡ elem x ys
unfolding elem sort
elem-sort x [] = refl
elem-sort x (y ∷ ys) = ground (arith, elem-insert_sorted x y (sort_strings ys), elem-sort x ys)

-- Whether a key is in a map.
abbrev pub is_some {ℓ} : {A : Type ℓ} → Option A → Bool
is_some none = false
is_some (some a) = true

unfoldable pub has_key {ℓ} : {V : Type ℓ} → Bytes → Dict V → Bool
unfolding lookup
has_key k m = is_some (lookup k m)

abbrev pub keys : {V : Type 0} → Dict V → List Bytes
keys m = map (λ p. p.0) m

pub elem-keys : {V : Type 0} (k : Bytes) (m : Dict V) → elem k (keys m) ≡ has_key k m
unfolding elem has_key lookup
elem-keys k [] = refl
elem-keys k ((j, v) ∷ m) = ground (arith, elem-keys k m)

pub has_key-cons :
    {V : Type 0} (k j : Bytes) (v : V) (m : Dict V)
    → has_key k ((j, v) ∷ m) ≡ (bytes_eq j k || has_key k m)
unfolding has_key lookup
has_key-cons k j v m = ground arith

pub has_key_of_some :
    {V : Type 0} (k : Bytes) (v : V) (m : Dict V) → lookup k m ≡ some v → has_key k m ≡ true
unfolding has_key
has_key_of_some k v m h = ground (arith, h)

pub has_key-insert :
    {V : Type 0} (k j : Bytes) (v : V) (m : Dict V)
    → has_key j (insert k v m) ≡ (bytes_eq k j || has_key j m)
unfolding has_key
has_key-insert k j v m = ground (arith, lookup-insert k j v m)

pub some_of_has_key :
    {V : Type 0} (k : Bytes) (m : Dict V) → has_key k m ≡ true → (v : V) × (lookup k m ≡ some v)
unfolding has_key
some_of_has_key k m h = elim (Option-cases (lookup k m)) [
  | inl e ↦ absurd (ground (arith, e, h))
  | inr p ↦ p
]
