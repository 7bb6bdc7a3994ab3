-- ===== src/Base/Order.antt =====
-- `sort.Strings`, `sort.Ints` and `slices.Sort` as an insertion sort. The orders are total, so that
-- any sorting function gives the same list: the sorted one that holds the same items as often.
use mathlib.Core.Path.{◌≡◌, refl, sym, subst, ◌∙◌}
use mathlib.Core.Logic.{◌⊎◌, inl, inr, ∥∥₁_elim}
use mathlib.Core.Bool.{Bool, true}
use mathlib.Core.List.{List, [], ◌∷◌, Perm, Permᴰ}
use mathlib.Core.List.Perm
use Prim.Native.Nat.{ℕ}
use native.Mathlib.Decide.{ℕ_discrete}
use native.Mathlib.Omega.{arith}
use sidero_proxy.Base.Tests.{leb, if◌then◌else◌, Bool-cases}
use sidero_proxy.Base.Strings.{Bytes, bytes_le, bytes_le_total, bytes_le_trans, bytes_le_antisymm}

module _ {A : Type 0} (le : A → A → Bool) where
  unfoldable pub insert_sorted : A → List A → List A
  insert_sorted x [] = x ∷ []
  insert_sorted x (y ∷ ys) = if le x y then x ∷ y ∷ ys else y ∷ insert_sorted x ys

  unfoldable pub sort : List A → List A
  unfolding insert_sorted
  sort [] = []
  sort (x ∷ xs) = insert_sorted x (sort xs)

  insert_sorted-perm : (x : A) (ys : List A) → Perm (insert_sorted x ys) (x ∷ ys)
  unfolding insert_sorted
  insert_sorted-perm x [] = Perm.refl (x ∷ [])
  insert_sorted-perm x (y ∷ ys) = elim (Bool-cases (le x y)) [
    | inl e ↦ rw e (Perm.refl (x ∷ y ∷ ys))
    | inr e ↦ rw e (Perm.trans (Perm.cons y (insert_sorted-perm x ys)) (Perm.swap x y ys))
  ]

  -- The sorted list holds the same items, each as often.
  pub sort-perm : (xs : List A) → Perm (sort xs) xs
  unfolding sort
  sort-perm [] = Perm.refl []
  sort-perm (x ∷ xs) = Perm.trans (insert_sorted-perm x (sort xs)) (Perm.cons x (sort-perm xs))

  -- Equal sorted lists come from the same items.
  pub perm_of_sort : {xs ys : List A} → sort xs ≡ sort ys → Perm xs ys
  perm_of_sort {xs} {ys} e =
      Perm.trans (Perm.symm (sort-perm xs)) (subst (λ l. Perm l ys) (sym e) (sort-perm ys))

  -- Every item is at most its successor.
  abbrev pub IsSorted : List A → Type 0
  IsSorted [] = Unit
  IsSorted (x ∷ []) = Unit
  IsSorted (x ∷ y ∷ ys) = (le x y ≡ true) × IsSorted (y ∷ ys)

-- A total order, as a test.
pub record IsTotalOrder {A : Type 0} (le : A → A → Bool) : Type 0 where
  pub total : (x y : A) → (le x y ≡ true) ⊎ (le y x ≡ true)
  pub transitive : (x y z : A) → le x y ≡ true → le y z ≡ true → le x z ≡ true
  pub antisymmetric : (x y : A) → le x y ≡ true → le y x ≡ true → x ≡ y

module _ {A : Type 0} (le : A → A → Bool) (order : IsTotalOrder le) where
  insert_sorted_comm :
      (x y : A) (l : List A)
      → insert_sorted le x (insert_sorted le y l) ≡ insert_sorted le y (insert_sorted le x l)
  unfolding insert_sorted
  insert_sorted_comm x y [] = ground (arith, order.total x y, order.antisymmetric x y)
  insert_sorted_comm x y (z ∷ l) = ground (
    arith,
    order.total x y,
    order.antisymmetric x y,
    order.transitive x y z,
    order.transitive y x z,
    order.total x z,
    order.total y z,
    insert_sorted_comm x y l,
  )

  sort_of_permᴰ : {xs ys : List A} → Permᴰ xs ys → sort le xs ≡ sort le ys
  unfolding sort
  sort_of_permᴰ Permᴰ.nil = refl
  sort_of_permᴰ (Permᴰ.cons e p) = cc (sort_of_permᴰ p)
  sort_of_permᴰ (Permᴰ.swap {a = a} {b = b} {l = l} e f) = cc (insert_sorted_comm a b (sort le l))
  sort_of_permᴰ (Permᴰ.trans p q) = sort_of_permᴰ p ∙ sort_of_permᴰ q

  -- The order in which the items come does not show in the sorted list.
  pub sort_of_perm : IsSet (List A) → {xs ys : List A} → Perm xs ys → sort le xs ≡ sort le ys
  sort_of_perm set p = ∥∥₁_elim p (set _ _) sort_of_permᴰ

  insert_sorted-IsSorted :
      (x : A) (ys : List A) → IsSorted le ys → IsSorted le (insert_sorted le x ys)
  unfolding insert_sorted
  insert_sorted-IsSorted x [] h = tt
  insert_sorted-IsSorted x (y ∷ []) h = ground (arith, order.total x y)
  insert_sorted-IsSorted x (y ∷ z ∷ ys) (hy, hz) =
      ground (arith, order.total x y, insert_sorted-IsSorted x (z ∷ ys) hz)

  pub sort-IsSorted : (xs : List A) → IsSorted le (sort le xs)
  unfolding sort
  sort-IsSorted [] = tt
  sort-IsSorted (x ∷ xs) = insert_sorted-IsSorted x (sort le xs) (sort-IsSorted xs)

pub bytes_le-IsTotalOrder : IsTotalOrder bytes_le
bytes_le-IsTotalOrder = record {
  total = bytes_le_total;
  transitive = bytes_le_trans;
  antisymmetric = bytes_le_antisymm;
}

pub leb-IsTotalOrder : IsTotalOrder leb
leb-IsTotalOrder = record {
  total = λ x y. ground arith;
  transitive = λ x y z h k. ground arith;
  antisymmetric = λ x y h k. ground arith;
}

pub Bytes-set : IsSet (List Bytes)
Bytes-set = hlevel ℕ_discrete

pub Ports-set : IsSet (List ℕ)
Ports-set = hlevel ℕ_discrete

abbrev pub sort_strings : List Bytes → List Bytes
sort_strings = sort bytes_le

abbrev pub sort_ints : List ℕ → List ℕ
sort_ints = sort leb
