-- ===== src/Base/Outcome.antt =====
-- Go's pair of a value and an error, and functions that also act on a state, which an error keeps.
use mathlib.Core.Path.{◌≡◌, refl}
use native.Mathlib.Omega.{arith}
use mathlib.Core.Logic.{◌⊎◌, inl, inr}

pub data Result {ℓ κ} (E : Type ℓ) (A : Type κ) : Type (ℓ ⊔ κ) where
  ok : A → Result E A
  err : E → Result E A

pub Result-cases {ℓ κ} :
    {E : Type ℓ} {A : Type κ} (r : Result E A) → ((a : A) × (r ≡ ok a)) ⊎ ((e : E) × (r ≡ err e))
Result-cases (ok a) = inl (a, refl)
Result-cases (err e) = inr (e, refl)

abbrev pub bind_result {ℓ κ μ} :
    {E : Type ℓ} {A : Type κ} {B : Type μ} → Result E A → (A → Result E B) → Result E B
bind_result (ok a) f = f a
bind_result (err e) f = err e

-- A Go function that may fail and acts on the state `S`: what it did before an error remains.
abbrev pub Action : Type 0 → Type 0 → Type 0 → Type 0
Action S E A = S → Result E A × S

abbrev pub pure : {S E A : Type 0} → A → Action S E A
pure a s = (ok a, s)

abbrev pub fail : {S E A : Type 0} → E → Action S E A
fail e s = (err e, s)

abbrev pub continue_with : {S E A B : Type 0} → (A → Action S E B) → Result E A × S → Result E B × S
continue_with f (ok a, s) = f a s
continue_with f (err e, s) = (err e, s)

infixl 5 ◌>>=◌ ◌>>◌
abbrev pub ◌>>=◌ : {S E A B : Type 0} → Action S E A → (A → Action S E B) → Action S E B
◌>>=◌ m f s = continue_with f (m s)

abbrev pub ◌>>◌ : {S E B : Type 0} → Action S E (Unit {0}) → Action S E B → Action S E B
◌>>◌ m k s = continue_with (λ _. k) (m s)

-- A chain that succeeds: the first action did, and the rest from there.
pub continue_ok :
    {S E A B : Type 0} (f : A → S → Result E B × S) (r : Result E A × S) (b : B) (s' : S)
    → continue_with f r ≡ (ok b, s')
    → (a : A) × (r ≡ (ok a, r.1)) × (f a (r.1) ≡ (ok b, s'))
continue_ok f (ok a, s) b s' h = (a, refl, h)
continue_ok f (err e, s) b s' h = absurd (ground arith)

-- What holds of both branches of a test of a result holds of the test.
pub result_cases {ℓ} :
    {E A B : Type 0} (P : B → Type ℓ) (r : Result E A) (f : A → B) (g : E → B)
    → ((a : A) → P (f a))
    → ((e : E) → P (g e))
    → P (elim r as (λ _. B) [ ok a ↦ f a | err e ↦ g e ])
result_cases P (ok a) f g h k = h a
result_cases P (err e) f g h k = k e
