-- ===== src/Base/Ports.antt =====
-- A Go map whose keys are ports, as an association list.
use Prim.Native.Nat.{ℕ}
use mathlib.Core.Path.{◌≡◌, refl}
use mathlib.Core.List.{List, [], ◌∷◌}
use mathlib.Core.Option.{Option, none, some}
use native.Mathlib.Omega.{arith}
use sidero_proxy.Base.Tests.{◌==◌, if◌then◌else◌}

abbrev pub PortMap {ℓ} : Type ℓ → Type ℓ
PortMap V = List (ℕ × V)

module _ {ℓ} {V : Type ℓ} where
  unfoldable pub at_port : ℕ → PortMap V → Option V
  at_port k [] = none
  at_port k ((j, v) ∷ m) = if j == k then some v else at_port k m

  unfoldable pub set_port : ℕ → V → PortMap V → PortMap V
  set_port k v [] = (k, v) ∷ []
  set_port k v ((j, w) ∷ m) = if j == k then (k, v) ∷ m else (j, w) ∷ set_port k v m

  pub at_port-set_port :
      (k j : ℕ) (v : V) (m : PortMap V)
      → at_port j (set_port k v m) ≡ (if k == j then some v else at_port j m)
  unfolding at_port set_port
  at_port-set_port k j v [] = refl
  at_port-set_port k j v ((i, w) ∷ m) = ground (arith, at_port-set_port k j v m)

  -- `for port := range m`
  abbrev pub ports_of : PortMap V → List ℕ
  ports_of [] = []
  ports_of ((k, v) ∷ m) = k ∷ ports_of m
