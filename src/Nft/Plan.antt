-- ===== src/Nft/Plan.antt =====
-- A list of scripts with, for each, whether an "already exists" error is passed over: the plan that a
-- function `Ensure` carries out, stated on its own.
use sidero_proxy.Base.{
  ◌≡◌, refl, sym, Bool, true, false, List, [], ◌∷◌, if◌then◌else◌, Result, ok, err, Action,
  continue_with, Bytes,
}
use sidero_proxy.Nft.{Error, ScriptRunner, ignore_already_exists, tolerating}

pub record Script : Type 0 where
  pub tolerant : Bool
  pub text : Bytes

abbrev pub tolerant_script : Bytes → Script
tolerant_script t = record { tolerant = true; text = t }

abbrev pub strict_script : Bytes → Script
strict_script t = record { tolerant = false; text = t }

module _ {W : Type 0} (run : ScriptRunner W) where
  abbrev pub run_script : Script → Action W Error (Unit {0})
  run_script s = if s.tolerant then tolerating ignore_already_exists (run s.text) else run s.text

  -- The scripts in their order, up to the first error that is not passed over.
  unfoldable pub run_plan : List Script → Action W Error (Unit {0})
  run_plan [] w = (ok tt, w)
  run_plan (s ∷ []) w = run_script s w
  run_plan (s ∷ t ∷ plan) w = continue_with (λ _. run_plan (t ∷ plan)) (run_script s w)

  continue_with-pure : (p : Result Error (Unit {0}) × W) → continue_with (λ _. run_plan []) p ≡ p
  unfolding run_plan
  continue_with-pure (ok x, w) = refl
  continue_with-pure (err e, w) = refl

  pub run_plan-cons :
      (s : Script) (plan : List Script) (w : W)
      → run_plan (s ∷ plan) w ≡ continue_with (λ _. run_plan plan) (run_script s w)
  unfolding run_plan
  run_plan-cons s [] w = sym (continue_with-pure (run_script s w))
  run_plan-cons s (t ∷ plan) w = refl
