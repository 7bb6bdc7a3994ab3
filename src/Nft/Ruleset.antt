-- ===== src/Nft/Ruleset.antt =====
-- What a plan makes of the rules of one chain, for a runner that works as nftables documents it.
use sidero_proxy.Base.{
  ◌≡◌, refl, ap, ◌∙◌, Bool, true, false, none, some, List, [], ◌∷◌, ◌++◌, if◌then◌else◌, Result, ok,
  err, continue_with, Bytes, codes, bytes_eq, strip_prefix, All, arith,
}
use sidero_proxy.Nft.{Error, ScriptRunner}
use sidero_proxy.Nft.Command.{is_command}
use sidero_proxy.Nft.Plan.{Script, strict_script, tolerant_script, run_script, run_plan}

unfoldable pub flush_script : Bytes → Bytes
flush_script chain = codes "flush chain " ++ (chain ++ codes "\n")

unfoldable pub rule_prefix : Bytes → Bytes
rule_prefix chain = codes "add rule " ++ (chain ++ codes " ")

-- What a script that succeeds does to the rules of the chain `chain`: to flush it removes them all,
-- and to add a rule puts it behind the others.
unfoldable pub effect : Bytes → Bytes → List Bytes → List Bytes
unfolding flush_script rule_prefix
effect chain text rules =
    if bytes_eq text (flush_script chain)
    then []
    else elim (strip_prefix (rule_prefix chain) text) [
      | none ↦ rules
      | some rule ↦ rules ++ rule ∷ []
    ]

-- One of the managers' commands has its effect when it succeeds, and none when it fails.
pub record Ruleset {W : Type 0} (run : ScriptRunner W) (chain : Bytes) : Type 0 where
  pub rules : W → List Bytes
  pub rules-run :
      (text : Bytes) (w : W) {w' : W}
      → is_command text ≡ true
      → run text w ≡ (ok tt, w')
      → rules w' ≡ effect chain text (rules w)
  pub rules-run_failed :
      (text : Bytes) (w : W) {w' : W} {e : Error}
      → is_command text ≡ true
      → run text w ≡ (err e, w')
      → rules w' ≡ rules w

-- Scripts that are commands of the managers.
abbrev pub AreCommands : List Script → Type 0
AreCommands plan = All (λ s. is_command s.text ≡ true) plan

-- Scripts whose failure is passed over do not touch the chain's rules.
abbrev pub IsHarmless : Bytes → List Script → Type 0
IsHarmless chain [] = Unit
IsHarmless chain (s ∷ plan) =
    ((rules : List Bytes) → s.tolerant ≡ true → effect chain s.text rules ≡ rules)
    × IsHarmless chain plan

pub IsHarmless-strict :
    (chain text : Bytes) (plan : List Script)
    → IsHarmless chain plan
    → IsHarmless chain (strict_script text ∷ plan)
IsHarmless-strict chain text plan h = ((λ rules e. cc), h)

pub IsHarmless-tolerant :
    (chain text : Bytes) (plan : List Script)
    → ((rules : List Bytes) → effect chain text rules ≡ rules)
    → IsHarmless chain plan
    → IsHarmless chain (tolerant_script text ∷ plan)
IsHarmless-tolerant chain text plan quiet h = ((λ rules _. quiet rules), h)

pub ruleset harmless = (IsHarmless-strict, IsHarmless-tolerant)

abbrev pub effects : Bytes → List Script → List Bytes → List Bytes
effects chain [] rules = rules
effects chain (s ∷ plan) rules = effects chain plan (effect chain s.text rules)

module _ {W : Type 0} {run : ScriptRunner W} {chain : Bytes} (r : Ruleset run chain) where
  rules-run_script :
      (s : Script) (w w' : W)
      → is_command s.text ≡ true
      → ((rules : List Bytes) → s.tolerant ≡ true → effect chain s.text rules ≡ rules)
      → run_script run s w ≡ (ok tt, w')
      → r.rules w' ≡ effect chain s.text (r.rules w)
  rules-run_script s w w' command harmless e = by_result (run s.text w) refl
    where
      by_result :
          (p : Result Error (Unit {0}) × W)
          → run s.text w ≡ p
          → r.rules w' ≡ effect chain s.text (r.rules w)
      by_result (ok x, w₁) f = ground (arith, r.rules-run s.text w command f)
      by_result (err x, w₁) f =
          ground (arith, r.rules-run_failed s.text w command f, harmless (r.rules w))

  by_first_result :
      (s : Script) (plan : List Script) (w w' : W) (p : Result Error (Unit {0}) × W)
      → is_command s.text ≡ true
      → ((rules : List Bytes) → s.tolerant ≡ true → effect chain s.text rules ≡ rules)
      → ((w₁ : W)
          → run_plan run plan w₁ ≡ (ok tt, w')
          → r.rules w' ≡ effects chain plan (r.rules w₁))
      → run_script run s w ≡ p
      → continue_with (λ _. run_plan run plan) p ≡ (ok tt, w')
      → r.rules w' ≡ effects chain plan (effect chain s.text (r.rules w))
  by_first_result s plan w w' (ok x, w₁) c h rest f g =
      rest w₁ g ∙ ap (effects chain plan) (rules-run_script s w w₁ c h f)
  by_first_result s plan w w' (err x, w₁) c h rest f g = absurd (ground arith)

  -- After a plan that succeeds, the rules are what its scripts make of those before it.
  pub rules-run_plan :
      (plan : List Script) (w w' : W)
      → AreCommands plan
      → IsHarmless chain plan
      → run_plan run plan w ≡ (ok tt, w')
      → r.rules w' ≡ effects chain plan (r.rules w)
  unfolding run_plan
  rules-run_plan [] w w' c h e = ground arith
  rules-run_plan (s ∷ []) w w' (c, cs) (h, hs) e = rules-run_script s w w' c h e
  rules-run_plan (s ∷ t ∷ plan) w w' (c, cs) (h, hs) e =
      by_first_result s (t ∷ plan) w w' (run_script run s w) c h
        (λ w₁ g. rules-run_plan (t ∷ plan) w₁ w' cs hs g) refl e

-- What no command changes is as before after a plan of commands, whatever its result.
module _ {W B : Type 0} (run : ScriptRunner W) (f : W → B)
    (kept : (text : Bytes) (w : W) → is_command text ≡ true → f ((run text w).1) ≡ f w) where
  run_script-kept :
      (s : Script) (w : W) → is_command s.text ≡ true → f ((run_script run s w).1) ≡ f w
  run_script-kept s w command = by_result s.tolerant s.text (kept s.text w command)
    where
      by_result :
          (b : Bool) (text : Bytes)
          → f ((run text w).1) ≡ f w
          → f ((run_script run (record { tolerant = b; text = text }) w).1) ≡ f w
      by_result true text h = h
      by_result false text h = h

  pub run_plan-kept :
      (plan : List Script) (w : W) → AreCommands plan → f ((run_plan run plan w).1) ≡ f w
  unfolding run_plan
  run_plan-kept [] w cs = refl
  run_plan-kept (s ∷ []) w (c, cs) = run_script-kept s w c
  run_plan-kept (s ∷ t ∷ plan) w (c, cs) =
      by_first (run_script run s w) (run_script-kept s w c) (λ v. run_plan-kept (t ∷ plan) v cs)
    where
      by_first :
          (p : Result Error (Unit {0}) × W)
          → f (p.1) ≡ f w
          → ((v : W) → f ((run_plan run (t ∷ plan) v).1) ≡ f v)
          → f ((continue_with (λ _. run_plan run (t ∷ plan)) p).1) ≡ f w
      by_first (ok x, v) h rest = rest v ∙ h
      by_first (err e, v) h rest = h
