-- ===== src/Nat/Chains/Snat.antt =====
-- What `NATManager.Ensure` of internal/nat leaves in its chain.
use sidero_proxy.Base.{
  ◌≡◌, refl, sym, ◌∙◌, List, [], ◌∷◌, ok, Bytes, codes, bytes_eq, starts_with, strip_prefix,
}
use sidero_proxy.Base.Members.{elem}
use sidero_proxy.Nft.{ScriptRunner}
use sidero_proxy.Nft.Command.{is_line, is_command}
use sidero_proxy.Nft.Plan.{Script, tolerant_script, strict_script, run_plan}
use sidero_proxy.Nft.Ruleset.{
  Ruleset, AreCommands, IsHarmless, harmless, effect, effects, rules-run_plan,
}
use sidero_proxy.Filter.Rules.{snat_chain}
use sidero_proxy.Nat.Chains.{add_nat_chain_script, add_map_script, ensure_nat}

unfoldable pub nat_plan : List Script
nat_plan =
    tolerant_script (codes "add table ip mcproxy_nat\n")
    ∷ tolerant_script add_nat_chain_script
    ∷ tolerant_script add_map_script
    ∷ strict_script (codes "flush chain ip mcproxy_nat postrouting\n")
    ∷ strict_script (codes "add rule ip mcproxy_nat postrouting snat to ip saddr map @nat_map\n")
    ∷ []

-- The rule that rewrites the source of a connection by the map, as nft prints it.
abbrev pub expected_snat : Bytes
expected_snat = codes "snat to ip saddr map @nat_map\n"

pub nat_plan-AreCommands : AreCommands nat_plan
unfolding nat_plan is_command elem bytes_eq starts_with is_line
nat_plan-AreCommands = (refl, (refl, (refl, (refl, (refl, tt)))))

nat_plan-IsHarmless : IsHarmless snat_chain nat_plan
unfolding nat_plan effect bytes_eq strip_prefix
nat_plan-IsHarmless = search (harmless, tt) depth 12

effects-nat_plan : (rules : List Bytes) → effects snat_chain nat_plan rules ≡ expected_snat ∷ []
unfolding nat_plan effect bytes_eq strip_prefix
effects-nat_plan rules = refl

module _ {W : Type 0} (run : ScriptRunner W) where
  pub ensure_nat-plan : (w : W) → ensure_nat run w ≡ run_plan run nat_plan w
  unfolding ensure_nat nat_plan run_plan
  ensure_nat-plan w = refl

  -- When `Ensure` succeeds, its chain holds the one rule of the map, whatever it held before.
  pub ensure_nat-rules :
      (r : Ruleset run snat_chain) (w : W) {w' : W}
      → ensure_nat run w ≡ (ok tt, w')
      → r.rules w' ≡ expected_snat ∷ []
  ensure_nat-rules r w {w'} e =
      rules-run_plan r nat_plan w w' nat_plan-AreCommands nat_plan-IsHarmless
        (sym (ensure_nat-plan w) ∙ e)
      ∙ effects-nat_plan (r.rules w)
