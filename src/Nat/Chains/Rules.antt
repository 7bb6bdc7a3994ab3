-- ===== src/Nat/Chains/Rules.antt =====
-- What the three managers leave in their chains when `Ensure` succeeds.
use sidero_proxy.Base.{
  ℕ, ◌≡◌, refl, sym, ap, ◌∙◌, List, [], ◌∷◌, ◌++◌, append-nil, append_assoc, map, ok, continue_with,
  Bytes, codes, true, itoa, starts_with, bytes_eq, strip_prefix, Unicode, All, sort_ints,
  sort_strings,
}
use sidero_proxy.Base.Ports.{PortMap, ports_of}
use sidero_proxy.Base.Integers.{itoa_int}
use sidero_proxy.Nft.{ScriptRunner}
use sidero_proxy.Nft.Plan.{
  Script, tolerant_script, strict_script, run_script, run_plan, run_plan-cons,
}
use mathlib.Core.Path.{fun_ext}
use sidero_proxy.Nft.Ruleset.{
  Ruleset, AreCommands, IsHarmless, harmless, effect, effects, rules-run_plan,
}
use sidero_proxy.Filter.{elements_script}
use sidero_proxy.Filter.Rules.{chain, snat_chain, elements_line}
use sidero_proxy.Base.Members.{elem}
use sidero_proxy.Nft.Command.{
  is_word, is_line, is_command, are_words, is_line-append, is_word-itoa, is_word-itoa_int,
  are_words-sort,
}
use sidero_proxy.Nat.Chains.{
  add_intercept_chain_script, add_node_chain_script, DnatDestination, destination_at, redirect_rule,
  redirect_script, dnat_rule, dnat_script, ensure_redirect_sorted, ensure_redirect, add_dnat_rules,
  ensure_node, ensure_destinations,
}

abbrev elements_plan : Bytes → List Bytes → List Script
elements_plan set [] = []
elements_plan set (ip ∷ ips) = strict_script (elements_script set (ip ∷ ips)) ∷ []

redirect_plan : List Bytes → Bytes → List Script
redirect_plan ips rule =
    tolerant_script (codes "add table ip mcproxy_intercept\n")
    ∷ tolerant_script (codes "add set ip mcproxy_intercept public_ips { type ipv4_addr; }\n")
    ∷ tolerant_script add_intercept_chain_script
    ∷ strict_script (codes "flush set ip mcproxy_intercept public_ips\n")
    ∷ strict_script (codes "flush chain ip mcproxy_intercept prerouting\n")
    ∷ (elements_plan (codes "mcproxy_intercept public_ips") ips
        ++ strict_script (redirect_script rule) ∷ [])

abbrev dnat_plan : List Bytes → List Script
dnat_plan [] = []
dnat_plan (rule ∷ rules) = strict_script (dnat_script rule) ∷ dnat_plan rules

abbrev flush_node_script : Bytes
flush_node_script = codes "flush chain ip mcproxy_node prerouting\n"

node_plan : List Bytes → List Script
node_plan rules =
    tolerant_script (codes "add table ip mcproxy_node\n")
    ∷ tolerant_script add_node_chain_script
    ∷ strict_script flush_node_script
    ∷ dnat_plan rules

abbrev pub intercept_chain : Bytes
intercept_chain = codes "ip mcproxy_intercept prerouting"

abbrev filter_chain : Bytes
filter_chain = chain

abbrev pub node_chain : Bytes
node_chain = codes "ip mcproxy_node prerouting"

-- The rule of the redirection and that of one port of a node, as nft prints them.
unfoldable pub expected_redirect : ℕ → ℕ → ℕ → Bytes
expected_redirect first last port =
    codes "ip daddr @public_ips tcp dport "
    ++ (itoa first
        ++ (codes "-" ++ (itoa last ++ (codes " redirect to :" ++ (itoa port ++ codes "\n")))))

unfoldable pub expected_dnat : Unicode → Bytes → ℕ → DnatDestination → Bytes
expected_dnat u interface port dst =
    codes "iifname "
    ++ (u.quote interface
        ++ (codes " tcp dport "
            ++ (itoa port
                ++ (codes " dnat to "
                    ++ (dst.ip ++ (codes ":" ++ (itoa_int dst.port ++ codes "\n")))))))

redirect_plan-AreCommands :
    (ips : List Bytes) (rule : Bytes)
    → are_words ips ≡ true
    → is_line rule ≡ true
    → AreCommands (redirect_plan ips rule)
unfolding redirect_plan redirect_script elements_script is_command elem bytes_eq starts_with is_line
redirect_plan-AreCommands [] rule words line = (refl, (refl, (refl, (refl, (refl, (line, tt))))))
redirect_plan-AreCommands (ip ∷ ips) rule words line =
    (refl, (refl, (refl, (refl, (refl, (elements_line (ip ∷ ips) words, (line, tt)))))))

redirect_rule-is_line : (a b c : ℕ) → is_line (redirect_rule a b c) ≡ true
unfolding redirect_rule is_line
redirect_rule-is_line a b c =
    is_line-append (itoa a) _ (is_word-itoa a)
      (is_line-append (itoa b) _ (is_word-itoa b) (is_line-append (itoa c) _ (is_word-itoa c) refl))

dnat_rule-is_line :
    (u : Unicode) (interface : Bytes) (port : ℕ) (dst : DnatDestination)
    → is_word (u.quote interface) ≡ true
    → is_word dst.ip ≡ true
    → is_line (dnat_rule u interface port dst) ≡ true
unfolding dnat_rule is_line
dnat_rule-is_line u interface port dst quoted word = is_line-append (u.quote interface) _ quoted (
    is_line-append (itoa port) _ (is_word-itoa port) (
      is_line-append dst.ip _ word
        (is_line-append (itoa_int dst.port) _ (is_word-itoa_int dst.port) refl)))

dnat_plan-AreCommands :
    (rules : List Bytes) → All (λ r. is_line r ≡ true) rules → AreCommands (dnat_plan rules)
unfolding dnat_script is_command elem bytes_eq starts_with is_line
dnat_plan-AreCommands [] lines = tt
dnat_plan-AreCommands (rule ∷ rules) (line, lines) = (line, dnat_plan-AreCommands rules lines)

node_plan-AreCommands :
    (rules : List Bytes) → All (λ r. is_line r ≡ true) rules → AreCommands (node_plan rules)
unfolding node_plan is_command elem bytes_eq starts_with is_line
node_plan-AreCommands rules lines = (refl, (refl, (refl, dnat_plan-AreCommands rules lines)))

All-map :
    (f : ℕ → Bytes)
    → ((p : ℕ) → is_line (f p) ≡ true)
    → (ps : List ℕ) → All (λ r. is_line r ≡ true) (map f ps)
All-map f line [] = tt
All-map f line (p ∷ ps) = (line p, All-map f line ps)

redirect_plan-snat_IsHarmless :
    (ips : List Bytes) (rule : Bytes) → IsHarmless snat_chain (redirect_plan ips rule)
unfolding redirect_plan effect bytes_eq strip_prefix
redirect_plan-snat_IsHarmless [] rule = search (harmless, tt) depth 12
redirect_plan-snat_IsHarmless (ip ∷ ips) rule = search (harmless, tt) depth 12

effects-redirect_plan-snat :
    (ips : List Bytes) (rule : Bytes) (rules : List Bytes)
    → effects snat_chain (redirect_plan ips rule) rules ≡ rules
unfolding redirect_plan effect redirect_script elements_script bytes_eq strip_prefix
effects-redirect_plan-snat [] rule rules = refl
effects-redirect_plan-snat (ip ∷ ips) rule rules = refl

redirect_plan-IsHarmless :
    (ips : List Bytes) (rule : Bytes) → IsHarmless intercept_chain (redirect_plan ips rule)
unfolding redirect_plan effect bytes_eq strip_prefix
redirect_plan-IsHarmless [] rule = search (harmless, tt) depth 12
redirect_plan-IsHarmless (ip ∷ ips) rule = search (harmless, tt) depth 12

effects-redirect_plan :
    (ips : List Bytes) (rule : Bytes) (rules : List Bytes)
    → effects intercept_chain (redirect_plan ips rule) rules ≡ rule ∷ []
unfolding redirect_plan effect redirect_script elements_script bytes_eq strip_prefix
effects-redirect_plan [] rule rules = refl
effects-redirect_plan (ip ∷ ips) rule rules = refl

-- The redirection's scripts do not touch the chain of the prefilter.
redirect_plan-filter_IsHarmless :
    (ips : List Bytes) (rule : Bytes) → IsHarmless filter_chain (redirect_plan ips rule)
unfolding redirect_plan effect bytes_eq strip_prefix
redirect_plan-filter_IsHarmless [] rule = search (harmless, tt) depth 12
redirect_plan-filter_IsHarmless (ip ∷ ips) rule = search (harmless, tt) depth 12

effects-redirect_plan-filter :
    (ips : List Bytes) (rule : Bytes) (rules : List Bytes)
    → effects filter_chain (redirect_plan ips rule) rules ≡ rules
unfolding redirect_plan effect redirect_script elements_script bytes_eq strip_prefix
effects-redirect_plan-filter [] rule rules = refl
effects-redirect_plan-filter (ip ∷ ips) rule rules = refl

dnat_plan-IsHarmless : (rules : List Bytes) → IsHarmless node_chain (dnat_plan rules)
dnat_plan-IsHarmless [] = tt
dnat_plan-IsHarmless (rule ∷ rules) = search (harmless, dnat_plan-IsHarmless rules)

node_plan-IsHarmless : (rules : List Bytes) → IsHarmless node_chain (node_plan rules)
unfolding node_plan effect bytes_eq strip_prefix
node_plan-IsHarmless rules = search (harmless, dnat_plan-IsHarmless rules) depth 6

effects-dnat_plan :
    (rules before : List Bytes) → effects node_chain (dnat_plan rules) before ≡ before ++ rules
unfolding effect dnat_script bytes_eq strip_prefix
effects-dnat_plan [] before = sym (append-nil before)
effects-dnat_plan (rule ∷ rules) before =
    effects-dnat_plan rules (before ++ rule ∷ []) ∙ append_assoc before (rule ∷ []) rules

effects-node_plan :
    (rules before : List Bytes) → effects node_chain (node_plan rules) before ≡ rules
unfolding node_plan effect bytes_eq strip_prefix
effects-node_plan rules before = effects-dnat_plan rules []

module _ {W : Type 0} (run : ScriptRunner W) where
  ensure_redirect_sorted-plan :
      (ips : List Bytes) (rule : Bytes) (w : W)
      → ensure_redirect_sorted run ips rule w ≡ run_plan run (redirect_plan ips rule) w
  unfolding ensure_redirect_sorted redirect_plan run_plan
  ensure_redirect_sorted-plan [] rule w = refl
  ensure_redirect_sorted-plan (ip ∷ ips) rule w = refl

  behind_script :
      (text : Bytes) (rules : List Bytes) (w : W)
      → ((w₁ : W) → add_dnat_rules run rules w₁ ≡ run_plan run (dnat_plan rules) w₁)
      → continue_with (λ _. add_dnat_rules run rules) (run text w)
        ≡ run_plan run (strict_script text ∷ dnat_plan rules) w
  behind_script text rules w same =
      ap (λ f. continue_with (λ _. f) (run text w)) (fun_ext same)
      ∙ sym (run_plan-cons run (strict_script text) (dnat_plan rules) w)

  add_dnat_rules-plan :
      (rules : List Bytes) (w : W) → add_dnat_rules run rules w ≡ run_plan run (dnat_plan rules) w
  unfolding add_dnat_rules
  add_dnat_rules-plan [] w = unfold run_plan in refl
  add_dnat_rules-plan (rule ∷ rules) w =
      behind_script (dnat_script rule) rules w (add_dnat_rules-plan rules)

  ensure_node-plan :
      (rules : List Bytes) (w : W) → ensure_node run rules w ≡ run_plan run (node_plan rules) w
  unfolding ensure_node node_plan run_plan
  ensure_node-plan rules w =
      ap
        (λ f.
          continue_with
            (λ _ w₁.
              continue_with (λ _. f) (run_script run (tolerant_script add_node_chain_script) w₁))
            (run_script run (tolerant_script (codes "add table ip mcproxy_node\n")) w))
        (fun_ext λ w₂. behind_script flush_node_script rules w₂ (add_dnat_rules-plan rules))

  unfoldable pub full_redirect_plan : List Bytes → ℕ → ℕ → ℕ → List Script
  unfolding redirect_plan
  full_redirect_plan ips a b c = redirect_plan (sort_strings ips) (redirect_rule a b c)

  pub full_redirect_plan-AreCommands :
      (ips : List Bytes) (a b c : ℕ)
      → are_words ips ≡ true
      → AreCommands (full_redirect_plan ips a b c)
  unfolding full_redirect_plan
  full_redirect_plan-AreCommands ips a b c words =
      redirect_plan-AreCommands (sort_strings ips) (redirect_rule a b c)
        (are_words-sort ips ∙ words) (redirect_rule-is_line a b c)

  pub ensure_redirect-plan :
      (ips : List Bytes) (a b c : ℕ) (w : W)
      → ensure_redirect run ips a b c w ≡ run_plan run (full_redirect_plan ips a b c) w
  unfolding ensure_redirect full_redirect_plan
  ensure_redirect-plan ips a b c w =
      ensure_redirect_sorted-plan (sort_strings ips) (redirect_rule a b c) w

  pub ensure_redirect-snat_rules :
      (r : Ruleset run snat_chain) (ips : List Bytes) (start_port end_port intercept_port : ℕ)
      (w : W) {w' : W}
      → are_words ips ≡ true
      → ensure_redirect run ips start_port end_port intercept_port w ≡ (ok tt, w')
      → r.rules w' ≡ r.rules w
  unfolding full_redirect_plan
  ensure_redirect-snat_rules r ips a b c w {w'} words e =
      let rule = redirect_rule a b c in
      let sorted = sort_strings ips in
      rules-run_plan r (redirect_plan sorted rule) w w'
        (full_redirect_plan-AreCommands ips a b c words) (redirect_plan-snat_IsHarmless sorted rule)
        (sym (ensure_redirect-plan ips a b c w) ∙ e)
      ∙ effects-redirect_plan-snat sorted rule (r.rules w)

  -- When the redirection is set up, its chain holds one rule, whatever it held before.
  pub ensure_redirect-rules :
      (r : Ruleset run intercept_chain) (ips : List Bytes) (start_port end_port intercept_port : ℕ)
      (w : W) {w' : W}
      → are_words ips ≡ true
      → ensure_redirect run ips start_port end_port intercept_port w ≡ (ok tt, w')
      → r.rules w' ≡ expected_redirect start_port end_port intercept_port ∷ []
  unfolding full_redirect_plan expected_redirect redirect_rule
  ensure_redirect-rules r ips a b c w {w'} words e =
      let rule = redirect_rule a b c in
      let sorted = sort_strings ips in
      rules-run_plan r (redirect_plan sorted rule) w w'
        (full_redirect_plan-AreCommands ips a b c words) (redirect_plan-IsHarmless sorted rule)
        (sym (ensure_redirect-plan ips a b c w) ∙ e)
      ∙ effects-redirect_plan sorted rule (r.rules w)

  pub ensure_redirect-filter_rules :
      (r : Ruleset run filter_chain) (ips : List Bytes) (start_port end_port intercept_port : ℕ)
      (w : W) {w' : W}
      → are_words ips ≡ true
      → ensure_redirect run ips start_port end_port intercept_port w ≡ (ok tt, w')
      → r.rules w' ≡ r.rules w
  unfolding full_redirect_plan
  ensure_redirect-filter_rules r ips a b c w {w'} words e =
      let rule = redirect_rule a b c in
      let sorted = sort_strings ips in
      rules-run_plan r (redirect_plan sorted rule) w w'
        (full_redirect_plan-AreCommands ips a b c words)
        (redirect_plan-filter_IsHarmless sorted rule) (sym (ensure_redirect-plan ips a b c w) ∙ e)
      ∙ effects-redirect_plan-filter sorted rule (r.rules w)

  ensure_node-rules :
      (r : Ruleset run node_chain) (rules : List Bytes) (w : W) {w' : W}
      → All (λ rule. is_line rule ≡ true) rules
      → ensure_node run rules w ≡ (ok tt, w')
      → r.rules w' ≡ rules
  ensure_node-rules r rules w {w'} lines e =
      rules-run_plan r (node_plan rules) w w' (node_plan-AreCommands rules lines)
        (node_plan-IsHarmless rules) (sym (ensure_node-plan rules w) ∙ e)
      ∙ effects-node_plan rules (r.rules w)

  -- When the DNAT rules of a node are set up for the destinations of its containers, the chain holds
  -- one rule for each of their ports, in the order of the ports, and no rule from before.
  pub ensure_destinations-rules :
      (r : Ruleset run node_chain) (u : Unicode) (interface : Bytes)
      (destinations : PortMap DnatDestination) (w : W) {w' : W}
      → is_word (u.quote interface) ≡ true
      → ((p : ℕ) → is_word (DnatDestination.ip (destination_at destinations p)) ≡ true)
      → ensure_destinations run u interface destinations w ≡ (ok tt, w')
      → r.rules w'
        ≡ map
            (λ p. expected_dnat u interface p (destination_at destinations p))
            (sort_ints (ports_of destinations))
  unfolding ensure_destinations expected_dnat dnat_rule
  ensure_destinations-rules r u interface destinations w quoted words e =
      ensure_node-rules r _ w
        (All-map (λ p. dnat_rule u interface p (destination_at destinations p))
          (λ p. dnat_rule-is_line u interface p (destination_at destinations p) quoted (words p))
          (sort_ints (ports_of destinations)))
        e
