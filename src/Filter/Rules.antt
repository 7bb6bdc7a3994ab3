-- ===== src/Filter/Rules.antt =====
-- The chain of the prefilter after `Ensure`, and the order of the addresses.
use sidero_proxy.Base.{
  ℕ, ◌≡◌, refl, sym, ap, ◌∙◌, List, [], ◌∷◌, ◌++◌, ok, Bytes, codes, bytes_eq, bytes_le, true,
  append_assoc, itoa, join_comma, starts_with, strip_prefix, sort_strings, sort_of_perm,
  bytes_le-IsTotalOrder, Bytes-set,
}
use sidero_proxy.Nft.{ScriptRunner}
use sidero_proxy.Nft.Plan.{Script, tolerant_script, strict_script, run_plan}
use sidero_proxy.Base.Members.{elem}
use sidero_proxy.Nft.Command.{
  is_word, is_line, is_command, are_words, is_word-append, is_line-append, is_word-itoa,
  is_word-join_comma, are_words-sort,
}
use mathlib.Core.Path.{fun_ext}
use sidero_proxy.Nft.Ruleset.{
  AreCommands, Ruleset, IsHarmless, harmless, effect, effects, rules-run_plan,
}
use sidero_proxy.Filter.{
  elements_script, ingress_match, rule_script, add_chain_script, block_verdict, limit_verdict,
  drop_verdict, ensure_sorted, ensure,
}
use mathlib.Core.List.{Perm}

abbrev elements_plan : Bytes → List Bytes → List Script
elements_plan set [] = []
elements_plan set (ip ∷ ips) = strict_script (elements_script set (ip ∷ ips)) ∷ []

plan : List Bytes → Bytes → List Script
plan ips match =
    tolerant_script (codes "add table ip mcproxy_filter\n")
    ∷ tolerant_script (codes "add set ip mcproxy_filter public_ips { type ipv4_addr; }\n")
    ∷ tolerant_script (codes "add set ip mcproxy_filter blocklist { type ipv4_addr; }\n")
    ∷ tolerant_script add_chain_script
    ∷ strict_script (codes "flush set ip mcproxy_filter public_ips\n")
    ∷ strict_script (codes "flush chain ip mcproxy_filter prerouting\n")
    ∷ (elements_plan (codes "mcproxy_filter public_ips") ips
        ++ (strict_script (rule_script match block_verdict)
            ∷ strict_script (rule_script match limit_verdict)
            ∷ strict_script (rule_script match drop_verdict)
            ∷ []))

abbrev pub chain : Bytes
chain = codes "ip mcproxy_filter prerouting"

abbrev pub snat_chain : Bytes
snat_chain = codes "ip mcproxy_nat postrouting"

unfoldable pub filter_plan : List Bytes → ℕ → ℕ → List Script
unfolding plan
filter_plan ips start_port end_port = plan (sort_strings ips) (ingress_match start_port end_port)

-- A rule for new connections or all packets to the public addresses, at the ports of a range.
abbrev rule_for_ports : ℕ → ℕ → Bytes → Bytes
rule_for_ports first last verdict =
    codes "ip daddr @public_ips tcp dport " ++ (itoa first ++ (codes "-" ++ (itoa last ++ verdict)))

-- The three rules as nft prints them.
unfoldable pub expected_filter_rules : ℕ → ℕ → List Bytes
expected_filter_rules first last =
    rule_for_ports first last (codes " ip saddr @blocklist drop\n")
    ∷ rule_for_ports first last
        (codes " tcp flags syn limit rate 50/second burst 100 packets accept\n")
    ∷ rule_for_ports first last (codes " tcp flags syn drop\n")
    ∷ []

three_rules :
    (a b : ℕ)
    → let match = ingress_match a b in
      ◌≡◌ {A = List Bytes}
        ((match ++ block_verdict) ∷ (match ++ limit_verdict) ∷ (match ++ drop_verdict) ∷ [])
        (expected_filter_rules a b)
unfolding expected_filter_rules ingress_match
three_rules a b =
    let same : (verdict : Bytes) → ingress_match a b ++ verdict ≡ rule_for_ports a b verdict =
      λ verdict.
        ap (λ t. codes "ip daddr @public_ips tcp dport " ++ t)
          (append_assoc (itoa a) (codes "-" ++ itoa b) verdict) in
    ap (λ t. t block_verdict ∷ t limit_verdict ∷ t drop_verdict ∷ []) (fun_ext same)

is_word-ingress_match : (a b : ℕ) → is_word (ingress_match a b) ≡ true
unfolding ingress_match is_word
is_word-ingress_match a b =
    is_word-append (itoa a) (codes "-" ++ itoa b) (is_word-itoa a) (is_word-itoa b)

rule_script-is_command :
    (match verdict : Bytes)
    → is_word match ≡ true
    → is_line verdict ≡ true
    → is_command (rule_script match verdict) ≡ true
unfolding rule_script is_command elem bytes_eq starts_with is_line
rule_script-is_command match verdict word line = is_line-append match verdict word line

pub elements_line :
    (ips : List Bytes) → are_words ips ≡ true → is_line (join_comma ips ++ codes " }\n") ≡ true
elements_line ips words =
    is_line-append (join_comma ips) (codes " }\n") (is_word-join_comma ips words)
      (unfold is_line in refl)

plan-AreCommands :
    (ips : List Bytes) (match : Bytes)
    → are_words ips ≡ true
    → is_word match ≡ true
    → AreCommands (plan ips match)
unfolding plan is_command elem bytes_eq starts_with is_line elements_script
plan-AreCommands [] match words word = (
  refl,
  (
    refl,
    (
      refl,
      (
        refl,
        (
          refl,
          (
            refl,
            (
              rule_script-is_command match block_verdict word refl,
              (
                rule_script-is_command match limit_verdict word refl,
                (rule_script-is_command match drop_verdict word refl, tt),
              ),
            ),
          ),
        ),
      ),
    ),
  ),
)
plan-AreCommands (ip ∷ ips) match words word = (
  refl,
  (
    refl,
    (
      refl,
      (
        refl,
        (
          refl,
          (
            refl,
            (
              elements_line (ip ∷ ips) words,
              (
                rule_script-is_command match block_verdict word refl,
                (
                  rule_script-is_command match limit_verdict word refl,
                  (rule_script-is_command match drop_verdict word refl, tt),
                ),
              ),
            ),
          ),
        ),
      ),
    ),
  ),
)

pub filter_plan-AreCommands :
    (ips : List Bytes) (a b : ℕ) → are_words ips ≡ true → AreCommands (filter_plan ips a b)
unfolding filter_plan
filter_plan-AreCommands ips a b words =
    plan-AreCommands (sort_strings ips) (ingress_match a b) (are_words-sort ips ∙ words)
      (is_word-ingress_match a b)

module _ {W : Type 0} (run : ScriptRunner W) where
  ensure_sorted-plan :
      (ips : List Bytes) (match : Bytes) (w : W)
      → ensure_sorted run ips match w ≡ run_plan run (plan ips match) w
  unfolding ensure_sorted plan run_plan
  ensure_sorted-plan [] match w = refl
  ensure_sorted-plan (ip ∷ ips) match w = refl

  -- The rules that the plan leaves in the chain, whatever was there before.
  effects-plan :
      (ips : List Bytes) (match : Bytes) (rules : List Bytes)
      → effects chain (plan ips match) rules
        ≡ (match ++ block_verdict) ∷ (match ++ limit_verdict) ∷ (match ++ drop_verdict) ∷ []
  unfolding plan effect rule_script elements_script bytes_eq strip_prefix
  effects-plan [] match rules = refl
  effects-plan (ip ∷ ips) match rules = refl

  plan-IsHarmless : (ips : List Bytes) (match : Bytes) → IsHarmless chain (plan ips match)
  unfolding plan effect bytes_eq strip_prefix
  plan-IsHarmless [] match = search (harmless, tt) depth 12
  plan-IsHarmless (ip ∷ ips) match = search (harmless, tt) depth 12

  -- The scripts of the prefilter do not touch the chain of the SNAT.
  plan-snat_IsHarmless : (ips : List Bytes) (match : Bytes) → IsHarmless snat_chain (plan ips match)
  unfolding plan effect bytes_eq strip_prefix
  plan-snat_IsHarmless [] match = search (harmless, tt) depth 12
  plan-snat_IsHarmless (ip ∷ ips) match = search (harmless, tt) depth 12

  effects-plan-snat :
      (ips : List Bytes) (match : Bytes) (rules : List Bytes)
      → effects snat_chain (plan ips match) rules ≡ rules
  unfolding plan effect rule_script elements_script bytes_eq strip_prefix
  effects-plan-snat [] match rules = refl
  effects-plan-snat (ip ∷ ips) match rules = refl

  pub ensure-plan :
      (ips : List Bytes) (start_port end_port : ℕ) (w : W)
      → ensure run ips start_port end_port w ≡ run_plan run (filter_plan ips start_port end_port) w
  unfolding ensure filter_plan
  ensure-plan ips a b w = ensure_sorted-plan (sort_strings ips) (ingress_match a b) w

  -- When `Ensure` succeeds, the chain of the prefilter holds three rules and no others, whatever it
  -- held before: blocked addresses are dropped first, then new connections within the limit are
  -- accepted, then all other new connections are dropped. Each rule is for the ports from the first to
  -- the last of the range. None of the public addresses holds a line break or a semicolon.
  pub ensure-rules :
      (r : Ruleset run chain) (ips : List Bytes) (start_port end_port : ℕ) (w : W) {w' : W}
      → are_words ips ≡ true
      → ensure run ips start_port end_port w ≡ (ok tt, w')
      → r.rules w' ≡ expected_filter_rules start_port end_port
  unfolding filter_plan expected_filter_rules ingress_match
  ensure-rules r ips a b w {w'} words e =
      let match = ingress_match a b in
      let sorted = sort_strings ips in
      rules-run_plan r (plan sorted match) w w' (filter_plan-AreCommands ips a b words)
        (plan-IsHarmless sorted match) (sym (ensure-plan ips a b w) ∙ e)
      ∙ effects-plan sorted match (r.rules w)
      ∙ three_rules a b

  pub ensure-snat_rules :
      (r : Ruleset run snat_chain) (ips : List Bytes) (start_port end_port : ℕ) (w : W) {w' : W}
      → are_words ips ≡ true
      → ensure run ips start_port end_port w ≡ (ok tt, w')
      → r.rules w' ≡ r.rules w
  unfolding filter_plan
  ensure-snat_rules r ips a b w {w'} words e =
      let match = ingress_match a b in
      let sorted = sort_strings ips in
      rules-run_plan r (plan sorted match) w w' (filter_plan-AreCommands ips a b words)
        (plan-snat_IsHarmless sorted match) (sym (ensure-plan ips a b w) ∙ e)
      ∙ effects-plan-snat sorted match (r.rules w)

  -- The order in which the configuration lists the addresses does not matter.
  pub ensure_of_perm :
      (ips ips' : List Bytes) (start_port end_port : ℕ) (w : W)
      → Perm ips ips'
      → ensure run ips start_port end_port w ≡ ensure run ips' start_port end_port w
  unfolding ensure
  ensure_of_perm ips ips' a b w p =
      ap (λ l. ensure_sorted run l (ingress_match a b) w)
        (sort_of_perm bytes_le bytes_le-IsTotalOrder Bytes-set p)
