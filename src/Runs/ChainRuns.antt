-- ===== src/Runs/ChainRuns.antt =====
-- Runs of the managers of the nft chains, over a ruleset that is a list of rules.
use sidero_proxy.Base.{
  ◌≡◌, refl, true, ◌++◌, List, [], ◌∷◌, map, Bytes, codes, ok, bytes_eq, bytes_le, strip_prefix,
  sort, sort_ints, arith,
}
use sidero_proxy.Base.Ports.{PortMap, ports_of}
use sidero_proxy.Base.Integers.{pos}
use sidero_proxy.Nft.{ScriptRunner}
use sidero_proxy.Nft.Command.{is_word, are_words}
use sidero_proxy.Nft.Ruleset.{Ruleset, effect}
use sidero_proxy.Filter.{
  ensure, ensure_sorted, ingress_match, rule_script, elements_script, block_verdict, limit_verdict,
  drop_verdict,
}
use sidero_proxy.Filter.Rules.{chain, expected_filter_rules, ensure-rules}
use sidero_proxy.Nat.Chains.{
  DnatDestination, destination_at, redirect_rule, redirect_script, dnat_rule, dnat_script,
  ensure_redirect, ensure_redirect_sorted, ensure_destinations, ensure_node, add_dnat_rules,
}
use sidero_proxy.Nat.Chains.Rules.{intercept_chain, node_chain}
use sidero_proxy.Runs.{plain_unicode}

abbrev list_runner : Bytes → ScriptRunner (List Bytes)
list_runner c text rules = (ok tt, effect c text rules)

list_ruleset : (c : Bytes) → Ruleset (list_runner c) c
list_ruleset c = record {
  rules = λ w. w;
  rules-run = λ text w _ e. ground arith;
  rules-run_failed = λ text w _ e. absurd (ground arith);
}

abbrev two_ips : List Bytes
two_ips = codes "198.51.100.9" ∷ codes "198.51.100.10" ∷ []

abbrev old_rules : List Bytes
old_rules = codes "drop\n" ∷ []

-- The rules of the prefilter for the ports 25565 to 25600.
abbrev filter_rules : List Bytes
filter_rules =
    let match = ingress_match 25565 25600 in
    (match ++ block_verdict) ∷ (match ++ limit_verdict) ∷ (match ++ drop_verdict) ∷ []

filter_run : ensure (list_runner chain) two_ips 25565 25600 old_rules ≡ (ok tt, filter_rules)
unfolding ensure ensure_sorted rule_script elements_script effect strip_prefix bytes_eq sort
    bytes_le
filter_run = refl

two_words : are_words two_ips ≡ true
unfolding are_words is_word
two_words = refl

ensure-rules_example : filter_rules ≡ expected_filter_rules 25565 25600
unfolding list_ruleset
ensure-rules_example =
    ensure-rules (list_runner chain) (list_ruleset chain) two_ips 25565 25600 old_rules two_words
      filter_run

redirect_run :
    ensure_redirect (list_runner intercept_chain) two_ips 25565 25600 25500 old_rules
    ≡ (ok tt, redirect_rule 25565 25600 25500 ∷ [])
unfolding ensure_redirect ensure_redirect_sorted redirect_script elements_script effect strip_prefix
    bytes_eq sort bytes_le
redirect_run = refl

abbrev two_destinations : PortMap DnatDestination
two_destinations =
    (25566, record { ip = codes "172.17.0.3"; port = pos 25565 })
    ∷ (25565, record { ip = codes "172.17.0.2"; port = pos 25565 })
    ∷ []

abbrev node_rules : List Bytes
node_rules =
    map (λ p. dnat_rule plain_unicode (codes "tailscale0") p (destination_at two_destinations p))
      (sort_ints (ports_of two_destinations))

destinations_run :
    ensure_destinations
      (list_runner node_chain)
      plain_unicode
      (codes "tailscale0")
      two_destinations
      old_rules
    ≡ (ok tt, node_rules)
unfolding ensure_destinations ensure_node add_dnat_rules dnat_script effect strip_prefix bytes_eq
    sort
destinations_run = refl
