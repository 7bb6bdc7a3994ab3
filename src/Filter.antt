-- ===== src/Filter.antt =====
-- internal/filter/filter.go: the prefilter of a proxy, a chain that drops blocked addresses and limits
-- new connections. The mutex makes each operation one step.
pub mod Rules
use sidero_proxy.Base.{
  ℕ, List, [], ◌∷◌, ◌++◌, Result, ok, err, Action, pure, continue_with, ◌>>=◌, ◌>>◌, Bytes, codes,
  itoa, join_comma, sort_strings,
}
use sidero_proxy.Nft.{Error, ScriptRunner, ignore_already_exists, ignore_missing, tolerating}

-- The script that puts the addresses into the set of the table: one element for each.
unfoldable pub elements_script : Bytes → List Bytes → Bytes
elements_script set ips =
    codes "add element ip " ++ (set ++ (codes " { " ++ (join_comma ips ++ codes " }\n")))

-- The part that the three rules share: `tcp dport %d-%d`.
unfoldable pub ingress_match : ℕ → ℕ → Bytes
ingress_match start_port end_port =
    codes "ip daddr @public_ips tcp dport " ++ (itoa start_port ++ (codes "-" ++ itoa end_port))

unfoldable pub rule_script : Bytes → Bytes → Bytes
rule_script match verdict = codes "add rule ip mcproxy_filter prerouting " ++ (match ++ verdict)

abbrev pub add_chain_script : Bytes
add_chain_script =
    codes "add chain ip mcproxy_filter prerouting { type filter hook prerouting priority -150; }\n"

abbrev pub block_verdict : Bytes
block_verdict = codes " ip saddr @blocklist drop\n"

abbrev pub limit_verdict : Bytes
limit_verdict = codes " tcp flags syn limit rate 50/second burst 100 packets accept\n"

abbrev pub drop_verdict : Bytes
drop_verdict = codes " tcp flags syn drop\n"

module _ {W : Type 0} (run : ScriptRunner W) where
  -- `if len(ips) > 0 { … }`
  abbrev pub add_elements : Bytes → List Bytes → Action W Error (Unit {0})
  add_elements set [] = pure tt
  add_elements set (ip ∷ ips) = run (elements_script set (ip ∷ ips))

  -- `Ensure` behind the sorting of its copy of the addresses.
  unfoldable pub ensure_sorted : List Bytes → Bytes → Action W Error (Unit {0})
  ensure_sorted ips match = do
    tolerating ignore_already_exists (run (codes "add table ip mcproxy_filter\n"))
    tolerating ignore_already_exists
        (run (codes "add set ip mcproxy_filter public_ips { type ipv4_addr; }\n"))
    tolerating ignore_already_exists
        (run (codes "add set ip mcproxy_filter blocklist { type ipv4_addr; }\n"))
    tolerating ignore_already_exists (run add_chain_script)
    run (codes "flush set ip mcproxy_filter public_ips\n")
    run (codes "flush chain ip mcproxy_filter prerouting\n")
    add_elements (codes "mcproxy_filter public_ips") ips
    run (rule_script match block_verdict)
    run (rule_script match limit_verdict)
    run (rule_script match drop_verdict)

  unfoldable pub ensure : List Bytes → ℕ → ℕ → Action W Error (Unit {0})
  ensure public_ips start_port end_port =
      ensure_sorted (sort_strings public_ips) (ingress_match start_port end_port)

  unfoldable pub block : Bytes → Action W Error (Unit {0})
  block ip = run (codes "add element ip mcproxy_filter blocklist { " ++ (ip ++ codes " }\n"))

  unfoldable pub unblock : Bytes → Action W Error (Unit {0})
  unblock ip =
      tolerating ignore_missing
        (run (codes "delete element ip mcproxy_filter blocklist { " ++ (ip ++ codes " }\n")))
