-- ===== src/Nat/Chains.antt =====
-- internal/nat/nat.go, the nft scripts of the three managers: the SNAT chain, the redirection of a
-- proxy's public addresses, and the DNAT rules of a backend node.
pub mod Rules
pub mod Snat
use sidero_proxy.Base.{
  ℕ, zero, suc, ◌+◌, ◌-◌, Option, none, some, List, [], ◌∷◌, ◌++◌, map, Result, ok, err, Action,
  pure, continue_with, ◌>>=◌, ◌>>◌, Bytes, codes, itoa, Unicode, sort_strings, sort_ints,
}
use sidero_proxy.Base.Ports.{PortMap, at_port, ports_of}
use sidero_proxy.Base.Integers.{ℤ, pos, itoa_int}
use sidero_proxy.Nft.{Error, ScriptRunner, ignore_already_exists, tolerating}
use sidero_proxy.Filter.{add_elements}

abbrev pub add_nat_chain_script : Bytes
add_nat_chain_script =
    codes "add chain ip mcproxy_nat postrouting { type nat hook postrouting priority srcnat; }\n"

abbrev pub add_map_script : Bytes
add_map_script = codes "add map ip mcproxy_nat nat_map { type ipv4_addr : ipv4_addr; }\n"

abbrev pub add_intercept_chain_script : Bytes
add_intercept_chain_script =
    codes
      "add chain ip mcproxy_intercept prerouting { type nat hook prerouting priority dstnat; }\n"

abbrev pub add_node_chain_script : Bytes
add_node_chain_script =
    codes "add chain ip mcproxy_node prerouting { type nat hook prerouting priority dstnat; }\n"

pub record DnatDestination : Type 0 where
  pub ip : Bytes
  pub port : ℤ

-- `add rule … ip daddr @public_ips tcp dport %d-%d redirect to :%d`
unfoldable pub redirect_rule : ℕ → ℕ → ℕ → Bytes
redirect_rule start_port end_port intercept_port =
    codes "ip daddr @public_ips tcp dport "
    ++ (itoa start_port
        ++ (codes "-"
            ++ (itoa end_port ++ (codes " redirect to :" ++ (itoa intercept_port ++ codes "\n")))))

unfoldable pub redirect_script : Bytes → Bytes
redirect_script rule = codes "add rule ip mcproxy_intercept prerouting " ++ rule

-- `add rule … iifname %q tcp dport %d dnat to %s:%d`
unfoldable pub dnat_rule : Unicode → Bytes → ℕ → DnatDestination → Bytes
dnat_rule u interface port dst =
    codes "iifname "
    ++ (u.quote interface
        ++ (codes " tcp dport "
            ++ (itoa port
                ++ (codes " dnat to "
                    ++ (dst.ip ++ (codes ":" ++ (itoa_int dst.port ++ codes "\n")))))))

unfoldable pub dnat_script : Bytes → Bytes
dnat_script rule = codes "add rule ip mcproxy_node prerouting " ++ rule

-- The ports from `start` on, `count` of them.
unfoldable pub ports_from : ℕ → ℕ → List ℕ
ports_from start zero = []
ports_from start (suc count) = start ∷ ports_from (start + 1) count

-- A destination that is missing from a Go map is the zero value.
abbrev pub destination_at : PortMap DnatDestination → ℕ → DnatDestination
destination_at m port = elim (at_port port m) [
  | none ↦ record { ip = []; port = pos 0 }
  | some dst ↦ dst
]

module _ {W : Type 0} (run : ScriptRunner W) where
  -- `NATManager.Ensure`
  unfoldable pub ensure_nat : Action W Error (Unit {0})
  ensure_nat = do
    tolerating ignore_already_exists (run (codes "add table ip mcproxy_nat\n"))
    tolerating ignore_already_exists (run add_nat_chain_script)
    tolerating ignore_already_exists (run add_map_script)
    run (codes "flush chain ip mcproxy_nat postrouting\n")
    run (codes "add rule ip mcproxy_nat postrouting snat to ip saddr map @nat_map\n")

  -- `ProxyRedirectManager.Ensure`, behind the sorting of its copy of the addresses.
  unfoldable pub ensure_redirect_sorted : List Bytes → Bytes → Action W Error (Unit {0})
  ensure_redirect_sorted ips rule = do
    tolerating ignore_already_exists (run (codes "add table ip mcproxy_intercept\n"))
    tolerating ignore_already_exists
        (run (codes "add set ip mcproxy_intercept public_ips { type ipv4_addr; }\n"))
    tolerating ignore_already_exists (run add_intercept_chain_script)
    run (codes "flush set ip mcproxy_intercept public_ips\n")
    run (codes "flush chain ip mcproxy_intercept prerouting\n")
    add_elements run (codes "mcproxy_intercept public_ips") ips
    run (redirect_script rule)

  unfoldable pub ensure_redirect : List Bytes → ℕ → ℕ → ℕ → Action W Error (Unit {0})
  ensure_redirect public_ips start_port end_port intercept_port =
      ensure_redirect_sorted (sort_strings public_ips)
        (redirect_rule start_port end_port intercept_port)

  -- The loop over the ports, each with its rule.
  unfoldable pub add_dnat_rules : List Bytes → Action W Error (Unit {0})
  add_dnat_rules [] w = (ok tt, w)
  add_dnat_rules (rule ∷ rules) w =
      continue_with (λ _. add_dnat_rules rules) (run (dnat_script rule) w)

  unfoldable pub ensure_node : List Bytes → Action W Error (Unit {0})
  ensure_node rules = do
    tolerating ignore_already_exists (run (codes "add table ip mcproxy_node\n"))
    tolerating ignore_already_exists (run add_node_chain_script)
    run (codes "flush chain ip mcproxy_node prerouting\n")
    add_dnat_rules rules

  -- `NodeDNATManager.Ensure`
  unfoldable pub ensure_ports : Unicode → Bytes → Bytes → List ℕ → Action W Error (Unit {0})
  ensure_ports u public_ip interface ports =
      let rule = λ (p : ℕ). dnat_rule u interface p (record { ip = public_ip; port = pos p }) in
      ensure_node (map rule (sort_ints ports))

  -- `for port := startPort; port <= endPort; port++`: none if the range is empty.
  unfoldable pub ensure_range : Unicode → Bytes → Bytes → ℕ → ℕ → Action W Error (Unit {0})
  ensure_range u public_ip interface start_port end_port =
      ensure_ports u public_ip interface (ports_from start_port (end_port + 1 - start_port))

  -- `NodeDNATManager.EnsureDestinations`
  unfoldable pub ensure_destinations :
      Unicode → Bytes → PortMap DnatDestination → Action W Error (Unit {0})
  ensure_destinations u interface destinations =
      let rule = λ (p : ℕ). dnat_rule u interface p (destination_at destinations p) in
      ensure_node (map rule (sort_ints (ports_of destinations)))
