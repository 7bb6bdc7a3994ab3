-- ===== src/Runs/WatcherRuns.antt =====
-- Runs of the watcher's rules, and of the resolver's choices for containers.
use sidero_proxy.Watcher.Events.{
  DockerEvent, Triggers, arrived, failed, taken, IsContainerChange, run_events, run_events-waiting,
}
use mathlib.Core.List.{Memᴰ}
use sidero_proxy.Base.{
  ℕ, none, ◌≡◌, refl, true, false, Bool-cases, inl, inr, ◌==◌, subst, arith, some, List, [], ◌∷◌,
  map, Result, ok, Action, Bytes, codes, bytes_eq, bytes_le, strip_prefix, sort, sort_strings,
  sort_ints,
}
use sidero_proxy.Base.Dict.{Dict}
use sidero_proxy.Base.Ports.{PortMap, at_port, ports_of}
use sidero_proxy.Base.Integers.{pos}
use sidero_proxy.Nft.{Error}
use sidero_proxy.Nft.Command.{is_word}
use sidero_proxy.Nft.Ruleset.{effect}
use sidero_proxy.Nat.Chains.Rules.{expected_dnat}
use sidero_proxy.Nat.Chains.{
  DnatDestination, dnat_rule, dnat_script, destination_at, ensure_destinations, ensure_node,
  add_dnat_rules,
}
use sidero_proxy.Watcher.NoSnat.{
  check_jump_args, ensure_jump, append_accepts, ensure_no_snat_sorted, ensure_no_snat,
}
use sidero_proxy.Watcher.NoSnat.Rules.{expected_accept, ensure_no_snat-rules}
use sidero_proxy.Watcher.Docker.{Container, Resolver, ResolvedState}
use sidero_proxy.Watcher.Node.{NodeDnat, ensure_node_dnat, ensure_exempt}
use sidero_proxy.Watcher.Node.Ensured.{ensure_node_dnat-rules}
use sidero_proxy.Runs.{plain_unicode}
use sidero_proxy.Runs.Iptables.{
  Tables, strip_args, rules_effect, jump_effect, run_nft, node_rules, run_iptables, tables, apart,
}

abbrev two_subnets : List Bytes
two_subnets = codes "172.18.0.0/16" ∷ codes "172.17.0.0/16" ∷ []

abbrev old_tables : Tables
old_tables = record {
  nft_rules = codes "drop\n" ∷ [];
  rules = (codes "-j" ∷ codes "DROP" ∷ []) ∷ [];
  jump = false;
}

abbrev new_rules : List (List Bytes)
new_rules = map expected_accept (sort_strings two_subnets)

exempts :
    ensure_no_snat run_iptables two_subnets old_tables
    ≡ (ok tt, record { nft_rules = codes "drop\n" ∷ []; rules = new_rules; jump = true })
unfolding ensure_no_snat ensure_no_snat_sorted ensure_jump append_accepts strip_args rules_effect
    jump_effect bytes_eq sort bytes_le
exempts = refl

ensure_no_snat-rules_example : (new_rules ≡ new_rules) × (true ≡ true)
unfolding tables
ensure_no_snat-rules_example =
    ensure_no_snat-rules run_iptables tables two_subnets old_tables
      (record { nft_rules = codes "drop\n" ∷ []; rules = new_rules; jump = true }) exempts

abbrev two_destinations : PortMap DnatDestination
two_destinations =
    (25566, record { ip = codes "172.17.0.3"; port = pos 25565 })
    ∷ (25565, record { ip = codes "172.17.0.2"; port = pos 25565 })
    ∷ []

abbrev resolved : ResolvedState
resolved = record { destinations = two_destinations; bridge_subnets = two_subnets }

abbrev find_containers : Action Tables Error ResolvedState
find_containers w = (ok resolved, w)

abbrev node_settings : NodeDnat
node_settings = record {
  public_ip = codes "203.0.113.1";
  tailscale_interface = codes "tailscale0";
  start_port = 25565;
  end_port = 25600;
}

abbrev dnat_rules : List Bytes
dnat_rules =
    map (λ p. dnat_rule plain_unicode (codes "tailscale0") p (destination_at two_destinations p))
      (sort_ints (ports_of two_destinations))

abbrev ensured : Tables
ensured = record { nft_rules = dnat_rules; rules = new_rules; jump = true }

ensures :
    ensure_node_dnat run_nft
      (some run_iptables)
      plain_unicode
      node_settings
      (some find_containers)
      old_tables
    ≡ (ok tt, ensured)
unfolding ensure_node_dnat ensure_exempt ensure_destinations ensure_node add_dnat_rules dnat_script
    effect strip_prefix ensure_no_snat ensure_no_snat_sorted ensure_jump append_accepts strip_args
    rules_effect jump_effect bytes_eq sort bytes_le
ensures = refl

quoted_word : is_word (plain_unicode.quote (codes "tailscale0")) ≡ true
unfolding is_word
quoted_word = refl

plain_destinations :
    (p : ℕ) → is_word (DnatDestination.ip (destination_at two_destinations p)) ≡ true
unfolding is_word at_port
plain_destinations p = elim (Bool-cases (25566 == p)) [
  | inl e ↦ ground (arith, e)
  | inr e ↦ elim (Bool-cases (25565 == p)) [
    | inl e' ↦ ground (arith, e, e')
    | inr e' ↦ ground (arith, e, e')
  ]
]

plain_addresses :
    (state : ResolvedState)
    → find_containers old_tables ≡ (ok state, old_tables)
    → (p : ℕ)
    → is_word (DnatDestination.ip (destination_at (ResolvedState.destinations state) p)) ≡ true
plain_addresses state e p =
    let same : resolved ≡ state = ground (arith, e) in
    subst
      (λ s. is_word (DnatDestination.ip (destination_at (ResolvedState.destinations s) p)) ≡ true)
      same (plain_destinations p)

ensure_node_dnat-rules_example :
    (state : ResolvedState) × (◌≡◌ {A = Result Error ResolvedState × Tables}
      (ok resolved, old_tables)
      (ok state, old_tables))
    × (dnat_rules
        ≡ map
            (λ p.
              expected_dnat plain_unicode
                (codes "tailscale0")
                p
                (destination_at (ResolvedState.destinations state) p))
            (sort_ints (ports_of (ResolvedState.destinations state))))
    × (new_rules ≡ map expected_accept (sort_strings (ResolvedState.bridge_subnets state)))
    × (true ≡ true)
unfolding tables node_rules expected_dnat
ensure_node_dnat-rules_example =
    ensure_node_dnat-rules run_nft node_rules run_iptables tables
      (λ args w. apart (strip_args check_jump_args args) args w) plain_unicode node_settings
      find_containers old_tables ensured quoted_word plain_addresses ensures

abbrev bridge : Dict Bytes
bridge = (codes "bridge", codes "172.17.0.2") ∷ (codes "lan", codes "172.18.0.2") ∷ []

abbrev resolver : Resolver
resolver = record {
  public_ip = codes "203.0.113.1";
  docker_network = codes "pelican";
  start_port = 25565;
  end_port = 25600;
}

abbrev server : Container
server = record {
  networks = bridge;
  ports =
      (
        codes "25565/tcp",
        record { host_ip = codes "203.0.113.1"; host_port = codes "25570" }
            ∷ record { host_ip = codes "127.0.0.1"; host_port = codes "25571" }
            ∷ [],
      )
      ∷ [];
}

abbrev died : DockerEvent
died = record { event_type = codes "container"; action = codes "die" }

abbrev unnoticed : Triggers
unnoticed = record { waiting = false; closed = false; error = none }

matters : IsContainerChange died
matters = (refl, Memᴰ.tail (Memᴰ.tail (Memᴰ.head refl)))

-- A trigger is taken, a container dies, and the stream breaks off.
run_events-waiting_example :
    Triggers.waiting
      (run_events (arrived died ∷ taken ∷ arrived died ∷ failed false (codes "EOF") ∷ []) unnoticed)
    ≡ true
unfolding run_events
run_events-waiting_example =
    run_events-waiting (arrived died ∷ taken ∷ []) (failed false (codes "EOF") ∷ []) died unnoticed
      refl matters (tt, tt)
