-- ===== src/Watcher/Node/Ensured.antt =====
-- What a successful run leaves in nftables and iptables, for what the resolver found.
use sidero_proxy.Base.{
  ℕ, ◌≡◌, refl, sym, ap, ◌∙◌, true, some, List, [], ◌∷◌, map, Result, ok, err, Action,
  continue_with, continue_ok, ◌>>◌, Bytes, Unicode, sort_ints, sort_strings,
}
use sidero_proxy.Base.Ports.{ports_of}
use sidero_proxy.Nft.{Error, tolerating, ScriptRunner}
use sidero_proxy.Nft.Command.{is_word}
use sidero_proxy.Nft.Ruleset.{Ruleset}
use sidero_proxy.Nat.Chains.{DnatDestination, destination_at, ensure_destinations}
use sidero_proxy.Nat.Chains.Rules.{node_chain, expected_dnat, ensure_destinations-rules}
use sidero_proxy.Watcher.NoSnat.{
  IptablesRunner, accept_rule, new_chain_args, check_jump_args, insert_jump_args, flush_args,
  append_args, ignore_iptables_exists, jump_or_insert, ensure_jump, append_accepts,
  ensure_no_snat_sorted, ensure_no_snat,
}
use sidero_proxy.Watcher.NoSnat.Rules.{Iptables, expected_accept, ensure_no_snat-rules}
use sidero_proxy.Watcher.Docker.{ResolvedState}
use sidero_proxy.Watcher.Node.{NodeDnat, ensure_exempt, ensure_resolved, ensure_node_dnat}

-- Actions that leave what `f` reads of the world as it is.
module _ {W B : Type 0} (f : W → B) where
  Leaves : Action W Error (Unit {0}) → Type 0
  Leaves m = (w : W) → f ((m w).1) ≡ f w

  Leaves-continue :
      (m : Action W Error (Unit {0})) (r : Result Error (Unit {0}) × W) (w : W)
      → f (r.1) ≡ f w
      → Leaves m
      → f ((continue_with (λ _. m) r).1) ≡ f w
  unfolding Leaves
  Leaves-continue m (ok x, v) w h leaves = leaves v ∙ h
  Leaves-continue m (err e, v) w h leaves = h

  module _ (run : IptablesRunner W)
      (apart : (args : List Bytes) (w : W) → f ((run args w).1) ≡ f w) where
    Leaves-jump_or_insert :
        (r : Result Error (Unit {0}) × W) (w : W)
        → f (r.1) ≡ f w
        → f ((jump_or_insert run r).1) ≡ f w
    Leaves-jump_or_insert (ok x, v) w h = h
    Leaves-jump_or_insert (err e, v) w h = apart insert_jump_args v ∙ h

    append_accepts-Leaves : (subnets : List Bytes) → Leaves (append_accepts run subnets)
    unfolding append_accepts Leaves
    append_accepts-Leaves [] w = refl
    append_accepts-Leaves (subnet ∷ subnets) w =
        Leaves-continue (append_accepts run subnets) (run (append_args (accept_rule subnet)) w) w
          (apart (append_args (accept_rule subnet)) w) (append_accepts-Leaves subnets)

    ensure_no_snat-Leaves : (subnets : List Bytes) → Leaves (ensure_no_snat run subnets)
    unfolding ensure_no_snat ensure_no_snat_sorted ensure_jump Leaves
    ensure_no_snat-Leaves subnets w =
        Leaves-continue
          (ensure_jump run >> (run flush_args >> append_accepts run (sort_strings subnets)))
          (tolerating ignore_iptables_exists (run new_chain_args) w) w (apart new_chain_args w)
          (λ v.
            Leaves-continue (run flush_args >> append_accepts run (sort_strings subnets))
              (jump_or_insert run (run check_jump_args v)) v
              (Leaves-jump_or_insert (run check_jump_args v) v (apart check_jump_args v))
              (λ x.
                Leaves-continue (append_accepts run (sort_strings subnets)) (run flush_args x) x
                  (apart flush_args x) (append_accepts-Leaves (sort_strings subnets))))

module _ {W : Type 0} (run : ScriptRunner W) (r : Ruleset run node_chain)
    (run_iptables : IptablesRunner W) (tables : Iptables run_iptables)
    (apart : (args : List Bytes) (w : W) → r.rules ((run_iptables args w).1) ≡ r.rules w) where
  -- When `ensureNodeDNAT` succeeds on what the resolver finds, the node's chain of nftables holds one
  -- rule for each port of the destinations and nothing from before, which sends what comes in through
  -- the interface at that port to its container; the chain of iptables accepts exactly what goes from
  -- 10.0.0.0/8 to each of the bridges' subnets, and POSTROUTING jumps to it. The quoted interface and
  -- the addresses of the containers hold no line break or semicolon, and calls of iptables leave the
  -- table `mcproxy_node` of nftables alone.
  pub ensure_node_dnat-rules :
      (u : Unicode) (cfg : NodeDnat) (resolve : Action W Error ResolvedState) (w w' : W)
      → is_word (u.quote (NodeDnat.tailscale_interface cfg)) ≡ true
      → ((state : ResolvedState)
          → resolve w ≡ (ok state, (resolve w).1)
          → (p : ℕ)
          → is_word (DnatDestination.ip (destination_at (ResolvedState.destinations state) p))
            ≡ true)
      → ensure_node_dnat run (some run_iptables) u cfg (some resolve) w ≡ (ok tt, w')
      → (state : ResolvedState) × (resolve w ≡ (ok state, (resolve w).1))
        × (r.rules w'
            ≡ map
                (λ p.
                  expected_dnat u
                    (NodeDnat.tailscale_interface cfg)
                    p
                    (destination_at (ResolvedState.destinations state) p))
                (sort_ints (ports_of (ResolvedState.destinations state))))
        × (tables.rules w'
            ≡ map expected_accept (sort_strings (ResolvedState.bridge_subnets state)))
        × (tables.has_jump w' ≡ true)
  unfolding ensure_node_dnat ensure_exempt Leaves
  ensure_node_dnat-rules u cfg resolve w w' quoted words h =
      let (state, resolved, h₁) =
        continue_ok (ensure_resolved run (some run_iptables) u cfg) (resolve w) tt w' h in
      let subnets = ResolvedState.bridge_subnets state in
      let sent =
        ensure_destinations run u (NodeDnat.tailscale_interface cfg)
          (ResolvedState.destinations state) ((resolve w).1) in
      let (x, dnat_ok, exempt_ok) =
        continue_ok (λ _. ensure_no_snat run_iptables subnets) sent tt w' h₁ in
      let (accepts, jumps) =
        ensure_no_snat-rules run_iptables tables subnets (sent.1) w' exempt_ok in
      (
        state,
        resolved,
        ap (λ t. r.rules (t.1)) (sym exempt_ok)
            ∙ ensure_no_snat-Leaves r.rules run_iptables apart subnets (sent.1)
            ∙ ensure_destinations-rules run r u (NodeDnat.tailscale_interface cfg)
                (ResolvedState.destinations state) ((resolve w).1) quoted (words state resolved)
                dnat_ok,
        accepts,
        jumps,
      )
