-- ===== src/Start/Prepared.antt =====
-- What the machine and the registry hold once the proxy is ready to accept connections.
use sidero_proxy.Base.{
  ℕ, ◌≡◌, refl, sym, ap, ◌∙◌, subst, Bool, true, List, [], ◌∷◌, ◌++◌, Result, ok, err, Action, pure,
  continue_with, prefixed, with_prefix, with_prefix_ok, ◌>>=◌, ◌>>◌, Bytes, codes, Unicode, Ipv6,
  arith,
}
use sidero_proxy.Nft.{Error, ScriptRunner}
use sidero_proxy.Nft.Command.{is_command, are_words}
use sidero_proxy.Nft.Plan.{Script, run_plan}
use sidero_proxy.Nft.Ruleset.{Ruleset, AreCommands, run_plan-kept}
use sidero_proxy.Nat.Chains.{ensure_nat, ensure_redirect}
use sidero_proxy.Nat.Chains.Rules.{
  intercept_chain, expected_redirect, full_redirect_plan, full_redirect_plan-AreCommands,
  ensure_redirect-plan, ensure_redirect-rules, ensure_redirect-filter_rules,
  ensure_redirect-snat_rules,
}
use sidero_proxy.Nat.Chains.Snat.{nat_plan, nat_plan-AreCommands, ensure_nat-plan, ensure_nat-rules}
use sidero_proxy.Filter.{ensure}
use sidero_proxy.Filter.Rules.{
  chain, snat_chain, expected_filter_rules, filter_plan, filter_plan-AreCommands, ensure-plan,
  ensure-rules, ensure-snat_rules,
}
use sidero_proxy.Redis.{Redis, Client}
use sidero_proxy.Registration.{ProxyInfo, InfoJson, register}
use sidero_proxy.Config.{PortRange, ProxyConfig}
use sidero_proxy.Start.{
  CommandRunner, ensure_local_subnet, public_ips, port_number, on_redis, on_machine, with_machine,
  with_redis, ping, prepare_machine, start_proxy,
}

-- The routing table `local`, for an `ip` that works as its manual says; the managers' commands of nft
-- do not touch it.
pub record Routes {W : Type 0} (run : ScriptRunner W) (commands : CommandRunner W) : Type 0 where
  pub has_route : Bytes → W → Bool
  pub replaced :
      (subnet : Bytes) (w : W) {w' : W}
      → commands
          (codes "ip")
          (codes "route" ∷ codes "replace" ∷ codes "local" ∷ subnet ∷ codes "dev" ∷ codes "lo" ∷ [])
          w
        ≡ (ok tt, w')
      → has_route subnet w' ≡ true
  pub kept :
      (subnet text : Bytes) (w : W)
      → is_command text ≡ true
      → has_route subnet ((run text w).1) ≡ has_route subnet w

-- A step whose error is wrapped, in a chain that succeeds.
prefixed_step :
    {W : Type 0} (prefix : Bytes) (r : Result Error (Unit {0}) × W)
    (rest : Action W Error (Unit {0})) (w' : W)
    → continue_with (λ _. rest) (with_prefix prefix r) ≡ (ok tt, w')
    → (v : W) × (r ≡ (ok tt, v)) × (rest v ≡ (ok tt, w'))
prefixed_step prefix (ok x, v) rest w' h = (v, refl, h)
prefixed_step prefix (err e, v) rest w' h = absurd (ground arith)

-- A step on one of the two states, in a chain on both that succeeds.
redis_step :
    {R W A B : Type 0} (r : Result Error A × R) (rest : A → Action (R × W) Error B) (w : W)
    (end : R × W) (b : B)
    → continue_with rest (with_machine w r) ≡ (ok b, end)
    → (a : A) × (t : R) × (r ≡ (ok a, t)) × (rest a (t, w) ≡ (ok b, end))
redis_step (ok a, t) rest w end b h = (a, t, refl, h)
redis_step (err e, t) rest w end b h = absurd (ground arith)

machine_step :
    {R W B : Type 0} (r : Result Error (Unit {0}) × W) (rest : Action (R × W) Error B) (s : R)
    (end : R × W) (b : B)
    → continue_with (λ (_ : Unit {0}). rest) (with_redis s r) ≡ (ok b, end)
    → (v : W) × (r ≡ (ok tt, v)) × (rest (s, v) ≡ (ok b, end))
machine_step (ok x, v) rest s end b h = (v, refl, h)
machine_step (err e, v) rest s end b h = absurd (ground arith)

ok_value :
    {S A : Type 0} {a b : A} {v v' : S} → ◌≡◌ {A = Result Error A × S} (ok a, v) (ok b, v') → a ≡ b
ok_value h = ground (arith, h)

module _ {W : Type 0} (run : ScriptRunner W) (commands : CommandRunner W)
    (filter : Ruleset run chain) (intercept : Ruleset run intercept_chain)
    (snat : Ruleset run snat_chain) (routes : Routes run commands) where
  -- The route of the proxy's subnet is there, and the three chains hold what the settings ask for: the
  -- rule of the SNAT map, the three rules of the prefilter, and the redirection to the port of the
  -- router, both for the ports from the first to the last of the range.
  abbrev pub IsPrepared : ProxyConfig → Bytes → W → Type 0
  IsPrepared cfg subnet w =
      let first = port_number (PortRange.start cfg.port_range) in
      let last = port_number (PortRange.end cfg.port_range) in
      (routes.has_route subnet w ≡ true)
      × (snat.rules w ≡ codes "snat to ip saddr map @nat_map\n" ∷ [])
      × (filter.rules w ≡ expected_filter_rules first last)
      × (intercept.rules w ≡ expected_redirect first last (port_number cfg.intercept_port) ∷ [])

  route-kept :
      (subnet : Bytes) (plan : List Script) (m : Result Error (Unit {0}) × W) (w w' : W)
      → AreCommands plan
      → m ≡ run_plan run plan w
      → m ≡ (ok tt, w')
      → routes.has_route subnet w' ≡ routes.has_route subnet w
  route-kept subnet plan m w w' commands_only same done =
      ap (λ r. routes.has_route subnet (r.1)) (sym done ∙ same)
      ∙ run_plan-kept run (routes.has_route subnet) (routes.kept subnet) plan w commands_only

  prepare_machine-IsPrepared :
      (cfg : ProxyConfig) (subnet : Bytes) (w w' : W)
      → are_words (public_ips cfg.servers) ≡ true
      → prepare_machine run commands cfg subnet w ≡ (ok tt, w')
      → IsPrepared cfg subnet w'
  unfolding prepare_machine ensure_local_subnet
  prepare_machine-IsPrepared cfg subnet w w' words h =
      let ips = public_ips cfg.servers in
      let first = port_number (PortRange.start cfg.port_range) in
      let last = port_number (PortRange.end cfg.port_range) in
      let redirect : Action W Error (Unit {0}) =
        prefixed (codes "ensure proxy redirect rules: ")
          (ensure_redirect run ips first last (port_number cfg.intercept_port)) in
      let prefilter : Action W Error (Unit {0}) =
        prefixed (codes "ensure proxy prefilter rules: ") (ensure run ips first last) in
      let nat : Action W Error (Unit {0}) =
        prefixed (codes "ensure nftables nat rules: ") (ensure_nat run) in
      let (w₁, routed, h₁) =
        prefixed_step (codes "ensure local route for " ++ (subnet ++ codes ": "))
          (ensure_local_subnet commands subnet w) (nat >> (prefilter >> redirect)) w' h in
      let (w₂, nat_done, h₂) =
        prefixed_step (codes "ensure nftables nat rules: ") (ensure_nat run w₁)
          (prefilter >> redirect) w' h₁ in
      let (w₃, filtered, h₃) =
        prefixed_step (codes "ensure proxy prefilter rules: ") (ensure run ips first last w₂)
          redirect w' h₂ in
      let redirected =
        with_prefix_ok (codes "ensure proxy redirect rules: ")
          (ensure_redirect run ips first last (port_number cfg.intercept_port) w₃) tt w' h₃ in
      let port = port_number cfg.intercept_port in
      (
        route-kept subnet (full_redirect_plan run ips first last port) _ w₃ w'
              (full_redirect_plan-AreCommands run ips first last port words)
              (ensure_redirect-plan run ips first last port w₃) redirected
            ∙ route-kept subnet (filter_plan ips first last) _ w₂ w₃
                (filter_plan-AreCommands ips first last words) (ensure-plan run ips first last w₂)
                filtered
            ∙ route-kept subnet nat_plan _ w₁ w₂ nat_plan-AreCommands (ensure_nat-plan run w₁)
                nat_done
            ∙ routes.replaced subnet w routed,
        ensure_redirect-snat_rules run snat ips first last port w₃ words redirected
            ∙ ensure-snat_rules run snat ips first last w₂ words filtered
            ∙ ensure_nat-rules run snat w₁ nat_done,
        ensure_redirect-filter_rules run filter ips first last port w₃ words redirected
            ∙ ensure-rules run filter ips first last w₂ words filtered,
        ensure_redirect-rules run intercept ips first last port w₃ words redirected,
      )

module _ {R W : Type 0} (redis : Redis R) (client : Client R) (json : InfoJson) (n : Ipv6)
    (u : Unicode) (run : ScriptRunner W) (commands : CommandRunner W) (filter : Ruleset run chain)
    (intercept : Ruleset run intercept_chain) (snat : Ruleset run snat_chain)
    (routes : Routes run commands) where
  -- When the start succeeds, the proxy has been registered, with the entry and the number that
  -- `Register` gives it; the route of the entry's subnet and the three chains are as the settings ask,
  -- and no step has undone another.
  pub start_proxy-IsPrepared :
      (now : ℕ) (cfg : ProxyConfig) (registered : ProxyInfo × ℕ) (s s' : R) (w w' : W)
      → are_words (public_ips cfg.servers) ≡ true
      → start_proxy redis client json n u run commands now cfg (s, w) ≡ (ok registered, (s', w'))
      → (register redis client json n u now cfg.proxy_id s ≡ (ok registered, s'))
        × IsPrepared run commands filter intercept snat routes cfg
            (ProxyInfo.subnet (registered.0))
            w'
  unfolding start_proxy ping
  start_proxy-IsPrepared now cfg registered s s' w w' words h =
      let record_it =
        prefixed (codes "register proxy: ") (register redis client json n u now cfg.proxy_id) in
      let prepare = λ (subnet : Bytes). prepare_machine run commands cfg subnet in
      let finish = λ (known : ProxyInfo × ℕ).
        on_machine {R = R} (prepare (ProxyInfo.subnet (known.0))) >> pure known in
      let (x, t, pinged, h₁) =
        redis_step (ping client s) (λ (_ : Unit {0}). on_redis record_it >>= finish) w (s', w')
          registered h in
      let (known, t', recorded, h₂) = redis_step (record_it t) finish w (s', w') registered h₁ in
      let (v, prepared, last) =
        machine_step (prepare (ProxyInfo.subnet (known.0)) w) (pure known) t' (s', w') registered
          h₂ in
      let same_known : known ≡ registered = ok_value last in
      let same_redis : t' ≡ s' = ap (λ r. r.1.0) last in
      let same_machine : v ≡ w' = ap (λ r. r.1.1) last in
      let unchanged : s ≡ t =
        ap (λ r. r.1)
          (client.command_lem (Unit {0}) (λ r. (tt, r)) s
            (with_prefix_ok (codes "redis ping: ") (client.command (Unit {0}) (λ r. (tt, r)) s) tt t
              pinged)) in
      (
        ap (register redis client json n u now cfg.proxy_id) unchanged
            ∙ with_prefix_ok (codes "register proxy: ")
                (register redis client json n u now cfg.proxy_id t) known t' recorded
            ∙ ap (λ k. (ok k, t')) same_known
            ∙ ap (λ r. (ok registered, r)) same_redis,
        subst
            (λ k.
              IsPrepared run commands filter intercept snat routes cfg (ProxyInfo.subnet (k.0)) w')
            same_known
            (subst
              (IsPrepared run commands filter intercept snat routes cfg
                (ProxyInfo.subnet (known.0)))
              same_machine
              (prepare_machine-IsPrepared run commands filter intercept snat routes cfg
                (ProxyInfo.subnet (known.0)) w v words prepared)),
      )
