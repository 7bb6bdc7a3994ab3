-- ===== src/Start/Main.antt =====
-- cmd/proxy: `main` from the ping to the return of the router. An error is a panic.
use sidero_proxy.Base.{
  ℕ, ◌≡◌, refl, ap, subst, true, Option, none, some, List, [], ◌∷◌, ◌++◌, Result, ok, err, Bytes,
  codes, Unicode, Ipv6, arith,
}
use sidero_proxy.Nft.{Error, ScriptRunner}
use sidero_proxy.Nft.Command.{are_words}
use sidero_proxy.Nft.Ruleset.{Ruleset}
use sidero_proxy.Nat.Chains.Rules.{intercept_chain}
use sidero_proxy.Filter.Rules.{chain, snat_chain}
use sidero_proxy.Redis.{Redis, Client}
use sidero_proxy.Registration.{ProxyInfo, InfoJson, register}
use sidero_proxy.Config.{ProxyConfig}
use sidero_proxy.Assignment.Service.{Service}
use sidero_proxy.Router.Listener.{Accept, Going, start}
use sidero_proxy.Start.{CommandRunner, port_number, public_ips, start_proxy}
use sidero_proxy.Start.Serving.{Serve}
use sidero_proxy.Start.Prepared.{Routes, IsPrepared, start_proxy-IsPrepared}

-- The assigner of the proxy, with the number that the registration gave it.
abbrev pub proxy_assigner : ProxyConfig → ℕ → Service
proxy_assigner cfg proxy_num = record {
  proxy_id = cfg.proxy_id;
  proxy_num = proxy_num;
  ttl_seconds = port_number cfg.ip_ttl_seconds;
}

abbrev pub proxy_result : {C : Type 0} → Serve C → Serve C
proxy_result (going, none) = (going, none)
proxy_result (going, some (ok x)) = (going, some (ok x))
proxy_result (going, some (err e)) = (going, some (err (codes "run proxy: " ++ e)))

-- The router's `Start`, with what `listen` answers and what is accepted, once all is prepared.
abbrev pub serve_prepared :
    {S C : Type 0}
    → ProxyConfig
    → Result Error Bytes
    → List (Accept C)
    → Result Error (ProxyInfo × ℕ) × S
    → Serve C × S
serve_prepared cfg listened accepts (err e, s) = (([], some (err e)), s)
serve_prepared cfg listened accepts (ok registered, s) =
    (proxy_result (start cfg.intercept_port listened accepts), s)

module _ {R W C : Type 0} (redis : Redis R) (client : Client R) (json : InfoJson) (n : Ipv6)
    (u : Unicode) (run : ScriptRunner W) (commands : CommandRunner W) where
  unfoldable pub run_proxy :
      ℕ → ProxyConfig → Result Error Bytes → List (Accept C) → R × W → Serve C × (R × W)
  unfolding start_proxy start
  run_proxy now cfg listened accepts s =
      serve_prepared cfg listened accepts (start_proxy redis client json n u run commands now cfg s)

  module _ (filter : Ruleset run chain) (intercept : Ruleset run intercept_chain)
      (snat : Ruleset run snat_chain) (routes : Routes run commands) where
    -- The proxy announces no readiness and hands out no connection before all is prepared: if its run
    -- does any of it, then the proxy is registered, the local route of the subnet that the registration
    -- gave it is there, the chain of the NAT holds the rule of the SNAT map, the chain of the prefilter
    -- its three rules and that of the redirection the rule to the intercept port, all with the ports of
    -- the settings. No public address of the settings holds a line break or a semicolon.
    pub run_proxy-IsPrepared :
        (now : ℕ) (cfg : ProxyConfig) (listened : Result Error Bytes) (accepts : List (Accept C))
        (first : Going C) (going : List (Going C)) (outcome : Option (Result Error (Unit {0})))
        (s s' : R) (w w' : W)
        → are_words (public_ips cfg.servers) ≡ true
        → run_proxy now cfg listened accepts (s, w) ≡ ((first ∷ going, outcome), (s', w'))
        → (registered : ProxyInfo × ℕ) × (register redis client json n u now cfg.proxy_id s
            ≡ (ok registered, s'))
          × IsPrepared run commands filter intercept snat routes cfg
              (ProxyInfo.subnet (registered.0))
              w'
    unfolding run_proxy
    run_proxy-IsPrepared now cfg listened accepts first going outcome s s' w w' words h =
        started_cases (start_proxy redis client json n u run commands now cfg (s, w)) refl h
      where
        started_cases :
            (r : Result Error (ProxyInfo × ℕ) × (R × W))
            → start_proxy redis client json n u run commands now cfg (s, w) ≡ r
            → serve_prepared cfg listened accepts r ≡ ((first ∷ going, outcome), (s', w'))
            → (registered : ProxyInfo × ℕ) × (register redis client json n u now cfg.proxy_id s
                ≡ (ok registered, s'))
              × IsPrepared run commands filter intercept snat routes cfg
                  (ProxyInfo.subnet (registered.0))
                  w'
        started_cases (err e, t) e' k = absurd (ground (arith, ap (λ o. (o.0).0) k))
        started_cases (ok registered, (t, v)) e' k =
            let (known, prepared) =
              start_proxy-IsPrepared redis client json n u run commands filter intercept snat routes
                now cfg registered s t w v words e' in
            (
              registered,
              subst (λ x. register redis client json n u now cfg.proxy_id s ≡ (ok registered, x))
                  (ap (λ o. (o.1).0) k) known,
              subst
                  (IsPrepared run commands filter intercept snat routes cfg
                    (ProxyInfo.subnet (registered.0)))
                  (ap (λ o. (o.1).1) k) prepared,
            )
