-- ===== src/Runs/StartRuns.antt =====
-- Runs of the start of the proxy, its listener and its health.
use sidero_proxy.Base.{
  ℕ, ◌≡◌, refl, sym, ap, ◌∙◌, ◌||◌, bytes_eq_refl, ◌↔◌, true, false, none, some, List, [], ◌∷◌,
  ◌++◌, ok, Action, Bytes, codes, bytes_eq, sort, itoa, contains, arith,
}
use sidero_proxy.Base.Integers.{pos}
use sidero_proxy.Nft.{Error, ScriptRunner}
use sidero_proxy.Base.Members.{elem}
use sidero_proxy.Nft.Command.{are_words}
use sidero_proxy.Nft.Ruleset.{Ruleset, effect}
use sidero_proxy.Nat.Chains.{ensure_nat, ensure_redirect, ensure_redirect_sorted}
use sidero_proxy.Nat.Chains.Rules.{intercept_chain}
use sidero_proxy.Filter.{ensure, ensure_sorted}
use sidero_proxy.Filter.Rules.{chain, snat_chain}
use sidero_proxy.Redis.{Store, store_redis, direct_client, empty_store, hset_on, incr_on}
use sidero_proxy.Registration.{ProxyInfo, InfoJson, slot_info, slot_subnet, register}
use sidero_proxy.Config.{ProxyConfig}
use sidero_proxy.Health.{
  Runner, Checker, check, check_nft, check_route, require_tables, handle_healthz,
}
use sidero_proxy.Health.Report.{IsHealthy, handle_healthz_iff}
use sidero_proxy.Router.Listener.{
  Accept, accepted, refused, ready, start, serve_listener, handlers, start_returns,
}
use sidero_proxy.Start.{
  CommandRunner, original_port, ping, ensure_local_subnet, prepare_machine, start_proxy,
}
use sidero_proxy.Start.Prepared.{Routes, IsPrepared}
use sidero_proxy.Start.Main.{run_proxy, serve_prepared, run_proxy-IsPrepared}
use sidero_proxy.Runs.{plain_unicode, no_ipv6}

-- 25565 is 0x63DD, which a little-endian machine reads as 0xDD63.
swaps_the_bytes : original_port 0xDD63 ≡ 25565
unfolding original_port
swaps_the_bytes = refl

-- A runner that prints all that the checks look for, whatever the program.
abbrev printing : Runner (Unit {0})
printing name args w = (
  ok (
      codes "table ip mcproxy_filter\ntable ip mcproxy_intercept\ntable ip mcproxy_nat\n"
      ++ codes "local 10.1.0.0/16 dev lo scope host\n"),
  w,
)

abbrev checker : Checker (Unit {0})
checker = record {
  listener = some true;
  redis = some (λ w. (ok tt, w));
  runner = some printing;
  subnet = codes "10.1.0.0/16";
}

is_up : (handle_healthz checker tt).0.code ≡ 200
unfolding handle_healthz check check_nft check_route require_tables contains
is_up = refl

handle_healthz_iff_example : ((handle_healthz checker tt).0.code ≡ 200) ↔ IsHealthy checker tt
handle_healthz_iff_example = handle_healthz_iff checker tt

-- Two connections with a temporary error between them, then the end of the context.
abbrev pub accepts : List (Accept ℕ)
accepts = accepted 1 ∷ refused false true (codes "too many open files") ∷ accepted 2 ∷ []

start_returns_example :
    start
      (pos 25500)
      (ok (codes "0.0.0.0:25500"))
      (accepts ++ refused true false (codes "closed") ∷ accepted 3 ∷ [])
    ≡ (ready true ∷ (handlers accepts ++ ready false ∷ []), some (ok tt))
start_returns_example =
    start_returns (codes "0.0.0.0:25500") true false (codes "closed") refl (pos 25500) accepts
      (accepted 3 ∷ []) (tt, ((refl, refl), (tt, tt)))

-- The rules of the two chains.
pub record Chains : Type 0 where
  pub filter : List Bytes
  pub intercept : List Bytes
  pub snat : List Bytes
  pub routes : List Bytes

abbrev run_nft : ScriptRunner Chains
run_nft text w = (
  ok tt,
  record {
    filter = effect chain text w.filter;
    intercept = effect intercept_chain text w.intercept;
    snat = effect snat_chain text w.snat;
    routes = w.routes;
  },
)

filter_rules : Ruleset run_nft chain
filter_rules = record {
  rules = Chains.filter;
  rules-run = λ text w _ e. ap (λ t. Chains.filter (t.1)) (sym e);
  rules-run_failed = λ text w _ e. absurd (ground arith);
}

intercept_rules : Ruleset run_nft intercept_chain
intercept_rules = record {
  rules = Chains.intercept;
  rules-run = λ text w _ e. ap (λ t. Chains.intercept (t.1)) (sym e);
  rules-run_failed = λ text w _ e. absurd (ground arith);
}

snat_rules : Ruleset run_nft snat_chain
snat_rules = record {
  rules = Chains.snat;
  rules-run = λ text w _ e. ap (λ t. Chains.snat (t.1)) (sym e);
  rules-run_failed = λ text w _ e. absurd (ground arith);
}

-- The only command is that of the local route.
abbrev run_command : CommandRunner Chains
run_command name (a ∷ b ∷ c ∷ subnet ∷ args) w = (ok tt, record w { routes = subnet ∷ w.routes })
run_command name args w = (ok tt, w)

local_routes : Routes run_nft run_command
unfolding elem
local_routes = record {
  has_route = λ subnet w. elem subnet w.routes;
  replaced = λ subnet w e.
      ap (λ t. elem subnet (Chains.routes (t.1))) (sym e)
      ∙ ap (λ b. b || elem subnet w.routes) (bytes_eq_refl subnet);
  kept = λ subnet text w _. refl;
}

abbrev subnet_json : InfoJson
subnet_json = record {
  marshal = λ i. ok i.subnet;
  unmarshal = λ s. ok (record { subnet = s; tailscale_ip = []; registered_at = 0 });
}

abbrev settings : ProxyConfig
settings = record {
  proxy_id = codes "p1";
  redis_addr = codes "redis:6379";
  redis_password = [];
  ip_ttl_seconds = pos 60;
  intercept_port = pos 25500;
  health_port = pos 8080;
  port_range = record { start = pos 25565; end = pos 25600 };
  servers = [];
}

abbrev start_it : Action (Store × Chains) Error (ProxyInfo × ℕ)
start_it =
    start_proxy store_redis direct_client subnet_json no_ipv6 plain_unicode run_nft run_command 100
      settings

abbrev old_chains : Chains
old_chains = record {
  filter = codes "old\n" ∷ [];
  intercept = codes "old\n" ∷ [];
  snat = codes "old\n" ∷ [];
  routes = [];
}

abbrev ready_state : Store × Chains
ready_state = (start_it (empty_store, old_chains)).1

starts : start_it (empty_store, old_chains) ≡ (ok (slot_info 100 1, 1), ready_state)
unfolding start_proxy ping register slot_subnet hset_on incr_on empty_store itoa bytes_eq
    prepare_machine ensure_local_subnet ensure_nat ensure ensure_sorted ensure_redirect
    ensure_redirect_sorted sort
starts = refl

runs :
    run_proxy store_redis direct_client subnet_json no_ipv6 plain_unicode run_nft run_command 100
      settings
      (ok (codes "0.0.0.0:25500"))
      accepts
      (empty_store, old_chains)
    ≡ ((ready true ∷ handlers accepts, none), ready_state)
unfolding run_proxy start serve_listener handlers
runs = ap (serve_prepared settings (ok (codes "0.0.0.0:25500")) accepts) starts

run_proxy-IsPrepared_example :
    (registered : ProxyInfo × ℕ) × (register store_redis direct_client subnet_json no_ipv6
        plain_unicode 100
        (codes "p1")
        empty_store
      ≡ (ok registered, ready_state.0))
    × IsPrepared run_nft run_command filter_rules intercept_rules snat_rules local_routes settings
        (ProxyInfo.subnet (registered.0))
        (ready_state.1)
run_proxy-IsPrepared_example =
    run_proxy-IsPrepared store_redis direct_client subnet_json no_ipv6 plain_unicode run_nft
      run_command filter_rules intercept_rules snat_rules local_routes 100 settings
      (ok (codes "0.0.0.0:25500")) accepts (ready true) (handlers accepts) none empty_store
      (ready_state.0) old_chains (ready_state.1) (unfold are_words in refl) runs
