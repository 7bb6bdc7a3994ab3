-- ===== src/Watcher/Service/Reserved.antt =====
-- What the watcher can do to Redis while it runs.
use sidero_proxy.Base.{
  ◌≡◌, refl, subst, Option, none, some, List, [], ◌∷◌, Result, ok, err, Action, Bytes, codes,
  Unicode, Ipv6,
}
use sidero_proxy.Nft.{Error, ScriptRunner}
use sidero_proxy.Redis.{Redis, Client, HashReader}
use sidero_proxy.Registration.{InfoJson}
use sidero_proxy.Assignment.{map_key}
use sidero_proxy.Assignment.Permanent.{Keeps, Steps, here, hget-Steps}
use sidero_proxy.Assignment.Service.{ReverseJson, Service}
use sidero_proxy.Assignment.Calls.{Steps-trans, MakesSteps-prefixed, MakesSteps-command}
use sidero_proxy.Watcher.Files.{BansJson}
use sidero_proxy.Watcher.NoSnat.{IptablesRunner}
use sidero_proxy.Config.{WatcherConfig}
use sidero_proxy.Start.{ping}
use sidero_proxy.Watcher.Docker.{Docker, ResolvedState, resolve}
use sidero_proxy.Watcher.Node.{NodeDnat, DockerWake, start_node}
use sidero_proxy.Watcher.Bans.{State, Machine, add_watches, handle_event}
use sidero_proxy.Watcher.Service.{
  Woken, context_done, files_failed, files_changed, Outcome, service_loop, watch_files, start_files,
  start_watcher, failed_or, run_watcher, watcher_result, pinged, new_service, node_of, resolver_of,
  watcher_assigner,
}
use sidero_proxy.Watcher.Bans.Kept.{Stays, Answer, handle_event-AllStay, add_watches-AllStay}

module _ (u : Unicode) (json : BansJson) {R : Type 0} (redis : Redis R) (client : Client R)
    (reader : HashReader redis) (n : Ipv6) (reverse_json : ReverseJson) (info_json : InfoJson)
    (service : Service) where
  service_loop-Stays :
      (woken : List Woken) (s : State R)
      → Stays redis s
          ((service_loop u json redis client reader n reverse_json info_json service woken s).1)
  unfolding service_loop
  service_loop-Stays [] s = here
  service_loop-Stays (context_done ∷ woken) s = here
  service_loop-Stays (files_failed e ∷ woken) s = service_loop-Stays woken s
  service_loop-Stays (files_changed machine event ∷ woken) s =
      Steps-trans redis
        (handle_event-AllStay u json redis client reader n reverse_json info_json service machine
          event s)
        (service_loop-Stays woken (
          (handle_event u json redis client reader n reverse_json info_json service machine event
            s).1))

  watch_files-Stays :
      (created : Result Error (Unit {0})) (machine : Machine) (root : Bytes) (woken : List Woken)
      (s : State R)
      → Stays redis s (
          (watch_files u json redis client reader n reverse_json info_json service created machine
            root woken s).1)
  unfolding watch_files
  watch_files-Stays (err e) machine root woken s = here
  watch_files-Stays (ok x) machine root woken s = watched (add_watches u json machine root s) (
      add_watches-AllStay u json redis client reader n reverse_json info_json service machine root
        s)
    where
      watched :
          (r : Answer redis)
          → Stays redis s (r.1)
          → Stays redis s (
              (failed_or
                (service_loop u json redis client reader n reverse_json info_json service woken)
                r).1)
      watched (ok y, t) h = Steps-trans redis h (service_loop-Stays woken t)
      watched (err e, t) h = h

  module _ {W : Type 0} (run : ScriptRunner W) (iptables : Option (IptablesRunner W))
      (cfg : NodeDnat) (resolver : Option (Action W Error ResolvedState)) where
    -- However many events the watcher has handled and whatever failed, all that it has done to Redis are
    -- calls of the assignment script: a client whose address at a proxy was reserved when it started
    -- still has exactly that address there.
    pub start_watcher-Steps :
        (created : Result Error (Unit {0})) (machine : Machine) (root : Bytes) (woken : List Woken)
        (wakes : List (DockerWake run iptables u cfg)) (s t : State R) (w v : W)
        (outcome : Option (Result Error (Unit {0})))
        → start_watcher u json redis client reader n reverse_json info_json service run iptables cfg
            resolver created machine root woken wakes
            (s, w)
          ≡ (outcome, (t, v))
        → Steps redis s.redis t.redis
          × ((real_ip id i : Bytes)
              → Keeps real_ip id i redis s.redis
              → redis.hget (map_key real_ip) id t.redis ≡ some i)
    unfolding start_watcher
    start_watcher-Steps created machine root woken wakes s t w v outcome ran =
        let steps : Steps redis s.redis t.redis =
          subst (λ (r : Outcome (State R × W)). Stays redis s ((r.1).0)) ran
            (node_cases (start_node run iptables u cfg resolver w)) in
        (steps, λ real_ip id i k. hget-Steps redis real_ip id i s.redis t.redis k steps)
      where
        node_cases :
            (r : Result Error (Unit {0}) × W)
            → Stays redis s (
                ((start_files u json redis client reader n reverse_json info_json service run
                  iptables cfg resolver created machine root woken wakes s r).1
                ).0)
        node_cases (ok x, w') = watch_files-Stays created machine root woken s
        node_cases (err e, w') = here

module _ {R W : Type 0} (u : Unicode) (json : BansJson) (redis : Redis R) (client : Client R)
    (reader : HashReader redis) (n : Ipv6) (reverse_json : ReverseJson) (info_json : InfoJson)
    (run : ScriptRunner W) (iptables : IptablesRunner W) (docker : Docker W) where
  -- The same of the whole command, from its ping on.
  pub run_watcher-Steps :
      (cfg : WatcherConfig) (created : Result Error (Unit {0})) (machine : Machine)
      (woken : List Woken) (wakes : List (DockerWake run (some iptables) u (node_of cfg.node_dnat)))
      (s : R) (w : W)
      → Steps redis s (
          ((run_watcher u json redis client reader n reverse_json info_json run iptables docker cfg
            created machine woken wakes
            (s, w)).1
          ).0)
  unfolding run_watcher ping new_service
  run_watcher-Steps cfg created machine woken wakes s w = ping_cases (ping client s) (
      MakesSteps-prefixed redis (codes "redis ping: ") (client.command (Unit {0}) (λ t. (tt, t)))
        (MakesSteps-command redis client (λ t. (tt, t)) (λ t. Steps.here)) s)
    where
      started_cases :
          (r : R) (o : Outcome (State R × W))
          → Steps redis r (State.redis ((o.1).0))
          → Steps redis r (
              ((watcher_result u json redis client reader n reverse_json info_json run iptables
                docker o).1
              ).0)
      started_cases r (none, (t, v)) h = h
      started_cases r (some (ok x), (t, v)) h = h
      started_cases r (some (err e), (t, v)) h = h

      ping_cases :
          (r : Result Error (Unit {0}) × R)
          → Steps redis s (r.1)
          → Steps redis s (
              ((pinged u json redis client reader n reverse_json info_json run iptables docker
                created machine woken cfg wakes w r).1
              ).0)
      ping_cases (err e, t) h = h
      ping_cases (ok x, t) h =
          let o =
            start_watcher u json redis client reader n reverse_json info_json watcher_assigner run
              (some iptables) (node_of cfg.node_dnat)
              (some (resolve u docker (resolver_of cfg.node_dnat))) created machine cfg.volumes_root
              woken wakes (new_service t, w) in
          Steps-trans redis h (
            started_cases t o (
              (start_watcher-Steps u json redis client reader n reverse_json info_json
                watcher_assigner run (some iptables) (node_of cfg.node_dnat)
                (some (resolve u docker (resolver_of cfg.node_dnat))) created machine
                cfg.volumes_root woken wakes (new_service t) ((o.1).0) w ((o.1).1) (o.0) refl).0))
