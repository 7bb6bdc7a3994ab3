-- ===== src/Watcher/Service.antt =====
-- internal/watcher/watcher.go: `New` and `Start`, and what cmd/watcher does around them. The goroutine
-- `watchDocker` works on the machine's rules, the loop of `Start` on Redis and the snapshots: they share
-- nothing, so each has a sequence of its own of what wakes it.
pub mod Reserved
pub mod Returns
use sidero_proxy.Base.{
  ◌≡◌, refl, Bool, true, false, ◌&&◌, Option, none, some, List, [], ◌∷◌, ◌++◌, ltb, if◌then◌else◌,
  Result, ok, err, Action, prefixed, continue_with, ◌>>=◌, ◌>>◌, Bytes, codes, Unicode, Ipv6,
}
use sidero_proxy.Base.Members.{is_some}
use sidero_proxy.Nft.{Error, ScriptRunner}
use sidero_proxy.Redis.{Redis, Client, HashReader}
use sidero_proxy.Registration.{InfoJson}
use sidero_proxy.Assignment.Service.{ReverseJson, Service}
use sidero_proxy.Watcher.Files.{BansJson}
use sidero_proxy.Watcher.NoSnat.{IptablesRunner}
use sidero_proxy.Config.{PortRange, NodeDnatConfig, WatcherConfig}
use sidero_proxy.Start.{ping, port_number}
use sidero_proxy.Watcher.Docker.{Docker, Resolver, ResolvedState, resolve}
use sidero_proxy.Watcher.Node.{NodeDnat, DockerWake, start_node, watch_docker}
use sidero_proxy.Watcher.Bans.{State, Machine, Event, add_watches, handle_event}

-- What the select of `Start` receives: the end of the context, an error of fsnotify, or an event with
-- the machine as it finds it.
pub data Woken : Type 0 where
  context_done : Woken
  files_failed : Option Error → Woken
  files_changed : Machine → Event → Woken

-- How `New` leaves the service: no directory has a snapshot.
unfoldable pub new_service : {R : Type 0} → R → State R
new_service s = record { redis = s; ip_snapshot = []; watched = [] }

-- A return of `Start`, or none as long as it waits.
abbrev pub Outcome : Type 0 → Type 0
Outcome S = Option (Result Error (Unit {0})) × S

abbrev pub failed_or : {S : Type 0} → (S → Outcome S) → Result Error (Unit {0}) × S → Outcome S
failed_or next (ok x, s) = next s
failed_or next (err e, s) = (some (err e), s)

module _ (u : Unicode) (json : BansJson) {R : Type 0} (redis : Redis R) (client : Client R)
    (reader : HashReader redis) (n : Ipv6) (reverse_json : ReverseJson) (info_json : InfoJson)
    (service : Service) where
  -- The loop of `Start`; errors are only logged.
  unfoldable pub service_loop : List Woken → State R → Outcome (State R)
  unfolding handle_event
  service_loop [] s = (none, s)
  service_loop (context_done ∷ woken) s = (some (ok tt), s)
  service_loop (files_failed e ∷ woken) s = service_loop woken s
  service_loop (files_changed machine event ∷ woken) s =
      service_loop woken (
        (handle_event u json redis client reader n reverse_json info_json service machine event
          s).1)

  -- `Start` from the creation of the fsnotify watcher on, with what that answers.
  unfoldable pub watch_files :
      Result Error (Unit {0}) → Machine → Bytes → List Woken → State R → Outcome (State R)
  unfolding service_loop add_watches
  watch_files (err e) machine root woken s =
      (some (err (codes "create fsnotify watcher: " ++ e)), s)
  watch_files (ok x) machine root woken s =
      failed_or (service_loop woken) (add_watches u json machine root s)

  module _ {W : Type 0} (run : ScriptRunner W) (iptables : Option (IptablesRunner W))
      (cfg : NodeDnat) (resolver : Option (Action W Error ResolvedState)) where
    -- The goroutine that `Start` leaves behind, if the node has DNAT rules and a resolver.
    unfoldable pub follow_docker : List (DockerWake run iptables u cfg) → W → W
    unfolding watch_docker
    follow_docker wakes w =
        if ltb 0 cfg.start_port && is_some resolver
        then watch_docker run iptables u cfg resolver wakes w
        else w

    abbrev pub start_files :
        Result Error (Unit {0})
        → Machine
        → Bytes
        → List Woken
        → List (DockerWake run iptables u cfg)
        → State R
        → Result Error (Unit {0}) × W
        → Outcome (State R × W)
    start_files created machine root woken wakes s (err e, w) = (some (err e), (s, w))
    start_files created machine root woken wakes s (ok x, w) =
        let (outcome, t) = watch_files created machine root woken s in
        (outcome, (t, follow_docker wakes w))

    -- `Start`
    unfoldable pub start_watcher :
        Result Error (Unit {0})
        → Machine
        → Bytes
        → List Woken
        → List (DockerWake run iptables u cfg)
        → State R × W
        → Outcome (State R × W)
    unfolding start_node watch_files follow_docker
    start_watcher created machine root woken wakes (s, w) =
        start_files created machine root woken wakes s (start_node run iptables u cfg resolver w)

-- What `main` makes of the settings of the node; the validation admits no negative port.
abbrev pub node_of : NodeDnatConfig → NodeDnat
node_of cfg = record {
  public_ip = cfg.public_ip;
  tailscale_interface = cfg.tailscale_interface;
  start_port = port_number (PortRange.start cfg.port_range);
  end_port = port_number (PortRange.end cfg.port_range);
}

-- `NewDockerResolver`, with its arguments.
abbrev pub resolver_of : NodeDnatConfig → Resolver
resolver_of cfg = record {
  public_ip = cfg.public_ip;
  docker_network = cfg.docker_network;
  start_port = port_number (PortRange.start cfg.port_range);
  end_port = port_number (PortRange.end cfg.port_range);
}

-- The assigner that the watcher reserves with: it has no proxy of its own, and sets no expiry.
abbrev pub watcher_assigner : Service
watcher_assigner = record { proxy_id = []; proxy_num = 0; ttl_seconds = 0 }

module _ {R W : Type 0} (u : Unicode) (json : BansJson) (redis : Redis R) (client : Client R)
    (reader : HashReader redis) (n : Ipv6) (reverse_json : ReverseJson) (info_json : InfoJson)
    (run : ScriptRunner W) (iptables : IptablesRunner W) (docker : Docker W) where
  abbrev pub watcher_result : Outcome (State R × W) → Outcome (R × W)
  watcher_result (none, (s, w)) = (none, (s.redis, w))
  watcher_result (some (ok x), (s, w)) = (some (ok x), (s.redis, w))
  watcher_result (some (err e), (s, w)) = (some (err (codes "run watcher: " ++ e)), (s.redis, w))

  abbrev pub pinged :
      Result Error (Unit {0})
      → Machine
      → List Woken
      → (cfg : WatcherConfig) → List (DockerWake run (some iptables) u (node_of cfg.node_dnat))
      → W
      → Result Error (Unit {0}) × R
      → Outcome (R × W)
  pinged created machine woken cfg wakes w (err e, s) = (some (err e), (s, w))
  pinged created machine woken cfg wakes w (ok x, s) = watcher_result (
      start_watcher u json redis client reader n reverse_json info_json watcher_assigner run
        (some iptables) (node_of cfg.node_dnat)
        (some (resolve u docker (resolver_of cfg.node_dnat))) created machine cfg.volumes_root woken
        wakes (new_service s, w))

  -- `main` of cmd/watcher from the ping on; an error is a panic.
  unfoldable pub run_watcher :
      (cfg : WatcherConfig)
      → Result Error (Unit {0})
      → Machine
      → List Woken
      → List (DockerWake run (some iptables) u (node_of cfg.node_dnat))
      → R × W
      → Outcome (R × W)
  unfolding ping new_service start_watcher resolve
  run_watcher cfg created machine woken wakes (s, w) =
      pinged created machine woken cfg wakes w (ping client s)
