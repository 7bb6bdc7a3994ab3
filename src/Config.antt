-- ===== src/Config.antt =====
-- internal/config/config.go: the settings and their validation; Config.Regions has that of the
-- failover controller. Decoding JSON is a parameter of Config.Load; a
-- setting that the file lacks has Go's zero value. The Unicode tables are the parameter `u`.
pub mod Regions
pub mod Valid
pub mod Load
pub mod Node
use sidero_proxy.Base.{
  ℕ, ◌+◌, Bool, true, false, ◌&&◌, ◌||◌, not, List, [], ◌∷◌, ◌++◌, if◌then◌else◌, Result, ok, err,
  bind_result, Bytes, codes, itoa, Unicode, trim_space,
}
use sidero_proxy.Base.Integers.{ℤ, pos, is_not_positive, is_negative, exceeds, is_less, is_same}

abbrev pub Error : Type 0
Error = Bytes

pub record Server : Type 0 where
  pub name : Bytes
  pub proxy_public_ip : Bytes
  pub hostnames : List Bytes
  pub backend_ip : Bytes

pub record PortRange : Type 0 where
  pub start : ℤ
  pub end : ℤ

pub record ProxyConfig : Type 0 where
  pub proxy_id : Bytes
  pub redis_addr : Bytes
  pub redis_password : Bytes
  pub ip_ttl_seconds : ℤ
  pub intercept_port : ℤ
  pub health_port : ℤ
  pub port_range : PortRange
  pub servers : List Server

pub record NodeDnatConfig : Type 0 where
  pub public_ip : Bytes
  pub tailscale_interface : Bytes
  pub docker_network : Bytes
  pub port_range : PortRange

pub record WatcherConfig : Type 0 where
  pub redis_addr : Bytes
  pub redis_password : Bytes
  pub volumes_root : Bytes
  pub node_dnat : NodeDnatConfig

pub record FailoverRegion : Type 0 where
  pub name : Bytes
  pub health_url : Bytes
  pub answer_ips : List Bytes

pub record FailoverHostname : Type 0 where
  pub name : Bytes
  pub region : Bytes
  pub ttl : ℤ

pub record FailoverConfig : Type 0 where
  pub api_token : Bytes
  pub zone_id : Bytes
  pub fallback_region : Bytes
  pub probe_interval_seconds : ℤ
  pub failback_window_seconds : ℤ
  pub regions : List FailoverRegion
  pub hostnames : List FailoverHostname

abbrev pub is_nil : {A : Type 0} → List A → Bool
is_nil [] = true
is_nil (x ∷ xs) = false

-- `port <= 0 || port > 65535`
unfoldable pub is_bad_port : ℤ → Bool
is_bad_port port = is_not_positive port || exceeds port 65535

unfoldable pub validate_range : Bytes → PortRange → Result Error (Unit {0})
unfolding is_bad_port
validate_range field p =
    if is_bad_port p.start
    then err (field ++ codes ".start must be between 1 and 65535")
    else if is_bad_port p.end
    then err (field ++ codes ".end must be between 1 and 65535")
    else if is_less p.end p.start
    then err
        (field ++ (codes ".end must be greater than or equal to " ++ (field ++ codes ".start")))
    else ok tt

module _ (u : Unicode) where
  -- `strings.TrimSpace(s) == ""`
  unfoldable pub is_blank : Bytes → Bool
  unfolding trim_space
  is_blank s = is_nil (trim_space u s)

  abbrev pub indexed : Bytes → ℕ → Bytes → Bytes
  indexed field i message = field ++ (codes "[" ++ (itoa i ++ (codes "]" ++ message)))

  -- The loop over the hostnames of one server, from index `j`.
  unfoldable pub validate_names : ℕ → ℕ → List Bytes → Result Error (Unit {0})
  unfolding is_blank
  validate_names i j [] = ok tt
  validate_names i j (name ∷ names) =
      let rest = validate_names i (j + 1) names in
      if is_blank name
      then err (
          indexed (codes "servers") i (indexed (codes ".hostnames") j (codes " must not be empty")))
      else rest

  -- What one round of the loop over the servers returns.
  abbrev validate_server : ℕ → Server → Result Error (Unit {0})
  validate_server i server =
      if is_blank server.proxy_public_ip && is_nil server.hostnames
      then err (indexed (codes "servers") i (codes " must define proxy_public_ip or hostnames"))
      else bind_result (validate_names i 0 server.hostnames) (λ _.
        if is_blank server.backend_ip
        then err (indexed (codes "servers") i (codes ".backend_ip is required"))
        else ok tt)

  -- The loop over the servers, from index `i`, with `hasIngressIP` so far.
  unfoldable pub validate_servers : ℕ → Bool → List Server → Result Error Bool
  unfolding is_blank
  validate_servers i has_ingress_ip [] = ok has_ingress_ip
  validate_servers i has_ingress_ip (server ∷ servers) =
      let has_ingress_ip' = not (is_blank server.proxy_public_ip) || has_ingress_ip in
      let rest = validate_servers (i + 1) has_ingress_ip' servers in
      bind_result (validate_server i server) (λ _. rest)

  -- The end of `ProxyConfig.Validate`, behind the loop.
  abbrev validate_ingress : ProxyConfig → Bool → Result Error (Unit {0})
  validate_ingress c has_ingress_ip =
      if not has_ingress_ip
      then err (codes "at least one servers[].proxy_public_ip is required")
      else if is_negative c.ip_ttl_seconds
      then err (codes "ip_ttl_seconds cannot be negative")
      else ok tt

  abbrev validate_listeners : ProxyConfig → Result Error (Unit {0})
  validate_listeners c =
      if is_bad_port c.intercept_port
      then err (codes "intercept_port must be between 1 and 65535")
      else if is_bad_port c.health_port
      then err (codes "health_port must be between 1 and 65535")
      else if is_same c.health_port c.intercept_port
      then err (codes "health_port must differ from intercept_port")
      else bind_result (validate_range (codes "port_range") c.port_range)
          (λ _. bind_result (validate_servers 0 false c.servers) (validate_ingress c))

  unfoldable pub validate_proxy : ProxyConfig → Result Error (Unit {0})
  validate_proxy c =
      if is_blank c.proxy_id
      then err (codes "proxy_id is required")
      else if is_blank c.redis_addr
      then err (codes "redis_addr is required")
      else if is_nil c.servers
      then err (codes "at least one server is required")
      else validate_listeners c

  -- `WatcherConfig.Validate`, which fills in the network's name: the settings behind the call.
  abbrev pub validate_node : WatcherConfig → Result Error (Unit {0}) × WatcherConfig
  validate_node c =
      let node = c.node_dnat in
      if is_blank node.public_ip
      then (err (codes "node_dnat.public_ip is required when node_dnat is configured"), c)
      else if is_blank node.tailscale_interface
      then (err (codes "node_dnat.tailscale_interface is required when node_dnat is configured"), c)
      else let network =
          if is_blank node.docker_network then codes "bridge" else node.docker_network in
        (
          validate_range (codes "node_dnat.port_range") node.port_range,
          record c { node_dnat = record node { docker_network = network } },
        )

  abbrev pub is_node_configured : NodeDnatConfig → Bool
  is_node_configured node =
      not (is_nil node.public_ip)
      || not (is_nil node.tailscale_interface)
      || not (is_same node.port_range.start (pos 0))
      || not (is_same node.port_range.end (pos 0))

  unfoldable pub validate_watcher : WatcherConfig → Result Error (Unit {0}) × WatcherConfig
  validate_watcher c =
      if is_blank c.redis_addr
      then (err (codes "redis_addr is required"), c)
      else if is_blank c.volumes_root
      then (err (codes "volumes_root is required"), c)
      else if is_node_configured c.node_dnat
      then validate_node c
      else (ok tt, c)
