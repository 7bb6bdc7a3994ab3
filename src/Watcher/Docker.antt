-- ===== src/Watcher/Docker.antt =====
-- internal/watcher/docker.go: `DockerResolver`. The docker command and the JSON of its output are
-- parameters. A Go map that is ranged over is its entries in the order of the iteration, which Go leaves
-- open. `Events` is in Watcher.Events.
pub mod Endpoint
pub mod Destinations
pub mod Published
use sidero_proxy.Base.{
  ℕ, Bool, true, false, ◌&&◌, ◌||◌, not, Option, none, some, List, [], ◌∷◌, ◌++◌, map, ltb, ◌==◌,
  if◌then◌else◌, Result, ok, err, Action, pure, fail, continue_with, ◌>>=◌, prefixed, Bytes, codes,
  bytes_eq, contains, Unicode, trim_space, fields, sort_strings,
}
use sidero_proxy.Base.Dict.{Dict, lookup, insert}
use sidero_proxy.Base.Ports.{PortMap, set_port}
use sidero_proxy.Base.Members.{keys}
use sidero_proxy.Base.Integers.{ℤ, pos, negsuc, atoi}
use sidero_proxy.Nat.Chains.{DnatDestination}
use sidero_proxy.Config.{is_nil}
use sidero_proxy.Registration.{lift_result}

abbrev pub Error : Type 0
Error = Bytes

pub record Binding : Type 0 where
  pub host_ip : Bytes
  pub host_port : Bytes

-- What is read of `docker inspect`: the address in each network, and the bindings of each port.
pub record Container : Type 0 where
  pub networks : Dict Bytes
  pub ports : Dict (List Binding)

pub record Resolver : Type 0 where
  pub public_ip : Bytes
  pub docker_network : Bytes
  pub start_port : ℕ
  pub end_port : ℕ

pub record ResolvedState : Type 0 where
  pub destinations : PortMap DnatDestination
  pub bridge_subnets : List Bytes

-- Running docker with arguments, and decoding what `inspect` and `network inspect` print: for a network,
-- the subnets of its configuration.
pub record Docker (W : Type 0) : Type 0 where
  pub output : List Bytes → Action W Error Bytes
  pub decode_containers : Bytes → Result Error (List Container)
  pub decode_networks : Bytes → Result Error (List (List Bytes))

abbrev pub address_of : Option Bytes → Bytes
address_of none = []
address_of (some ip) = ip

-- The loop of `containerEndpoint` over the sorted names.
unfoldable pub first_endpoint : Dict Bytes → List Bytes → Bytes × Bytes
unfolding lookup
first_endpoint networks [] = ([], [])
first_endpoint networks (name ∷ names) =
    let ip = address_of (lookup name networks) in
    let rest = first_endpoint networks names in if is_nil ip then rest else (name, ip)

-- `containerEndpoint`: the name of a network and the address in it.
unfoldable pub container_endpoint : Bytes → Dict Bytes → Bytes × Bytes
container_endpoint docker_network networks =
    let ip = address_of (lookup docker_network networks) in
    if not (is_nil docker_network) && not (is_nil ip)
    then (docker_network, ip)
    else first_endpoint networks (sort_strings (keys networks))

-- `strings.Cut(spec, "/")`
unfoldable pub cut_at_slash : Bytes → Option (Bytes × Bytes)
cut_at_slash [] = none
cut_at_slash (c ∷ s) =
    let rest = elim (cut_at_slash s) as (λ x. Option (Bytes × Bytes)) [
      | none ↦ none
      | some (before, after) ↦ some (c ∷ before, after)
    ] in
    if c == b'/' then some ([], s) else rest

abbrev tcp_port : Option (Bytes × Bytes) → Option ℤ
tcp_port none = none
tcp_port (some (port, proto)) = if bytes_eq proto (codes "tcp") then atoi port else none

-- The container's port that a specification such as `25565/tcp` names, unless the loop passes it over.
unfoldable pub port_of_spec : Bytes → Option ℤ
unfolding cut_at_slash bytes_eq atoi
port_of_spec spec = tcp_port (cut_at_slash spec)

abbrev in_range : Resolver → Option ℤ → Option ℕ
in_range r none = none
in_range r (some (negsuc n)) = none
in_range r (some (pos p)) = if ltb p r.start_port || ltb r.end_port p then none else some p

-- The host's port of a binding, unless the loop passes the binding over.
unfoldable pub port_of_binding : Resolver → Binding → Option ℕ
unfolding bytes_eq atoi
port_of_binding r binding =
    if not (bytes_eq binding.host_ip r.public_ip) then none else in_range r (atoi binding.host_port)

abbrev pub put : DnatDestination → Option ℕ → PortMap DnatDestination → PortMap DnatDestination
put dst none m = m
put dst (some port) m = set_port port dst m

-- The loop over the bindings of one port.
unfoldable pub add_bindings :
    Resolver → DnatDestination → List Binding → PortMap DnatDestination → PortMap DnatDestination
unfolding set_port
add_bindings r dst [] m = m
add_bindings r dst (binding ∷ bindings) m =
    add_bindings r dst bindings (put dst (port_of_binding r binding) m)

abbrev pub add_port :
    Resolver → Bytes → List Binding → Option ℤ → PortMap DnatDestination → PortMap DnatDestination
add_port r ip bindings none m = m
add_port r ip bindings (some port) m = add_bindings r (record { ip = ip; port = port }) bindings m

-- The loop over the ports of a container whose address is `ip`.
unfoldable pub add_ports :
    Resolver → Bytes → Dict (List Binding) → PortMap DnatDestination → PortMap DnatDestination
add_ports r ip [] m = m
add_ports r ip ((spec, bindings) ∷ ports) m =
    add_ports r ip ports (add_port r ip bindings (port_of_spec spec) m)

-- The set `networkNames` is a map to nothing.
abbrev pub add_name : Bytes → Dict (Unit {0}) → Dict (Unit {0})
add_name name names = if is_nil name then names else insert name tt names

-- The loop over the containers.
unfoldable pub add_containers :
    Resolver
    → List Container
    → PortMap DnatDestination × Dict (Unit {0})
    → PortMap DnatDestination × Dict (Unit {0})
unfolding insert
add_containers r [] (m, names) = (m, names)
add_containers r (container ∷ containers) (m, names) =
    let (name, ip) = container_endpoint r.docker_network container.networks in
    add_containers r containers (
      if is_nil ip then m else add_ports r ip container.ports m,
      if is_nil ip then names else add_name name names,
    )

module _ (u : Unicode) where
  -- The loop over the configured subnets of one network.
  unfoldable pub ipv4_subnets : List Bytes → List Bytes
  unfolding trim_space contains
  ipv4_subnets [] = []
  ipv4_subnets (configured ∷ rest) =
      let subnet = trim_space u configured in
      let more = ipv4_subnets rest in
      if not (is_nil subnet) && not (contains subnet (codes ":")) then subnet ∷ more else more

  unfoldable pub all_subnets : List (List Bytes) → List Bytes
  all_subnets [] = []
  all_subnets (network ∷ networks) = ipv4_subnets network ++ all_subnets networks

  module _ {W : Type 0} (docker : Docker W) where
    unfoldable pub container_ids : Action W Error (List Bytes)
    unfolding fields
    container_ids = do
      out ← prefixed (codes "docker ps: ") (docker.output (codes "ps" ∷ codes "--quiet" ∷ []))
      pure (sort_strings (fields u out))

    abbrev inspect_networks : List Bytes → Action W Error (List Bytes)
    inspect_networks names = do
      out ←
          prefixed (codes "docker network inspect: ")
            (docker.output (codes "network" ∷ codes "inspect" ∷ names))
      networks ←
          prefixed (codes "decode docker network inspect output: ")
            (lift_result (docker.decode_networks out))
      pure (sort_strings (all_subnets networks))

    unfoldable pub network_subnets : Dict (Unit {0}) → Action W Error (List Bytes)
    network_subnets names =
        if is_nil names then pure [] else inspect_networks (sort_strings (keys names))

    abbrev resolve_containers : Resolver → List Bytes → Action W Error ResolvedState
    resolve_containers r ids = do
      out ← prefixed (codes "docker inspect: ") (docker.output (codes "inspect" ∷ ids))
      containers ←
          prefixed (codes "decode docker inspect output: ")
            (lift_result (docker.decode_containers out))
      let found = add_containers r containers ([], [])
      subnets ← network_subnets (found.1)
      pure (record { destinations = found.0; bridge_subnets = subnets })

    unfoldable pub resolve : Resolver → Action W Error ResolvedState
    resolve r = do
      ids ← container_ids
      if is_nil ids
          then pure (record { destinations = []; bridge_subnets = [] })
          else resolve_containers r ids
