-- ===== src/Watcher/Docker/Destinations.antt =====
-- The DNAT destinations that `Resolve` collects, against what the containers publish.
use sidero_proxy.Base.{
  ℕ, ◌≡◌, ◌≤◌, refl, sym, ap, ◌∙◌, Bool, true, false, Option, none, some, List, [], ◌∷◌, ◌==◌,
  ==_iff, if◌then◌else◌, Bytes, codes, bytes_eq, bytes_eq_iff, Bool-cases, Option-cases, inl, inr,
  ◌⊎◌, arith,
}
use mathlib.Core.List.{Memᴰ}
use sidero_proxy.Base.Dict.{Dict}
use sidero_proxy.Base.Ports.{PortMap, at_port, at_port-set_port}
use sidero_proxy.Base.Integers.{ℤ, pos, negsuc, atoi}
use sidero_proxy.Nat.Chains.{DnatDestination}
use sidero_proxy.Config.{is_nil}
use sidero_proxy.Watcher.Docker.{
  Binding, Container, Resolver, container_endpoint, cut_at_slash, port_of_spec, port_of_binding,
  put, add_bindings, add_port, add_ports, add_containers, add_name, in_range, tcp_port,
}

module _ (r : Resolver) where
  -- A binding of the port `port` of the host, on the node's public address and in the range.
  pub record IsBound (port : ℕ) (binding : Binding) : Type 0 where
    pub on_public_ip : binding.host_ip ≡ r.public_ip
    pub is_port : atoi binding.host_port ≡ some (pos port)
    pub from_start : r.start_port ≤ port
    pub to_end : port ≤ r.end_port

  -- A specification of a TCP port.
  abbrev pub IsTcp : Bytes → ℤ → Type 0
  IsTcp spec port =
      (text : Bytes) × (cut_at_slash spec ≡ some (text, codes "tcp")) × (atoi text ≡ some port)

  -- One of the entries of a container's ports binds `port` to the destination's port.
  abbrev pub IsListed : ℕ → ℤ → Dict (List Binding) → Type 0
  IsListed port dst_port ports =
      (spec : Bytes) × (bindings : List Binding) × (binding : Binding) × Memᴰ (spec, bindings) ports
      × Memᴰ binding bindings
      × IsTcp spec dst_port
      × IsBound port binding

  -- A container has an address, and publishes its port `dst.port` there as `port`.
  pub record Publishes (port : ℕ) (dst : DnatDestination) (container : Container) : Type 0 where
    pub at_endpoint : (container_endpoint r.docker_network container.networks).1 ≡ dst.ip
    pub has_address : is_nil dst.ip ≡ false
    pub listed : IsListed port dst.port container.ports

  abbrev pub IsPublished : ℕ → DnatDestination → List Container → Type 0
  IsPublished port dst containers =
      (container : Container) × Memᴰ container containers × Publishes port dst container

  in_range_lem :
      (port : ℕ) (x : Option ℤ)
      → in_range r x ≡ some port
      → (x ≡ some (pos port)) × (r.start_port ≤ port) × (port ≤ r.end_port)
  in_range_lem port none h = absurd (ground arith)
  in_range_lem port (some (negsuc m)) h = absurd (ground arith)
  in_range_lem port (some (pos p)) h = ground arith

  tcp_port_lem :
      (port : ℤ) (x : Option (Bytes × Bytes))
      → tcp_port x ≡ some port
      → (text : Bytes) × (x ≡ some (text, codes "tcp")) × (atoi text ≡ some port)
  tcp_port_lem port none h = absurd (ground arith)
  tcp_port_lem port (some (text, proto)) h = elim (Bool-cases (bytes_eq proto (codes "tcp"))) [
    | inl e ↦
        let same : proto ≡ codes "tcp" = (bytes_eq_iff proto (codes "tcp")).0 e in
        (text, ap (λ t. some (text, t)) same, ground (arith, h, e))
    | inr e ↦ absurd (ground (arith, h, e))
  ]

  port_of_binding-IsBound :
      (port : ℕ) (b : Binding) → port_of_binding r b ≡ some port → IsBound port b
  unfolding port_of_binding
  port_of_binding-IsBound port b h = elim (Bool-cases (bytes_eq b.host_ip r.public_ip)) [
    | inr e ↦ absurd (ground (arith, h, e))
    | inl e ↦
        let (number, low, high) = in_range_lem port (atoi b.host_port) (ground (arith, h, e)) in
        record {
          on_public_ip = (bytes_eq_iff b.host_ip r.public_ip).0 e;
          is_port = number;
          from_start = low;
          to_end = high;
        }
  ]

  pub IsBound-port_of_binding :
      (port : ℕ) (b : Binding) → IsBound port b → port_of_binding r b ≡ some port
  unfolding port_of_binding
  IsBound-port_of_binding port b h =
      ground (
        arith,
        h.on_public_ip,
        h.is_port,
        h.from_start,
        h.to_end,
        bytes_eq_iff b.host_ip r.public_ip,
      )

  port_of_spec-IsTcp : (spec : Bytes) (port : ℤ) → port_of_spec spec ≡ some port → IsTcp spec port
  unfolding port_of_spec
  port_of_spec-IsTcp spec port h = tcp_port_lem port (cut_at_slash spec) h

  pub IsTcp-port_of_spec :
      (spec : Bytes) (port : ℤ) → IsTcp spec port → port_of_spec spec ≡ some port
  unfolding port_of_spec
  IsTcp-port_of_spec spec port (text, cut, number) = ap tcp_port cut ∙ number

  abbrev pub names_of : Container → Dict (Unit {0}) → Dict (Unit {0})
  names_of c names =
      let (name, ip) = container_endpoint r.docker_network c.networks in
      if is_nil ip then names else add_name name names

  abbrev pub map_of : Container → PortMap DnatDestination → PortMap DnatDestination
  map_of c m =
      let ip = (container_endpoint r.docker_network c.networks).1 in
      if is_nil ip then m else add_ports r ip c.ports m

  module _ (port : ℕ) (dst : DnatDestination) where
    -- Soundness: a destination that a loop leaves was there before, or an entry of the loop made it.
    bindings_sound :
        (d : DnatDestination) (bindings : List Binding) (m : PortMap DnatDestination)
        → at_port port (add_bindings r d bindings m) ≡ some dst
        → (at_port port m ≡ some dst)
          ⊎ ((d ≡ dst) × ((b : Binding) × Memᴰ b bindings × IsBound port b))
    unfolding add_bindings
    bindings_sound d [] m h = inl h
    bindings_sound d (b ∷ bindings) m h =
        elim (bindings_sound d bindings (put d (port_of_binding r b) m) h) [
          | inr (same, (found, mem, bound)) ↦ inr (same, (found, Memᴰ.tail mem, bound))
          | inl h' ↦ elim (Option-cases (port_of_binding r b)) [
            | inl e ↦ inl (ap (λ o. at_port port (put d o m)) (sym e) ∙ h')
            | inr (p, e) ↦
                let at : (if p == port then some d else at_port port m) ≡ some dst =
                  sym (at_port-set_port p port d m)
                  ∙ ap (λ o. at_port port (put d o m)) (sym e)
                  ∙ h' in
                elim (Bool-cases (p == port)) [
                  | inl same ↦ inr (
                    ground (arith, at, same),
                    (
                      b,
                      Memᴰ.head refl,
                      port_of_binding-IsBound port b (e ∙ ap some ((==_iff p port).0 same)),
                    ),
                  )
                  | inr other ↦ inl (ground (arith, at, other))
                ]
          ]
        ]

    ports_sound :
        (ip : Bytes) (ports : Dict (List Binding)) (m : PortMap DnatDestination)
        → at_port port (add_ports r ip ports m) ≡ some dst
        → (at_port port m ≡ some dst) ⊎ ((ip ≡ dst.ip) × IsListed port dst.port ports)
    unfolding add_ports
    ports_sound ip [] m h = inl h
    ports_sound ip ((spec, bindings) ∷ ports) m h =
        elim (ports_sound ip ports (add_port r ip bindings (port_of_spec spec) m) h) [
          | inr (same, (s, bs, b, mem, mem', tcp, bound)) ↦
              inr (same, (s, bs, b, Memᴰ.tail mem, mem', tcp, bound))
          | inl h' ↦ elim (Option-cases (port_of_spec spec)) [
            | inl e ↦ inl (ap (λ o. at_port port (add_port r ip bindings o m)) (sym e) ∙ h')
            | inr (p, e) ↦
                elim (bindings_sound (record { ip = ip; port = p }) bindings m
                  (ap (λ o. at_port port (add_port r ip bindings o m)) (sym e) ∙ h')) [
                    | inl h'' ↦ inl h''
                    | inr (same, (b, mem, bound)) ↦ inr (
                      ap DnatDestination.ip same,
                      (
                        spec,
                        bindings,
                        b,
                        Memᴰ.head refl,
                        mem,
                        port_of_spec-IsTcp spec dst.port
                            (e ∙ ap (λ d. some (DnatDestination.port d)) same),
                        bound,
                      ),
                    )
                  ]
          ]
        ]

    pub containers_sound :
        (containers : List Container) (m : PortMap DnatDestination) (names : Dict (Unit {0}))
        → at_port port ((add_containers r containers (m, names)).0) ≡ some dst
        → (at_port port m ≡ some dst) ⊎ IsPublished port dst containers
    unfolding add_containers
    containers_sound [] m names h = inl h
    containers_sound (c ∷ containers) m names h =
        elim (containers_sound containers (map_of c m) (names_of c names) h) [
          | inr (found, mem, p) ↦ inr (found, Memᴰ.tail mem, p)
          | inl h' ↦
              by_address c containers m
                (is_nil ((container_endpoint r.docker_network c.networks).1)) refl h'
        ]
      where
        by_address :
            (c : Container) (containers : List Container) (m : PortMap DnatDestination) (b : Bool)
            → is_nil ((container_endpoint r.docker_network c.networks).1) ≡ b
            → at_port port (
                if b
                then m
                else add_ports r ((container_endpoint r.docker_network c.networks).1) c.ports m)
              ≡ some dst
            → (at_port port m ≡ some dst) ⊎ IsPublished port dst (c ∷ containers)
        by_address c containers m true e h = inl h
        by_address c containers m false e h =
            elim (ports_sound ((container_endpoint r.docker_network c.networks).1) c.ports m h) [
              | inl h' ↦ inl h'
              | inr (same, listed) ↦ inr (
                c,
                Memᴰ.head refl,
                record {
                  at_endpoint = same;
                  has_address = ap is_nil (sym same) ∙ e;
                  listed = listed;
                },
              )
            ]
