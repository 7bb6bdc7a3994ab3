-- ===== src/Config/Node.antt =====
-- What the settings of the watcher satisfy once `LoadWatcher` gives them.
use sidero_proxy.Base.{
  ◌≡◌, refl, ap, subst, ◌⊎◌, inl, inr, Bool, true, false, if◌then◌else◌, if_cases, Result, ok, err,
  Bytes, codes, Unicode, trim_space, arith,
}
use sidero_proxy.Base.Integers.{pos, is_same}
use sidero_proxy.Config.{
  Error, NodeDnatConfig, WatcherConfig, is_nil, is_blank, validate_node, is_node_configured,
  validate_watcher,
}
use sidero_proxy.Config.Valid.{IsRange, IsRange-of, bind_result_ok}
use sidero_proxy.Config.Load.{ConfigFiles, load_json, validated_watcher, load_watcher}

-- A node without settings.
pub record IsAbsent (node : NodeDnatConfig) : Type 0 where
  pub no_address : is_nil node.public_ip ≡ true
  pub no_interface : is_nil node.tailscale_interface ≡ true
  pub no_start : is_same node.port_range.start (pos 0) ≡ true
  pub no_end : is_same node.port_range.end (pos 0) ≡ true

IsAbsent-of :
    (u : Unicode) (node : NodeDnatConfig) → is_node_configured u node ≡ false → IsAbsent node
IsAbsent-of u node h = record {
  no_address = ground (arith, h);
  no_interface = ground (arith, h);
  no_start = ground (arith, h);
  no_end = ground (arith, h);
}

pair_unless :
    {C : Type 0} (b : Bool) (e : Error) (c : C) (r : Result Error (Unit {0}) × C) (c' : C)
    → (if b then (err e, c) else r) ≡ (ok tt, c')
    → (b ≡ false) × (r ≡ (ok tt, c'))
pair_unless true e c r c' h = absurd (ground (arith, ap (λ p. p.0) h))
pair_unless false e c r c' h = (refl, h)

module _ (u : Unicode) where
  -- A node with all its settings, for those that were read.
  pub record IsGiven (read node : NodeDnatConfig) : Type 0 where
    pub address : is_blank u node.public_ip ≡ false
    pub same_address : node.public_ip ≡ read.public_ip
    pub interface : is_blank u node.tailscale_interface ≡ false
    pub same_interface : node.tailscale_interface ≡ read.tailscale_interface
    pub network : is_blank u node.docker_network ≡ false
    pub network_or_bridge :
        node.docker_network
        ≡ (if is_blank u read.docker_network then codes "bridge" else read.docker_network)
    pub same_range : node.port_range ≡ read.port_range
    pub range : IsRange node.port_range

  -- What the settings of a watcher satisfy, for those that were read.
  pub record IsWatching (read c : WatcherConfig) : Type 0 where
    pub redis : is_blank u c.redis_addr ≡ false
    pub root : is_blank u c.volumes_root ≡ false
    pub node : IsAbsent c.node_dnat ⊎ IsGiven read.node_dnat c.node_dnat

  bridge_is_given : is_blank u (codes "bridge") ≡ false
  unfolding is_blank trim_space
  bridge_is_given = refl

  network_is_given :
      (network : Bytes)
      → is_blank u (if is_blank u network then codes "bridge" else network) ≡ false
  network_is_given network =
      if_cases (λ s. is_blank u s ≡ false) (is_blank u network) (codes "bridge") network
        (λ _. bridge_is_given) (λ given. given)

  validate_node-IsWatching :
      (c c' : WatcherConfig)
      → is_blank u c.redis_addr ≡ false
      → is_blank u c.volumes_root ≡ false
      → validate_node u c ≡ (ok tt, c')
      → IsWatching c c'
  validate_node-IsWatching c c' redis root h =
      let (address, h₁) = pair_unless (is_blank u c.node_dnat.public_ip) _ _ _ c' h in
      let (interface, h₂) = pair_unless (is_blank u c.node_dnat.tailscale_interface) _ _ _ c' h₁ in
      subst (IsWatching c) (ap (λ p. p.1) h₂) (record {
        redis = redis;
        root = root;
        node = inr (record {
          address = address;
          same_address = refl;
          interface = interface;
          same_interface = refl;
          network = network_is_given c.node_dnat.docker_network;
          network_or_bridge = refl;
          same_range = refl;
          range =
              IsRange-of (codes "node_dnat.port_range") c.node_dnat.port_range.start
                c.node_dnat.port_range.end (ap (λ p. p.0) h₂);
        });
      })

  validate_watcher-IsWatching :
      (c c' : WatcherConfig) → validate_watcher u c ≡ (ok tt, c') → IsWatching c c'
  unfolding validate_watcher
  validate_watcher-IsWatching c c' h =
      let (redis, h₁) = pair_unless (is_blank u c.redis_addr) _ _ _ c' h in
      let (root, h₂) = pair_unless (is_blank u c.volumes_root) _ _ _ c' h₁ in
      configured_cases redis root (is_node_configured u c.node_dnat) refl h₂
    where
      configured_cases :
          is_blank u c.redis_addr ≡ false
          → is_blank u c.volumes_root ≡ false
          → (b : Bool) → is_node_configured u c.node_dnat ≡ b
          → (if b then validate_node u c else (ok tt, c)) ≡ (ok tt, c')
          → IsWatching c c'
      configured_cases redis root true e k = validate_node-IsWatching c c' redis root k
      configured_cases redis root false e k =
          subst (IsWatching c) (ap (λ p. p.1) k)
            (record { redis = redis; root = root; node = inl (IsAbsent-of u c.node_dnat e) })

  validated_watcher-IsWatching :
      (files : ConfigFiles) (c c' : WatcherConfig) (r : Result Error (Unit {0}) × WatcherConfig)
      → validate_watcher u c ≡ r
      → validated_watcher u files r ≡ ok c'
      → IsWatching c c'
  validated_watcher-IsWatching files c c' (ok x, d) e h =
      let same : d ≡ c' = ground (arith, h) in
      subst (IsWatching c) same (validate_watcher-IsWatching c d e)
  validated_watcher-IsWatching files c c' (err x, d) e h = absurd (ground (arith, h))

  -- The settings that `LoadWatcher` gives name a Redis and a root. Either nothing is said of the node, and
  -- its ports are 0, or its address, its interface and its range of ports are those of the file, the first
  -- two not blank and the range not empty, within 1 to 65535, and the network is that of the file, or
  -- `bridge` if the file's is blank.
  pub load_watcher-IsWatching :
      (files : ConfigFiles) (path : Bytes) (cfg : WatcherConfig)
      → load_watcher u files path ≡ ok cfg
      → (read : WatcherConfig) × (load_json u files files.decode_watcher path ≡ ok read)
        × IsWatching read cfg
  unfolding load_watcher
  load_watcher-IsWatching files path cfg h =
      let (read, decoded, accepted) =
        bind_result_ok (load_json u files files.decode_watcher path)
          (λ c. validated_watcher u files (validate_watcher u c)) cfg h in
      (
        read,
        decoded,
        validated_watcher-IsWatching files read cfg (validate_watcher u read) refl accepted,
      )
