-- ===== src/Runs/ConfigRuns.antt =====
-- Runs of internal/config.
use sidero_proxy.Base.{◌≡◌, refl, [], ◌∷◌, codes, ok, err, trim_space}
use sidero_proxy.Base.Integers.{pos}
use sidero_proxy.Config.{
  ProxyConfig, validate_proxy, validate_servers, validate_names, validate_range, is_blank,
  is_bad_port,
}
use sidero_proxy.Config.{WatcherConfig, validate_watcher}
use sidero_proxy.Config.Valid.{IsValid}
use sidero_proxy.Config.Load.{ConfigFiles, load_json, load_proxy, load_watcher, load_proxy-IsValid}
use sidero_proxy.Config.Node.{IsWatching, load_watcher-IsWatching}
use sidero_proxy.Runs.{plain_unicode}

abbrev settings : ProxyConfig
settings = record {
  proxy_id = codes "p1";
  redis_addr = codes "redis:6379";
  redis_password = [];
  ip_ttl_seconds = pos 3600;
  intercept_port = pos 26000;
  health_port = pos 8080;
  port_range = record { start = pos 25565; end = pos 25600 };
  servers =
      record {
        name = codes "survival";
        proxy_public_ip = codes "203.0.113.7";
        hostnames = codes "a.b" ∷ [];
        backend_ip = codes "100.64.0.9";
      }
      ∷ [];
}

accepted : validate_proxy plain_unicode settings ≡ ok tt
unfolding validate_proxy validate_servers validate_names validate_range is_blank is_bad_port
    trim_space
accepted = refl

-- A range that ends before it starts.
backwards :
    validate_range (codes "port_range") (record { start = pos 2; end = pos 1 })
    ≡ err (codes "port_range.end must be greater than or equal to port_range.start")
unfolding validate_range is_bad_port
backwards = refl

-- Every file holds the same settings of a proxy and of a watcher, the latter without a network.
abbrev watched : WatcherConfig
watched = record {
  redis_addr = codes "redis:6379";
  redis_password = [];
  volumes_root = codes "/srv";
  node_dnat = record {
    public_ip = codes "203.0.113.1";
    tailscale_interface = codes "tailscale0";
    docker_network = [];
    port_range = record { start = pos 25565; end = pos 25600 };
  };
}

abbrev files : ConfigFiles
files = record {
  open_file = λ path. ok [];
  decode_proxy = λ text. ok settings;
  decode_watcher = λ text. ok watched;
  decode_failover = λ text. err (codes "EOF");
}

loads_proxy : load_proxy plain_unicode files (codes "config.json") ≡ ok settings
unfolding load_proxy load_json validate_proxy validate_servers validate_names validate_range
    is_blank is_bad_port trim_space
loads_proxy = refl

load_proxy-IsValid_example : IsValid plain_unicode settings
load_proxy-IsValid_example =
    load_proxy-IsValid plain_unicode files (codes "config.json") settings loads_proxy

abbrev bridged : WatcherConfig
bridged = record watched {
  node_dnat = record {
    public_ip = codes "203.0.113.1";
    tailscale_interface = codes "tailscale0";
    docker_network = codes "bridge";
    port_range = record { start = pos 25565; end = pos 25600 };
  };
}

loads_watcher : load_watcher plain_unicode files (codes "watcher.json") ≡ ok bridged
unfolding load_watcher load_json validate_watcher validate_range is_blank is_bad_port trim_space
loads_watcher = refl

load_watcher-IsWatching_example :
    (read : WatcherConfig) × (load_json plain_unicode files files.decode_watcher
        (codes "watcher.json")
      ≡ ok read)
    × IsWatching plain_unicode read bridged
load_watcher-IsWatching_example =
    load_watcher-IsWatching plain_unicode files (codes "watcher.json") bridged loads_watcher
