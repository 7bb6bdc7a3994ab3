-- ===== src/Config/Load.antt =====
-- internal/config/config.go: `LoadProxy`, `LoadWatcher` and `LoadFailover`. Opening a file and decoding
-- its JSON are parameters.
use sidero_proxy.Base.{
  ◌≡◌, refl, subst, ◌++◌, Result, ok, err, bind_result, prefix_error, Bytes, codes, Unicode, arith,
}
use sidero_proxy.Config.{
  Error, ProxyConfig, WatcherConfig, FailoverConfig, validate_proxy, validate_watcher,
}
use sidero_proxy.Config.Regions.{validate_failover}
use sidero_proxy.Config.Valid.{IsValid, validate_proxy-IsValid}

pub record ConfigFiles : Type 0 where
  pub open_file : Bytes → Result Error Bytes
  pub decode_proxy : Bytes → Result Error ProxyConfig
  pub decode_watcher : Bytes → Result Error WatcherConfig
  pub decode_failover : Bytes → Result Error FailoverConfig

module _ (u : Unicode) (files : ConfigFiles) where
  -- `loadJSON`
  unfoldable pub load_json : {A : Type 0} → (Bytes → Result Error A) → Bytes → Result Error A
  load_json decode path =
      bind_result (prefix_error (codes "open " ++ (path ++ codes ": ")) (files.open_file path))
        (λ text. prefix_error (codes "decode " ++ (path ++ codes ": ")) (decode text))

  abbrev validated : {A : Type 0} → (A → Result Error (Unit {0})) → A → Result Error A
  validated validate cfg = bind_result (validate cfg) (λ _. ok cfg)

  unfoldable pub load_proxy : Bytes → Result Error ProxyConfig
  load_proxy path = bind_result (load_json files.decode_proxy path) (validated (validate_proxy u))

  unfoldable pub load_failover : Bytes → Result Error FailoverConfig
  load_failover path =
      bind_result (load_json files.decode_failover path) (validated (validate_failover u))

  -- The settings as the validation leaves them.
  abbrev pub validated_watcher :
      Result Error (Unit {0}) × WatcherConfig → Result Error WatcherConfig
  validated_watcher (ok x, cfg) = ok cfg
  validated_watcher (err e, cfg) = err e

  unfoldable pub load_watcher : Bytes → Result Error WatcherConfig
  load_watcher path =
      bind_result (load_json files.decode_watcher path)
        (λ cfg. validated_watcher (validate_watcher u cfg))

  validated_ok :
      (r : Result Error ProxyConfig) (cfg : ProxyConfig)
      → bind_result r (validated (validate_proxy u)) ≡ ok cfg
      → validate_proxy u cfg ≡ ok tt
  validated_ok (err e) cfg h = absurd (ground arith)
  validated_ok (ok read) cfg h = by_result (validate_proxy u read) refl h
    where
      by_result :
          (v : Result Error (Unit {0}))
          → validate_proxy u read ≡ v
          → bind_result v (λ _. ok read) ≡ ok cfg
          → validate_proxy u cfg ≡ ok tt
      by_result (ok x) e k =
          let same : read ≡ cfg = ground (arith, k) in
          subst (λ c. validate_proxy u c ≡ ok tt) same e
      by_result (err x) e k = absurd (ground arith)

  -- The settings that `LoadProxy` gives have two different listening ports and a range of ports that is
  -- not empty, all within 1 to 65535. Every server has a backend address and no blank hostname, and some
  -- server has a public address.
  pub load_proxy-IsValid :
      (path : Bytes) (cfg : ProxyConfig) → load_proxy path ≡ ok cfg → IsValid u cfg
  unfolding load_proxy
  load_proxy-IsValid path cfg h =
      validate_proxy-IsValid u cfg (validated_ok (load_json files.decode_proxy path) cfg h)
