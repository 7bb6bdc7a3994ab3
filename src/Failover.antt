-- ===== src/Failover.antt =====
-- internal/failover/controller.go: the controller that points each hostname at its region or at the
-- fallback. The health checks, the clock and the DNS service are the parameter `env`; the clock counts
-- nanoseconds. `Run` is a fold over what wakes it.
pub mod Zone
pub mod Cloudflare
pub mod Records
pub mod Failback
pub mod Reconciled
pub mod Defined
use sidero_proxy.Base.{
  ℕ, ◌+◌, ◌-◌, ◌*◌, Bool, true, false, ◌&&◌, Option, none, some, List, [], ◌∷◌, ◌++◌, map, ltb,
  if◌then◌else◌, Result, ok, err, Action, pure, ◌>>=◌, ◌>>◌, continue_with, Bytes, codes, bytes_eq,
  sort_strings,
}
use sidero_proxy.Base.Dict.{Dict, lookup, insert}
use sidero_proxy.Base.Integers.{ℤ, pos, negsuc}
use sidero_proxy.Config.{FailoverRegion, FailoverHostname, FailoverConfig}

abbrev pub Error : Type 0
Error = Bytes

pub record DnsRecord : Type 0 where
  pub id : Bytes
  pub name : Bytes
  pub content : Bytes
  pub ttl : ℤ
  pub record_type : Bytes

-- The interfaces `HealthChecker` and `DNSClient`, and `time.Now`.
pub record Environment (W : Type 0) : Type 0 where
  pub healthy : Bytes → Action W Error (Unit {0})
  pub now : W → ℕ
  pub list_a_records : Bytes → Bytes → Action W Error (List DnsRecord)
  pub delete_record : Bytes → Bytes → Action W Error (Unit {0})
  pub create_a_record : Bytes → Bytes → Bytes → ℤ → Action W Error (Unit {0})

-- `none` is Go's zero time.
pub record RegionState : Type 0 where
  pub healthy_since : Option ℕ
  pub on_fallback : Bool

abbrev pub fresh_state : RegionState
fresh_state = record { healthy_since = none; on_fallback = false }

-- `window > 0 && now.Sub(since) < window * time.Second`, where the product is in the range of int64
unfoldable pub in_window : ℤ → ℕ → ℕ → Bool
in_window (pos seconds) now since = ltb 0 seconds && ltb (now - since) (seconds * 1000000000)
in_window (negsuc n) now since = false

abbrev pub or_now : Option ℕ → ℕ → ℕ
or_now none now = now
or_now (some since) now = since

-- The choice that `Reconcile` makes for one hostname: whether it is the fallback, and the region's
-- next state.
unfoldable pub choose : ℤ → Bool → Bool → ℕ → RegionState → Bool × RegionState
choose window fallback_healthy true now s =
    let since = or_now s.healthy_since now in
    if s.on_fallback && in_window window now since
    then (true, record s { healthy_since = some since })
    else (false, record { healthy_since = some since; on_fallback = false })
choose window fallback_healthy false now s =
    if fallback_healthy
    then (true, record { healthy_since = none; on_fallback = true })
    else (false, record s { healthy_since = none })

-- The map that `NewController` makes of the regions: the last one of a name.
unfoldable pub add_regions : List FailoverRegion → Dict FailoverRegion → Dict FailoverRegion
unfolding insert
add_regions [] m = m
add_regions (region ∷ regions) m = add_regions regions (insert region.name region m)

abbrev or_zero_region : Option FailoverRegion → FailoverRegion
or_zero_region (some region) = region
or_zero_region none = record { name = []; health_url = []; answer_ips = [] }

unfoldable pub region_of : FailoverConfig → Bytes → FailoverRegion
unfolding add_regions lookup
region_of cfg name = or_zero_region (lookup name (add_regions cfg.regions []))

abbrev pub or_fresh : Option RegionState → RegionState
or_fresh (some s) = s
or_fresh none = fresh_state

abbrev pub is_ok : {A : Type 0} → Result Error A → Bool
is_ok (ok a) = true
is_ok (err e) = false

pub record ControllerState (W : Type 0) : Type 0 where
  pub world : W
  pub regions : Dict RegionState

-- `slices.Equal`
unfoldable pub texts_equal : List Bytes → List Bytes → Bool
unfolding bytes_eq
texts_equal [] [] = true
texts_equal [] (t ∷ ts) = false
texts_equal (s ∷ ss) [] = false
texts_equal (s ∷ ss) (t ∷ ts) = bytes_eq s t && texts_equal ss ts

module _ {W : Type 0} (env : Environment W) (cfg : FailoverConfig) where
  unfoldable pub delete_records : List DnsRecord → Action W Error (Unit {0})
  delete_records [] = pure tt
  delete_records (found ∷ rest) = do env.delete_record cfg.zone_id found.id; delete_records rest

  unfoldable pub create_records : FailoverHostname → List Bytes → Action W Error (Unit {0})
  create_records hostname [] = pure tt
  create_records hostname (ip ∷ ips) = do
    env.create_a_record cfg.zone_id hostname.name ip hostname.ttl
    create_records hostname ips

  -- The end of `ensureHostname`, where the records are known.
  unfoldable pub replace_records :
      FailoverHostname → List Bytes → List DnsRecord → Action W Error (Unit {0})
  unfolding texts_equal
  replace_records hostname ips records =
      if texts_equal (sort_strings (map DnsRecord.content records)) (sort_strings ips)
      then pure tt
      else do delete_records records; create_records hostname ips

  unfoldable pub ensure_hostname : FailoverHostname → FailoverRegion → Action W Error (Unit {0})
  ensure_hostname hostname region = do
    records ← env.list_a_records cfg.zone_id hostname.name
    replace_records hostname region.answer_ips records

  abbrev pub on_world : {A : Type 0} → Action W Error A → Action (ControllerState W) Error A
  on_world m s = let (result, w) = m s.world in (result, record s { world = w })

  abbrev pub cached_or_asked :
      Bytes
      → Dict (Result Error (Unit {0}))
      → ControllerState W
      → Option (Result Error (Unit {0}))
      → Result Error (Unit {0}) × Dict (Result Error (Unit {0})) × ControllerState W
  cached_or_asked name cache s (some health) = (health, cache, s)
  cached_or_asked name cache s none =
      let (health, w) = env.healthy (FailoverRegion.health_url (region_of cfg name)) s.world in
      (health, insert name health cache, record s { world = w })

  -- The health of a region, which one `Reconcile` asks for once: the map `regionHealth`.
  abbrev pub health_of :
      Bytes
      → Dict (Result Error (Unit {0}))
      → ControllerState W
      → Result Error (Unit {0}) × Dict (Result Error (Unit {0})) × ControllerState W
  health_of name cache s = cached_or_asked name cache s (lookup name cache)

  -- One round of the loop behind the health check: the region that is wanted, and the new state.
  abbrev pub wanted :
      Bool
      → FailoverHostname
      → Result Error (Unit {0})
      → ControllerState W
      → FailoverRegion × ControllerState W
  wanted fallback_healthy hostname health s =
      let state = or_fresh (lookup hostname.region s.regions) in
      let (on_fallback, state') =
        choose cfg.failback_window_seconds fallback_healthy (is_ok health) (env.now s.world)
          state in
      (
        if on_fallback then region_of cfg cfg.fallback_region else region_of cfg hostname.region,
        record s { regions = insert hostname.region state' s.regions },
      )

  -- The loop of `Reconcile` over the hostnames.
  unfoldable pub reconcile_hostnames :
      Bool
      → List FailoverHostname
      → Dict (Result Error (Unit {0}))
      → Action (ControllerState W) Error (Unit {0})
  unfolding lookup insert
  reconcile_hostnames fallback_healthy [] cache s = (ok tt, s)
  reconcile_hostnames fallback_healthy (hostname ∷ hostnames) cache s =
      let (health, cache', s₁) = health_of hostname.region cache s in
      let (region, s₂) = wanted fallback_healthy hostname health s₁ in
      continue_with (λ _. reconcile_hostnames fallback_healthy hostnames cache')
        (on_world (ensure_hostname hostname region) s₂)

  unfoldable pub reconcile : Action (ControllerState W) Error (Unit {0})
  reconcile s =
      let fallback = region_of cfg cfg.fallback_region in
      let (health, w) = env.healthy fallback.health_url s.world in
      reconcile_hostnames (is_ok health) cfg.hostnames [] (record s { world = w })

  -- `Run` on what wakes it: a tick, or the end of the context. An error is only logged.
  pub data Wake : Type 0 where
    tick done : Wake

  unfoldable pub run_wakes : List Wake → ControllerState W → ControllerState W
  unfolding reconcile
  run_wakes [] s = s
  run_wakes (tick ∷ wakes) s = run_wakes wakes ((reconcile s).1)
  run_wakes (done ∷ wakes) s = s

  unfoldable pub run : List Wake → ControllerState W → ControllerState W
  unfolding reconcile run_wakes
  run wakes s = run_wakes wakes ((reconcile s).1)
