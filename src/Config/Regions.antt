-- ===== src/Config/Regions.antt =====
-- internal/config/config.go: `FailoverConfig.Validate`.
use sidero_proxy.Base.{
  ℕ, ◌+◌, List, [], ◌∷◌, ◌++◌, if◌then◌else◌, Result, ok, err, bind_result, Bool, true, false,
  codes, Unicode, Option, none, some,
}
use sidero_proxy.Base.Dict.{Dict, lookup, insert}
use sidero_proxy.Base.Integers.{is_not_positive, is_negative}
use sidero_proxy.Config.{
  Error, FailoverRegion, FailoverHostname, FailoverConfig, is_nil, is_blank, indexed,
}

-- The map `regionNames`, and the test of a name in it.
abbrev pub is_unknown : Option (Unit {0}) → Bool
is_unknown none = true
is_unknown (some x) = false

module _ (u : Unicode) where
  abbrev pub validate_region : ℕ → FailoverRegion → Result Error (Unit {0})
  validate_region i region =
      if is_blank u region.name
      then err (indexed u (codes "regions") i (codes ".name is required"))
      else if is_blank u region.health_url
      then err (indexed u (codes "regions") i (codes ".health_url is required"))
      else if is_nil region.answer_ips
      then err (indexed u (codes "regions") i (codes ".answer_ips must not be empty"))
      else ok tt

  -- The loop over the regions, from index `i`, with the names so far.
  unfoldable pub validate_regions :
      ℕ → Dict (Unit {0}) → List FailoverRegion → Result Error (Dict (Unit {0}))
  unfolding insert
  validate_regions i region_names [] = ok region_names
  validate_regions i region_names (region ∷ regions) =
      let rest = validate_regions (i + 1) (insert region.name tt region_names) regions in
      bind_result (validate_region i region) (λ _. rest)

  abbrev pub validate_hostname : Dict (Unit {0}) → ℕ → FailoverHostname → Result Error (Unit {0})
  validate_hostname region_names i hostname =
      if is_blank u hostname.name
      then err (indexed u (codes "hostnames") i (codes ".name is required"))
      else if is_blank u hostname.region
      then err (indexed u (codes "hostnames") i (codes ".region is required"))
      else if is_unknown (lookup hostname.region region_names)
      then err (
          indexed u (codes "hostnames") i
            (codes ".region " ++ (u.quote hostname.region ++ codes " is not defined in regions")))
      else if is_not_positive hostname.ttl
      then err (indexed u (codes "hostnames") i (codes ".ttl must be greater than zero"))
      else ok tt

  -- The loop over the hostnames, from index `i`.
  unfoldable pub validate_hostnames :
      Dict (Unit {0}) → ℕ → List FailoverHostname → Result Error (Unit {0})
  validate_hostnames region_names i [] = ok tt
  validate_hostnames region_names i (hostname ∷ hostnames) =
      let rest = validate_hostnames region_names (i + 1) hostnames in
      bind_result (validate_hostname region_names i hostname) (λ _. rest)

  -- `Validate` behind the loop over the regions.
  abbrev pub validate_names_used : FailoverConfig → Dict (Unit {0}) → Result Error (Unit {0})
  validate_names_used c region_names =
      if is_unknown (lookup c.fallback_region region_names)
      then err (
          codes "fallback_region "
          ++ (u.quote c.fallback_region ++ codes " is not defined in regions"))
      else validate_hostnames region_names 0 c.hostnames

  unfoldable pub validate_failover : FailoverConfig → Result Error (Unit {0})
  validate_failover c =
      if is_blank u c.api_token
      then err (codes "cloudflare.api_token is required")
      else if is_blank u c.zone_id
      then err (codes "cloudflare.zone_id is required")
      else if is_blank u c.fallback_region
      then err (codes "fallback_region is required")
      else if is_not_positive c.probe_interval_seconds
      then err (codes "probe_interval_seconds must be greater than zero")
      else if is_negative c.failback_window_seconds
      then err (codes "failback_window_seconds cannot be negative")
      else if is_nil c.regions
      then err (codes "at least one region is required")
      else if is_nil c.hostnames
      then err (codes "at least one hostname is required")
      else bind_result (validate_regions 0 [] c.regions) (validate_names_used c)
