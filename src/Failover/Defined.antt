-- ===== src/Failover/Defined.antt =====
-- What the accepted settings of the controller mean for the zone that it keeps.
use sidero_proxy.Base.{
  ℕ, ◌+◌, ◌≡◌, refl, sym, ap, subst, ◌∙◌, Bool, true, false, some, List, [], ◌∷◌, map, All, All-Mem,
  if◌then◌else◌, ok, ◌⊎◌, inl, inr, Bytes, bytes_eq, bytes_eq_refl, sort, sort_strings, Unicode,
  arith,
}
use mathlib.Core.List.{Memᴰ}
use sidero_proxy.Base.Dict.{Dict, lookup, insert, lookup-insert}
use sidero_proxy.Base.Members.{elem, elem-sort}
use sidero_proxy.Base.Integers.{is_not_positive, is_negative}
use sidero_proxy.Config.{FailoverRegion, FailoverHostname, FailoverConfig, is_nil, is_blank}
use sidero_proxy.Config.Valid.{unless_err, bind_result_ok}
use sidero_proxy.Config.Regions.{
  is_unknown, validate_region, validate_regions, validate_hostname, validate_hostnames,
  validate_names_used, validate_failover,
}
use sidero_proxy.Failover.{
  DnsRecord, Environment, ControllerState, add_regions, or_zero_region, region_of, reconcile,
}
use sidero_proxy.Failover.Zone.{Zone}
use sidero_proxy.Failover.Reconciled.{IsServed, HasRegion, IsUntouched, reconcile-IsServed}

-- A region with an address to answer.
abbrev pub HasAnswer : FailoverRegion → Type 0
HasAnswer region = is_nil region.answer_ips ≡ false

-- Every name of the set has a region in the table, with an address.
abbrev IsTabled : Dict (Unit {0}) → Dict FailoverRegion → Type 0
IsTabled names table =
    (k : Bytes)
    → is_unknown (lookup k names) ≡ false
    → (region : FailoverRegion) × (lookup k table ≡ some region) × HasAnswer region

nothing_known : IsTabled [] []
unfolding lookup
nothing_known k known = absurd (ground (arith, known))

IsTabled-insert :
    (names : Dict (Unit {0})) (table : Dict FailoverRegion) (region : FailoverRegion)
    → HasAnswer region
    → IsTabled names table
    → IsTabled (insert region.name tt names) (insert region.name region table)
IsTabled-insert names table region answers tabled k known = key_cases (bytes_eq region.name k) refl
  where
    key_cases :
        (b : Bool)
        → bytes_eq region.name k ≡ b
        → (found : FailoverRegion) × (lookup k (insert region.name region table) ≡ some found)
          × HasAnswer found
    key_cases true e = (
      region,
      lookup-insert region.name k region table
          ∙ ap (λ b. if b then some region else lookup k table) e,
      answers,
    )
    key_cases false e =
        let before =
          ap is_unknown (
            sym (
              lookup-insert region.name k tt names
              ∙ ap (λ b. if b then some tt else lookup k names) e))
          ∙ known in
        let (found, at, has) = tabled k before in
        (
          found,
          lookup-insert region.name k region table
              ∙ ap (λ b. if b then some region else lookup k table) e
              ∙ at,
          has,
        )

module _ (u : Unicode) where
  validate_region-HasAnswer :
      (i : ℕ) (region : FailoverRegion) → validate_region u i region ≡ ok tt → HasAnswer region
  validate_region-HasAnswer i region h =
      let (named, h₁) = unless_err (is_blank u region.name) _ _ tt h in
      let (probed, h₂) = unless_err (is_blank u region.health_url) _ _ tt h₁ in
      (unless_err (is_nil region.answer_ips) _ _ tt h₂).0

  validate_regions-IsTabled :
      (i : ℕ) (names names' : Dict (Unit {0})) (regions : List FailoverRegion)
      (table : Dict FailoverRegion)
      → validate_regions u i names regions ≡ ok names'
      → IsTabled names table
      → IsTabled names' (add_regions regions table)
  unfolding validate_regions add_regions
  validate_regions-IsTabled i names names' [] table h tabled =
      let same : names ≡ names' = ground (arith, h) in subst (λ s. IsTabled s table) same tabled
  validate_regions-IsTabled i names names' (region ∷ regions) table h tabled =
      let (x, good, rest) =
        bind_result_ok (validate_region u i region)
          (λ _. validate_regions u (i + 1) (insert region.name tt names) regions) names' h in
      validate_regions-IsTabled (i + 1) (insert region.name tt names) names' regions
        (insert region.name region table) rest
        (IsTabled-insert names table region (validate_region-HasAnswer i region good) tabled)

  validate_hostnames-All :
      (names : Dict (Unit {0})) (i : ℕ) (hostnames : List FailoverHostname)
      → validate_hostnames u names i hostnames ≡ ok tt
      → All
          (λ hostname. is_unknown (lookup (FailoverHostname.region hostname) names) ≡ false)
          hostnames
  unfolding validate_hostnames
  validate_hostnames-All names i [] h = tt
  validate_hostnames-All names i (hostname ∷ hostnames) h =
      let (x, good, rest) =
        bind_result_ok (validate_hostname u names i hostname)
          (λ _. validate_hostnames u names (i + 1) hostnames) tt h in
      let (named, h₁) = unless_err (is_blank u hostname.name) _ _ tt good in
      let (placed, h₂) = unless_err (is_blank u hostname.region) _ _ tt h₁ in
      let (known, h₃) = unless_err (is_unknown (lookup hostname.region names)) _ _ tt h₂ in
      (known, validate_hostnames-All names (i + 1) hostnames rest)

  region_of-HasAnswer :
      (c : FailoverConfig) (names : Dict (Unit {0})) (k : Bytes)
      → IsTabled names (add_regions c.regions [])
      → is_unknown (lookup k names) ≡ false
      → HasAnswer (region_of c k)
  unfolding region_of
  region_of-HasAnswer c names k tabled known =
      let (region, at, has) = tabled k known in
      ap (λ o. is_nil (FailoverRegion.answer_ips (or_zero_region o))) at ∙ has

  -- The regions that the controller may choose have addresses.
  record IsAnswering (c : FailoverConfig) : Type 0 where
    fallback : HasAnswer (region_of c c.fallback_region)
    own : All (λ hostname. HasAnswer (region_of c (FailoverHostname.region hostname))) c.hostnames

  known-HasAnswer :
      (c : FailoverConfig) (names : Dict (Unit {0})) (hostnames : List FailoverHostname)
      → IsTabled names (add_regions c.regions [])
      → All
          (λ hostname. is_unknown (lookup (FailoverHostname.region hostname) names) ≡ false)
          hostnames
      → All (λ hostname. HasAnswer (region_of c (FailoverHostname.region hostname))) hostnames
  known-HasAnswer c names [] tabled _ = tt
  known-HasAnswer c names (hostname ∷ hostnames) tabled (known, all) = (
    region_of-HasAnswer c names hostname.region tabled known,
    known-HasAnswer c names hostnames tabled all,
  )

  validate_failover-IsAnswering :
      (c : FailoverConfig) → validate_failover u c ≡ ok tt → IsAnswering c
  unfolding validate_failover
  validate_failover-IsAnswering c h =
      let (_, h₁) = unless_err (is_blank u c.api_token) _ _ tt h in
      let (_, h₂) = unless_err (is_blank u c.zone_id) _ _ tt h₁ in
      let (_, h₃) = unless_err (is_blank u c.fallback_region) _ _ tt h₂ in
      let (_, h₄) = unless_err (is_not_positive c.probe_interval_seconds) _ _ tt h₃ in
      let (_, h₅) = unless_err (is_negative c.failback_window_seconds) _ _ tt h₄ in
      let (_, h₆) = unless_err (is_nil c.regions) _ _ tt h₅ in
      let (_, h₇) = unless_err (is_nil c.hostnames) _ _ tt h₆ in
      let (names, named, h₈) =
        bind_result_ok (validate_regions u 0 [] c.regions) (validate_names_used u c) tt h₇ in
      let (fallback_known, h₉) =
        unless_err (is_unknown (lookup c.fallback_region names)) _ _ tt h₈ in
      let tabled = validate_regions-IsTabled 0 [] names c.regions [] named nothing_known in
      record {
        fallback = region_of-HasAnswer c names c.fallback_region tabled fallback_known;
        own =
            known-HasAnswer c names c.hostnames tabled
              (validate_hostnames-All names 0 c.hostnames h₉);
      }

is_first : (ip : Bytes) (ips : List Bytes) → elem ip (ip ∷ ips) ≡ true
unfolding elem
is_first ip ips = ground (arith, bytes_eq_refl ip)

is_member_of_none : (ip : Bytes) → elem ip (sort_strings []) ≡ true → ⊥
unfolding elem sort
is_member_of_none ip h = ground (arith, h)

module _ {W : Type 0} (env : Environment W) (cfg : FailoverConfig)
    (zone : Zone env cfg.zone_id) where
  HasRegion-records :
      (w : W) (name : Bytes) (region : FailoverRegion)
      → HasAnswer region
      → HasRegion env cfg zone w name region
      → is_nil (zone.records w name) ≡ false
  HasRegion-records w name region has same =
      records_cases (zone.records w name) region.answer_ips has same
    where
      records_cases :
          (records : List DnsRecord) (ips : List Bytes)
          → is_nil ips ≡ false
          → sort_strings (map DnsRecord.content records) ≡ sort_strings ips
          → is_nil records ≡ false
      records_cases (found ∷ records) ips _ _ = refl
      records_cases [] [] has _ = absurd (ground (arith, has))
      records_cases [] (ip ∷ ips) has e =
          absurd (is_member_of_none ip (ap (elem ip) e ∙ elem-sort ip (ip ∷ ips) ∙ is_first ip ips))

  -- With settings that `FailoverConfig.Validate` accepts, a `Reconcile` that succeeds leaves no hostname
  -- of the settings without an address: whichever regions are down, and whatever the zone held before.
  pub reconcile-has_records :
      (u : Unicode) (s s' : ControllerState W) (hostname : FailoverHostname)
      → validate_failover u cfg ≡ ok tt
      → Memᴰ hostname cfg.hostnames
      → reconcile env cfg s ≡ (ok tt, s')
      → is_nil (zone.records s'.world hostname.name) ≡ false
  reconcile-has_records u s s' hostname accepted listed done =
      served (reconcile-IsServed env cfg zone s s' hostname.name done)
    where
      answering : IsAnswering u cfg
      answering = validate_failover-IsAnswering u cfg accepted

      served :
          IsServed env cfg zone cfg.hostnames s'.world hostname.name
            ⊎ IsUntouched env cfg zone cfg.hostnames s.world s'.world hostname.name
          → is_nil (zone.records s'.world hostname.name) ≡ false
      served (inl (h, m, e, inl own)) =
          HasRegion-records s'.world hostname.name (region_of cfg h.region)
            (All-Mem (λ g. HasAnswer (region_of cfg (FailoverHostname.region g))) cfg.hostnames
              answering.own h m)
            own
      served (inl (h, m, e, inr fallback)) =
          HasRegion-records s'.world hostname.name (region_of cfg cfg.fallback_region)
            answering.fallback fallback
      served (inr (none_named, _)) = absurd (
          ground (
            arith,
            bytes_eq_refl hostname.name,
            All-Mem (λ g. bytes_eq (FailoverHostname.name g) hostname.name ≡ false) cfg.hostnames
                none_named hostname listed,
          ))
