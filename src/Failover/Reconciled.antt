-- ===== src/Failover/Reconciled.antt =====
-- What `Reconcile` leaves in the zone.
use sidero_proxy.Base.{
  continue_ok, ◌≡◌, refl, sym, ap, ◌∙◌, Bool, true, false, List, [], ◌∷◌, map, All, if◌then◌else◌,
  Result, ok, none, some, Option, Bool-cases, inl, inr, ◌⊎◌, Bytes, bytes_eq, bytes_eq_iff,
  sort_strings,
}
use mathlib.Core.List.{Memᴰ}
use sidero_proxy.Base.Dict.{Dict, lookup}
use sidero_proxy.Config.{FailoverRegion, FailoverHostname, FailoverConfig}
use sidero_proxy.Failover.{
  DnsRecord, Environment, ControllerState, Error, region_of, health_of, cached_or_asked, wanted,
  on_world, is_ok, ensure_hostname, reconcile_hostnames, reconcile,
}
use sidero_proxy.Failover.Zone.{Zone}
use sidero_proxy.Failover.Records.{Ensured, ensure_hostname-Ensured}

module _ {W : Type 0} (env : Environment W) (cfg : FailoverConfig)
    (zone : Zone env cfg.zone_id) where
  -- A name has the addresses of a region in the world `w`.
  abbrev pub HasRegion : W → Bytes → FailoverRegion → Type 0
  HasRegion w name region =
      sort_strings (map DnsRecord.content (zone.records w name)) ≡ sort_strings region.answer_ips

  -- A name is that of a hostname of the list, and has the addresses of its region or of the fallback.
  abbrev pub IsServed : List FailoverHostname → W → Bytes → Type 0
  IsServed hostnames w name =
      (hostname : FailoverHostname) × Memᴰ hostname hostnames
      × (hostname.name ≡ name)
      × (HasRegion w name (region_of cfg hostname.region)
          ⊎ HasRegion w name (region_of cfg cfg.fallback_region))

  -- A name is none of the list's, and its records are those of the world `w`.
  abbrev pub IsUntouched : List FailoverHostname → W → W → Bytes → Type 0
  IsUntouched hostnames w w' name =
      All (λ hostname. bytes_eq (FailoverHostname.name hostname) name ≡ false) hostnames
      × (zone.records w' name ≡ zone.records w name)

  cached_or_asked-records :
      (region : Bytes) (cache : Dict (Result Error (Unit {0}))) (s : ControllerState W)
      (known : Option (Result Error (Unit {0}))) (j : Bytes)
      → zone.records (ControllerState.world ((cached_or_asked env cfg region cache s known).2)) j
        ≡ zone.records s.world j
  cached_or_asked-records region cache s (some health) j = refl
  cached_or_asked-records region cache s none j = zone.probed _ s.world _ _ refl j

  either_region :
      (b : Bool) (x y : FailoverRegion) → ((if b then x else y) ≡ y) ⊎ ((if b then x else y) ≡ x)
  either_region true x y = inr refl
  either_region false x y = inl refl

  -- One hostname, and then the others.
  IsServed-before :
      (hostname : FailoverHostname) (hostnames : List FailoverHostname) (region : FailoverRegion)
      (w v w' : W) (name : Bytes)
      → Ensured env cfg zone hostname region.answer_ips w v
      → (region ≡ region_of cfg hostname.region) ⊎ (region ≡ region_of cfg cfg.fallback_region)
      → IsServed hostnames w' name ⊎ IsUntouched hostnames v w' name
      → IsServed (hostname ∷ hostnames) w' name ⊎ IsUntouched (hostname ∷ hostnames) w w' name
  IsServed-before hostname hostnames region w v w' name done which (inl (h, m, e, r)) =
      inl (h, Memᴰ.tail m, e, r)
  IsServed-before hostname hostnames region w v w' name done which (inr (absent, same)) =
      elim (Bool-cases (bytes_eq hostname.name name)) [
        | inr e ↦ inr ((e, absent), same ∙ done.others name e)
        | inl e ↦
            let own : hostname.name ≡ name = (bytes_eq_iff hostname.name name).0 e in
            let has : HasRegion w' name region =
              ap (λ t. sort_strings (map DnsRecord.content t)) same
              ∙ ap (λ t. sort_strings (map DnsRecord.content (zone.records v t))) (sym own)
              ∙ done.answers in
            elim which [
              | inl x ↦ inl (hostname, Memᴰ.head refl, own, inl (rw⁻¹ x has))
              | inr x ↦ inl (hostname, Memᴰ.head refl, own, inr (rw⁻¹ x has))
            ]
      ]

  -- A world with the same records of the name may stand at the start instead.
  from_same :
      (hostnames : List FailoverHostname) (w v w' : W) (name : Bytes)
      → zone.records v name ≡ zone.records w name
      → IsServed hostnames w' name ⊎ IsUntouched hostnames v w' name
      → IsServed hostnames w' name ⊎ IsUntouched hostnames w w' name
  from_same hostnames w v w' name e (inl served) = inl served
  from_same hostnames w v w' name e (inr (absent, same)) = inr (absent, same ∙ e)

  reconcile_hostnames-IsServed :
      (fallback_healthy : Bool) (hostnames : List FailoverHostname)
      (cache : Dict (Result Error (Unit {0}))) (s s' : ControllerState W) (name : Bytes)
      → reconcile_hostnames env cfg fallback_healthy hostnames cache s ≡ (ok tt, s')
      → IsServed hostnames s'.world name ⊎ IsUntouched hostnames s.world s'.world name
  unfolding reconcile_hostnames
  reconcile_hostnames-IsServed fallback_healthy [] cache s s' name h =
      inr (tt, ap (λ t. zone.records (ControllerState.world (t.1)) name) (sym h))
  reconcile_hostnames-IsServed fallback_healthy (hostname ∷ hostnames) cache s s' name h =
      let (health, cache', s₁) = health_of env cfg hostname.region cache s in
      let (region, s₂) = wanted env cfg fallback_healthy hostname health s₁ in
      let ensured = ensure_hostname env cfg hostname region s₂.world in
      let call = on_world env cfg (ensure_hostname env cfg hostname region) s₂ in
      let (x, first, rest) =
        continue_ok (λ _. reconcile_hostnames env cfg fallback_healthy hostnames cache') call tt s'
          h in
      let done =
        ensure_hostname-Ensured env cfg zone hostname region s₂.world (ensured.1)
          (ap (λ t. (t.0, ensured.1)) first) in
      from_same (hostname ∷ hostnames) s.world s₁.world s'.world name
        (cached_or_asked-records hostname.region cache s (lookup hostname.region cache) name)
        (IsServed-before hostname hostnames region s₁.world (ensured.1) s'.world name done
          (either_region _ (region_of cfg cfg.fallback_region) (region_of cfg hostname.region))
          (reconcile_hostnames-IsServed fallback_healthy hostnames cache' (call.1) s' name rest))

  -- When `Reconcile` returns no error, every name that the configuration lists has exactly the
  -- addresses of its region or exactly those of the fallback region, whatever its records were before.
  -- Every other name keeps its records.
  pub reconcile-IsServed :
      (s s' : ControllerState W) (name : Bytes)
      → reconcile env cfg s ≡ (ok tt, s')
      → IsServed cfg.hostnames s'.world name ⊎ IsUntouched cfg.hostnames s.world s'.world name
  unfolding reconcile
  reconcile-IsServed s s' name h =
      let fallback = region_of cfg cfg.fallback_region in
      let (health, v) = env.healthy fallback.health_url s.world in
      from_same cfg.hostnames s.world v s'.world name
        (zone.probed fallback.health_url s.world v health refl name)
        (reconcile_hostnames-IsServed (is_ok health) cfg.hostnames [] (record s { world = v }) s'
          name h)
