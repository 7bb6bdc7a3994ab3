-- ===== src/Failover/Records.antt =====
-- The records of a DNS zone under `ensureHostname`.
use sidero_proxy.Base.{
  continue_ok, ◌≡◌, sym, ap, ◌∙◌, Bool, false, List, [], ◌∷◌, ◌++◌, map, All, if◌then◌else◌, Result,
  ok, Bool-cases, inl, inr, Bytes, bytes_eq, bytes_eq_refl, sort_strings, arith, append-nil, pure,
  ◌>>◌, continue_with,
}
use sidero_proxy.Config.{FailoverRegion, FailoverHostname, FailoverConfig}
use sidero_proxy.Failover.{
  DnsRecord, Environment, Error, delete_records, create_records, replace_records, ensure_hostname,
  texts_equal,
}
use sidero_proxy.Failover.Zone.{
  without, has_id, Zone, without_absent, map_snoc, texts_equal_sound, Covered, Covered-without,
  Covered-self, nothing-Covered,
}

module _ {W : Type 0} (env : Environment W) (cfg : FailoverConfig)
    (zone : Zone env cfg.zone_id) where
  first_deleted :
      (r : DnsRecord) (doomed : List DnsRecord) (w w' : W)
      → delete_records env cfg (r ∷ doomed) w ≡ (ok tt, w')
      → (v : W) × (delete_records env cfg doomed v ≡ (ok tt, w'))
        × ((j : Bytes) → zone.records v j ≡ without r.id (zone.records w j))
  unfolding delete_records
  first_deleted r doomed w w' h =
      let (x, first, rest) =
        continue_ok (λ _. delete_records env cfg doomed) (env.delete_record cfg.zone_id r.id w) tt
          w' h in
      ((env.delete_record cfg.zone_id r.id w).1, rest, zone.deleted r.id w _ first)

  -- Deleting records that cover those of a name leaves it none.
  delete_records-Covered :
      (doomed : List DnsRecord) (name : Bytes) (w w' : W)
      → delete_records env cfg doomed w ≡ (ok tt, w')
      → Covered doomed (zone.records w name)
      → zone.records w' name ≡ []
  unfolding delete_records
  delete_records-Covered [] name w w' h c =
      ap (λ t. zone.records t name) (sym (ap (λ t. t.1) h))
      ∙ nothing-Covered (zone.records w name) c
  delete_records-Covered (r ∷ doomed) name w w' h c =
      let (v, rest, gone) = first_deleted r doomed w w' h in
      delete_records-Covered doomed name v w' rest
        (rw (gone name) (Covered-without r doomed (zone.records w name) c))

  delete_records-absent :
      (doomed : List DnsRecord) (j : Bytes) (w w' : W)
      → delete_records env cfg doomed w ≡ (ok tt, w')
      → All (λ r. has_id r.id (zone.records w j) ≡ false) doomed
      → zone.records w' j ≡ zone.records w j
  unfolding delete_records
  delete_records-absent [] j w w' h c = ap (λ t. zone.records t j) (sym (ap (λ t. t.1) h))
  delete_records-absent (r ∷ doomed) j w w' h (c, cs) =
      let (v, rest, gone) = first_deleted r doomed w w' h in
      let same : zone.records v j ≡ zone.records w j =
        gone j ∙ without_absent r.id (zone.records w j) c in
      delete_records-absent doomed j v w' rest (rw same cs) ∙ same

  first_created :
      (hostname : FailoverHostname) (ip : Bytes) (ips : List Bytes) (w w' : W)
      → create_records env cfg hostname (ip ∷ ips) w ≡ (ok tt, w')
      → (v : W) × (r : DnsRecord) × (r.content ≡ ip)
        × (create_records env cfg hostname ips v ≡ (ok tt, w'))
        × ((j : Bytes)
            → zone.records v j
              ≡ (if bytes_eq hostname.name j then zone.records w j ++ r ∷ [] else zone.records w j))
  unfolding create_records
  first_created hostname ip ips w w' h =
      let call = env.create_a_record cfg.zone_id hostname.name ip hostname.ttl w in
      let (x, first, rest) = continue_ok (λ _. create_records env cfg hostname ips) call tt w' h in
      let (r, same, made) = zone.created hostname.name ip hostname.ttl w (call.1) first in
      (call.1, r, same, rest, made)

  create_records-other :
      (hostname : FailoverHostname) (ips : List Bytes) (j : Bytes) (w w' : W)
      → create_records env cfg hostname ips w ≡ (ok tt, w')
      → bytes_eq hostname.name j ≡ false
      → zone.records w' j ≡ zone.records w j
  unfolding create_records
  create_records-other hostname [] j w w' h other =
      ap (λ t. zone.records t j) (sym (ap (λ t. t.1) h))
  create_records-other hostname (ip ∷ ips) j w w' h other =
      let (v, r, same, rest, made) = first_created hostname ip ips w w' h in
      create_records-other hostname ips j v w' rest other ∙ ground (arith, made j, other)

  create_records-own :
      (hostname : FailoverHostname) (ips : List Bytes) (w w' : W)
      → create_records env cfg hostname ips w ≡ (ok tt, w')
      → map DnsRecord.content (zone.records w' hostname.name)
        ≡ map DnsRecord.content (zone.records w hostname.name) ++ ips
  unfolding create_records
  create_records-own hostname [] w w' h =
      ap (λ t. map DnsRecord.content (zone.records t hostname.name)) (sym (ap (λ t. t.1) h))
      ∙ sym (append-nil _)
  create_records-own hostname (ip ∷ ips) w w' h =
      let (v, r, same, rest, made) = first_created hostname ip ips w w' h in
      let added : zone.records v hostname.name ≡ zone.records w hostname.name ++ r ∷ [] =
        ground (arith, made hostname.name, bytes_eq_refl hostname.name) in
      create_records-own hostname ips v w' rest
      ∙ ap (λ t. map DnsRecord.content t ++ ips) added
      ∙ map_snoc (zone.records w hostname.name) r ips
      ∙ ap (λ t. map DnsRecord.content (zone.records w hostname.name) ++ t ∷ ips) same

  -- What `ensureHostname` promises when it succeeds: afterwards the records of the hostname hold the
  -- addresses of the region, each as often as the region lists it, and no other name has changed.
  pub record Ensured (hostname : FailoverHostname) (ips : List Bytes) (w w' : W) : Type 0 where
    pub answers :
        sort_strings (map DnsRecord.content (zone.records w' hostname.name)) ≡ sort_strings ips
    pub others :
        (j : Bytes) → bytes_eq hostname.name j ≡ false → zone.records w' j ≡ zone.records w j

  deleted_and_created :
      (hostname : FailoverHostname) (ips : List Bytes) (w w' : W)
      → continue_with
          (λ _. create_records env cfg hostname ips)
          (delete_records env cfg (zone.records w hostname.name) w)
        ≡ (ok tt, w')
      → Ensured hostname ips w w'
  deleted_and_created hostname ips w w' h =
      let old = zone.records w hostname.name in
      let v = (delete_records env cfg old w).1 in
      let (x, first, rest) =
        continue_ok (λ _. create_records env cfg hostname ips) (delete_records env cfg old w) tt w'
          h in
      let cleared = delete_records-Covered old hostname.name w v first (Covered-self old) in
      record {
        answers = ap sort_strings (
            create_records-own hostname ips v w' rest
            ∙ ap (λ t. map DnsRecord.content t ++ ips) cleared);
        others = λ j other.
            create_records-other hostname ips j v w' rest other
            ∙ delete_records-absent old j w v first (zone.distinct_ids w hostname.name j other);
      }

  replace_records-Ensured :
      (hostname : FailoverHostname) (ips : List Bytes) (w w' : W)
      → replace_records env cfg hostname ips (zone.records w hostname.name) w ≡ (ok tt, w')
      → Ensured hostname ips w w'
  unfolding replace_records
  replace_records-Ensured hostname ips w w' h =
      let current = sort_strings (map DnsRecord.content (zone.records w hostname.name)) in
      let branch : (b : Bool) → Result Error (Unit {0}) × W = λ b.
        (if b
            then pure tt
            else (delete_records env cfg (zone.records w hostname.name)
                >> create_records env cfg hostname ips))
          w in
      elim (Bool-cases (texts_equal current (sort_strings ips))) [
        | inl e ↦
            let same : w ≡ w' = ap (λ t. t.1) (sym (ap branch e) ∙ h) in
            record {
              answers =
                  ap (λ t. sort_strings (map DnsRecord.content (zone.records t hostname.name)))
                    (sym same)
                  ∙ texts_equal_sound current (sort_strings ips) e;
              others = λ j other. ap (λ t. zone.records t j) (sym same);
            }
        | inr e ↦ deleted_and_created hostname ips w w' (sym (ap branch e) ∙ h)
      ]

  -- `ensureHostname` with a region: whenever it returns no error, the hostname has the region's
  -- addresses and every other name keeps its records, whatever records there were before.
  pub ensure_hostname-Ensured :
      (hostname : FailoverHostname) (region : FailoverRegion) (w w' : W)
      → ensure_hostname env cfg hostname region w ≡ (ok tt, w')
      → Ensured hostname region.answer_ips w w'
  unfolding ensure_hostname
  ensure_hostname-Ensured hostname region w w' h =
      let call = env.list_a_records cfg.zone_id hostname.name w in
      let v = call.1 in
      let (found, first, rest) =
        continue_ok (replace_records env cfg hostname region.answer_ips) call tt w' h in
      let (same, kept) = zone.listed hostname.name w v found first in
      let at_v : found ≡ zone.records v hostname.name = same ∙ sym (kept hostname.name) in
      let done =
        replace_records-Ensured hostname region.answer_ips v w'
          (ap (λ t. replace_records env cfg hostname region.answer_ips t v) (sym at_v) ∙ rest) in
      record { answers = done.answers; others = λ j other. done.others j other ∙ kept j }
