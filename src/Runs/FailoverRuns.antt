-- ===== src/Runs/FailoverRuns.antt =====
-- Runs of internal/failover, on a DNS service that keeps a list of addresses for each name and uses
-- the name as the id of its records.
use sidero_proxy.Base.{
  ℕ, ◌≡◌, refl, sym, ap, ◌∙◌, ◌-◌, ◌<◌, ◌*◌, Bool, true, false, Option, none, some, List, [], ◌∷◌,
  ◌++◌, map, All, if◌then◌else◌, Result, ok, err, ◌⊎◌, Bytes, codes, bytes_eq, bytes_eq_iff,
  insert_sorted, sort, bytes_le, trim_space, arith,
}
use mathlib.Core.List.{Memᴰ}
use sidero_proxy.Base.Dict.{Dict, lookup, insert, delete, lookup-insert, lookup-delete}
use sidero_proxy.Base.Integers.{pos}
use sidero_proxy.Config.{FailoverRegion, FailoverHostname, FailoverConfig}
use sidero_proxy.Config.{is_nil, is_blank}
use sidero_proxy.Config.Regions.{validate_regions, validate_hostnames, validate_failover}
use sidero_proxy.Failover.Defined.{reconcile-has_records}
use sidero_proxy.Runs.{plain_unicode}
use sidero_proxy.Failover.{
  DnsRecord, Environment, ControllerState, reconcile, reconcile_hostnames, ensure_hostname,
  replace_records, delete_records, create_records, texts_equal, choose, in_window, region_of,
  add_regions, or_now,
}
use sidero_proxy.Failover.Zone.{Zone, without, has_id}
use sidero_proxy.Failover.Records.{Ensured, ensure_hostname-Ensured}
use sidero_proxy.Failover.Reconciled.{IsServed, IsUntouched, reconcile-IsServed}
use sidero_proxy.Failover.Failback.{
  Observation, state_after, chooses_fallback-IsCause, healthy_start, nanoseconds, IsCause,
}

abbrev Names : Type 0
Names = Dict (List Bytes)

abbrev or_nil : Option (List Bytes) → List Bytes
or_nil none = []
or_nil (some contents) = contents

abbrev ok_or_nil : Result Bytes (List DnsRecord) → List DnsRecord
ok_or_nil (ok records) = records
ok_or_nil (err e) = []

abbrev record_of : Bytes → Bytes → DnsRecord
record_of name content = record {
  id = name;
  name = name;
  content = content;
  ttl = pos 60;
  record_type = codes "A";
}

abbrev records_of : Names → Bytes → List DnsRecord
records_of w name = map (record_of name) (or_nil (lookup name w))

-- Only the primary region is down.
abbrev service : Environment Names
service = record {
  healthy = λ url w. (if bytes_eq url (codes "eu/health") then err (codes "down") else ok tt, w);
  now = λ w. 5000000000;
  list_a_records = λ zone_id name w. (ok (records_of w name), w);
  delete_record = λ zone_id id w. (ok tt, delete id w);
  create_a_record =
      λ zone_id name content ttl w. (ok tt, insert name (or_nil (lookup name w) ++ content ∷ []) w);
}

without-map :
    (id name : Bytes) (contents : List Bytes)
    → without id (map (record_of name) contents)
      ≡ (if bytes_eq id name then [] else map (record_of name) contents)
unfolding without
without-map id name [] = ground arith
without-map id name (c ∷ contents) =
    ground (arith, without-map id name contents, bytes_eq_iff name id, bytes_eq_iff id name)

has_id-map :
    (id name : Bytes) (contents : List Bytes)
    → bytes_eq id name ≡ false
    → has_id id (map (record_of name) contents) ≡ false
unfolding has_id
has_id-map id name [] h = refl
has_id-map id name (c ∷ contents) h =
    ground (arith, has_id-map id name contents, bytes_eq_iff name id, bytes_eq_iff id name)

map-snoc :
    (name content : Bytes) (contents : List Bytes)
    → map (record_of name) (contents ++ content ∷ [])
      ≡ map (record_of name) contents ++ record_of name content ∷ []
map-snoc name content [] = refl
map-snoc name content (c ∷ contents) = rw (map-snoc name content contents) refl

All-map :
    (j k : Bytes) (contents other : List Bytes)
    → bytes_eq j k ≡ false
    → All
        (λ r. has_id (DnsRecord.id r) (map (record_of k) other) ≡ false)
        (map (record_of j) contents)
All-map j k [] other h = tt
All-map j k (c ∷ contents) other h = (has_id-map j k other h, All-map j k contents other h)

deleted_if :
    (b : Bool) (j : Bytes) (o : Option (List Bytes))
    → map (record_of j) (or_nil (if b then none else o))
      ≡ (if b then [] else map (record_of j) (or_nil o))
deleted_if true j o = refl
deleted_if false j o = refl

created_if :
    (b : Bool) (name j content : Bytes) (w : Names)
    → bytes_eq name j ≡ b
    → map
        (record_of j)
        (or_nil (if b then some (or_nil (lookup name w) ++ content ∷ []) else lookup j w))
      ≡ (if b then records_of w j ++ record_of name content ∷ [] else records_of w j)
created_if true name j content w h =
    let same : name ≡ j = (bytes_eq_iff name j).0 h in
    rw same (map-snoc j content (or_nil (lookup j w)))
created_if false name j content w h = refl

service_zone : (zone_id : Bytes) → Zone service zone_id
service_zone zone_id = record {
  records = records_of;
  listed = λ name w w' found e.
      (ap (λ t. ok_or_nil (t.0)) (sym e), λ j. ap (λ t. records_of (t.1) j) (sym e));
  deleted = λ id w w' e j.
      ap (λ t. records_of (t.1) j) (sym e)
      ∙ ap (λ o. map (record_of j) (or_nil o)) (lookup-delete id j w)
      ∙ deleted_if (bytes_eq id j) j (lookup j w)
      ∙ sym (without-map id j (or_nil (lookup j w)));
  created = λ name content ttl w w' e. (
    record_of name content,
    refl,
    λ j.
        ap (λ t. records_of (t.1) j) (sym e)
        ∙ ap (λ o. map (record_of j) (or_nil o))
            (lookup-insert name j (or_nil (lookup name w) ++ content ∷ []) w)
        ∙ created_if (bytes_eq name j) name j content w refl,
  );
  distinct_ids = λ w j k e. All-map j k (or_nil (lookup j w)) (or_nil (lookup k w)) e;
  probed = λ url w w' health e j. ap (λ t. records_of (t.1) j) (sym e);
}

abbrev pub eu : FailoverRegion
eu = record {
  name = codes "eu";
  health_url = codes "eu/health";
  answer_ips = codes "192.0.2.1" ∷ codes "192.0.2.2" ∷ [];
}

abbrev pub us : FailoverRegion
us = record {
  name = codes "us";
  health_url = codes "us/health";
  answer_ips = codes "192.0.2.9" ∷ [];
}

abbrev pub play : FailoverHostname
play = record { name = codes "play"; region = codes "eu"; ttl = pos 60 }

abbrev pub settings : FailoverConfig
settings = record {
  api_token = codes "t";
  zone_id = codes "z";
  fallback_region = codes "us";
  probe_interval_seconds = pos 10;
  failback_window_seconds = pos 300;
  regions = eu ∷ us ∷ [];
  hostnames = play ∷ [];
}

abbrev before : ControllerState Names
before = record { world = (codes "play", codes "192.0.2.1" ∷ []) ∷ []; regions = [] }

abbrev behind : ControllerState Names
behind = record {
  world = (codes "play", codes "192.0.2.9" ∷ []) ∷ [];
  regions = (codes "eu", record { healthy_since = none; on_fallback = true }) ∷ [];
}

fails_over : reconcile service settings before ≡ (ok tt, behind)
unfolding reconcile reconcile_hostnames ensure_hostname replace_records delete_records
    create_records texts_equal choose region_of add_regions lookup insert delete bytes_eq
    insert_sorted sort bytes_le
fails_over = refl

reconcile-IsServed_example :
    IsServed service settings (service_zone (codes "z")) (play ∷ []) behind.world (codes "play")
    ⊎ IsUntouched service settings
        (service_zone (codes "z"))
        (play ∷ [])
        before.world
        behind.world
        (codes "play")
reconcile-IsServed_example =
    reconcile-IsServed service settings (service_zone (codes "z")) before behind (codes "play")
      fails_over

settings_accepted : validate_failover plain_unicode settings ≡ ok tt
unfolding validate_failover validate_regions validate_hostnames is_blank trim_space insert lookup
    bytes_eq
settings_accepted = refl

reconcile-has_records_example : is_nil (records_of behind.world (codes "play")) ≡ false
unfolding lookup service_zone
reconcile-has_records_example =
    reconcile-has_records service settings (service_zone (codes "z")) plain_unicode before behind
      play settings_accepted (Memᴰ.head refl) fails_over

moves_play : ensure_hostname service settings play us before.world ≡ (ok tt, behind.world)
unfolding ensure_hostname replace_records delete_records create_records texts_equal lookup insert
    delete bytes_eq insert_sorted sort bytes_le
moves_play = refl

ensure_hostname-Ensured_example :
    Ensured service settings (service_zone (codes "z")) play us.answer_ips before.world behind.world
ensure_hostname-Ensured_example =
    ensure_hostname-Ensured service settings (service_zone (codes "z")) play us before.world
      behind.world moves_play

-- A failure at 100 s and a first healthy round at 200 s.
abbrev history : List Observation
history =
    record { time = 200000000000; is_healthy = true; is_fallback_healthy = true }
    ∷ record { time = 100000000000; is_healthy = false; is_fallback_healthy = true }
    ∷ []

abbrev observed : ℕ → Observation
observed seconds = record {
  time = seconds * 1000000000;
  is_healthy = true;
  is_fallback_healthy = true;
}

chooses_fallback-IsCause_example :
    IsCause (observed 499)
    ⊎ (((cause : Observation) × Memᴰ cause history × IsCause cause)
        × (499 * 1000000000 - or_now (healthy_start history) (499 * 1000000000)
            < nanoseconds (pos 300)))
unfolding state_after choose in_window
chooses_fallback-IsCause_example = chooses_fallback-IsCause (pos 300) (observed 499) history refl
