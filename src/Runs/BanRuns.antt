-- ===== src/Runs/BanRuns.antt =====
-- Runs of the promotion of a banned address, on a registry of two proxies.
use sidero_proxy.Base.{
  ◌≡◌, refl, true, false, trim_space, some, [], ◌∷◌, ok, Bytes, codes, bytes_eq, bytes_le, itoa,
  sort, insert_sorted, Action, parse_cidr,
}
use sidero_proxy.Base.Dict.{Dict, lookup, insert}
use sidero_proxy.Base.Members.{has_key, elem}
use sidero_proxy.Redis.{direct_client, empty_store, set_on, sadd_on, incr_on, persist_on}
use sidero_proxy.Registration.{
  Error, ProxyInfo, InfoJson, registry_key, proxy_num_from_subnet, sorted_proxy_ids,
}
use sidero_proxy.Registration.Listing.{list_proxies, decode_proxies}
use sidero_proxy.Assignment.{
  Request, map_key, rmap_key, touch, internal_ip, assign_new, assign_script,
}
use sidero_proxy.Assignment.Permanent.{Keeps, Steps, hget-Steps}
use sidero_proxy.Assignment.Service.{
  ReverseMapping, ReverseJson, Service, run_assign, reserve_loop, reserve_for_all_proxies,
  lookup_reverse,
}
use sidero_proxy.Assignment.Reserve.{reserve_for_all_proxies-Keeps}
use sidero_proxy.Watcher.Files.{BannedIpEntry, BansJson, read_banned_ips, read_entries}
use sidero_proxy.Watcher.Bans.{
  State, Machine, banned_ips, promote_identity, handle_banned_ips, snapshot_at,
}
use sidero_proxy.Watcher.Bans.Fresh.{
  each, fresh_entries, ips_of, handle-banned_ips-fresh, handle-banned_ips_again,
}
use sidero_proxy.Watcher.Bans.Promoted.{KeptAt, promote_identity-Keeps}
use sidero_proxy.Runs.{plain_unicode, no_ipv6}
use sidero_proxy.Runs.Tables.{
  Table, put_cell, find, collect, table_redis, table_reader, empty_table, view_of,
}

abbrev pub client_ip : Bytes
client_ip = codes "198.51.100.4"

-- An entry of the registry is its subnet, a reverse mapping its real address.
abbrev pub info_json : InfoJson
info_json = record {
  marshal = λ i. ok i.subnet;
  unmarshal = λ s. ok (record { subnet = s; tailscale_ip = []; registered_at = 0 });
}

abbrev pub client_json : ReverseJson
client_json = record { unmarshal = λ s. ok (record { real_ip = client_ip; proxy = codes "p1" }) }

abbrev pub service : Service
service = record { proxy_id = []; proxy_num = 0; ttl_seconds = 0 }

abbrev pub two_proxies : Table
two_proxies = table_redis.hset registry_key (codes "p1") (codes "10.1.0.0/16") (
    table_redis.hset registry_key (codes "p2") (codes "10.2.0.0/16")
      (table_redis.set (rmap_key (codes "10.1.0.1")) (codes "{}") empty_table))

abbrev pub banned : BannedIpEntry
banned = record { ip = codes "10.1.0.1"; source = []; reason = []; created = []; expires = [] }

abbrev promote : Action Table Error (Unit {0})
promote =
    promote_identity plain_unicode table_redis direct_client table_reader no_ipv6 client_json
      info_json service banned

abbrev promoted : Table
promoted = (promote two_proxies).1

promotes : promote two_proxies ≡ (ok tt, promoted)
unfolding promote_identity lookup_reverse list_proxies decode_proxies collect find put_cell lookup
    insert bytes_eq reserve_for_all_proxies reserve_loop sorted_proxy_ids sort insert_sorted
    bytes_le proxy_num_from_subnet run_assign assign_script assign_new touch internal_ip itoa
    empty_store set_on parse_cidr
promotes = refl

promote_identity-Keeps_example :
    (text : Bytes) × (mapping : ReverseMapping) × (table_redis.get
        (rmap_key (codes "10.1.0.1"))
        two_proxies
      ≡ some text)
    × (client_json.unmarshal text ≡ ok mapping)
    × ((id v : Bytes)
        → table_redis.hget registry_key id two_proxies ≡ some v
        → KeptAt plain_unicode table_redis direct_client table_reader no_ipv6 client_json info_json
            service
            (ReverseMapping.real_ip mapping)
            id
            promoted)
promote_identity-Keeps_example =
    promote_identity-Keeps plain_unicode table_redis direct_client table_reader no_ipv6 client_json
      info_json service banned two_proxies promoted promotes

-- Reserving for the first of the two proxies.
abbrev one_proxy : Dict ProxyInfo
one_proxy =
    (codes "p1", record { subnet = codes "10.1.0.0/16"; tailscale_ip = []; registered_at = 0 }) ∷ []

abbrev reserve : Action Table Error (Dict Bytes)
reserve =
    reserve_for_all_proxies table_redis direct_client service no_ipv6 plain_unicode client_ip
      one_proxy

abbrev reserved : Table
reserved = (reserve empty_table).1

reserves : reserve empty_table ≡ (ok ((codes "p1", codes "10.1.0.1") ∷ []), reserved)
unfolding find put_cell lookup insert bytes_eq reserve_for_all_proxies reserve_loop sorted_proxy_ids
    sort insert_sorted bytes_le proxy_num_from_subnet run_assign assign_script assign_new touch
    internal_ip itoa empty_store set_on parse_cidr
reserves = refl

knows_p1 : has_key (codes "p1") one_proxy ≡ true
unfolding has_key lookup bytes_eq
knows_p1 = refl

reserve_for_all_proxies-Keeps_example :
    (i : Bytes) × (lookup (codes "p1") ((codes "p1", codes "10.1.0.1") ∷ []) ≡ some i)
    × Keeps client_ip (codes "p1") i table_redis reserved
    × ((t : Table)
        → Steps table_redis reserved t
        → table_redis.hget (map_key client_ip) (codes "p1") t ≡ some i)
reserve_for_all_proxies-Keeps_example =
    reserve_for_all_proxies-Keeps table_redis direct_client service no_ipv6 plain_unicode client_ip
      one_proxy ((codes "p1", codes "10.1.0.1") ∷ []) empty_table reserved reserves (codes "p1")
      knows_p1

is_kept : Keeps client_ip (codes "p1") (codes "10.1.0.1") table_redis reserved
unfolding find put_cell lookup insert bytes_eq reserve_for_all_proxies reserve_loop sorted_proxy_ids
    sort insert_sorted bytes_le proxy_num_from_subnet run_assign assign_script assign_new touch
    internal_ip itoa empty_store set_on parse_cidr view_of sadd_on persist_on incr_on
is_kept = record { reserved = refl; lasting = refl; mapped = refl }

-- A call of the script for another client.
abbrev other_request : Request
other_request = record {
  real_ip = codes "198.51.100.5";
  proxy_id = codes "p1";
  proxy_num = 1;
  ttl_seconds = 60;
  reserve = false;
}

hget-Steps_example :
    table_redis.hget
      (map_key client_ip)
      (codes "p1")
      ((assign_script table_redis other_request reserved).1)
    ≡ some (codes "10.1.0.1")
hget-Steps_example =
    hget-Steps table_redis client_ip (codes "p1") (codes "10.1.0.1") reserved
      ((assign_script table_redis other_request reserved).1) is_kept
      (Steps.script other_request Steps.here)

abbrev pub bans_json : BansJson
bans_json = record { unmarshal_ips = λ s. ok (banned ∷ []); unmarshal_players = λ s. ok [] }

abbrev pub machine : Machine
machine = record {
  read_file = λ path. ok (codes "[]");
  is_dir = λ path. some true;
  read_dir = λ path. ok [];
  watch = λ path. ok tt;
}

abbrev server_dir : Bytes
server_dir = codes "/srv/a"

abbrev watching : State Table
watching = record { redis = two_proxies; ip_snapshot = []; watched = server_dir ∷ [] }

reads : banned_ips plain_unicode bans_json machine server_dir ≡ ok (banned ∷ [])
unfolding read_banned_ips read_entries trim_space
reads = refl

abbrev handled : State Table
handled =
    (handle_banned_ips plain_unicode bans_json table_redis direct_client table_reader no_ipv6
      client_json info_json service machine server_dir watching).1

handle-banned_ips-fresh_example :
    (handle_banned_ips plain_unicode bans_json table_redis direct_client table_reader no_ipv6
        client_json info_json service machine server_dir watching
      ≡ (ok tt, handled))
    × (State.redis handled
        ≡ each
            (λ e t.
              (promote_identity plain_unicode table_redis direct_client table_reader no_ipv6
                client_json info_json service e t).1)
            (fresh_entries (snapshot_at server_dir []) (banned ∷ []))
            two_proxies)
    × ((ip : Bytes)
        → has_key ip (snapshot_at server_dir (State.ip_snapshot handled))
          ≡ elem ip (ips_of (banned ∷ [])))
    × ((other : Bytes)
        → bytes_eq server_dir other ≡ false
        → lookup other (State.ip_snapshot handled) ≡ lookup other [])
handle-banned_ips-fresh_example =
    handle-banned_ips-fresh plain_unicode bans_json table_redis direct_client table_reader no_ipv6
      client_json info_json service machine server_dir (banned ∷ []) watching reads

handle-banned_ips_again_example :
    State.redis (
      (handle_banned_ips plain_unicode bans_json table_redis direct_client table_reader no_ipv6
        client_json info_json service machine server_dir handled).1)
    ≡ State.redis handled
handle-banned_ips_again_example =
    handle-banned_ips_again plain_unicode bans_json table_redis direct_client table_reader no_ipv6
      client_json info_json service machine machine server_dir (banned ∷ []) (banned ∷ []) watching
      reads reads (λ ip h. h)
