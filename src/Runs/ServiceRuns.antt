-- ===== src/Runs/ServiceRuns.antt =====
-- Runs of the watcher's `Start`: a server's list of bans changes while it waits.
use sidero_proxy.Base.{
  ◌≡◌, refl, true, false, none, some, List, [], ◌∷◌, ◌++◌, ok, Bytes, codes, bytes_eq, bytes_le,
  itoa, sort, insert_sorted, parse_cidr, trim_space,
}
use sidero_proxy.Base.Dict.{lookup, insert}
use sidero_proxy.Nft.{ScriptRunner}
use sidero_proxy.Redis.{direct_client, empty_store, set_on}
use sidero_proxy.Registration.{proxy_num_from_subnet, sorted_proxy_ids}
use sidero_proxy.Registration.Listing.{list_proxies, decode_proxies}
use sidero_proxy.Assignment.{map_key, touch, internal_ip, assign_new, assign_script}
use sidero_proxy.Assignment.Service.{
  run_assign, reserve_loop, reserve_for_all_proxies, lookup_reverse,
}
use sidero_proxy.Watcher.Files.{read_banned_ips, read_entries}
use sidero_proxy.Assignment.Permanent.{Keeps, Steps}
use sidero_proxy.Watcher.Node.{NodeDnat}
use sidero_proxy.Watcher.Bans.{State, Event}
use sidero_proxy.Watcher.Service.{
  Woken, context_done, files_failed, files_changed, Outcome, new_service, start_watcher,
}
use sidero_proxy.Watcher.Service.Reserved.{start_watcher-Steps}
use sidero_proxy.Watcher.Service.Returns.{start_watcher_returns}
use sidero_proxy.Runs.{plain_unicode, no_ipv6}
use sidero_proxy.Runs.BanRuns.{
  info_json, client_json, service, two_proxies, bans_json, machine, client_ip,
}
use sidero_proxy.Runs.Tables.{Table, table_redis, table_reader, put_cell, find, collect}

abbrev node : NodeDnat
node = record {
  public_ip = codes "203.0.113.1";
  tailscale_interface = codes "tailscale0";
  start_port = 0;
  end_port = 0;
}

abbrev accepting : ScriptRunner (Unit {0})
accepting script w = (ok tt, w)

abbrev bans_written : Event
bans_written = record {
  name = codes "/srv/a/banned-ips.json";
  created = false;
  written = true;
  renamed = false;
}

abbrev received : List Woken
received = files_failed (some (codes "overflow")) ∷ files_changed machine bans_written ∷ []

abbrev watch : List Woken → Outcome (State Table × Unit {0})
watch woken =
    start_watcher plain_unicode bans_json table_redis direct_client table_reader no_ipv6 client_json
      info_json service accepting none node none (ok tt) machine (codes "/srv") woken []
      (new_service two_proxies, tt)

abbrev watching : State Table
watching = ((watch received).1).0

waits : watch received ≡ (none, (watching, tt))
unfolding start_watcher new_service
waits = refl

start_watcher-Steps_example :
    Steps table_redis two_proxies (State.redis watching)
    × ((real_ip id i : Bytes)
        → Keeps real_ip id i table_redis two_proxies
        → table_redis.hget (map_key real_ip) id (State.redis watching) ≡ some i)
unfolding new_service
start_watcher-Steps_example =
    start_watcher-Steps plain_unicode bans_json table_redis direct_client table_reader no_ipv6
      client_json info_json service accepting none node none (ok tt) machine (codes "/srv") received
      [] (new_service two_proxies) watching tt tt none waits

start_watcher_returns_example :
    (watch (received ++ context_done ∷ received) ≡ (some (ok tt), (watching, tt)))
    × ((watch (received ++ received)).0 ≡ none)
start_watcher_returns_example =
    start_watcher_returns plain_unicode bans_json table_redis direct_client table_reader no_ipv6
      client_json info_json service accepting none node none (ok tt) machine (codes "/srv") received
      received received [] (new_service two_proxies) watching tt tt waits (tt, (tt, tt))

promoted_meanwhile :
    table_redis.hget (map_key client_ip) (codes "p1") (State.redis watching)
    ≡ some (codes "10.1.0.1")
unfolding find start_watcher read_banned_ips read_entries new_service lookup_reverse put_cell set_on
    list_proxies decode_proxies collect reserve_for_all_proxies reserve_loop sorted_proxy_ids sort
    bytes_le proxy_num_from_subnet run_assign assign_script assign_new touch internal_ip itoa
    empty_store parse_cidr lookup insert insert_sorted bytes_eq trim_space
promoted_meanwhile = refl
