-- ===== src/Watcher/Bans/Kept.antt =====
-- What the handlers of the watcher do to Redis.
use sidero_proxy.Base.{
  Bool, not, ◌&&◌, ◌||◌, List, [], ◌∷◌, if◌then◌else◌, if_both, result_cases, Result, ok, err,
  Action, pure, continue_with, ◌>>=◌, ◌>>◌, Bytes, codes, bytes_eq, Unicode, Ipv6,
}
use sidero_proxy.Base.Dict.{Dict}
use sidero_proxy.Nft.{Error}
use sidero_proxy.Redis.{Redis, Client, HashReader}
use sidero_proxy.Registration.{InfoJson, ProxyInfo}
use sidero_proxy.Registration.Listing.{list_proxies}
use sidero_proxy.Assignment.Permanent.{Steps, here}
use sidero_proxy.Assignment.Service.{
  ReverseMapping, ReverseJson, Service, lookup_reverse, reserve_for_all_proxies,
}
use sidero_proxy.Assignment.Calls.{
  Steps-trans, MakesSteps, MakesSteps-bind, list_proxies-MakesSteps, lookup_reverse-MakesSteps,
  reserve_for_all_proxies-MakesSteps,
}
use sidero_proxy.Watcher.Files.{
  BannedIpEntry, BansJson, FileError, is_not_exist, read_banned_players, join_path, dir_of, base_of,
}
use sidero_proxy.Watcher.Bans.{
  State, Machine, Event, promote_identity, promote_all, diff_loop, snapshot_at, banned_ips,
  refresh_snapshots, handle_banned_players, watch_entries, watch_listed, add_watches, add_watch,
  handle_banned_ips, handle_event, handle_file_event, is_directory, on_banned_ips, unless_missing,
  snapshot_of_file,
}

module _ {R : Type 0} (redis : Redis R) where
  -- The part of a state of the service that is Redis changes by steps only.
  abbrev pub Stays : State R → State R → Type 0
  Stays s t = Steps redis (State.redis s) (State.redis t)

  abbrev pub Answer : Type 0
  Answer = Result Error (Unit {0}) × State R

  abbrev pub AllStay : {A : Type 0} → Action (State R) Error A → Type 0
  AllStay m = (s : State R) → Stays s ((m s).1)

  Stays-continue_with :
      (s : State R) (r : Result Error (Unit {0}) × State R)
      (k : Unit {0} → Action (State R) Error (Unit {0}))
      → Stays s (r.1)
      → ((x : Unit {0}) → AllStay (k x))
      → Stays s ((continue_with k r).1)
  Stays-continue_with s (ok x, t) k first rest = Steps-trans redis first (rest x t)
  Stays-continue_with s (err e, t) k first rest = first

  Stays-bind : (m k : Action (State R) Error (Unit {0})) → AllStay m → AllStay k → AllStay (m >> k)
  Stays-bind m k first rest s = Stays-continue_with s (m s) (λ _. k) (first s) (λ _. rest)

  AllStay-if :
      (b : Bool) (m k : Action (State R) Error (Unit {0}))
      → AllStay m
      → AllStay k
      → AllStay (if b then m else k)
  AllStay-if b m k hm hk s =
      if_both (λ (f : Action (State R) Error (Unit {0})). Stays s ((f s).1)) b m k (hm s) (hk s)

module _ (u : Unicode) (json : BansJson) {R : Type 0} (redis : Redis R) (client : Client R)
    (reader : HashReader redis) (n : Ipv6) (reverse_json : ReverseJson) (info_json : InfoJson)
    (service : Service) where
  promote_identity-MakesSteps :
      (entry : BannedIpEntry)
      → MakesSteps redis
          (promote_identity u redis client reader n reverse_json info_json service entry)
  unfolding promote_identity
  promote_identity-MakesSteps entry =
      let listing = list_proxies info_json redis client reader in
      let reserve = λ (m : ReverseMapping) (proxies : Dict ProxyInfo).
        reserve_for_all_proxies redis client service n u (ReverseMapping.real_ip m) proxies in
      MakesSteps-bind redis
        (lookup_reverse redis client service reverse_json (BannedIpEntry.ip entry))
        (λ m. listing >>= (λ proxies. reserve m proxies >>= (λ _. pure tt)))
        (lookup_reverse-MakesSteps redis client service reverse_json (BannedIpEntry.ip entry))
        (λ m.
          MakesSteps-bind redis listing (λ proxies. reserve m proxies >>= (λ _. pure tt))
            (list_proxies-MakesSteps redis client info_json reader)
            (λ proxies.
              MakesSteps-bind redis (reserve m proxies) (λ _. pure tt)
                (reserve_for_all_proxies-MakesSteps redis client service n u
                  (ReverseMapping.real_ip m) proxies)
                (λ _ s. here)))

  promote_all-Steps :
      (entries : List BannedIpEntry) (s : R)
      → Steps redis s (promote_all u redis client reader n reverse_json info_json service entries s)
  unfolding promote_all
  promote_all-Steps [] s = here
  promote_all-Steps (e ∷ es) s = Steps-trans redis (promote_identity-MakesSteps e s) (
      promote_all-Steps es
        ((promote_identity u redis client reader n reverse_json info_json service e s).1))

  add_watch-AllStay :
      (machine : Machine) (prefix dir : Bytes)
      → AllStay redis {A = Unit {0}} (add_watch machine prefix dir)
  add_watch-AllStay machine prefix dir s =
      result_cases (λ (r : Answer redis). Stays redis s (r.1)) (Machine.watch machine dir) _ _
        (λ _. here) (λ _. here)

  refresh_snapshots-AllStay :
      (machine : Machine) (dir : Bytes) → AllStay redis (refresh_snapshots u json machine dir)
  unfolding refresh_snapshots
  refresh_snapshots-AllStay machine dir s = file_cases (banned_ips u json machine dir)
    where
      file_cases :
          (r : Result FileError (List BannedIpEntry))
          → Stays redis s ((snapshot_of_file u json dir r s).1)
      file_cases (ok entries) = here
      file_cases (err e) =
          if_both (λ (r : Answer redis). Stays redis s (r.1)) (is_not_exist e) _ _ here here

  unless_missing-AllStay : (e : FileError) → AllStay redis (unless_missing u json e)
  unless_missing-AllStay e s =
      if_both (λ (r : Answer redis). Stays redis s (r.1)) (is_not_exist e) _ _ here here

  handle_banned_players-AllStay :
      (machine : Machine) (dir : Bytes) → AllStay redis (handle_banned_players u json machine dir)
  unfolding handle_banned_players
  handle_banned_players-AllStay machine dir s =
      result_cases (λ (m : Action (State R) Error (Unit {0})). Stays redis s ((m s).1))
        (read_banned_players u json (Machine.read_file machine)
          (join_path dir (codes "banned-players.json")))
        _ _ (λ _. here) (λ e. unless_missing-AllStay e s)

  handle_banned_ips-AllStay :
      (machine : Machine) (dir : Bytes)
      → AllStay redis (
          handle_banned_ips u json redis client reader n reverse_json info_json service machine dir)
  unfolding handle_banned_ips
  handle_banned_ips-AllStay machine dir s = file_cases (banned_ips u json machine dir)
    where
      file_cases :
          (r : Result FileError (List BannedIpEntry))
          → Stays redis s (
              (on_banned_ips u json redis client reader n reverse_json info_json service dir r s).1)
      file_cases (ok entries) =
          promote_all-Steps ((diff_loop (snapshot_at dir s.ip_snapshot) entries [] []).1) s.redis
      file_cases (err e) = unless_missing-AllStay e s

  handle_file_event-AllStay :
      (machine : Machine) (event : Event) (base : Bytes)
      → AllStay redis (
          handle_file_event u json redis client reader n reverse_json info_json service machine
            event base)
  handle_file_event-AllStay machine event base =
      let dir = dir_of event.name in
      let players = handle_banned_players u json machine dir in
      let ips =
        handle_banned_ips u json redis client reader n reverse_json info_json service machine dir in
      let file = if bytes_eq base (codes "banned-players.json") then players else ips in
      let changed =
        if not (event.created || event.written || event.renamed) then pure tt else file in
      AllStay-if redis
        (not (bytes_eq base (codes "banned-ips.json"))
          && not (bytes_eq base (codes "banned-players.json")))
        (pure tt) changed (λ s. here)
        (AllStay-if redis (not (event.created || event.written || event.renamed)) (pure tt) file
          (λ s. here)
          (AllStay-if redis (bytes_eq base (codes "banned-players.json")) players ips
            (handle_banned_players-AllStay machine dir) (handle_banned_ips-AllStay machine dir)))

  pub handle_event-AllStay :
      (machine : Machine) (event : Event)
      → AllStay redis
          (handle_event u json redis client reader n reverse_json info_json service machine event)
  unfolding handle_event
  handle_event-AllStay machine event =
      let path = event.name in
      let add = add_watch machine (codes "watch new directory ") path in
      let refresh = refresh_snapshots u json machine path in
      AllStay-if redis
        (event.created
          && is_directory u json redis client reader n reverse_json info_json service
              (Machine.is_dir machine path))
        (add >> refresh)
        (handle_file_event u json redis client reader n reverse_json info_json service machine event
          (base_of path))
        (Stays-bind redis add refresh
          (add_watch-AllStay machine (codes "watch new directory ") path)
          (refresh_snapshots-AllStay machine path))
        (handle_file_event-AllStay machine event (base_of path))

  watch_entries-AllStay :
      (machine : Machine) (root : Bytes) (entries : List (Bytes × Bool))
      → AllStay redis (watch_entries u json machine root entries)
  unfolding watch_entries
  watch_entries-AllStay machine root [] s = here
  watch_entries-AllStay machine root ((name, is_directory) ∷ entries) s =
      let dir = join_path root name in
      let next = λ (x : Unit {0}) (t : State R).
        watch_entries u json machine root entries ((refresh_snapshots u json machine dir t).1) in
      let skip = watch_entries u json machine root entries s in
      let added = continue_with next (add_watch machine (codes "watch server dir ") dir s) in
      if_both (λ (r : Answer redis). Stays redis s (r.1)) is_directory added skip
        (Stays-continue_with redis s (add_watch machine (codes "watch server dir ") dir s) next
          (add_watch-AllStay machine (codes "watch server dir ") dir s)
          (λ x t. Steps-trans redis (refresh_snapshots-AllStay machine dir t) (
            watch_entries-AllStay machine root entries
              ((refresh_snapshots u json machine dir t).1))))
        (watch_entries-AllStay machine root entries s)

  pub add_watches-AllStay :
      (machine : Machine) (root : Bytes) → AllStay redis (add_watches u json machine root)
  unfolding add_watches
  add_watches-AllStay machine root =
      Stays-bind redis (add_watch machine (codes "watch volumes root ") root)
        (watch_listed u json machine root (Machine.read_dir machine root))
        (add_watch-AllStay machine (codes "watch volumes root ") root)
        (listed (Machine.read_dir machine root))
    where
      listed :
          (r : Result Error (List (Bytes × Bool)))
          → AllStay redis (watch_listed u json machine root r)
      listed (ok entries) = watch_entries-AllStay machine root entries
      listed (err e) = λ s. here
