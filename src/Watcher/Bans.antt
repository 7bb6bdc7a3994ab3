-- ===== src/Watcher/Bans.antt =====
-- internal/watcher/watcher.go: the events of the watched directories. A new address in a server's
-- list of bans has its client's identity reserved at every proxy.
pub mod Fresh
pub mod Kept
pub mod Promoted
use sidero_proxy.Base.{
  ◌≡◌, refl, Bool, true, false, not, Option, none, some, List, [], ◌∷◌, ◌++◌, ◌&&◌, ◌||◌,
  if◌then◌else◌, Result, ok, err, Action, fail, pure, continue_with, ◌>>=◌, ◌>>◌, Bytes, codes,
  bytes_eq, Unicode, Ipv6,
}
use sidero_proxy.Base.Dict.{Dict, lookup, insert}
use sidero_proxy.Base.Members.{has_key}
use sidero_proxy.Nft.{Error}
use sidero_proxy.Redis.{Redis, Client, HashReader}
use sidero_proxy.Registration.{InfoJson}
use sidero_proxy.Registration.Listing.{list_proxies}
use sidero_proxy.Assignment.Service.{
  ReverseMapping, ReverseJson, Service, lookup_reverse, reserve_for_all_proxies,
}
use sidero_proxy.Watcher.Files.{
  BannedIpEntry, BansJson, FileError, is_not_exist, message, read_banned_ips, read_banned_players,
  join_path, dir_of, base_of,
}

abbrev pub IpSet : Type 0
IpSet = Dict (Unit {0})

-- Redis, `ipSnapshot` by directory, and the directories that fsnotify watches.
pub record State (R : Type 0) : Type 0 where
  pub redis : R
  pub ip_snapshot : Dict IpSet
  pub watched : List Bytes

-- The machine as an event finds it: its files, whether a path can be examined and is a directory,
-- and what fsnotify answers when it is told to watch a directory.
pub record Machine : Type 0 where
  pub read_file : Bytes → Result FileError Bytes
  pub is_dir : Bytes → Option Bool
  pub read_dir : Bytes → Result Error (List (Bytes × Bool))
  pub watch : Bytes → Result Error (Unit {0})

-- An event of fsnotify: a path, and which of the operations that the program asks for it has.
pub record Event : Type 0 where
  pub name : Bytes
  pub created : Bool
  pub written : Bool
  pub renamed : Bool

abbrev pub snapshot_of : Option IpSet → IpSet
snapshot_of none = []
snapshot_of (some ips) = ips

-- `s.ipSnapshot[dir]`, where a missing map is an empty one.
abbrev pub snapshot_at : Bytes → Dict IpSet → IpSet
snapshot_at dir snapshots = snapshot_of (lookup dir snapshots)

unfoldable pub ips_loop : List BannedIpEntry → IpSet → IpSet
unfolding insert
ips_loop [] ips = ips
ips_loop (e ∷ es) ips = ips_loop es (insert (BannedIpEntry.ip e) tt ips)

-- The loop of `handleBannedIPs`: the addresses of the file, and its entries that are not in `prev`.
unfoldable pub diff_loop :
    IpSet → List BannedIpEntry → IpSet → List BannedIpEntry → IpSet × List BannedIpEntry
unfolding insert has_key
diff_loop prev [] current fresh = (current, fresh)
diff_loop prev (e ∷ es) current fresh =
    diff_loop prev es (insert (BannedIpEntry.ip e) tt current)
      (if has_key (BannedIpEntry.ip e) prev then fresh else fresh ++ e ∷ [])

abbrev pub set_snapshot : {R : Type 0} → Bytes → IpSet → State R → State R
set_snapshot dir ips s = record s { ip_snapshot = insert dir ips s.ip_snapshot }

-- `fsw.Add`, behind the words of the error.
abbrev pub add_watch : {R : Type 0} → Machine → Bytes → Bytes → Action (State R) Error (Unit {0})
add_watch machine prefix dir s = elim (Machine.watch machine dir) [
  | ok x ↦ (ok tt, record s { watched = s.watched ++ dir ∷ [] })
  | err e ↦ (err (prefix ++ (dir ++ (codes ": " ++ e))), s)
]

module _ (u : Unicode) {R : Type 0} (redis : Redis R) (client : Client R)
    (reader : HashReader redis) (n : Ipv6) (reverse_json : ReverseJson) (info_json : InfoJson)
    (service : Service) where
  -- `promoteIdentity`: the mappings that it reserves are only logged.
  unfoldable pub promote_identity : BannedIpEntry → Action R Error (Unit {0})
  promote_identity entry = do
    mapping ← lookup_reverse redis client service reverse_json (BannedIpEntry.ip entry)
    proxies ← list_proxies info_json redis client reader
    reserved ←
        reserve_for_all_proxies redis client service n u (ReverseMapping.real_ip mapping) proxies
    pure tt

  -- Each of the entries in turn; an error is only logged.
  unfoldable pub promote_all : List BannedIpEntry → R → R
  unfolding promote_identity
  promote_all [] s = s
  promote_all (e ∷ es) s = promote_all es ((promote_identity e s).1)

  -- The snapshot is taken, then the entries are promoted.
  abbrev pub with_diff : Bytes → IpSet × List BannedIpEntry → State R → State R
  with_diff dir (current, fresh) s =
      let t = set_snapshot dir current s in record t { redis = promote_all fresh t.redis }

  abbrev pub with_entries : Bytes → List BannedIpEntry → State R → State R
  with_entries dir entries s =
      with_diff dir (diff_loop (snapshot_at dir s.ip_snapshot) entries [] []) s

module _ (u : Unicode) (json : BansJson) where
  abbrev pub banned_ips : Machine → Bytes → Result FileError (List BannedIpEntry)
  banned_ips machine dir =
      read_banned_ips u json (Machine.read_file machine) (join_path dir (codes "banned-ips.json"))

  -- A missing file is one without entries.
  abbrev pub snapshot_of_file :
      {R : Type 0}
      → Bytes
      → Result FileError (List BannedIpEntry)
      → Action (State R) Error (Unit {0})
  snapshot_of_file dir (ok entries) s = (ok tt, set_snapshot dir (ips_loop entries []) s)
  snapshot_of_file dir (err e) s =
      if is_not_exist e then (ok tt, set_snapshot dir [] s) else (err (message e), s)

  unfoldable pub refresh_snapshots :
      {R : Type 0} → Machine → Bytes → Action (State R) Error (Unit {0})
  unfolding insert ips_loop
  refresh_snapshots machine dir = snapshot_of_file dir (banned_ips machine dir)

  -- What is done on an error of a file: nothing when it is missing.
  abbrev pub unless_missing : {R : Type 0} → FileError → Action (State R) Error (Unit {0})
  unless_missing e s = if is_not_exist e then (ok tt, s) else (err (message e), s)

  -- Only the log depends on the players.
  unfoldable pub handle_banned_players :
      {R : Type 0} → Machine → Bytes → Action (State R) Error (Unit {0})
  handle_banned_players machine dir =
      elim (read_banned_players u json (Machine.read_file machine)
        (join_path dir (codes "banned-players.json"))) [
          | ok players ↦ pure tt
          | err e ↦ unless_missing e
        ]

  -- The loop of `addWatches` over the entries of the root: an error of a snapshot is only logged.
  unfoldable pub watch_entries :
      {R : Type 0} → Machine → Bytes → List (Bytes × Bool) → Action (State R) Error (Unit {0})
  unfolding join_path refresh_snapshots
  watch_entries machine root [] s = (ok tt, s)
  watch_entries machine root ((name, is_directory) ∷ entries) s =
      let dir = join_path root name in
      let skip = watch_entries machine root entries s in
      let added =
        continue_with
          (λ _ t. watch_entries machine root entries ((refresh_snapshots machine dir t).1))
          (add_watch machine (codes "watch server dir ") dir s) in
      if is_directory then added else skip

  abbrev pub watch_listed :
      {R : Type 0}
      → Machine
      → Bytes
      → Result Error (List (Bytes × Bool))
      → Action (State R) Error (Unit {0})
  watch_listed machine root (ok entries) = watch_entries machine root entries
  watch_listed machine root (err e) =
      fail (codes "read volumes root " ++ (root ++ (codes ": " ++ e)))

  unfoldable pub add_watches : {R : Type 0} → Machine → Bytes → Action (State R) Error (Unit {0})
  unfolding watch_entries
  add_watches machine root = do
    add_watch machine (codes "watch volumes root ") root
    watch_listed machine root (Machine.read_dir machine root)

  module _ {R : Type 0} (redis : Redis R) (client : Client R) (reader : HashReader redis) (n : Ipv6)
      (reverse_json : ReverseJson) (info_json : InfoJson) (service : Service) where
    abbrev pub on_banned_ips :
        Bytes → Result FileError (List BannedIpEntry) → Action (State R) Error (Unit {0})
    on_banned_ips dir (ok entries) s =
        (ok tt, with_entries u redis client reader n reverse_json info_json service dir entries s)
    on_banned_ips dir (err e) s = unless_missing e s

    unfoldable pub handle_banned_ips : Machine → Bytes → Action (State R) Error (Unit {0})
    unfolding lookup insert diff_loop promote_all
    handle_banned_ips machine dir = on_banned_ips dir (banned_ips machine dir)

    -- A path that could be examined and is a directory.
    abbrev pub is_directory : Option Bool → Bool
    is_directory none = false
    is_directory (some d) = d

    -- What is done for one of the two files, by its name.
    abbrev pub handle_file : Machine → Event → Bytes → Action (State R) Error (Unit {0})
    handle_file machine event base =
        if bytes_eq base (codes "banned-players.json")
        then handle_banned_players machine (dir_of event.name)
        else handle_banned_ips machine (dir_of event.name)

    abbrev pub handle_file_event : Machine → Event → Bytes → Action (State R) Error (Unit {0})
    handle_file_event machine event base =
        if not (bytes_eq base (codes "banned-ips.json"))
          && not (bytes_eq base (codes "banned-players.json"))
        then pure tt
        else if not (event.created || event.written || event.renamed)
        then pure tt
        else handle_file machine event base

    abbrev pub handle_new_directory : Machine → Bytes → Action (State R) Error (Unit {0})
    handle_new_directory machine dir = do
      add_watch machine (codes "watch new directory ") dir
      refresh_snapshots machine dir

    unfoldable pub handle_event : Machine → Event → Action (State R) Error (Unit {0})
    unfolding refresh_snapshots handle_banned_players handle_banned_ips base_of dir_of
    handle_event machine event =
        if event.created && is_directory (Machine.is_dir machine event.name)
        then handle_new_directory machine event.name
        else handle_file_event machine event (base_of event.name)
