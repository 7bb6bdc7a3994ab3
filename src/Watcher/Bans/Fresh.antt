-- ===== src/Watcher/Bans/Fresh.antt =====
-- Which entries of a list of bans are promoted.
use sidero_proxy.Base.{
  ◌≡◌, refl, sym, ap, ◌∙◌, subst, Bool, true, false, ◌||◌, List, [], ◌∷◌, ◌++◌, Result, map,
  append-nil, append_assoc, if◌then◌else◌, ok, Bytes, bytes_eq, bytes_eq_refl, Unicode, Ipv6, arith,
}
use sidero_proxy.Base.Dict.{Dict, lookup, insert, lookup-insert, lookup-insert_self}
use sidero_proxy.Base.Members.{elem, has_key, has_key-insert}
use sidero_proxy.Redis.{Redis, Client, HashReader}
use sidero_proxy.Registration.{InfoJson}
use sidero_proxy.Assignment.Service.{ReverseJson, Service}
use sidero_proxy.Watcher.Files.{FileError, BannedIpEntry, BansJson}
use sidero_proxy.Watcher.Bans.{
  IpSet, State, Machine, snapshot_at, ips_loop, diff_loop, banned_ips, with_entries, with_diff,
  promote_all, promote_identity, on_banned_ips, handle_banned_ips,
}

abbrev pub ips_of : List BannedIpEntry → List Bytes
ips_of entries = map BannedIpEntry.ip entries

-- What a function makes of a state for each member of a list, from the first to the last.
unfoldable pub each : {A S : Type 0} → (A → S → S) → List A → S → S
each f [] s = s
each f (x ∷ xs) s = each f xs (f x s)

-- The entries whose address is not in the set.
unfoldable pub fresh_entries : IpSet → List BannedIpEntry → List BannedIpEntry
unfolding has_key
fresh_entries ips [] = []
fresh_entries ips (e ∷ es) =
    let rest = fresh_entries ips es in if has_key (BannedIpEntry.ip e) ips then rest else e ∷ rest

add_fresh :
    (b : Bool) (e : BannedIpEntry) (fresh rest : List BannedIpEntry)
    → (if b then fresh else fresh ++ e ∷ []) ++ rest ≡ fresh ++ (if b then rest else e ∷ rest)
add_fresh true e fresh rest = refl
add_fresh false e fresh rest = append_assoc fresh (e ∷ []) rest

diff_loop_lem :
    (prev : IpSet) (entries : List BannedIpEntry) (current : IpSet) (fresh : List BannedIpEntry)
    → diff_loop prev entries current fresh
      ≡ (ips_loop entries current, fresh ++ fresh_entries prev entries)
unfolding diff_loop ips_loop fresh_entries
diff_loop_lem prev [] current fresh = ap (λ t. (current, t)) (sym (append-nil fresh))
diff_loop_lem prev (e ∷ es) current fresh =
    diff_loop_lem prev es _ _
    ∙ ap (λ t. (ips_loop es (insert (BannedIpEntry.ip e) tt current), t))
        (add_fresh (has_key (BannedIpEntry.ip e) prev) e fresh (fresh_entries prev es))

has_key-ips_loop :
    (ip : Bytes) (entries : List BannedIpEntry) (ips : IpSet)
    → has_key ip (ips_loop entries ips) ≡ (elem ip (ips_of entries) || has_key ip ips)
unfolding ips_loop elem
has_key-ips_loop ip [] ips = refl
has_key-ips_loop ip (e ∷ es) ips = ground (
  arith,
  has_key-ips_loop ip es (insert (BannedIpEntry.ip e) tt ips),
  has_key-insert (BannedIpEntry.ip e) ip tt ips,
)

or_false : (b : Bool) → (b || false) ≡ b
or_false true = refl
or_false false = refl

-- No entry is fresh when all its addresses are in the set.
fresh_entries-nil :
    (ips : IpSet) (entries : List BannedIpEntry)
    → ((ip : Bytes) → elem ip (ips_of entries) ≡ true → has_key ip ips ≡ true)
    → fresh_entries ips entries ≡ []
unfolding fresh_entries elem
fresh_entries-nil ips [] all = refl
fresh_entries-nil ips (e ∷ es) all = ground (
  arith,
  all (BannedIpEntry.ip e) (ground (arith, bytes_eq_refl (BannedIpEntry.ip e))),
  fresh_entries-nil ips es (λ ip h. all ip (ground (arith, h))),
)

module _ (u : Unicode) (json : BansJson) {R : Type 0} (redis : Redis R) (client : Client R)
    (reader : HashReader redis) (n : Ipv6) (reverse_json : ReverseJson) (info_json : InfoJson)
    (service : Service) where
  abbrev handle : Machine → Bytes → State R → State R
  handle machine dir s =
      (handle_banned_ips u json redis client reader n reverse_json info_json service machine dir
        s).1

  abbrev promote : BannedIpEntry → R → R
  promote e s = (promote_identity u redis client reader n reverse_json info_json service e s).1

  promote_all-each :
      (entries : List BannedIpEntry) (s : R)
      → promote_all u redis client reader n reverse_json info_json service entries s
        ≡ each promote entries s
  unfolding promote_all each
  promote_all-each [] s = refl
  promote_all-each (e ∷ es) s = promote_all-each es (promote e s)

  abbrev promoted : List BannedIpEntry → R → R
  promoted = each promote

  abbrev Handled : Bytes → List BannedIpEntry → State R → State R → Type 0
  Handled dir entries s s' =
      (State.redis s'
        ≡ promoted (fresh_entries (snapshot_at dir (State.ip_snapshot s)) entries) (State.redis s))
      × ((ip : Bytes)
          → has_key ip (snapshot_at dir (State.ip_snapshot s')) ≡ elem ip (ips_of entries))
      × ((other : Bytes)
          → bytes_eq dir other ≡ false
          → lookup other (State.ip_snapshot s') ≡ lookup other (State.ip_snapshot s))

  has_key-snapshot_at :
      (ip dir : Bytes) (ips : IpSet) (snapshots : Dict IpSet)
      → has_key ip (snapshot_at dir (insert dir ips snapshots)) ≡ has_key ip ips
  has_key-snapshot_at ip dir ips snapshots = rw (lookup-insert_self dir ips snapshots)

  with_entries-Handled :
      (dir : Bytes) (entries : List BannedIpEntry) (s : State R)
      → Handled dir entries s
          (with_entries u redis client reader n reverse_json info_json service dir entries s)
  unfolding has_key elem
  with_entries-Handled dir entries s =
      let snapshots = State.ip_snapshot s in
      let current = ips_loop entries [] in
      subst
        (λ d.
          Handled dir entries s
            (with_diff u redis client reader n reverse_json info_json service dir d s))
        (sym (diff_loop_lem (snapshot_at dir snapshots) entries [] []))
        (
          promote_all-each (fresh_entries (snapshot_at dir snapshots) entries) (State.redis s),
          λ ip.
              has_key-snapshot_at ip dir current snapshots
              ∙ has_key-ips_loop ip entries []
              ∙ or_false (elem ip (ips_of entries)),
          λ other h. ground (arith, lookup-insert dir other current snapshots, h),
        )

  -- When the list of bans of a directory can be read, `handleBannedIPs` succeeds and calls
  -- `promoteIdentity` for exactly the entries whose address was not in the directory's snapshot, in the order of the file. The
  -- addresses of the file become the snapshot, and the other directories' snapshots stay.
  pub handle-banned_ips-fresh :
      (machine : Machine) (dir : Bytes) (entries : List BannedIpEntry) (s : State R)
      → banned_ips u json machine dir ≡ ok entries
      → (handle_banned_ips u json redis client reader n reverse_json info_json service machine dir s
          ≡ (ok tt, handle machine dir s))
        × (State.redis (handle machine dir s)
            ≡ each
                (λ e t.
                  (promote_identity u redis client reader n reverse_json info_json service e t).1)
                (fresh_entries (snapshot_at dir (State.ip_snapshot s)) entries)
                (State.redis s))
        × ((ip : Bytes)
            → has_key ip (snapshot_at dir (State.ip_snapshot (handle machine dir s)))
              ≡ elem ip (ips_of entries))
        × ((other : Bytes)
            → bytes_eq dir other ≡ false
            → lookup other (State.ip_snapshot (handle machine dir s))
              ≡ lookup other (State.ip_snapshot s))
  unfolding handle_banned_ips
  handle-banned_ips-fresh machine dir entries s e =
      let on = λ (r : Result FileError (List BannedIpEntry)).
        on_banned_ips u json redis client reader n reverse_json info_json service dir r s in
      let (promotes, snapshot, others) =
        subst (λ r. Handled dir entries s ((on r).1)) (sym e)
          (with_entries-Handled dir entries s) in
      (subst (λ r. on r ≡ (ok tt, (on r).1)) (sym e) refl, promotes, snapshot, others)

  -- A second event on a directory whose list of bans holds no further address promotes nothing: Redis
  -- stays as the first event left it.
  pub handle-banned_ips_again :
      (machine later : Machine) (dir : Bytes) (entries more : List BannedIpEntry) (s : State R)
      → banned_ips u json machine dir ≡ ok entries
      → banned_ips u json later dir ≡ ok more
      → ((ip : Bytes) → elem ip (ips_of more) ≡ true → elem ip (ips_of entries) ≡ true)
      → State.redis (handle later dir (handle machine dir s)) ≡ State.redis (handle machine dir s)
  unfolding each
  handle-banned_ips_again machine later dir entries more s e e' all =
      let s' = handle machine dir s in
      let (good, first, snapshot, others) = handle-banned_ips-fresh machine dir entries s e in
      let (good', second, snapshot', others') = handle-banned_ips-fresh later dir more s' e' in
      second
      ∙ ap (λ t. promoted t (State.redis s'))
          (fresh_entries-nil (snapshot_at dir (State.ip_snapshot s')) more
            (λ ip h. snapshot ip ∙ all ip h))
