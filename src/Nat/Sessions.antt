-- ===== src/Nat/Sessions.antt =====
-- The life of the SNAT map under the connections of the router: each accepted connection acquires
-- its client address once and releases it once, in any interleaving, and calls may fail.
use sidero_proxy.Base.{
  ℕ, suc, ◌+◌, ◌≤◌, ◌≡◌, true, none, some, List, [], ◌∷◌, All, Bool-cases, inl, inr, ok, err, Bytes,
  Unicode, Ipv6, bytes_eq, bytes_eq_iff, arith,
}
use sidero_proxy.Base.Dict.{lookup}
use sidero_proxy.Nft.{Error}
use sidero_proxy.Nat.{ElementRunner, NatState, new_nat_manager, add, remove}
use sidero_proxy.Nat.Kernel.{
  KernelMap, refs_of, internal_of, IsSynced, Acquired, Released, Unchanged, add-Acquired,
  add-Unchanged, remove-Released, remove-Unchanged,
}
use sidero_proxy.Nat.Elements.{Netlink, NativeState, native_element_runner}
use sidero_proxy.Nat.Netlink.{NetlinkMap}
use sidero_proxy.Nat.Native.{native_kernel}
use sidero_proxy.Nat.Counts.{Session, sessions_of, ended, sessions_of-ended}
use sidero_proxy.Nat.Synced.{IsSynced-of_Acquired, IsSynced-of_Released, IsSynced-of_Unchanged}

module _ {W : Type 0} (elems : ElementRunner W) {IsText : Bytes → Type 0}
    (kernel : KernelMap elems IsText) where
  -- The states that the router can bring about, with the connections that are live and the number
  -- of releases that failed.
  pub data Reach : List Session → ℕ → NatState W → Type 0 where
    start :
        (w : W)
        → (kernel.is_ready w ≡ true)
        → ((k : Bytes) → kernel.mapping w k ≡ none)
        → Reach [] 0 (new_nat_manager w)
    connect :
        {live : List Session} {failures : ℕ} {s s' : NatState W} (k i : Bytes)
        → IsText k
        → IsText i
        → Reach live failures s
        → add elems k i s ≡ (ok tt, s')
        → Reach ((k, i) ∷ live) failures s'
    refuse :
        {live : List Session} {failures : ℕ} {s s' : NatState W} {e : Error} (k i : Bytes)
        → Reach live failures s
        → add elems k i s ≡ (err e, s')
        → Reach live failures s'
    disconnect :
        {live : List Session} {failures : ℕ} {s s' : NatState W} (k : Bytes)
        → IsText k
        → Reach live failures s
        → 1 ≤ sessions_of k live
        → remove elems k s ≡ (ok tt, s')
        → Reach (ended k live) failures s'
    leave_behind :
        {live : List Session} {failures : ℕ} {s s' : NatState W} {e : Error} (k : Bytes)
        → IsText k
        → Reach live failures s
        → 1 ≤ sessions_of k live
        → remove elems k s ≡ (err e, s')
        → Reach (ended k live) (suc failures) s'

  abbrev pub HasHome : NatState W → Session → Type 0
  HasHome s (k, i) = internal_of (lookup k s.refs) ≡ some i

  -- What holds in every such state.
  pub record IsTracked (live : List Session) (failures : ℕ) (s : NatState W) : Type 0 where
    pub in_step : IsSynced elems kernel s
    pub enough : (k : Bytes) → sessions_of k live ≤ refs_of (lookup k s.refs)
    pub not_more : (k : Bytes) → refs_of (lookup k s.refs) ≤ sessions_of k live + failures
    pub homes : All (HasHome s) live

  homes_of_Acquired :
      (k i : Bytes) (s s' : NatState W) (live : List Session)
      → Acquired elems kernel k i s s'
      → All (HasHome s) live
      → All (HasHome s') live
  homes_of_Acquired k i s s' [] a h = tt
  homes_of_Acquired k i s s' ((j, i') ∷ live) (before, entries, elements, ready) (h, hs) = (
    ground (arith, before, entries j, bytes_eq_iff k j),
    homes_of_Acquired k i s s' live (before, entries, elements, ready) hs,
  )

  homes_of_Released :
      (k : Bytes) (s s' : NatState W) (live : List Session)
      → Released elems kernel k s s'
      → ((j : Bytes) → sessions_of j live ≤ refs_of (lookup j s'.refs))
      → All (HasHome s) live
      → All (HasHome s') live
  unfolding sessions_of
  homes_of_Released k s s' [] r enough h = tt
  homes_of_Released k s s' ((j, i) ∷ live) (entries, elements, ready) enough (h, hs) = (
    ground (arith, entries j, enough j, bytes_eq_iff j j, bytes_eq_iff k j),
    homes_of_Released k s s' live (entries, elements, ready) (λ m. ground (arith, enough m)) hs,
  )

  homes_of_unchanged :
      (s s' : NatState W) (live : List Session)
      → s'.refs ≡ s.refs
      → All (HasHome s) live
      → All (HasHome s') live
  homes_of_unchanged s s' [] e h = tt
  homes_of_unchanged s s' ((j, i) ∷ live) e (h, hs) = (rw e h, homes_of_unchanged s s' live e hs)

  homes-ended :
      (k : Bytes) (s : NatState W) (live : List Session)
      → All (HasHome s) live
      → All (HasHome s) (ended k live)
  unfolding ended
  homes-ended k s [] h = tt
  homes-ended k s ((j, i) ∷ live) (h, hs) = elim (Bool-cases (bytes_eq j k)) [
    | inl e ↦ rw e hs
    | inr e ↦ rw e (h, homes-ended k s live hs)
  ]

  IsTracked-connect :
      (k i : Bytes) (live : List Session) (failures : ℕ) (s s' : NatState W)
      → IsTracked live failures s
      → Acquired elems kernel k i s s'
      → IsTracked ((k, i) ∷ live) failures s'
  unfolding sessions_of
  IsTracked-connect k i live failures s s' v (before, entries, elements, ready) = record {
    in_step =
        IsSynced-of_Acquired elems kernel k i s s' v.in_step (before, entries, elements, ready);
    enough = λ j. ground (arith, entries j, v.enough j, bytes_eq_iff k j);
    not_more = λ j. ground (arith, entries j, v.not_more j, bytes_eq_iff k j);
    homes = (
      ground (arith, entries k, bytes_eq_iff k k),
      homes_of_Acquired k i s s' live (before, entries, elements, ready) v.homes,
    );
  }

  IsTracked-Unchanged :
      (live : List Session) (failures : ℕ) (s s' : NatState W)
      → IsTracked live failures s
      → Unchanged elems kernel s s'
      → IsTracked live failures s'
  IsTracked-Unchanged live failures s s' v (entries, elements, ready) = record {
    in_step = IsSynced-of_Unchanged elems kernel s s' v.in_step (entries, elements, ready);
    enough = λ j. rw entries (v.enough j);
    not_more = λ j. rw entries (v.not_more j);
    homes = homes_of_unchanged s s' live entries v.homes;
  }

  enough_after_release :
      (k j : Bytes) (live : List Session) (failures : ℕ) (s s' : NatState W)
      → 1 ≤ sessions_of k live
      → IsTracked live failures s
      → Released elems kernel k s s'
      → sessions_of j (ended k live) ≤ refs_of (lookup j s'.refs)
  enough_after_release k j live failures s s' some_live v (entries, elements, ready) =
      ground (arith, entries j, v.enough j, bytes_eq_iff k j, sessions_of-ended k j live)

  IsTracked-disconnect :
      (k : Bytes) (live : List Session) (failures : ℕ) (s s' : NatState W)
      → 1 ≤ sessions_of k live
      → IsTracked live failures s
      → Released elems kernel k s s'
      → IsTracked (ended k live) failures s'
  IsTracked-disconnect k live failures s s' some_live v (entries, elements, ready) = record {
    in_step = IsSynced-of_Released elems kernel k s s' v.in_step (entries, elements, ready);
    enough =
        λ j. enough_after_release k j live failures s s' some_live v (entries, elements, ready);
    not_more = λ j. ground (
      arith,
      entries j,
      v.not_more j,
      v.in_step.referenced j,
      bytes_eq_iff k j,
      sessions_of-ended k j live,
    );
    homes =
        homes_of_Released k s s' (ended k live) (entries, elements, ready)
          (λ j. enough_after_release k j live failures s s' some_live v (entries, elements, ready))
          (homes-ended k s live v.homes);
  }

  IsTracked-leave_behind :
      (k : Bytes) (live : List Session) (failures : ℕ) (s s' : NatState W)
      → 1 ≤ sessions_of k live
      → IsTracked live failures s
      → Unchanged elems kernel s s'
      → IsTracked (ended k live) (suc failures) s'
  IsTracked-leave_behind k live failures s s' some_live v u =
      let v' = IsTracked-Unchanged live failures s s' v u in
      record {
        in_step = v'.in_step;
        enough = λ j. ground (arith, v'.enough j, sessions_of-ended k j live);
        not_more = λ j. ground (arith, v'.not_more j, sessions_of-ended k j live);
        homes = homes-ended k s' live v'.homes;
      }

  -- What is tracked is kept by each step.
  Reach-IsTracked :
      {live : List Session} {failures : ℕ} {s : NatState W}
      → Reach live failures s
      → IsTracked live failures s
  unfolding sessions_of lookup
  Reach-IsTracked (start w ready empty) = record {
    in_step = record { synced = empty; referenced = λ k. tt; ready = ready };
    enough = λ k. omega arith;
    not_more = λ k. omega arith;
    homes = tt;
  }
  Reach-IsTracked (connect {live} {failures} {s} {s'} k i tk ti reach e) =
      let v = Reach-IsTracked reach in
      IsTracked-connect k i live failures s s' v (add-Acquired elems kernel k i s tk ti v.in_step e)
  Reach-IsTracked (refuse {live} {failures} {s} {s'} k i reach e) =
      let v = Reach-IsTracked reach in
      IsTracked-Unchanged live failures s s' v
        (add-Unchanged elems kernel k i s (IsSynced.ready v.in_step) e)
  Reach-IsTracked (disconnect {live} {failures} {s} {s'} k tk reach some_live e) =
      let v = Reach-IsTracked reach in
      IsTracked-disconnect k live failures s s' some_live v
        (remove-Released elems kernel k s tk v.in_step e)
  Reach-IsTracked (leave_behind {live} {failures} {s} {s'} k tk reach some_live e) =
      let v = Reach-IsTracked reach in
      IsTracked-leave_behind k live failures s s' some_live v
        (remove-Unchanged elems kernel k s tk (IsSynced.ready v.in_step) e)

-- The manager with the native runner, as main builds it, from a kernel's map that is empty: in every
-- state that connections bring about in any interleaving, calls that fail included, the kernel's map
-- is exactly what the references say. An address has as many references as live connections, and at
-- most one more for each release that failed, and every live connection's address is mapped to the
-- internal address that the connection was given. The addresses of the connections that are accepted
-- or released are IPv4 addresses as Go prints them.
pub native-IsTracked :
    {W : Type 0} (n : Ipv6) (u : Unicode) (link : Netlink W) (m : NetlinkMap n link)
    {live : List Session} {failures : ℕ} {s : NatState (NativeState W)}
    → Reach (native_element_runner n u link) (native_kernel n u link m) live failures s
    → IsTracked (native_element_runner n u link) (native_kernel n u link m) live failures s
native-IsTracked n u link m reach =
    Reach-IsTracked (native_element_runner n u link) (native_kernel n u link m) reach
