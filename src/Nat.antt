-- ===== src/Nat.antt =====
-- internal/nat/nat.go, the manager of the SNAT map. `NATManager` counts the connections of each
-- client address and keeps one element in the kernel's map for each address that has any. Its mutex
-- makes each operation one step.
pub mod Elements
pub mod Chains
pub mod Kernel
pub mod Netlink
pub mod Flushed
pub mod Native
pub mod Counts
pub mod Synced
pub mod Sessions
use sidero_proxy.Base.{
  [], ℕ, ◌+◌, ◌-◌, Option, none, some, ltb, if◌then◌else◌, Result, ok, err, Action, ◌++◌, Bytes,
  codes, bytes_eq,
}
use sidero_proxy.Base.Dict.{Dict, lookup, insert, delete}
use sidero_proxy.Nft.{Error, ignore_missing}

pub record NatEntry : Type 0 where
  pub internal_ip : Bytes
  pub ref_count : ℕ

-- The interface `ElementRunner`.
pub record ElementRunner (W : Type 0) : Type 0 where
  pub add : Bytes → Bytes → Action W Error (Unit {0})
  pub delete : Bytes → Action W Error (Unit {0})

-- The manager's own state beside the world that its runner acts on.
pub record NatState (W : Type 0) : Type 0 where
  pub world : W
  pub refs : Dict NatEntry

-- `NewNATManager` and `NewNativeNATManager`: no client address is counted.
abbrev pub new_nat_manager : {W : Type 0} → W → NatState W
new_nat_manager w = record { world = w; refs = [] }

pub conflict : Bytes → Bytes → Bytes → Error
conflict real_ip current wanted =
    codes "nat entry for "
    ++ (real_ip
        ++ (codes " already exists with internal ip "
            ++ (current ++ (codes ", cannot replace with " ++ (wanted ++ codes " while active")))))

module _ {W : Type 0} (elems : ElementRunner W) where
  abbrev added :
      NatState W
      → Bytes
      → Bytes
      → Result Error (Unit {0}) × W
      → Result Error (Unit {0}) × NatState W
  added s real_ip internal_ip (err e, w) = (err e, record s { world = w })
  added s real_ip internal_ip (ok x, w) = (
    ok tt,
    record {
      world = w;
      refs = insert real_ip (record { internal_ip = internal_ip; ref_count = 1 }) s.refs;
    },
  )

  unfoldable pub add : Bytes → Bytes → Action (NatState W) Error (Unit {0})
  add real_ip internal_ip s = elim (lookup real_ip s.refs) [
    | some entry ↦
        if bytes_eq entry.internal_ip internal_ip
        then (
          ok tt,
          record s {
            refs = insert real_ip (record entry { ref_count = entry.ref_count + 1 }) s.refs;
          },
        )
        else (err (conflict real_ip entry.internal_ip internal_ip), s)
    | none ↦ added s real_ip internal_ip (elems.add real_ip internal_ip s.world)
  ]

  abbrev deleted :
      NatState W → Bytes → Result Error (Unit {0}) → W → Result Error (Unit {0}) × NatState W
  deleted s real_ip (err e) w = (err e, record s { world = w })
  deleted s real_ip (ok x) w = (ok tt, record { world = w; refs = delete real_ip s.refs })

  -- `Delete` of the source.
  unfoldable pub remove : Bytes → Action (NatState W) Error (Unit {0})
  remove real_ip s = elim (lookup real_ip s.refs) [
    | none ↦ (ok tt, s)
    | some entry ↦
        if ltb 1 entry.ref_count
        then (
          ok tt,
          record s {
            refs = insert real_ip (record entry { ref_count = entry.ref_count - 1 }) s.refs;
          },
        )
        else let (result, w) = elems.delete real_ip s.world in
          deleted s real_ip (ignore_missing result) w
  ]
