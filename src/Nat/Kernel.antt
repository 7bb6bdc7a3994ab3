-- ===== src/Nat/Kernel.antt =====
-- What the manager of the SNAT map relies on of the kernel, and what each of its operations does to
-- the references and to the kernel's map, on every branch.
use sidero_proxy.Base.{
  ℕ, ◌+◌, ◌-◌, ◌≤◌, ◌≡◌, refl, subst, Bool, true, false, Bool-cases, Option, none, some, ltb,
  if◌then◌else◌, ◌⊎◌, inl, inr, Result, ok, err, Bytes, bytes_eq, bytes_eq_iff, arith,
}
use sidero_proxy.Base.Dict.{lookup, lookup-insert, lookup-delete}
use sidero_proxy.Nft.{Error, is_missing}
use sidero_proxy.Nat.{NatEntry, ElementRunner, NatState, add, remove}

-- The kernel's map `nat_map` behind a runner, for addresses written as `IsText` says, while the runner
-- is ready: adding a key that is not there sets it, deleting a key removes it, and a call that fails
-- changes nothing. A deletion fails with "No such file" only where the key is not in the map. Each
-- call leaves the runner ready.
pub record KernelMap {W : Type 0} (elems : ElementRunner W) (IsText : Bytes → Type 0) : Type 0 where
  pub mapping : W → Bytes → Option Bytes
  pub is_ready : W → Bool
  pub mapping-add :
      (k i : Bytes) (w : W) {w' : W}
      → IsText k
      → IsText i
      → (is_ready w ≡ true)
      → mapping w k ≡ none
      → elems.add k i w ≡ (ok tt, w')
      → (is_ready w' ≡ true)
        × ((j : Bytes) → mapping w' j ≡ (if bytes_eq k j then some i else mapping w j))
  pub mapping-add_failed :
      (k i : Bytes) (w : W) {w' : W} {e : Error}
      → (is_ready w ≡ true)
      → elems.add k i w ≡ (err e, w')
      → (is_ready w' ≡ true) × ((j : Bytes) → mapping w' j ≡ mapping w j)
  pub mapping-delete :
      (k : Bytes) (w : W) {w' : W}
      → IsText k
      → (is_ready w ≡ true)
      → elems.delete k w ≡ (ok tt, w')
      → (is_ready w' ≡ true)
        × ((j : Bytes) → mapping w' j ≡ (if bytes_eq k j then none else mapping w j))
  pub mapping-delete_failed :
      (k : Bytes) (w : W) {w' : W} {e : Error}
      → IsText k
      → (is_ready w ≡ true)
      → elems.delete k w ≡ (err e, w')
      → (is_ready w' ≡ true)
        × ((j : Bytes) → mapping w' j ≡ mapping w j)
        × (is_missing e ≡ true → mapping w k ≡ none)

abbrev pub refs_of : Option NatEntry → ℕ
refs_of none = 0
refs_of (some entry) = entry.ref_count

abbrev pub internal_of : Option NatEntry → Option Bytes
internal_of none = none
internal_of (some entry) = some entry.internal_ip

-- An entry is in the dictionary only while it has a reference.
abbrev pub IsReferenced : Option NatEntry → Type 0
IsReferenced none = Unit
IsReferenced (some entry) = 1 ≤ entry.ref_count

module _ {W : Type 0} (elems : ElementRunner W) {IsText : Bytes → Type 0}
    (kernel : KernelMap elems IsText) where
  -- The kernel's map holds the internal address of each referenced client address, and nothing else.
  pub record IsSynced (s : NatState W) : Type 0 where
    pub synced : (k : Bytes) → kernel.mapping s.world k ≡ internal_of (lookup k s.refs)
    pub referenced : (k : Bytes) → IsReferenced (lookup k s.refs)
    pub ready : (kernel.is_ready s.world ≡ true)

  -- How an accepted connection changes the entry of each address `j`.
  abbrev pub Acquired : Bytes → Bytes → NatState W → NatState W → Type 0
  Acquired k i s s' =
      ((lookup k s.refs ≡ none) ⊎ (internal_of (lookup k s.refs) ≡ some i))
      × ((j : Bytes)
          → lookup j s'.refs ≡ (
              if bytes_eq k j
              then some (record { internal_ip = i; ref_count = refs_of (lookup k s.refs) + 1 })
              else lookup j s.refs))
      × ((j : Bytes)
          → kernel.mapping s'.world j ≡ (if bytes_eq k j then some i else kernel.mapping s.world j))
      × (kernel.is_ready s'.world ≡ true)

  Acquired-of_cases :
      (k i : Bytes) (s s' : NatState W) (o : Option NatEntry) (r : Result Error (Unit {0}) × W)
      → IsText k
      → IsText i
      → IsSynced s
      → lookup k s.refs ≡ o
      → elems.add k i s.world ≡ r
      → add elems k i s ≡ (ok tt, s')
      → Acquired k i s s'
  unfolding add
  Acquired-of_cases k i s s' none (ok x, w) tk ti v e f h =
      let absent : kernel.mapping s.world k ≡ none = ground (arith, v.synced k, e) in
      let (ready, elements) = kernel.mapping-add k i s.world tk ti v.ready absent f in
      (
        inl e,
        (λ j. ground (arith, lookup-insert k j (record { internal_ip = i; ref_count = 1 }) s.refs)),
        (λ j. ground (arith, elements j)),
        let same : w ≡ s'.world = ground (arith, e, f, h) in
            subst (λ t. kernel.is_ready t ≡ true) same ready,
      )
  Acquired-of_cases k i s s' none (err x, w) tk ti v e f h = absurd (ground arith)
  Acquired-of_cases k i s s' (some entry) r tk ti v e f h = (
    inr (ground (arith, bytes_eq_iff entry.internal_ip i)),
    (λ j. ground (
      arith,
      bytes_eq_iff entry.internal_ip i,
      lookup-insert k j (record entry { ref_count = entry.ref_count + 1 }) s.refs,
    )),
    (λ j. ground (arith, bytes_eq_iff entry.internal_ip i, bytes_eq_iff k j, v.synced k)),
    let same : s.world ≡ s'.world = ground (arith, bytes_eq_iff entry.internal_ip i) in
        subst (λ t. kernel.is_ready t ≡ true) same v.ready,
  )

  -- An accepted connection counts one reference more for its address and maps it to `i`; it had the
  -- address `i` before if it had any. Nothing changes for the other addresses.
  pub add-Acquired :
      (k i : Bytes) (s : NatState W) {s' : NatState W}
      → IsText k
      → IsText i
      → IsSynced s
      → add elems k i s ≡ (ok tt, s')
      → Acquired k i s s'
  add-Acquired k i s {s'} tk ti v h =
      Acquired-of_cases k i s s' (lookup k s.refs) (elems.add k i s.world) tk ti v refl refl h

  -- The references and the kernel's map after an operation that changes neither.
  abbrev pub Unchanged : NatState W → NatState W → Type 0
  Unchanged s s' =
      (s'.refs ≡ s.refs)
      × ((j : Bytes) → kernel.mapping s'.world j ≡ kernel.mapping s.world j)
      × (kernel.is_ready s'.world ≡ true)

  Unchanged-of_cases :
      (k i : Bytes) (s s' : NatState W) (x : Error) (o : Option NatEntry)
      (r : Result Error (Unit {0}) × W)
      → (kernel.is_ready s.world ≡ true)
      → lookup k s.refs ≡ o
      → elems.add k i s.world ≡ r
      → add elems k i s ≡ (err x, s')
      → Unchanged s s'
  unfolding add
  Unchanged-of_cases k i s s' x none (ok y, w) ready e f h = absurd (ground arith)
  Unchanged-of_cases k i s s' x none (err y, w) ready e f h =
      let (ready', same) = kernel.mapping-add_failed k i s.world ready f in
      let world : w ≡ s'.world = ground (arith, e, f, h) in
      (
        ground arith,
        (λ j. ground (arith, same j)),
        subst (λ t. kernel.is_ready t ≡ true) world ready',
      )
  Unchanged-of_cases k i s s' x (some entry) r ready e f h =
      let world : s.world ≡ s'.world = ground (arith, e, h) in
      (ground arith, (λ j. ground arith), subst (λ t. kernel.is_ready t ≡ true) world ready)

  pub add-Unchanged :
      (k i : Bytes) (s : NatState W) {s' : NatState W} {x : Error}
      → (kernel.is_ready s.world ≡ true)
      → add elems k i s ≡ (err x, s')
      → Unchanged s s'
  add-Unchanged k i s {s'} {x} ready h =
      Unchanged-of_cases k i s s' x (lookup k s.refs) (elems.add k i s.world) ready refl refl h

  abbrev pub entry_after_release : Option NatEntry → Option NatEntry
  entry_after_release none = none
  entry_after_release (some entry) =
      if ltb 1 entry.ref_count
      then some (record entry { ref_count = entry.ref_count - 1 })
      else none

  -- How a release changes the entry of each address `j`.
  abbrev pub Released : Bytes → NatState W → NatState W → Type 0
  Released k s s' =
      ((j : Bytes)
        → lookup j s'.refs
          ≡ (if bytes_eq k j then entry_after_release (lookup k s.refs) else lookup j s.refs))
      × ((j : Bytes)
          → kernel.mapping s'.world j ≡ (
              if bytes_eq k j
              then internal_of (entry_after_release (lookup k s.refs))
              else kernel.mapping s.world j))
      × (kernel.is_ready s'.world ≡ true)

  -- The world after the deletion of an entry, or after its count was lowered.
  ready_after :
      (entry : NatEntry) (w : W) (s s' : NatState W)
      → (kernel.is_ready s.world ≡ true)
      → (kernel.is_ready w ≡ true)
      → (ltb 1 entry.ref_count ≡ true → s.world ≡ s'.world)
      → (ltb 1 entry.ref_count ≡ false → w ≡ s'.world)
      → (kernel.is_ready s'.world ≡ true)
  ready_after entry w s s' before after lowered deleted =
      elim (Bool-cases (ltb 1 entry.ref_count)) [
        | inl b ↦ subst (λ t. kernel.is_ready t ≡ true) (lowered b) before
        | inr b ↦ subst (λ t. kernel.is_ready t ≡ true) (deleted b) after
      ]

  Released-of_cases :
      (k : Bytes) (s s' : NatState W) (o : Option NatEntry) (r : Result Error (Unit {0}) × W)
      → IsText k
      → IsSynced s
      → lookup k s.refs ≡ o
      → elems.delete k s.world ≡ r
      → remove elems k s ≡ (ok tt, s')
      → Released k s s'
  unfolding remove
  Released-of_cases k s s' none r tk v e f h =
      let world : s.world ≡ s'.world = ground (arith, e, h) in
      (
        (λ j. ground (arith, bytes_eq_iff k j)),
        (λ j. ground (arith, bytes_eq_iff k j, v.synced k)),
        subst (λ t. kernel.is_ready t ≡ true) world v.ready,
      )
  Released-of_cases k s s' (some entry) (ok x, w) tk v e f h =
      let (ready, elements) = kernel.mapping-delete k s.world tk v.ready f in
      (
        (λ j. ground (
          arith,
          lookup-delete k j s.refs,
          lookup-insert k j (record entry { ref_count = entry.ref_count - 1 }) s.refs,
        )),
        (λ j. ground (arith, elements j, bytes_eq_iff k j, v.synced k)),
        ready_after entry w s s' v.ready ready (λ b. ground (arith, b)) (λ b. ground (arith, b)),
      )
  Released-of_cases k s s' (some entry) (err x, w) tk v e f h =
      let (ready, elements, missing) = kernel.mapping-delete_failed k s.world tk v.ready f in
      (
        (λ j. ground (
          arith,
          lookup-delete k j s.refs,
          lookup-insert k j (record entry { ref_count = entry.ref_count - 1 }) s.refs,
        )),
        (λ j. ground (arith, elements j, missing, bytes_eq_iff k j, v.synced k)),
        ready_after entry w s s' v.ready ready (λ b. ground (arith, b)) (λ b. ground (arith, b)),
      )

  pub remove-Released :
      (k : Bytes) (s : NatState W) {s' : NatState W}
      → IsText k
      → IsSynced s
      → remove elems k s ≡ (ok tt, s')
      → Released k s s'
  remove-Released k s {s'} tk v h =
      Released-of_cases k s s' (lookup k s.refs) (elems.delete k s.world) tk v refl refl h

  kept_of_cases :
      (k : Bytes) (s s' : NatState W) (x : Error) (o : Option NatEntry)
      (r : Result Error (Unit {0}) × W)
      → IsText k
      → (kernel.is_ready s.world ≡ true)
      → lookup k s.refs ≡ o
      → elems.delete k s.world ≡ r
      → remove elems k s ≡ (err x, s')
      → Unchanged s s'
  unfolding remove
  kept_of_cases k s s' x none r tk ready e f h = absurd (ground arith)
  kept_of_cases k s s' x (some entry) (ok y, w) tk ready e f h = absurd (ground arith)
  kept_of_cases k s s' x (some entry) (err y, w) tk ready e f h =
      let (ready', same, missing) = kernel.mapping-delete_failed k s.world tk ready f in
      let world : w ≡ s'.world = ground (arith, e, f, h) in
      (
        ground arith,
        (λ j. ground (arith, same j)),
        subst (λ t. kernel.is_ready t ≡ true) world ready',
      )

  pub remove-Unchanged :
      (k : Bytes) (s : NatState W) {s' : NatState W} {x : Error}
      → IsText k
      → (kernel.is_ready s.world ≡ true)
      → remove elems k s ≡ (err x, s')
      → Unchanged s s'
  remove-Unchanged k s {s'} {x} tk ready h =
      kept_of_cases k s s' x (lookup k s.refs) (elems.delete k s.world) tk ready refl refl h
