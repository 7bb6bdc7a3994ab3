-- ===== src/Nat/Synced.antt =====
-- That the kernel's map and the manager's entries agree, through what `add` and `remove` do.
use sidero_proxy.Base.{Bytes, arith}
use sidero_proxy.Nat.{ElementRunner, NatState}
use sidero_proxy.Nat.Kernel.{KernelMap, IsSynced, Acquired, Released, Unchanged}

module _ {W : Type 0} (elems : ElementRunner W) {IsText : Bytes → Type 0}
    (kernel : KernelMap elems IsText) where
  pub IsSynced-of_Acquired :
      (k i : Bytes) (s s' : NatState W)
      → IsSynced elems kernel s
      → Acquired elems kernel k i s s'
      → IsSynced elems kernel s'
  IsSynced-of_Acquired k i s s' v (before, entries, elements, ready) = record {
    synced = λ j. ground (arith, entries j, elements j, v.synced j);
    referenced = λ j. ground (arith, entries j, v.referenced j);
    ready = ready;
  }

  pub IsSynced-of_Released :
      (k : Bytes) (s s' : NatState W)
      → IsSynced elems kernel s
      → Released elems kernel k s s'
      → IsSynced elems kernel s'
  IsSynced-of_Released k s s' v (entries, elements, ready) = record {
    synced = λ j. ground (arith, entries j, elements j, v.synced j);
    referenced = λ j. ground (arith, entries j, v.referenced j, v.referenced k);
    ready = ready;
  }

  pub IsSynced-of_Unchanged :
      (s s' : NatState W)
      → IsSynced elems kernel s
      → Unchanged elems kernel s s'
      → IsSynced elems kernel s'
  IsSynced-of_Unchanged s s' v (entries, elements, ready) = record {
    synced = λ j. ground (arith, elements j, v.synced j);
    referenced = λ j. rw entries (v.referenced j);
    ready = ready;
  }
