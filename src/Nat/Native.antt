-- ===== src/Nat/Native.antt =====
-- That the native element runner of internal/nat/nat.go is a runner of the kernel's map, for a netlink
-- connection that works as the kernel documents it.
use sidero_proxy.Base.{
  prefix_error, ◌≡◌, refl, sym, ap, ◌∙◌, subst, Bool, true, false, Option, none, some, Result, ok,
  err, continue_with, Bytes, codes, contains, starts_with, Unicode, Ip, Ipv6, parse_ip, ip_string,
  arith,
}
use sidero_proxy.Nft.{Error, is_missing, ignore_already_exists, ignore_missing}
use sidero_proxy.Nat.Netlink.{IsPrinted, NetlinkMap}
use sidero_proxy.Nat.Kernel.{KernelMap}
use sidero_proxy.Nat.Elements.{
  Netlink, NativeState, to4, or_return, lifted, connection, native_add_ipv4, native_delete_ipv4,
  add_parsed, delete_parsed, native_add, native_delete, native_element_runner, not_ipv4,
}
use sidero_proxy.Nat.Flushed.{IsIdle, Same, Added, Deleted, add_then_flush, delete_then_flush}

module _ {W : Type 0} (n : Ipv6) (u : Unicode) (link : Netlink W) (m : NetlinkMap n link) where
  -- What is left to show of opening the connection.
  Opened : NativeState W → Result Error (Unit {0}) × NativeState W → Type 0
  Opened s (ok x, s') = IsIdle n u link m s' × Same n u link m s s'
  Opened s (err e, s') = IsIdle n u link m s' × Same n u link m s s' × (is_missing e ≡ false)

  connection-Opened : (s : NativeState W) → IsIdle n u link m s → Opened s (connection n u link s)
  unfolding Opened connection
  connection-Opened s idle = by_connected s.connected s.world idle
    where
      by_opened :
          (w : W) (r : Result Error (Unit {0}) × W)
          → m.is_idle w ≡ true
          → link.open_conn w ≡ r
          → let s₀ : NativeState W = record { world = w; connected = false } in
            Opened s₀ (
              continue_with
                (λ (_ : Unit {0}) (s₁ : NativeState W). (ok tt, record s₁ { connected = true }))
                (prefix_error (codes "open nftables conn: ") (r.0), record s₀ { world = r.1 }))
      by_opened w (ok x, w') idle e =
          unfold Opened in
          (
            ap (λ t. m.is_idle (t.1)) (sym e) ∙ (m.opened w idle).0,
            λ j. ap (λ t. m.mapping (t.1) j) (sym e) ∙ (m.opened w idle).1 j,
          )
      by_opened w (err x, w') idle e =
          unfold Opened is_missing contains starts_with in
          (
            ap (λ t. m.is_idle (t.1)) (sym e) ∙ (m.opened w idle).0,
            (λ j. ap (λ t. m.mapping (t.1) j) (sym e) ∙ (m.opened w idle).1 j),
            m.not_opened w e,
          )

      by_connected :
          (b : Bool) (w : W)
          → m.is_idle w ≡ true
          → let s₀ : NativeState W = record { world = w; connected = b } in
            Opened s₀ (connection n u link s₀)
      by_connected true w idle = unfold Opened connection in (idle, λ j. refl)
      by_connected false w idle = unfold connection in (by_opened w (link.open_conn w) idle refl)

  Added-Same :
      (k i : Bytes) (s s' : NativeState W) (p : Result Error (Unit {0}) × NativeState W)
      → Same n u link m s s'
      → Added n u link m k i s' p
      → Added n u link m k i s p
  unfolding Added
  Added-Same k i s s' (ok x, t) same added = λ absent.
      let (idle, elements) = added (same k ∙ absent) in
      (idle, λ j. ground (arith, elements j, same j))
  Added-Same k i s s' (err e, t) same (idle, kept) = (idle, λ j. kept j ∙ same j)

  Deleted-Same :
      (k : Bytes) (s s' : NativeState W) (p : Result Error (Unit {0}) × NativeState W)
      → Same n u link m s s'
      → Deleted n u link m k s' p
      → Deleted n u link m k s p
  unfolding Deleted
  Deleted-Same k s s' (ok x, t) same (idle, elements) =
      (idle, λ j. ground (arith, elements j, same j))
  Deleted-Same k s s' (err e, t) same (idle, kept, missing) =
      (idle, (λ j. kept j ∙ same j), λ h. sym (same k) ∙ missing h)

  native_add_ipv4-Added :
      (a b : Ip) (s : NativeState W)
      → IsIdle n u link m s
      → Added n u link m (ip_string n a) (ip_string n b) s (native_add_ipv4 n u link a b s)
  unfolding native_add_ipv4
  native_add_ipv4-Added a b s idle = behind (connection n u link s) (connection-Opened s idle)
    where
      behind :
          (r : Result Error (Unit {0}) × NativeState W)
          → Opened s r
          → Added n u link m (ip_string n a) (ip_string n b) s (
              continue_with
                (λ (_ : Unit {0}) (s₁ : NativeState W).
                  or_return n u link ignore_already_exists
                    (codes "native nft add element failed: ")
                    (λ s₂.
                      or_return n u link ignore_already_exists
                        (codes "native nft flush add failed: ")
                        (λ s₃. (ok tt, s₃))
                        (lifted n u link link.flush s₂))
                    (lifted n u link (link.set_add_elements a b) s₁))
                r)
      behind (ok x, s') opened =
          unfold Opened in
          Added-Same (ip_string n a) (ip_string n b) s s' _ (opened.1)
            (add_then_flush n u link m a b s' (opened.0))
      behind (err e, s') opened = unfold Opened Added in (opened.0, opened.1)

  native_delete_ipv4-Deleted :
      (a : Ip) (s : NativeState W)
      → IsIdle n u link m s
      → Deleted n u link m (ip_string n a) s (native_delete_ipv4 n u link a s)
  unfolding native_delete_ipv4
  native_delete_ipv4-Deleted a s idle = behind (connection n u link s) (connection-Opened s idle)
    where
      behind :
          (r : Result Error (Unit {0}) × NativeState W)
          → Opened s r
          → Deleted n u link m (ip_string n a) s (
              continue_with
                (λ (_ : Unit {0}) (s₁ : NativeState W).
                  or_return n u link ignore_missing
                    (codes "native nft delete element failed: ")
                    (λ s₂.
                      or_return n u link ignore_missing
                        (codes "native nft flush delete failed: ")
                        (λ s₃. (ok tt, s₃))
                        (lifted n u link link.flush s₂))
                    (lifted n u link (link.set_delete_elements a) s₁))
                r)
      behind (ok x, s') opened =
          unfold Opened in
          Deleted-Same (ip_string n a) s s' _ (opened.1)
            (delete_then_flush n u link m a s' (opened.0))
      behind (err e, s') opened =
          unfold Opened Deleted in
          (opened.0, opened.1, λ missing. absurd (ground (arith, missing, opened.2)))

  pub native_add-Added :
      (k i : Bytes) (s : NativeState W)
      → IsPrinted n k
      → IsPrinted n i
      → IsIdle n u link m s
      → Added n u link m k i s (native_add n u link k i s)
  unfolding native_add
  native_add-Added k i s (a, read_k, printed_k) (b, read_i, printed_i) idle =
      let refusal = not_ipv4 n u link k i in
      subst (λ o. Added n u link m k i s (add_parsed n u link refusal o (to4 (parse_ip n i)) s))
        (sym read_k)
        (subst (λ o. Added n u link m k i s (add_parsed n u link refusal (some a) o s)) (sym read_i)
          (subst (λ t. Added n u link m t i s (native_add_ipv4 n u link a b s)) printed_k
            (subst (λ t. Added n u link m (ip_string n a) t s (native_add_ipv4 n u link a b s))
              printed_i (native_add_ipv4-Added a b s idle))))

  pub native_delete-Deleted :
      (k : Bytes) (s : NativeState W)
      → IsPrinted n k
      → IsIdle n u link m s
      → Deleted n u link m k s (native_delete n u link k s)
  unfolding native_delete
  native_delete-Deleted k s (a, read_k, printed_k) idle =
      subst (λ o. Deleted n u link m k s (delete_parsed n u link k o s)) (sym read_k)
        (subst (λ t. Deleted n u link m t s (native_delete_ipv4 n u link a s)) printed_k
          (native_delete_ipv4-Deleted a s idle))

  pub add_parsed-Same :
      (refusal : Error) (o o' : Option Ip) (s : NativeState W) {s' : NativeState W} {e : Error}
      → IsIdle n u link m s
      → add_parsed n u link refusal o o' s ≡ (err e, s')
      → IsIdle n u link m s' × Same n u link m s s'
  add_parsed-Same refusal none o' s {s'} idle h =
      subst (λ t. IsIdle n u link m t × Same n u link m s t) (ap (λ r. r.1) h) (idle, λ j. refl)
  add_parsed-Same refusal (some a) none s {s'} idle h =
      subst (λ t. IsIdle n u link m t × Same n u link m s t) (ap (λ r. r.1) h) (idle, λ j. refl)
  add_parsed-Same refusal (some a) (some b) s {s'} {e} idle h =
      unfold Added in
      (subst (Added n u link m (ip_string n a) (ip_string n b) s) h
        (native_add_ipv4-Added a b s idle))

  -- The native runner keeps the kernel's map as `KernelMap` says, for IPv4 addresses as Go prints them.
  unfoldable pub native_kernel : KernelMap (native_element_runner n u link) (IsPrinted n)
  unfolding native_element_runner native_add Added Deleted
  native_kernel = record {
    mapping = λ s. m.mapping (NativeState.world s);
    is_ready = λ s. m.is_idle (NativeState.world s);
    mapping-add = λ k i s tk ti idle absent h.
        subst (Added n u link m k i s) h (native_add-Added k i s tk ti idle) absent;
    mapping-add_failed = λ k i s idle h.
        add_parsed-Same (not_ipv4 n u link k i) (to4 (parse_ip n k)) (to4 (parse_ip n i)) s idle h;
    mapping-delete =
        λ k s tk idle h. subst (Deleted n u link m k s) h (native_delete-Deleted k s tk idle);
    mapping-delete_failed =
        λ k s tk idle h. subst (Deleted n u link m k s) h (native_delete-Deleted k s tk idle);
  }
