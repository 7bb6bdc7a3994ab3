-- ===== src/Nat/Netlink.antt =====
-- The netlink connection of internal/nat/nat.go: what the kernel documents of its calls on `nat_map`.
use sidero_proxy.Base.{
  ◌≡◌, Bool, true, false, Option, none, some, if◌then◌else◌, ok, err, Bytes, bytes_eq, Ip, Ipv6,
  parse_ip, ip_string,
}
use sidero_proxy.Nft.{Error, is_already_exists, is_missing}
use sidero_proxy.Nat.Elements.{Netlink, to4}

-- An IPv4 address that is written as Go prints it.
abbrev pub IsPrinted : Ipv6 → Bytes → Type 0
IsPrinted n text = (a : Ip) × (to4 (parse_ip n text) ≡ some a) × (ip_string n a ≡ text)

-- The set `nat_map` of the kernel behind a netlink connection, its keys and values as they are
-- printed. While no message waits on the connection, a call that queues one and the flush behind it
-- change the set, or fail and change nothing. The flush reports "File exists" only for a key of the
-- set, "No such file" only for a key that is not in it; no other call reports them.
pub record NetlinkMap {W : Type 0} (n : Ipv6) (link : Netlink W) : Type 0 where
  pub mapping : W → Bytes → Option Bytes
  pub is_idle : W → Bool
  pub opened :
      (w : W)
      → is_idle w ≡ true
      → (is_idle ((link.open_conn w).1) ≡ true)
        × ((j : Bytes) → mapping ((link.open_conn w).1) j ≡ mapping w j)
  pub not_opened :
      (w : W) {w' : W} {e : Error} → link.open_conn w ≡ (err e, w') → is_missing e ≡ false
  pub add_refused :
      (a b : Ip) (w : W) {w' : W} {e : Error}
      → is_idle w ≡ true
      → link.set_add_elements a b w ≡ (err e, w')
      → (is_idle w' ≡ true)
        × ((j : Bytes) → mapping w' j ≡ mapping w j)
        × (is_already_exists e ≡ false)
  pub add_sent :
      (a b : Ip) (w : W) {w₁ w₂ : W}
      → is_idle w ≡ true
      → link.set_add_elements a b w ≡ (ok tt, w₁)
      → link.flush w₁ ≡ (ok tt, w₂)
      → (is_idle w₂ ≡ true)
        × ((j : Bytes)
            → mapping w₂ j
              ≡ (if bytes_eq (ip_string n a) j then some (ip_string n b) else mapping w j))
  pub add_failed :
      (a b : Ip) (w : W) {w₁ w₂ : W} {e : Error}
      → is_idle w ≡ true
      → link.set_add_elements a b w ≡ (ok tt, w₁)
      → link.flush w₁ ≡ (err e, w₂)
      → (is_idle w₂ ≡ true)
        × ((j : Bytes) → mapping w₂ j ≡ mapping w j)
        × (mapping w (ip_string n a) ≡ none → is_already_exists e ≡ false)
  pub delete_refused :
      (a : Ip) (w : W) {w' : W} {e : Error}
      → is_idle w ≡ true
      → link.set_delete_elements a w ≡ (err e, w')
      → (is_idle w' ≡ true) × ((j : Bytes) → mapping w' j ≡ mapping w j) × (is_missing e ≡ false)
  pub delete_sent :
      (a : Ip) (w : W) {w₁ w₂ : W}
      → is_idle w ≡ true
      → link.set_delete_elements a w ≡ (ok tt, w₁)
      → link.flush w₁ ≡ (ok tt, w₂)
      → (is_idle w₂ ≡ true)
        × ((j : Bytes) → mapping w₂ j ≡ (if bytes_eq (ip_string n a) j then none else mapping w j))
  pub delete_failed :
      (a : Ip) (w : W) {w₁ w₂ : W} {e : Error}
      → is_idle w ≡ true
      → link.set_delete_elements a w ≡ (ok tt, w₁)
      → link.flush w₁ ≡ (err e, w₂)
      → (is_idle w₂ ≡ true)
        × ((j : Bytes) → mapping w₂ j ≡ mapping w j)
        × (is_missing e ≡ true → mapping w (ip_string n a) ≡ none)
