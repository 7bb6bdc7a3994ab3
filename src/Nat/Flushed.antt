-- ===== src/Nat/Flushed.antt =====
-- What the native element runner of internal/nat/nat.go makes of the kernel's map once its connection
-- is open: a call that queues a message, and the flush behind it.
use sidero_proxy.Base.{
  ◌≡◌, refl, sym, ◌∙◌, Bool, true, false, none, some, ◌++◌, if◌then◌else◌, Result, ok, err, Bytes,
  codes, bytes_eq, bytes_eq_iff, contains, starts_with, Unicode, Ip, Ipv6, ip_string, arith,
}
use sidero_proxy.Nft.{Error, is_already_exists, is_missing, ignore_already_exists, ignore_missing}
use sidero_proxy.Nat.Netlink.{NetlinkMap}
use sidero_proxy.Nat.Elements.{Netlink, NativeState, or_return, lifted}

already_exists_behind :
    (e : Error)
    → (is_already_exists (codes "native nft add element failed: " ++ e) ≡ is_already_exists e)
      × (is_already_exists (codes "native nft flush add failed: " ++ e) ≡ is_already_exists e)
unfolding is_already_exists contains starts_with
already_exists_behind e = (refl, refl)

missing_behind :
    (e : Error)
    → (is_missing (codes "native nft delete element failed: " ++ e) ≡ is_missing e)
      × (is_missing (codes "native nft flush delete failed: " ++ e) ≡ is_missing e)
unfolding is_missing contains starts_with
missing_behind e = (refl, refl)

module _ {W : Type 0} (n : Ipv6) (u : Unicode) (link : Netlink W) (m : NetlinkMap n link) where
  abbrev pub IsIdle : NativeState W → Type 0
  IsIdle s = m.is_idle s.world ≡ true

  abbrev pub Same : NativeState W → NativeState W → Type 0
  Same s s' = (j : Bytes) → m.mapping s'.world j ≡ m.mapping s.world j

  -- What is left to show of an addition, and of a deletion.
  unfoldable pub Added :
      Bytes → Bytes → NativeState W → Result Error (Unit {0}) × NativeState W → Type 0
  Added k i s (ok x, s') =
      m.mapping s.world k ≡ none
      → IsIdle s'
        × ((j : Bytes)
            → m.mapping s'.world j ≡ (if bytes_eq k j then some i else m.mapping s.world j))
  Added k i s (err e, s') = IsIdle s' × Same s s'

  unfoldable pub Deleted : Bytes → NativeState W → Result Error (Unit {0}) × NativeState W → Type 0
  Deleted k s (ok x, s') =
      IsIdle s'
      × ((j : Bytes) → m.mapping s'.world j ≡ (if bytes_eq k j then none else m.mapping s.world j))
  Deleted k s (err e, s') =
      IsIdle s' × Same s s' × (is_missing e ≡ true → m.mapping s.world k ≡ none)

  -- An error that is passed over if it says that the key is there, which it is not.
  Added-ignored :
      (k i : Bytes) (s s' : NativeState W) (e : Error) (b : Bool)
      → is_already_exists e ≡ b
      → (m.mapping s.world k ≡ none → b ≡ false)
      → IsIdle s'
      → Same s s'
      → Added k i s ((if b then ok tt else err e), s')
  unfolding Added
  Added-ignored k i s s' e true h absent idle same =
      λ none_there. absurd (ground (arith, absent none_there))
  Added-ignored k i s s' e false h absent idle same = (idle, same)

  Deleted-ignored :
      (k : Bytes) (s s' : NativeState W) (e : Error) (b : Bool)
      → is_missing e ≡ b
      → (b ≡ true → m.mapping s.world k ≡ none)
      → IsIdle s'
      → Same s s'
      → Deleted k s ((if b then ok tt else err e), s')
  unfolding Deleted
  Deleted-ignored k s s' e true h absent idle same =
      (idle, λ j. ground (arith, same j, absent refl, bytes_eq_iff k j))
  Deleted-ignored k s s' e false h absent idle same =
      (idle, same, λ missing. absurd (ground (arith, h, missing)))

  pub add_then_flush :
      (a b : Ip) (s : NativeState W)
      → IsIdle s
      → Added (ip_string n a) (ip_string n b) s (
          or_return n u link ignore_already_exists
            (codes "native nft add element failed: ")
            (λ s₁.
              or_return n u link ignore_already_exists
                (codes "native nft flush add failed: ")
                (λ s₂. (ok tt, s₂))
                (lifted n u link link.flush s₁))
            (lifted n u link (link.set_add_elements a b) s))
  add_then_flush a b s idle = by_queued (link.set_add_elements a b s.world) refl
    where
      by_flushed :
          (w₁ : W) (r : Result Error (Unit {0}) × W)
          → link.set_add_elements a b s.world ≡ (ok tt, w₁)
          → link.flush w₁ ≡ r
          → Added (ip_string n a) (ip_string n b) s (
              or_return n u link ignore_already_exists
                (codes "native nft flush add failed: ")
                (λ s₂. (ok tt, s₂))
                (r.0, record s { world = r.1 }))
      by_flushed w₁ (ok x, w₂) e f = unfold Added in (λ _. m.add_sent a b s.world idle e f)
      by_flushed w₁ (err x, w₂) e f =
          let (idle', same, absent) = m.add_failed a b s.world idle e f in
          let text = codes "native nft flush add failed: " ++ x in
          Added-ignored (ip_string n a) (ip_string n b) s (record s { world = w₂ }) text
            (is_already_exists text) refl
            (λ none_there. (already_exists_behind x).1 ∙ absent none_there) idle' same

      by_queued :
          (r : Result Error (Unit {0}) × W)
          → link.set_add_elements a b s.world ≡ r
          → Added (ip_string n a) (ip_string n b) s (
              or_return n u link ignore_already_exists
                (codes "native nft add element failed: ")
                (λ s₁.
                  or_return n u link ignore_already_exists
                    (codes "native nft flush add failed: ")
                    (λ s₂. (ok tt, s₂))
                    (lifted n u link link.flush s₁))
                (r.0, record s { world = r.1 }))
      by_queued (ok x, w₁) e = by_flushed w₁ (link.flush w₁) e refl
      by_queued (err x, w₁) e =
          let (idle', same, other) = m.add_refused a b s.world idle e in
          let text = codes "native nft add element failed: " ++ x in
          Added-ignored (ip_string n a) (ip_string n b) s (record s { world = w₁ }) text
            (is_already_exists text) refl (λ _. (already_exists_behind x).0 ∙ other) idle' same

  pub delete_then_flush :
      (a : Ip) (s : NativeState W)
      → IsIdle s
      → Deleted (ip_string n a) s (
          or_return n u link ignore_missing
            (codes "native nft delete element failed: ")
            (λ s₁.
              or_return n u link ignore_missing
                (codes "native nft flush delete failed: ")
                (λ s₂. (ok tt, s₂))
                (lifted n u link link.flush s₁))
            (lifted n u link (link.set_delete_elements a) s))
  delete_then_flush a s idle = by_queued (link.set_delete_elements a s.world) refl
    where
      by_flushed :
          (w₁ : W) (r : Result Error (Unit {0}) × W)
          → link.set_delete_elements a s.world ≡ (ok tt, w₁)
          → link.flush w₁ ≡ r
          → Deleted (ip_string n a) s (
              or_return n u link ignore_missing
                (codes "native nft flush delete failed: ")
                (λ s₂. (ok tt, s₂))
                (r.0, record s { world = r.1 }))
      by_flushed w₁ (ok x, w₂) e f = unfold Deleted in (m.delete_sent a s.world idle e f)
      by_flushed w₁ (err x, w₂) e f =
          let (idle', same, absent) = m.delete_failed a s.world idle e f in
          let text = codes "native nft flush delete failed: " ++ x in
          Deleted-ignored (ip_string n a) s (record s { world = w₂ }) text (is_missing text) refl
            (λ missing. absent (sym ((missing_behind x).1) ∙ missing)) idle' same

      by_queued :
          (r : Result Error (Unit {0}) × W)
          → link.set_delete_elements a s.world ≡ r
          → Deleted (ip_string n a) s (
              or_return n u link ignore_missing
                (codes "native nft delete element failed: ")
                (λ s₁.
                  or_return n u link ignore_missing
                    (codes "native nft flush delete failed: ")
                    (λ s₂. (ok tt, s₂))
                    (lifted n u link link.flush s₁))
                (r.0, record s { world = r.1 }))
      by_queued (ok x, w₁) e = by_flushed w₁ (link.flush w₁) e refl
      by_queued (err x, w₁) e =
          let (idle', same, other) = m.delete_refused a s.world idle e in
          let text = codes "native nft delete element failed: " ++ x in
          Deleted-ignored (ip_string n a) s (record s { world = w₁ }) text (is_missing text) refl
            (λ missing. absurd (ground (arith, missing, (missing_behind x).0, other))) idle' same
