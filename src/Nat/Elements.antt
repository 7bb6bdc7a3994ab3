-- ===== src/Nat/Elements.antt =====
-- internal/nat/nat.go, the two element runners: through nft scripts, and through a netlink connection
-- of the package nftables, whose calls are parameters.
use sidero_proxy.Base.{
  prefix_error, ◌≡◌, ◌⊎◌, refl, Bool, true, false, Option, none, some, ◌++◌, if◌then◌else◌, Result,
  ok, err, Action, pure, fail, ◌>>◌, Bytes, codes, Unicode, Ip, v4, v6, Ipv6, parse_ip, arith,
}
use sidero_proxy.Nft.{Error, ScriptRunner, ignore_already_exists, ignore_missing, tolerating}
use sidero_proxy.Nat.{ElementRunner}

unfoldable pub exec_element_runner : {W : Type 0} → ScriptRunner W → ElementRunner W
exec_element_runner run = record {
  add = λ real_ip internal_ip. run (
      codes "add element ip mcproxy_nat nat_map { "
      ++ (real_ip ++ (codes " : " ++ (internal_ip ++ codes " }\n"))));
  delete = λ real_ip.
      run (codes "delete element ip mcproxy_nat nat_map { " ++ (real_ip ++ codes " }\n"));
}

-- The netlink connection, on the set `nat_map` of the table `mcproxy_nat`.
pub record Netlink (W : Type 0) : Type 0 where
  pub open_conn : Action W Error (Unit {0})
  pub set_add_elements : Ip → Ip → Action W Error (Unit {0})
  pub set_delete_elements : Ip → Action W Error (Unit {0})
  pub flush : Action W Error (Unit {0})

-- The runner keeps its connection once it is open.
pub record NativeState (W : Type 0) : Type 0 where
  pub world : W
  pub connected : Bool

-- `newNativeElementRunner`
abbrev pub new_native_runner : {W : Type 0} → W → NativeState W
new_native_runner w = record { world = w; connected = false }

-- `IP.To4`, of the result of `net.ParseIP`
unfoldable pub to4 : Option Ip → Option Ip
to4 (some (v4 a b c d)) = some (v4 a b c d)
to4 (some (v6 bytes)) = none
to4 none = none

module _ {W : Type 0} (n : Ipv6) (u : Unicode) (link : Netlink W) where
  -- An action on the world, as one on the runner's state.
  abbrev pub lifted : Action W Error (Unit {0}) → Action (NativeState W) Error (Unit {0})
  lifted m s = ((m s.world).0, record s { world = (m s.world).1 })

  abbrev mark_connected : Action (NativeState W) Error (Unit {0})
  mark_connected s = (ok tt, record s { connected = true })

  unfoldable pub connection : Action (NativeState W) Error (Unit {0})
  connection s =
      if s.connected
      then (ok tt, s)
      else (do
        tolerating (prefix_error (codes "open nftables conn: ")) (lifted link.open_conn)
        mark_connected)
          s

  -- A call whose error is the operation's result, read by `ignore`; else the operation goes on.
  abbrev pub or_return :
      (Result Error (Unit {0}) → Result Error (Unit {0}))
      → Bytes
      → Action (NativeState W) Error (Unit {0})
      → Result Error (Unit {0}) × NativeState W
      → Result Error (Unit {0}) × NativeState W
  or_return ignore p next (ok x, s) = next s
  or_return ignore p next (err e, s) = (ignore (err (p ++ e)), s)

  unfoldable pub not_ipv4 : Bytes → Bytes → Error
  not_ipv4 real_ip internal_ip =
      codes "nat map requires ipv4 addresses, got real_ip="
      ++ (u.quote real_ip ++ (codes " internal_ip=" ++ u.quote internal_ip))

  unfoldable pub native_add_ipv4 : Ip → Ip → Action (NativeState W) Error (Unit {0})
  native_add_ipv4 real_ip internal_ip = do
    connection
    λ s.
        or_return ignore_already_exists (codes "native nft add element failed: ")
          (λ s₁.
            or_return ignore_already_exists (codes "native nft flush add failed: ") (pure tt)
              (lifted link.flush s₁))
          (lifted (link.set_add_elements real_ip internal_ip) s)

  abbrev pub add_parsed : Error → Option Ip → Option Ip → Action (NativeState W) Error (Unit {0})
  add_parsed refusal (some real_ip) (some internal_ip) = native_add_ipv4 real_ip internal_ip
  add_parsed refusal (some real_ip) none = fail refusal
  add_parsed refusal none internal_ip = fail refusal

  unfoldable pub native_add : Bytes → Bytes → Action (NativeState W) Error (Unit {0})
  native_add real_ip internal_ip =
      add_parsed (not_ipv4 real_ip internal_ip) (to4 (parse_ip n real_ip))
        (to4 (parse_ip n internal_ip))

  unfoldable pub native_delete_ipv4 : Ip → Action (NativeState W) Error (Unit {0})
  native_delete_ipv4 real_ip = do
    connection
    λ s.
        or_return ignore_missing (codes "native nft delete element failed: ")
          (λ s₁.
            or_return ignore_missing (codes "native nft flush delete failed: ") (pure tt)
              (lifted link.flush s₁))
          (lifted (link.set_delete_elements real_ip) s)

  abbrev pub delete_parsed : Bytes → Option Ip → Action (NativeState W) Error (Unit {0})
  delete_parsed real_ip (some ip) = native_delete_ipv4 ip
  delete_parsed real_ip none = fail (codes "nat map requires ipv4 real_ip, got " ++ u.quote real_ip)

  unfoldable pub native_delete : Bytes → Action (NativeState W) Error (Unit {0})
  native_delete real_ip = delete_parsed real_ip (to4 (parse_ip n real_ip))

  unfoldable pub native_element_runner : ElementRunner (NativeState W)
  unfolding native_add native_delete
  native_element_runner = record { add = native_add; delete = native_delete }

  add_refused_of_cases :
      (refusal : Error) (real_ip internal_ip : Option Ip) (s : NativeState W)
      → (real_ip ≡ none) ⊎ (internal_ip ≡ none)
      → add_parsed refusal real_ip internal_ip s ≡ (err refusal, s)
  add_refused_of_cases refusal none internal_ip s h = refl
  add_refused_of_cases refusal (some a) none s h = refl
  add_refused_of_cases refusal (some a) (some b) s h = ground arith

  -- An address that is no IPv4 address is refused by the native runner before it opens or uses the
  -- netlink connection: neither the world nor the runner's connection changes.
  pub native_add-not_ipv4 :
      (real_ip internal_ip : Bytes) (s : NativeState W)
      → (to4 (parse_ip n real_ip) ≡ none) ⊎ (to4 (parse_ip n internal_ip) ≡ none)
      → native_add real_ip internal_ip s ≡ (err (not_ipv4 real_ip internal_ip), s)
  unfolding native_add
  native_add-not_ipv4 real_ip internal_ip s h = add_refused_of_cases _ _ _ s h
