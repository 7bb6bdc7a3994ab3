-- ===== src/Registration.antt =====
-- internal/registration/registration.go: the registry of the proxies in Redis. Each proxy owns a subnet
-- 10.<slot>.0.0/16. The JSON of package encoding/json and the clock are parameters.
pub mod Subnet
pub mod Slots
pub mod Registry
pub mod Distinct
pub mod Listing
use sidero_proxy.Base.{
  ℕ, ◌+◌, ◌≡◌, refl, Bool, true, false, ◌||◌, not, Option, none, some, List, [], ◌∷◌, ◌++◌, map,
  ltb, leb, ◌==◌, if◌then◌else◌, Result, ok, err, Action, pure, fail, continue_with, ◌>>=◌, ◌>>◌,
  Bytes, codes, itoa, Unicode, v4, v6, Ip, Ipv6, parse_cidr, sort_strings,
}
use sidero_proxy.Base.Dict.{Dict}
use sidero_proxy.Redis.{Redis, Client}

abbrev pub Error : Type 0
Error = Bytes

pub record ProxyInfo : Type 0 where
  pub subnet : Bytes
  pub tailscale_ip : Bytes
  pub registered_at : ℕ

-- What the program uses of the package encoding/json for `ProxyInfo`.
pub record InfoJson : Type 0 where
  pub marshal : ProxyInfo → Result Error Bytes
  pub unmarshal : Bytes → Result Error ProxyInfo

abbrev pub registry_key : Bytes
registry_key = codes "proxy:registry"

abbrev pub subnet_counter_key : Bytes
subnet_counter_key = codes "proxy:subnet_counter"

-- `fmt.Sprintf("10.%d.0.0/16", slot)`
unfoldable pub slot_subnet : ℕ → Bytes
slot_subnet slot = codes "10." ++ (itoa slot ++ codes ".0.0/16")

-- What a new proxy registers.
abbrev pub slot_info : ℕ → ℕ → ProxyInfo
slot_info now slot = record { subnet = slot_subnet slot; tailscale_ip = []; registered_at = now }

module _ (n : Ipv6) (u : Unicode) where
  abbrev slot_of : Bytes → Ip × ℕ × ℕ → Result Error ℕ
  slot_of subnet (v6 bytes, ones, bits) =
      err (codes "subnet " ++ (u.quote subnet ++ codes " is not IPv4"))
  slot_of subnet (v4 a b c d, ones, bits) =
      if not (bits == 32) || not (ones == 16)
      then err (codes "subnet " ++ (u.quote subnet ++ codes " must be /16"))
      else if not (a == 10) || (not (c == 0) || not (d == 0))
      then err (codes "subnet " ++ (u.quote subnet ++ codes " must match 10.<n>.0.0/16"))
      else if (b == 0) || (b == 255)
      then err (codes "subnet " ++ (u.quote subnet ++ codes " has invalid proxy slot"))
      else ok b

  -- `ProxyNumFromSubnet`
  unfoldable pub proxy_num_from_subnet : Bytes → Result Error ℕ
  proxy_num_from_subnet subnet = elim (parse_cidr n subnet) [
    | none ↦ err (codes "parse subnet " ++ u.quote subnet)
    | some parsed ↦ slot_of subnet parsed
  ]

-- `SortedProxyIDs`
unfoldable pub sorted_proxy_ids : Dict ProxyInfo → List Bytes
sorted_proxy_ids proxies = sort_strings (map (λ p. p.0) proxies)

abbrev pub lift_result : {R A : Type 0} → Result Error A → Action R Error A
lift_result r s = (r, s)

abbrev pub no_answer : {R : Type 0} → (R → R) → R → Unit {0} × R
no_answer f s = (tt, f s)

module _ {R : Type 0} (redis : Redis R) (client : Client R) (json : InfoJson) (n : Ipv6)
    (u : Unicode) where
  abbrev pub registered_info : Bytes → Action R Error (ProxyInfo × ℕ)
  registered_info value = do
    info ← lift_result (json.unmarshal value)
    proxy_num ← lift_result (proxy_num_from_subnet n u info.subnet)
    pure (info, proxy_num)

  abbrev pub check_slot : ℕ → Action R Error (Unit {0})
  check_slot slot =
      if leb slot 0 || ltb 254 slot
      then fail (codes "proxy subnet space exhausted: " ++ itoa slot)
      else pure tt

  abbrev pub write_info : ℕ → Bytes → ℕ → Bytes → Action R Error (ProxyInfo × ℕ)
  write_info now proxy_id slot encoded = do
    client.command (Unit {0}) (no_answer (redis.hset registry_key proxy_id encoded))
    pure (slot_info now slot, slot)

  abbrev pub encode_info : ℕ → Bytes → ℕ → Action R Error (ProxyInfo × ℕ)
  encode_info now proxy_id slot = do
    check_slot slot
    encoded ← lift_result (json.marshal (slot_info now slot))
    write_info now proxy_id slot encoded

  abbrev pub new_info : ℕ → Bytes → Action R Error (ProxyInfo × ℕ)
  new_info now proxy_id = do
    slot ← client.command ℕ (redis.incr subnet_counter_key)
    encode_info now proxy_id slot

  abbrev pub registered_or_new : ℕ → Bytes → Option Bytes → Action R Error (ProxyInfo × ℕ)
  registered_or_new now proxy_id (some value) = registered_info value
  registered_or_new now proxy_id none = new_info now proxy_id

  -- `Register`
  unfoldable pub register : ℕ → Bytes → Action R Error (ProxyInfo × ℕ)
  register now proxy_id = do
    value ← client.command (Option Bytes) (λ s. (redis.hget registry_key proxy_id s, s))
    registered_or_new now proxy_id value
