-- ===== src/Assignment/Service.antt =====
-- internal/assignment/assignment.go: the methods of `Service`. The client runs the script and the
-- commands; the JSON of package encoding/json is the parameter `json`.
use sidero_proxy.Base.{
  ℕ, Bool, true, false, none, some, Option, List, [], ◌∷◌, ◌++◌, map, Result, Action, pure, fail,
  ◌>>=◌, Bytes, codes, Unicode, Ipv6, prefixed, sort_strings,
}
use sidero_proxy.Base.Dict.{Dict, lookup, insert}
use sidero_proxy.Base.Members.{keys}
use sidero_proxy.Redis.{Redis, Client, HashReader}
use sidero_proxy.Registration.{ProxyInfo, proxy_num_from_subnet, sorted_proxy_ids, lift_result}
use sidero_proxy.Assignment.{Error, Request, map_key, rmap_key, assign_script}

pub record ReverseMapping : Type 0 where
  pub real_ip : Bytes
  pub proxy : Bytes

-- What the program uses of the package encoding/json for `ReverseMapping`.
pub record ReverseJson : Type 0 where
  pub unmarshal : Bytes → Result Error ReverseMapping

pub record Service : Type 0 where
  pub proxy_id : Bytes
  pub proxy_num : ℕ
  pub ttl_seconds : ℕ

-- The value of a key of a Go map, or the zero value.
abbrev pub info_at : Bytes → Dict ProxyInfo → ProxyInfo
info_at id proxies = elim (lookup id proxies) [
  | some info ↦ info
  | none ↦ record { subnet = []; tailscale_ip = []; registered_at = 0 }
]

abbrev pub request_of : Service → Bytes → Bytes → ℕ → Bool → Request
request_of service real_ip proxy_id proxy_num reserve = record {
  real_ip = real_ip;
  proxy_id = proxy_id;
  proxy_num = proxy_num;
  ttl_seconds = service.ttl_seconds;
  reserve = reserve;
}

module _ {R : Type 0} (redis : Redis R) (client : Client R) (service : Service) where
  -- `runAssign`
  unfoldable pub run_assign : Bytes → Bytes → ℕ → Bool → Action R Error Bytes
  run_assign real_ip proxy_id proxy_num reserve = prefixed (codes "run assignment script: ") (
      client.command Bytes
        (assign_script redis (request_of service real_ip proxy_id proxy_num reserve)))

  unfoldable pub assign : Bytes → Action R Error Bytes
  assign real_ip = run_assign real_ip service.proxy_id service.proxy_num false

  module _ (n : Ipv6) (u : Unicode) where
    -- The loop of `ReserveForAllProxies` over the ids, with the mappings so far.
    unfoldable pub reserve_loop :
        Bytes → Dict ProxyInfo → List Bytes → Dict Bytes → Action R Error (Dict Bytes)
    unfolding lookup insert
    reserve_loop real_ip proxies [] out = pure out
    reserve_loop real_ip proxies (id ∷ ids) out = do
      proxy_num ← lift_result (proxy_num_from_subnet n u (ProxyInfo.subnet (info_at id proxies)))
      internal_ip ←
          prefixed (codes "reserve mapping for " ++ (id ++ codes ": "))
            (run_assign real_ip id proxy_num true)
      reserve_loop real_ip proxies ids (insert id internal_ip out)

    unfoldable pub reserve_for_all_proxies : Bytes → Dict ProxyInfo → Action R Error (Dict Bytes)
    reserve_for_all_proxies real_ip proxies =
        reserve_loop real_ip proxies (sorted_proxy_ids proxies) []

  -- What `LookupReverse` makes of the answer to `GET`; go-redis reports a missing key as an error.
  abbrev pub decode_reverse : ReverseJson → Bytes → Option Bytes → Action R Error ReverseMapping
  decode_reverse json internal_ip none =
      fail (codes "lookup reverse mapping for " ++ (internal_ip ++ codes ": redis: nil"))
  decode_reverse json internal_ip (some text) =
      prefixed (codes "decode reverse mapping for " ++ (internal_ip ++ codes ": "))
        (lift_result (json.unmarshal text))

  unfoldable pub lookup_reverse : ReverseJson → Bytes → Action R Error ReverseMapping
  lookup_reverse json internal_ip = do
    found ←
        prefixed (codes "lookup reverse mapping for " ++ (internal_ip ++ codes ": "))
          (client.command (Option Bytes) (λ s. (redis.get (rmap_key internal_ip) s, s)))
    decode_reverse json internal_ip found

  unfoldable pub lookup_mappings : HashReader redis → Bytes → Action R Error (Dict Bytes)
  lookup_mappings reader real_ip =
      prefixed (codes "lookup mappings for " ++ (real_ip ++ codes ": "))
        (client.command (Dict Bytes) (λ s. (reader.hgetall (map_key real_ip) s, s)))

abbrev value_at : Bytes → Dict Bytes → Bytes
value_at k m = elim (lookup k m) [ some v ↦ v | none ↦ [] ]

-- `SortedMappings`
unfoldable pub sorted_mappings : Dict Bytes → List (Bytes × Bytes)
unfolding lookup
sorted_mappings m = map (λ k. (k, value_at k m)) (sort_strings (keys m))
