-- ===== src/Watcher/Bans/Promoted.antt =====
-- What a promotion that succeeds gives the client: an address of its own at every proxy.
use sidero_proxy.Base.{
  ◌≡◌, refl, ap, ◌∙◌, subst, Option, none, some, ◌++◌, Result, ok, pure, continue_ok, with_prefix,
  with_prefix_ok, ◌>>=◌, Bytes, codes, Unicode, Ipv6, arith,
}
use sidero_proxy.Base.Dict.{Dict, lookup}
use sidero_proxy.Redis.{Redis, Client, HashReader}
use sidero_proxy.Registration.{InfoJson, registry_key, lift_result}
use sidero_proxy.Registration.Listing.{list_proxies, list_proxies-has_key}
use sidero_proxy.Assignment.{map_key, rmap_key}
use sidero_proxy.Assignment.Permanent.{Keeps, Steps}
use sidero_proxy.Assignment.Service.{
  ReverseMapping, ReverseJson, Service, decode_reverse, lookup_reverse, reserve_for_all_proxies,
}
use sidero_proxy.Assignment.Reserve.{reserve_for_all_proxies-Keeps}
use sidero_proxy.Watcher.Files.{BannedIpEntry}
use sidero_proxy.Watcher.Bans.{promote_identity}

module _ {R : Type 0} (redis : Redis R) (client : Client R) (reader : HashReader redis)
    (reverse_json : ReverseJson) (service : Service) where
  decode_reverse_ok :
      (ip : Bytes) (found : Option Bytes) (mapping : ReverseMapping) (s s' : R)
      → decode_reverse redis client service reverse_json ip found s ≡ (ok mapping, s')
      → (text : Bytes) × (found ≡ some text) × (reverse_json.unmarshal text ≡ ok mapping) × (s ≡ s')
  decode_reverse_ok ip none mapping s s' h = absurd (ground arith)
  decode_reverse_ok ip (some text) mapping s s' h =
      let plain =
        with_prefix_ok (codes "decode reverse mapping for " ++ (ip ++ codes ": "))
          (lift_result (reverse_json.unmarshal text) s) mapping s' h in
      (text, refl, ap (λ t. t.0) plain, ap (λ t. t.1) plain)

  -- A successful `LookupReverse` is what the store says of the internal address, and changes nothing.
  lookup_reverse_ok :
      (ip : Bytes) (mapping : ReverseMapping) (s s' : R)
      → lookup_reverse redis client service reverse_json ip s ≡ (ok mapping, s')
      → (text : Bytes) × (redis.get (rmap_key ip) s ≡ some text)
        × (reverse_json.unmarshal text ≡ ok mapping)
        × (s ≡ s')
  unfolding lookup_reverse
  lookup_reverse_ok ip mapping s s' h =
      let read : R → Option Bytes × R = λ t. (redis.get (rmap_key ip) t, t) in
      let call : Result Bytes (Option Bytes) × R = client.command (Option Bytes) read s in
      let prefix = codes "lookup reverse mapping for " ++ (ip ++ codes ": ") in
      let (found, asked, rest) =
        continue_ok (λ found. decode_reverse redis client service reverse_json ip found)
          (with_prefix prefix call) mapping s' h in
      let ran =
        client.command_lem (Option Bytes) read s
          (with_prefix_ok prefix call found ((with_prefix prefix call).1) asked) in
      let (text, there, good, same) =
        decode_reverse_ok ip found mapping ((with_prefix prefix call).1) s' rest in
      (text, ap (λ t. t.0) ran ∙ there, good, ap (λ t. t.1) ran ∙ same)

module _ (u : Unicode) {R : Type 0} (redis : Redis R) (client : Client R)
    (reader : HashReader redis) (n : Ipv6) (reverse_json : ReverseJson) (info_json : InfoJson)
    (service : Service) where
  -- The address that a client keeps at a proxy from a state on.
  abbrev pub KeptAt : Bytes → Bytes → R → Type 0
  KeptAt real_ip id s =
      (i : Bytes) × Keeps real_ip id i redis s
      × ((t : R) → Steps redis s t → redis.hget (map_key real_ip) id t ≡ some i)

  kept_of :
      (real_ip id : Bytes) (out : Dict Bytes) (s : R)
      → (i : Bytes) × (lookup id out ≡ some i)
        × Keeps real_ip id i redis s
        × ((t : R) → Steps redis s t → redis.hget (map_key real_ip) id t ≡ some i)
      → KeptAt real_ip id s
  kept_of real_ip id out s (i, found, keeps, forever) = (i, keeps, forever)

  -- When the promotion of a banned internal address succeeds, the store had a reverse mapping for it,
  -- and the real address of that mapping has a reserved internal address at every proxy of the
  -- registry, which no later assignment and no time take away.
  pub promote_identity-Keeps :
      (entry : BannedIpEntry) (s s' : R)
      → promote_identity u redis client reader n reverse_json info_json service entry s
        ≡ (ok tt, s')
      → (text : Bytes) × (mapping : ReverseMapping) × (redis.get
            (rmap_key (BannedIpEntry.ip entry))
            s
          ≡ some text)
        × (reverse_json.unmarshal text ≡ ok mapping)
        × ((id v : Bytes)
            → redis.hget registry_key id s ≡ some v
            → KeptAt (ReverseMapping.real_ip mapping) id s')
  unfolding promote_identity
  promote_identity-Keeps entry s s' h =
      let ip = BannedIpEntry.ip entry in
      let reserve = λ (m : ReverseMapping).
        reserve_for_all_proxies redis client service n u (ReverseMapping.real_ip m) in
      let looked = lookup_reverse redis client service reverse_json ip s in
      let listing = list_proxies info_json redis client reader in
      let (mapping, known, h₁) =
        continue_ok (λ m. listing >>= (λ proxies. reserve m proxies >>= (λ _. pure tt))) looked tt
          s' h in
      let listed = listing (looked.1) in
      let (proxies, all, h₂) =
        continue_ok (λ proxies. reserve mapping proxies >>= (λ _. pure tt)) listed tt s' h₁ in
      let (out, reserved, last) =
        continue_ok (λ _. pure tt) (reserve mapping proxies (listed.1)) tt s' h₂ in
      let (text, there, good, same) =
        lookup_reverse_ok redis client reader reverse_json service ip mapping s (looked.1) known in
      let (unchanged, has_all) =
        list_proxies-has_key info_json redis client reader proxies (looked.1) (listed.1) all in
      (
        text,
        mapping,
        there,
        good,
        λ id v at. subst (KeptAt (ReverseMapping.real_ip mapping) id) (ap (λ t. t.1) last) (
            kept_of (ReverseMapping.real_ip mapping) id out ((reserve mapping proxies (listed.1)).1)
              (reserve_for_all_proxies-Keeps redis client service n u
                (ReverseMapping.real_ip mapping) proxies out (listed.1)
                ((reserve mapping proxies (listed.1)).1) reserved id
                (has_all id v (subst (λ t. redis.hget registry_key id t ≡ some v) same at)))),
      )
