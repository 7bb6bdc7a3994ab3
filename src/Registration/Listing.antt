-- ===== src/Registration/Listing.antt =====
-- internal/registration/registration.go: `ListProxies`.
use sidero_proxy.Base.{
  ◌≡◌, refl, ap, ◌∙◌, subst, some, Bool, true, ◌||◌, [], ◌∷◌, ◌++◌, Result, ok, err, Action,
  continue_ok, prefix_error, with_prefix, with_prefix_ok, prefixed, ◌>>=◌, Bytes, codes,
  bind_result, arith,
}
use sidero_proxy.Base.Dict.{Dict, lookup, insert}
use sidero_proxy.Base.Members.{has_key, has_key-cons, has_key-insert, has_key_of_some}
use sidero_proxy.Redis.{Redis, Client, HashReader}
use sidero_proxy.Registration.{Error, ProxyInfo, InfoJson, registry_key, lift_result}

module _ (json : InfoJson) where
  -- The loop over the fields of the hash.
  unfoldable pub decode_proxies : Dict Bytes → Dict ProxyInfo → Result Error (Dict ProxyInfo)
  unfolding insert
  decode_proxies [] out = ok out
  decode_proxies ((proxy_id, value) ∷ raw) out =
      bind_result
        (prefix_error (codes "decode proxy registry for " ++ (proxy_id ++ codes ": "))
          (json.unmarshal value))
        (λ info. decode_proxies raw (insert proxy_id info out))

  module _ {R : Type 0} (redis : Redis R) (client : Client R) (reader : HashReader redis) where
    unfoldable pub list_proxies : Action R Error (Dict ProxyInfo)
    list_proxies = do
      raw ←
          prefixed (codes "read proxy registry: ")
            (client.command (Dict Bytes) (λ t. (reader.hgetall registry_key t, t)))
      lift_result (decode_proxies raw [])

  bind_ok :
      {A B : Type 0} (r : Result Error A) (f : A → Result Error B) (b : B)
      → bind_result r f ≡ ok b
      → (a : A) × (r ≡ ok a) × (f a ≡ ok b)
  bind_ok (ok a) f b h = (a, refl, h)
  bind_ok (err e) f b h = absurd (ground arith)

  decode_proxies-has_key :
      (raw : Dict Bytes) (out out' : Dict ProxyInfo)
      → decode_proxies raw out ≡ ok out'
      → (id : Bytes) → (has_key id raw || has_key id out) ≡ true
      → has_key id out' ≡ true
  unfolding decode_proxies has_key lookup
  decode_proxies-has_key [] out out' h id k =
      let same : out ≡ out' = ground (arith, h) in subst (λ x. has_key id x ≡ true) same k
  decode_proxies-has_key ((j, v) ∷ raw) out out' h id k =
      let (info, decoded, rest) =
        bind_ok _ (λ info. decode_proxies raw (insert j info out)) out' h in
      decode_proxies-has_key raw (insert j info out) out' rest id
        (ground (arith, k, has_key-cons id j v raw, has_key-insert j id info out))

  or_left : (a b : Bool) → a ≡ true → (a || b) ≡ true
  or_left a b h = ground (arith, h)

  -- A successful `ListProxies` lists every proxy of the registry, and changes nothing.
  pub list_proxies-has_key :
      {R : Type 0} (redis : Redis R) (client : Client R) (reader : HashReader redis)
      (out : Dict ProxyInfo) (s s' : R)
      → list_proxies redis client reader s ≡ (ok out, s')
      → (s ≡ s') × ((id v : Bytes) → redis.hget registry_key id s ≡ some v → has_key id out ≡ true)
  unfolding list_proxies has_key
  list_proxies-has_key redis client reader out s s' h =
      let call = client.command (Dict Bytes) (λ t. (reader.hgetall registry_key t, t)) s in
      let asked = with_prefix (codes "read proxy registry: ") call in
      let (raw, read, rest) =
        continue_ok (λ raw. lift_result (decode_proxies raw [])) asked out s' h in
      let plain = with_prefix_ok (codes "read proxy registry: ") call raw (asked.1) read in
      let ran = client.command_lem (Dict Bytes) (λ t. (reader.hgetall registry_key t, t)) s plain in
      let same_raw : reader.hgetall registry_key s ≡ raw = ap (λ t. t.0) ran in
      let same_state : s ≡ asked.1 = ap (λ t. t.1) ran in
      let decoded : decode_proxies raw [] ≡ ok out = ap (λ t. t.0) rest in
      (
        same_state ∙ ap (λ t. t.1) rest,
        λ id v at. decode_proxies-has_key raw [] out decoded id (
            or_left (has_key id raw) (has_key {V = ProxyInfo} id []) (
              has_key_of_some id v raw (
                subst (λ m. lookup id m ≡ some v) same_raw
                  (reader.lookup-hgetall registry_key id s ∙ at)))),
      )
