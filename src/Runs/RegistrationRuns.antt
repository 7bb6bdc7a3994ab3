-- ===== src/Runs/RegistrationRuns.antt =====
-- Runs of the registry, over a Redis that is its own store.
use sidero_proxy.Base.{
  ℕ, ◌≡◌, ◌↔◌, refl, ◌++◌, ◌∷◌, Bytes, codes, ok, err, Result, length, take, drop,
  take-length-append, drop-length-append, itoa, bytes_eq, arith,
}
use sidero_proxy.Redis.{Store, store_redis, direct_client, empty_store, hset_on, incr_on}
use sidero_proxy.Registration.{Error, ProxyInfo, InfoJson, slot_subnet, slot_info, register}
use sidero_proxy.Registration.Registry.{ReadsBack}
use sidero_proxy.Registration.Distinct.{Calls, register-distinct}
use sidero_proxy.Runs.{plain_unicode, no_ipv6}

-- An encoding that can be read back: the time, the length of the subnet, and both texts.
abbrev unmarshal_list : Bytes → Result Error ProxyInfo
unmarshal_list (t ∷ k ∷ s) =
    ok (record { subnet = take k s; tailscale_ip = drop k s; registered_at = t })
unmarshal_list s = err (codes "unexpected end of JSON input")

abbrev list_json : InfoJson
list_json = record {
  marshal = λ i. ok (i.registered_at ∷ length i.subnet ∷ (i.subnet ++ i.tailscale_ip));
  unmarshal = unmarshal_list;
}

list_json-ReadsBack : ReadsBack list_json no_ipv6 plain_unicode
list_json-ReadsBack i v e =
    ground (
      arith,
      take-length-append i.subnet i.tailscale_ip,
      drop-length-append i.subnet i.tailscale_ip,
    )

abbrev register_at : ℕ → Bytes → Store → Result Error (ProxyInfo × ℕ) × Store
register_at = register store_redis direct_client list_json no_ipv6 plain_unicode

abbrev after_a : Store
after_a = (register_at 100 (codes "proxy-a") empty_store).1

abbrev after_b : Store
after_b = (register_at 200 (codes "proxy-b") after_a).1

first_call : register_at 100 (codes "proxy-a") empty_store ≡ (ok (slot_info 100 1, 1), after_a)
unfolding register slot_subnet hset_on incr_on empty_store itoa bytes_eq
first_call = refl

second_call : register_at 200 (codes "proxy-b") after_a ≡ (ok (slot_info 200 2, 2), after_b)
unfolding register slot_subnet hset_on incr_on empty_store itoa bytes_eq
second_call = refl

register-distinct_example : (◌≡◌ {A = ℕ} 1 2) ↔ (codes "proxy-a" ≡ codes "proxy-b")
unfolding empty_store
register-distinct_example =
    register-distinct store_redis direct_client list_json no_ipv6 plain_unicode 100 200
      (codes "proxy-a") (codes "proxy-b") list_json-ReadsBack (λ j. refl) Calls.none_yet first_call
      Calls.none_yet second_call

abbrev seven : ℕ
seven = 7
