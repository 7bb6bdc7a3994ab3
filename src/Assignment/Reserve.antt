-- ===== src/Assignment/Reserve.antt =====
-- What `ReserveForAllProxies` leaves behind when it succeeds.
use sidero_proxy.Base.{
  option_cases, ℕ, ◌≡◌, sym, ap, ◌∙◌, subst, ◌&&◌, true, ◌||◌, Option, none, some, List, [], ◌∷◌,
  ◌++◌, if◌then◌else◌, ok, continue_with, continue_ok, with_prefix, with_prefix_ok, prefixed, Bytes,
  codes, bytes_eq, bytes_eq_iff, bytes_eq_refl, Unicode, Ipv6, arith, Bool-cases, inl, inr,
}
use sidero_proxy.Base.Dict.{Dict, lookup, insert, lookup-insert}
use sidero_proxy.Base.Members.{
  elem, elem-sort, elem-keys, keys, has_key, has_key-insert, some_of_has_key,
}
use sidero_proxy.Redis.{Redis, Client, Store, sadd_on, persist_on}
use sidero_proxy.Registration.{ProxyInfo, proxy_num_from_subnet, sorted_proxy_ids, lift_result}
use sidero_proxy.Assignment.{
  Request, map_key, rmap_key, reserved_key, touch, assign_new, assign_script,
}
use sidero_proxy.Assignment.Script.{hget-assign_script}
use sidero_proxy.Assignment.Permanent.{Keeps, Steps, assign_script-Keeps, hget-Steps}
use sidero_proxy.Assignment.Service.{
  Service, request_of, info_at, run_assign, reserve_loop, reserve_for_all_proxies,
}

elem-sorted_proxy_ids :
    (id : Bytes) (proxies : Dict ProxyInfo)
    → elem id (sorted_proxy_ids proxies) ≡ has_key id proxies
unfolding sorted_proxy_ids
elem-sorted_proxy_ids id proxies = elem-sort id (keys proxies) ∙ elem-keys id proxies

module _ {R : Type 0} (redis : Redis R) where
  -- A reserving call of the script.
  abbrev reserving : Service → Bytes → Bytes → ℕ → Request
  reserving service real_ip id num = request_of service real_ip id num true

  touch_reserves :
      (service : Service) (real_ip id : Bytes) (num : ℕ) (i : Bytes) (s : R)
      → (Store.member
            (redis.view (touch redis (reserving service real_ip id num) i s))
            reserved_key
            real_ip
          ≡ true)
        × (Store.ttl
              (redis.view (touch redis (reserving service real_ip id num) i s))
              (map_key real_ip)
            ≡ none)
  unfolding touch sadd_on persist_on
  touch_reserves service real_ip id num i s =
      let added = redis.sadd reserved_key real_ip s in
      let lasting = redis.persist (map_key real_ip) added in
      rw (redis.view-persist (rmap_key i) lasting) (
        rw (redis.view-persist (map_key real_ip) added) (
          rw (redis.view-sadd reserved_key real_ip s) (
            ground (arith, bytes_eq_refl real_ip, bytes_eq_refl reserved_key),
            ground (arith, bytes_eq_refl (map_key real_ip)),
          )))

  IsHeld : Bytes → R → Type 0
  IsHeld real_ip s =
      (Store.member (redis.view s) reserved_key real_ip ≡ true)
      × (Store.ttl (redis.view s) (map_key real_ip) ≡ none)

  assign_script_holds :
      (service : Service) (real_ip id : Bytes) (num : ℕ) (s : R)
      → IsHeld real_ip ((assign_script redis (reserving service real_ip id num) s).1)
  unfolding assign_script assign_new IsHeld
  assign_script_holds service real_ip id num s =
      let q = reserving service real_ip id num in
      option_cases (λ r. IsHeld real_ip (r.1)) (redis.hget (map_key real_ip) id s)
        (λ i. (i, touch redis q i s)) (assign_new redis q s)
        (λ i e. touch_reserves service real_ip id num i s)
        (λ e. touch_reserves service real_ip id num _ _)

  assign_script_reserves :
      (service : Service) (real_ip id : Bytes) (num : ℕ) (s : R)
      → Keeps real_ip id
          ((assign_script redis (reserving service real_ip id num) s).0)
          redis
          ((assign_script redis (reserving service real_ip id num) s).1)
  unfolding IsHeld
  assign_script_reserves service real_ip id num s =
      let q = reserving service real_ip id num in
      let after = assign_script redis q s in
      let (held, lasts) = assign_script_holds service real_ip id num s in
      record {
        reserved = held;
        lasting = lasts;
        mapped =
            sym (redis.hget-view (map_key real_ip) id (after.1))
            ∙ hget-assign_script redis q s real_ip id
            ∙ own_mapping (after.0) (redis.hget (map_key real_ip) id s);
      }
    where
      own_mapping :
          (x : Bytes) (o : Option Bytes)
          → (if bytes_eq real_ip real_ip && bytes_eq id id then some x else o) ≡ some x
      own_mapping x o = ground (arith, bytes_eq_refl real_ip, bytes_eq_refl id)

module _ {R : Type 0} (redis : Redis R) (client : Client R) (service : Service) (n : Ipv6)
    (u : Unicode) (real_ip : Bytes) where
  -- Each mapping of the result is one that the client keeps.
  abbrev pub AllKept : Dict Bytes → R → Type 0
  AllKept out s = (id i : Bytes) → lookup id out ≡ some i → Keeps real_ip id i redis s

  AllKept-insert :
      (id i : Bytes) (out : Dict Bytes) (s : R)
      → Keeps real_ip id i redis s
      → AllKept out s
      → AllKept (insert id i out) s
  AllKept-insert id i out s k all j v h = elim (Bool-cases (bytes_eq id j)) [
    | inl e ↦
        let same : id ≡ j = (bytes_eq_iff id j).0 e in
        let value : i ≡ v = ground (arith, lookup-insert id j i out, e, h) in
        subst (λ x. Keeps real_ip x v redis s) same
          (subst (λ x. Keeps real_ip id x redis s) value k)
    | inr e ↦ all j v (ground (arith, lookup-insert id j i out, e, h))
  ]

  -- One round of the loop that succeeds.
  reserve_round :
      (id : Bytes) (num : ℕ) (i : Bytes) (out : Dict Bytes) (s s' : R)
      → prefixed
          (codes "reserve mapping for " ++ (id ++ codes ": "))
          (run_assign redis client service real_ip id num true)
          s
        ≡ (ok i, s')
      → AllKept out s
      → AllKept (insert id i out) s'
  unfolding run_assign
  reserve_round id num i out s s' h all =
      let q = reserving redis service real_ip id num in
      let call = client.command Bytes (assign_script redis q) s in
      let run_prefix = codes "run assignment script: " in
      let plain = with_prefix_ok run_prefix call i s' (
        with_prefix_ok (codes "reserve mapping for " ++ (id ++ codes ": "))
          (with_prefix run_prefix call) i s' h) in
      let ran : assign_script redis q s ≡ (i, s') =
        client.command_lem Bytes (assign_script redis q) s plain in
      AllKept-insert id i out s'
        (subst (λ r. Keeps real_ip id (r.0) redis (r.1)) ran
          (assign_script_reserves redis service real_ip id num s))
        (λ j v e.
          subst (λ r. Keeps real_ip j v redis (r.1)) ran
            (assign_script-Keeps real_ip j v redis q s (all j v e)))

  nothing_kept : (s : R) → AllKept [] s
  unfolding lookup
  nothing_kept s id i h = absurd (ground arith)

  reserve_loop-AllKept :
      (proxies : Dict ProxyInfo) (ids : List Bytes) (out out' : Dict Bytes) (s s' : R)
      → reserve_loop redis client service n u real_ip proxies ids out s ≡ (ok out', s')
      → AllKept out s
      → AllKept out' s'
        × ((id : Bytes) → (elem id ids || has_key id out) ≡ true → has_key id out' ≡ true)
  unfolding reserve_loop elem
  reserve_loop-AllKept proxies [] out out' s s' h all =
      let same_out : out ≡ out' = ground (arith, h) in
      let same_state : s ≡ s' = ap (λ t. t.1) h in
      (
        subst (λ x. AllKept x s') same_out (subst (AllKept out) same_state all),
        λ j e. subst (λ x. has_key j x ≡ true) same_out e,
      )
  reserve_loop-AllKept proxies (id ∷ ids) out out' s s' h all =
      let run = λ (num : ℕ).
        prefixed (codes "reserve mapping for " ++ (id ++ codes ": "))
          (run_assign redis client service real_ip id num true) in
      let next = λ (i : Bytes).
        reserve_loop redis client service n u real_ip proxies ids (insert id i out) in
      let (num, found, h₁) =
        continue_ok (λ num t. continue_with next (run num t))
          (lift_result (proxy_num_from_subnet n u (ProxyInfo.subnet (info_at id proxies))) s) out'
          s' h in
      let (i, first, rest) = continue_ok next (run num s) out' s' h₁ in
      let (kept, more) =
        reserve_loop-AllKept proxies ids (insert id i out) out' ((run num s).1) s' rest
          (reserve_round id num i out s ((run num s).1) first all) in
      (kept, λ j e. more j (ground (arith, e, has_key-insert id j i out)))

  -- When `ReserveForAllProxies` succeeds, every proxy that it is given has an internal address in the
  -- result, and from then on the client keeps exactly that address at that proxy: it is reserved, its
  -- mappings do not expire, and no later call of the script and no time changes them.
  pub reserve_for_all_proxies-Keeps :
      (proxies : Dict ProxyInfo) (out : Dict Bytes) (s s' : R)
      → reserve_for_all_proxies redis client service n u real_ip proxies s ≡ (ok out, s')
      → (id : Bytes) → has_key id proxies ≡ true
      → (i : Bytes) × (lookup id out ≡ some i)
        × Keeps real_ip id i redis s'
        × ((t : R) → Steps redis s' t → redis.hget (map_key real_ip) id t ≡ some i)
  unfolding reserve_for_all_proxies
  reserve_for_all_proxies-Keeps proxies out s s' h id known =
      let (kept, all) =
        reserve_loop-AllKept proxies (sorted_proxy_ids proxies) [] out s s' h (nothing_kept s) in
      let (i, at) =
        some_of_has_key id out (all id (ground (arith, known, elem-sorted_proxy_ids id proxies))) in
      let keeps = kept id i at in
      (i, at, keeps, λ t steps. hget-Steps redis real_ip id i s' t keeps steps)
