-- ===== src/Assignment/Script.antt =====
-- What assign.lua does to the mappings of the clients.
use sidero_proxy.Base.{
  if_both, option_cases, ℕ, ◌≡◌, refl, sym, ap, ◌∙◌, subst, Bool, true, ◌&&◌, Option, none, some,
  if◌then◌else◌, Bytes, bytes_eq, bytes_eq_iff, bytes_eq_refl, arith,
}
use sidero_proxy.Redis.{Redis, Store, hset_on, set_on, incr_on, sadd_on, expire_on, persist_on}
use sidero_proxy.Assignment.{
  Request, map_key, rmap_key, reserved_key, counter_key, internal_ip, reverse_json, touch,
  assign_new, assign_script,
}

pub map_key_eq : (j k : Bytes) → bytes_eq (map_key j) (map_key k) ≡ bytes_eq j k
unfolding bytes_eq
map_key_eq j k = refl

module _ {R : Type 0} (redis : Redis R) where
  -- The hashes and the texts of two states are the same.
  Keeps : R → R → Type 0
  Keeps s t =
      ((k f : Bytes) → Store.hash (redis.view t) k f ≡ Store.hash (redis.view s) k f)
      × ((k : Bytes) → Store.text (redis.view t) k ≡ Store.text (redis.view s) k)

  Keeps-trans : (s t v : R) → Keeps s t → Keeps t v → Keeps s v
  unfolding Keeps
  Keeps-trans s t v (h, x) (h', x') = (λ k f. h' k f ∙ h k f, λ k. x' k ∙ x k)

  persist-Keeps : (k : Bytes) (s : R) → Keeps s (redis.persist k s)
  unfolding Keeps persist_on
  persist-Keeps k s = (
    λ j f. ap (λ t. Store.hash t j f) (redis.view-persist k s),
    λ j. ap (λ t. Store.text t j) (redis.view-persist k s),
  )

  expire-Keeps : (k : Bytes) (n : ℕ) (s : R) → Keeps s (redis.expire k n s)
  unfolding Keeps expire_on
  expire-Keeps k n s = (
    λ j f. ap (λ t. Store.hash t j f) (redis.view-expire k n s),
    λ j. ap (λ t. Store.text t j) (redis.view-expire k n s),
  )

  sadd-Keeps : (k m : Bytes) (s : R) → Keeps s (redis.sadd k m s)
  unfolding Keeps sadd_on
  sadd-Keeps k m s = (
    λ j f. ap (λ t. Store.hash t j f) (redis.view-sadd k m s),
    λ j. ap (λ t. Store.text t j) (redis.view-sadd k m s),
  )

  touch-Keeps : (q : Request) (internal : Bytes) (s : R) → Keeps s (touch redis q internal s)
  unfolding touch Keeps
  touch-Keeps q internal s =
      let added = redis.sadd reserved_key q.real_ip s in
      let kept = redis.persist (map_key q.real_ip) added in
      let soon = redis.expire (map_key q.real_ip) q.ttl_seconds s in
      if_both (Keeps s) q.reserve _ _
        (Keeps-trans s added _ (sadd-Keeps reserved_key q.real_ip s) (
          Keeps-trans added kept _ (persist-Keeps (map_key q.real_ip) added)
            (persist-Keeps (rmap_key internal) kept)))
        (if_both (Keeps s) _ _ _
          (Keeps-trans s soon _ (expire-Keeps (map_key q.real_ip) q.ttl_seconds s)
            (expire-Keeps (rmap_key internal) q.ttl_seconds soon))
          (λ k f. refl, λ k. refl))

  hget-touch :
      (q : Request) (internal : Bytes) (s : R) (k f : Bytes)
      → redis.hget k f (touch redis q internal s) ≡ redis.hget k f s
  unfolding Keeps
  hget-touch q internal s k f =
      redis.hget-view k f (touch redis q internal s)
      ∙ (touch-Keeps q internal s).0 k f
      ∙ sym (redis.hget-view k f s)

  hget-set :
      (k v : Bytes) (s : R) (j f : Bytes) → redis.hget j f (redis.set k v s) ≡ redis.hget j f s
  unfolding set_on
  hget-set k v s j f =
      redis.hget-view j f (redis.set k v s)
      ∙ ap (λ t. Store.hash t j f) (redis.view-set k v s)
      ∙ sym (redis.hget-view j f s)

  pub hget-incr :
      (k : Bytes) (s : R) (j f : Bytes) → redis.hget j f ((redis.incr k s).1) ≡ redis.hget j f s
  unfolding incr_on
  hget-incr k s j f =
      redis.hget-view j f ((redis.incr k s).1)
      ∙ ap (λ t. Store.hash t j f) (redis.view-incr k s)
      ∙ sym (redis.hget-view j f s)

  hget-hset :
      (k g v : Bytes) (s : R) (j f : Bytes)
      → redis.hget j f (redis.hset k g v s)
        ≡ (if bytes_eq k j && bytes_eq g f then some v else redis.hget j f s)
  unfolding hset_on
  hget-hset k g v s j f =
      redis.hget-view j f (redis.hset k g v s)
      ∙ ap (λ t. Store.hash t j f) (redis.view-hset k g v s)
      ∙ ap (λ o. if bytes_eq k j && bytes_eq g f then some v else o) (sym (redis.hget-view j f s))

  -- A client's mapping at a proxy after the script ran for `q`.
  abbrev pub mapping_after : Request → R → Bytes → Bytes → Option Bytes
  mapping_after q s real_ip proxy_id =
      if bytes_eq q.real_ip real_ip && bytes_eq q.proxy_id proxy_id
      then some ((assign_script redis q s).0)
      else redis.hget (map_key real_ip) proxy_id s

  is_existing :
      (q : Request) (s : R) (real_ip proxy_id existing : Bytes)
      → redis.hget (map_key q.real_ip) q.proxy_id s ≡ some existing
      → redis.hget (map_key real_ip) proxy_id s ≡ (
          if bytes_eq q.real_ip real_ip && bytes_eq q.proxy_id proxy_id
          then some existing
          else redis.hget (map_key real_ip) proxy_id s)
  is_existing q s real_ip proxy_id existing e =
      ground (arith, e, bytes_eq_iff q.real_ip real_ip, bytes_eq_iff q.proxy_id proxy_id)

  get-touch_set :
      (q : Request) (internal : Bytes) (s : R) (v : Bytes)
      → redis.get (rmap_key internal) (touch redis q internal (redis.set (rmap_key internal) v s))
        ≡ some v
  unfolding Keeps set_on
  get-touch_set q internal s v =
      let key = rmap_key internal in
      let written = redis.set key v s in
      redis.get-view key (touch redis q internal written)
      ∙ (touch-Keeps q internal written).1 key
      ∙ ap (λ t. Store.text t key) (redis.view-set key v s)
      ∙ ap (λ b. if b then some v else Store.text (redis.view s) key) (bytes_eq_refl key)

  -- The script leaves the address that it returns as the mapping of its client at its proxy, and
  -- changes no other mapping.
  pub hget-assign_script :
      (q : Request) (s : R) (real_ip proxy_id : Bytes)
      → redis.hget (map_key real_ip) proxy_id ((assign_script redis q s).1)
        ≡ mapping_after q s real_ip proxy_id
  unfolding assign_script assign_new
  hget-assign_script q s real_ip proxy_id =
      let mapping : R → Option Bytes = λ t. redis.hget (map_key real_ip) proxy_id t in
      let same = bytes_eq q.real_ip real_ip && bytes_eq q.proxy_id proxy_id in
      option_cases (λ r. mapping (r.1) ≡ (if same then some (r.0) else mapping s))
        (redis.hget (map_key q.real_ip) q.proxy_id s)
        (λ existing. (existing, touch redis q existing s)) (assign_new redis q s)
        (λ existing e.
          hget-touch q existing s (map_key real_ip) proxy_id
          ∙ is_existing q s real_ip proxy_id existing e)
        (λ e.
          let (n, s₁) = redis.incr (counter_key q.proxy_id) s in
          let internal = internal_ip q.proxy_num n in
          let s₂ = redis.hset (map_key q.real_ip) q.proxy_id internal s₁ in
          let s₃ = redis.set (rmap_key internal) (reverse_json q.real_ip q.proxy_id) s₂ in
          hget-touch q internal s₃ (map_key real_ip) proxy_id
          ∙ hget-set (rmap_key internal) (reverse_json q.real_ip q.proxy_id) s₂ (map_key real_ip)
              proxy_id
          ∙ hget-hset (map_key q.real_ip) q.proxy_id internal s₁ (map_key real_ip) proxy_id
          ∙ ap (λ b. if b && bytes_eq q.proxy_id proxy_id then some internal else mapping s₁)
              (map_key_eq q.real_ip real_ip)
          ∙ ap (λ o. if same then some internal else o)
              (hget-incr (counter_key q.proxy_id) s (map_key real_ip) proxy_id))

  -- The address of a mapping, or that of the next number of the proxy's counter.
  abbrev pub address_or_next : Request → R → Option Bytes → Bytes
  address_or_next q s (some existing) = existing
  address_or_next q s none = internal_ip q.proxy_num ((redis.incr (counter_key q.proxy_id) s).0)

  assign_script-address :
      (q : Request) (s : R)
      → (assign_script redis q s).0
        ≡ address_or_next q s (redis.hget (map_key q.real_ip) q.proxy_id s)
  unfolding assign_script assign_new
  assign_script-address q s =
      let mapping = redis.hget (map_key q.real_ip) q.proxy_id s in
      option_cases (λ r. r.0 ≡ address_or_next q s mapping) mapping
        (λ existing. (existing, touch redis q existing s)) (assign_new redis q s)
        (λ existing e. ap (address_or_next q s) (sym e)) (λ e. ap (address_or_next q s) (sym e))

  -- A call returns the address of the client's mapping at the proxy if there is one, and otherwise that
  -- of the next number of the proxy's counter. A second call right behind it for the same client and
  -- proxy, whatever its other arguments, returns the same address. The first call leaves the mapping
  -- of no other client, and that of the client at no other proxy, changed.
  pub assign_script-assign_script :
      (q q' : Request) (s : R) (real_ip proxy_id : Bytes)
      → q.real_ip ≡ q'.real_ip
      → q.proxy_id ≡ q'.proxy_id
      → ((assign_script redis q s).0
          ≡ address_or_next q s (redis.hget (map_key q.real_ip) q.proxy_id s))
        × ((assign_script redis q' ((assign_script redis q s).1)).0 ≡ (assign_script redis q s).0)
        × (redis.hget (map_key real_ip) proxy_id ((assign_script redis q s).1)
            ≡ mapping_after q s real_ip proxy_id)
  assign_script-assign_script q q' s real_ip proxy_id same_ip same_proxy =
      let t = (assign_script redis q s).1 in
      let mapped : redis.hget (map_key q'.real_ip) q'.proxy_id t
          ≡ some ((assign_script redis q s).0) =
        hget-assign_script q s q'.real_ip q'.proxy_id
        ∙ if_same (bytes_eq q.real_ip q'.real_ip) (bytes_eq q.proxy_id q'.proxy_id) _ _
            (bytes_eq_of same_ip) (bytes_eq_of same_proxy) in
      (
        assign_script-address q s,
        assign_script-address q' t ∙ ap (address_or_next q' t) mapped,
        hget-assign_script q s real_ip proxy_id,
      )
    where
      bytes_eq_of : {x y : Bytes} → x ≡ y → bytes_eq x y ≡ true
      bytes_eq_of {x} {y} e = subst (λ z. bytes_eq x z ≡ true) e (bytes_eq_refl x)

      if_same :
          (b c : Bool) (x y : Option Bytes) → b ≡ true → c ≡ true → (if b && c then x else y) ≡ x
      if_same b c x y h k = ground (arith, h, k)

  -- A call for an address that has no mapping at the proxy leaves the entry by which the new internal
  -- address is traced back to the client and the proxy.
  pub get-assign_script :
      (q : Request) (s : R)
      → redis.hget (map_key q.real_ip) q.proxy_id s ≡ none
      → redis.get (rmap_key ((assign_script redis q s).0)) ((assign_script redis q s).1)
        ≡ some (reverse_json q.real_ip q.proxy_id)
  unfolding assign_script assign_new
  get-assign_script q s absent =
      option_cases
        (λ r. redis.get (rmap_key (r.0)) (r.1) ≡ some (reverse_json q.real_ip q.proxy_id))
        (redis.hget (map_key q.real_ip) q.proxy_id s)
        (λ existing. (existing, touch redis q existing s)) (assign_new redis q s)
        (λ existing e. absurd (ground (arith, e, absent)))
        (λ e.
          let (n, s₁) = redis.incr (counter_key q.proxy_id) s in
          let internal = internal_ip q.proxy_num n in
          let s₂ = redis.hset (map_key q.real_ip) q.proxy_id internal s₁ in
          get-touch_set q internal s₂ (reverse_json q.real_ip q.proxy_id))
