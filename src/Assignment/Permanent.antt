-- ===== src/Assignment/Permanent.antt =====
-- That a reserved mapping outlives every later call of the script and any time.
use sidero_proxy.Base.{
  if_both, if_cases, option_cases, ℕ, ◌≡◌, refl, sym, ◌∙◌, true, false, ◌&&◌, not, none, some, ltb,
  Bytes, bytes_eq, bytes_eq_iff, arith,
}
use sidero_proxy.Redis.{
  Redis, Store, hset_on, set_on, incr_on, sadd_on, expire_on, persist_on, elapse_on,
}
use sidero_proxy.Assignment.{
  Request, map_key, rmap_key, reserved_key, counter_key, internal_ip, reverse_json, touch,
  assign_new, assign_script,
}
use sidero_proxy.Assignment.Script.{map_key_eq, hget-incr}

rmap_key_ne : (i real_ip : Bytes) → bytes_eq (rmap_key i) (map_key real_ip) ≡ false
unfolding bytes_eq
rmap_key_ne i real_ip = refl

module _ (real_ip proxy_id internal : Bytes) where
  -- In a store: the client is reserved, its hash does not expire, and it has the mapping.
  pub record IsKept (st : Store) : Type 0 where
    pub reserved : st.member reserved_key real_ip ≡ true
    pub lasting : st.ttl (map_key real_ip) ≡ none
    pub mapped : st.hash (map_key real_ip) proxy_id ≡ some internal

  set_on-IsKept : (j v : Bytes) (st : Store) → IsKept st → IsKept (set_on (rmap_key j) v st)
  unfolding set_on bytes_eq
  set_on-IsKept j v st k = record { reserved = k.reserved; lasting = k.lasting; mapped = k.mapped }

  incr_on-IsKept : (j : Bytes) (st : Store) → IsKept st → IsKept (incr_on j st)
  unfolding incr_on
  incr_on-IsKept j st k = record { reserved = k.reserved; lasting = k.lasting; mapped = k.mapped }

  hset_on-IsKept :
      (j f v : Bytes) (st : Store)
      → st.hash (map_key j) f ≡ none
      → IsKept st
      → IsKept (hset_on (map_key j) f v st)
  unfolding hset_on
  hset_on-IsKept j f v st absent k = record {
    reserved = k.reserved;
    lasting = k.lasting;
    mapped = ground (
      arith,
      map_key_eq j real_ip,
      bytes_eq_iff j real_ip,
      bytes_eq_iff f proxy_id,
      absent,
      k.mapped,
    );
  }

  sadd_on-IsKept : (m : Bytes) (st : Store) → IsKept st → IsKept (sadd_on reserved_key m st)
  unfolding sadd_on
  sadd_on-IsKept m st k = record {
    reserved = ground (arith, k.reserved);
    lasting = k.lasting;
    mapped = k.mapped;
  }

  persist_on-IsKept : (j : Bytes) (st : Store) → IsKept st → IsKept (persist_on j st)
  unfolding persist_on
  persist_on-IsKept j st k = record {
    reserved = k.reserved;
    lasting = ground (arith, k.lasting);
    mapped = k.mapped;
  }

  expire_on-IsKept :
      (j : Bytes) (t : ℕ) (st : Store)
      → bytes_eq j (map_key real_ip) ≡ false
      → IsKept st
      → IsKept (expire_on j t st)
  unfolding expire_on
  expire_on-IsKept j t st other k = record {
    reserved = k.reserved;
    lasting = ground (arith, k.lasting, other);
    mapped = k.mapped;
  }

  elapse_on-IsKept : (d : ℕ) (st : Store) → IsKept st → IsKept (elapse_on d st)
  unfolding elapse_on
  elapse_on-IsKept d st k = record {
    reserved = k.reserved;
    lasting = ground (arith, k.lasting);
    mapped = ground (arith, k.lasting, k.mapped);
  }

  module _ {R : Type 0} (redis : Redis R) where
    -- The same of a state of Redis.
    abbrev pub Keeps : R → Type 0
    Keeps s = IsKept (redis.view s)

    -- A client other than the reserved one may expire.
    expiring :
        (q : Request) (i : Bytes) (s : R)
        → bytes_eq q.real_ip real_ip ≡ false
        → Keeps s
        → Keeps (
            redis.expire
              (rmap_key i)
              q.ttl_seconds
              (redis.expire (map_key q.real_ip) q.ttl_seconds s))
    expiring q i s other k =
        let soon = redis.expire (map_key q.real_ip) q.ttl_seconds s in
        rw (redis.view-expire (rmap_key i) q.ttl_seconds soon) (
          expire_on-IsKept (rmap_key i) q.ttl_seconds (redis.view soon) (rmap_key_ne i real_ip) (
            rw (redis.view-expire (map_key q.real_ip) q.ttl_seconds s) (
              expire_on-IsKept (map_key q.real_ip) q.ttl_seconds (redis.view s)
                (map_key_eq q.real_ip real_ip ∙ other) k)))

    -- The script sets an expiry for a client that is not reserved.
    other_client :
        (q : Request) (s : R)
        → (not (redis.sismember reserved_key q.real_ip s) && ltb 0 q.ttl_seconds) ≡ true
        → Keeps s
        → bytes_eq q.real_ip real_ip ≡ false
    other_client q s e k = ground (
      arith,
      e,
      k.reserved,
      redis.sismember-view reserved_key q.real_ip s,
      bytes_eq_iff q.real_ip real_ip,
    )

    touch-Keeps : (q : Request) (i : Bytes) (s : R) → Keeps s → Keeps (touch redis q i s)
    unfolding touch
    touch-Keeps q i s k =
        let added = redis.sadd reserved_key q.real_ip s in
        let lasting = redis.persist (map_key q.real_ip) added in
        if_both Keeps q.reserve _ _
          (rw (redis.view-persist (rmap_key i) lasting) (
            persist_on-IsKept (rmap_key i) (redis.view lasting) (
              rw (redis.view-persist (map_key q.real_ip) added) (
                persist_on-IsKept (map_key q.real_ip) (redis.view added) (
                  rw (redis.view-sadd reserved_key q.real_ip s)
                    (sadd_on-IsKept q.real_ip (redis.view s) k))))))
          (if_cases Keeps (not (redis.sismember reserved_key q.real_ip s) && ltb 0 q.ttl_seconds) _
            _ (λ e. expiring q i s (other_client q s e k) k) (λ e. k))

    -- A new mapping for another pair of a client and a proxy.
    assign_new-Keeps :
        (q : Request) (s : R)
        → redis.hget (map_key q.real_ip) q.proxy_id s ≡ none
        → Keeps s
        → Keeps ((assign_new redis q s).1)
    unfolding assign_new
    assign_new-Keeps q s absent k =
        let (n, s₁) = redis.incr (counter_key q.proxy_id) s in
        let i = internal_ip q.proxy_num n in
        let s₂ = redis.hset (map_key q.real_ip) q.proxy_id i s₁ in
        let v = reverse_json q.real_ip q.proxy_id in
        let k₁ : Keeps s₁ =
          rw (redis.view-incr (counter_key q.proxy_id) s)
            (incr_on-IsKept (counter_key q.proxy_id) (redis.view s) k) in
        let absent₁ : Store.hash (redis.view s₁) (map_key q.real_ip) q.proxy_id ≡ none =
          sym (redis.hget-view (map_key q.real_ip) q.proxy_id s₁)
          ∙ hget-incr redis (counter_key q.proxy_id) s (map_key q.real_ip) q.proxy_id
          ∙ absent in
        let k₂ : Keeps s₂ =
          rw (redis.view-hset (map_key q.real_ip) q.proxy_id i s₁)
            (hset_on-IsKept q.real_ip q.proxy_id i (redis.view s₁) absent₁ k₁) in
        touch-Keeps q i (redis.set (rmap_key i) v s₂)
          (rw (redis.view-set (rmap_key i) v s₂) (set_on-IsKept i v (redis.view s₂) k₂))

    pub assign_script-Keeps : (q : Request) (s : R) → Keeps s → Keeps ((assign_script redis q s).1)
    unfolding assign_script
    assign_script-Keeps q s k =
        option_cases (λ r. Keeps (r.1)) (redis.hget (map_key q.real_ip) q.proxy_id s)
          (λ i. (i, touch redis q i s)) (assign_new redis q s) (λ i e. touch-Keeps q i s k)
          (λ e. assign_new-Keeps q s e k)

-- What may happen to Redis: any calls of the script, by any proxy, and time.
pub data Steps {R : Type 0} (redis : Redis R) (s : R) : R → Type 0 where
  here : Steps redis s s
  script : {t : R} (q : Request) → Steps redis s t → Steps redis s ((assign_script redis q t).1)
  wait :
      {t v : R} (d : ℕ)
      → Steps redis s t
      → redis.view v ≡ elapse_on d (redis.view t)
      → Steps redis s v

Steps-Keeps :
    {R : Type 0} (redis : Redis R) (real_ip proxy_id internal : Bytes) {s t : R}
    → Steps redis s t
    → Keeps real_ip proxy_id internal redis s
    → Keeps real_ip proxy_id internal redis t
Steps-Keeps redis real_ip proxy_id internal here k = k
Steps-Keeps redis real_ip proxy_id internal (script q steps) k =
    assign_script-Keeps real_ip proxy_id internal redis q _
      (Steps-Keeps redis real_ip proxy_id internal steps k)
Steps-Keeps redis real_ip proxy_id internal (wait {t = t} d steps e) k = rw e (
    elapse_on-IsKept real_ip proxy_id internal d (redis.view t)
      (Steps-Keeps redis real_ip proxy_id internal steps k))

-- A client that is reserved, and whose hash does not expire, keeps its internal address at a proxy for
-- ever: whatever calls of the script follow, for whomever, and however much time passes.
pub hget-Steps :
    {R : Type 0} (redis : Redis R) (real_ip proxy_id internal : Bytes) (s t : R)
    → Keeps real_ip proxy_id internal redis s
    → Steps redis s t
    → redis.hget (map_key real_ip) proxy_id t ≡ some internal
hget-Steps redis real_ip proxy_id internal s t k steps =
    redis.hget-view (map_key real_ip) proxy_id t
    ∙ IsKept.mapped (Steps-Keeps redis real_ip proxy_id internal steps k)
