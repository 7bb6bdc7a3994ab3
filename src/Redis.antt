-- ===== src/Redis.antt =====
-- The Redis service, a parameter of the model: its commands act on a state `R` of their own, and do to
-- what can be read of it what the Redis documentation says. `Store` is what can be read.
use sidero_proxy.Base.{
  ℕ, ◌+◌, ◌-◌, ◌≡◌, refl, Bool, true, false, ◌&&◌, Option, none, some, leb, if◌then◌else◌, Bytes,
  bytes_eq, ◌⊎◌, Result, ok, err, Action, arith,
}
use sidero_proxy.Base.Dict.{Dict, lookup}

-- Hashes, strings, counters and sets by key. `ttl` is the time that a key has left to live, if it
-- expires at all.
pub record Store : Type 0 where
  pub hash : Bytes → Bytes → Option Bytes
  pub text : Bytes → Option Bytes
  pub counter : Bytes → ℕ
  pub member : Bytes → Bytes → Bool
  pub present : Bytes → Bool
  pub ttl : Bytes → Option ℕ

unfoldable pub hset_on : Bytes → Bytes → Bytes → Store → Store
hset_on k f v s = record s {
  hash = λ j g. if bytes_eq k j && bytes_eq f g then some v else s.hash j g;
  present = λ j. if bytes_eq k j then true else s.present j;
}

-- `SET` also takes the key's expiry away.
unfoldable pub set_on : Bytes → Bytes → Store → Store
set_on k v s = record s {
  text = λ j. if bytes_eq k j then some v else s.text j;
  present = λ j. if bytes_eq k j then true else s.present j;
  ttl = λ j. if bytes_eq k j then none else s.ttl j;
}

unfoldable pub incr_on : Bytes → Store → Store
incr_on k s = record s { counter = λ j. if bytes_eq k j then s.counter j + 1 else s.counter j }

unfoldable pub sadd_on : Bytes → Bytes → Store → Store
sadd_on k m s = record s {
  member = λ j n. if bytes_eq k j && bytes_eq m n then true else s.member j n;
}

-- `EXPIRE` of a key that does not exist does nothing.
unfoldable pub expire_on : Bytes → ℕ → Store → Store
expire_on k t s = record s { ttl = λ j. if bytes_eq k j && s.present j then some t else s.ttl j }

unfoldable pub persist_on : Bytes → Store → Store
persist_on k s = record s { ttl = λ j. if bytes_eq k j then none else s.ttl j }

pub record Redis (R : Type 0) : Type 0 where
  pub hget : Bytes → Bytes → R → Option Bytes
  pub get : Bytes → R → Option Bytes
  pub sismember : Bytes → Bytes → R → Bool
  pub hset : Bytes → Bytes → Bytes → R → R
  pub set : Bytes → Bytes → R → R
  pub incr : Bytes → R → ℕ × R
  pub sadd : Bytes → Bytes → R → R
  pub expire : Bytes → ℕ → R → R
  pub persist : Bytes → R → R
  pub view : R → Store
  pub hget-view : (k f : Bytes) (r : R) → hget k f r ≡ (view r).hash k f
  pub get-view : (k : Bytes) (r : R) → get k r ≡ (view r).text k
  pub sismember-view : (k m : Bytes) (r : R) → sismember k m r ≡ (view r).member k m
  pub view-hset : (k f v : Bytes) (r : R) → view (hset k f v r) ≡ hset_on k f v (view r)
  pub view-set : (k v : Bytes) (r : R) → view (set k v r) ≡ set_on k v (view r)
  pub incr_value : (k : Bytes) (r : R) → (incr k r).0 ≡ (view r).counter k + 1
  pub view-incr : (k : Bytes) (r : R) → view ((incr k r).1) ≡ incr_on k (view r)
  pub view-sadd : (k m : Bytes) (r : R) → view (sadd k m r) ≡ sadd_on k m (view r)
  pub view-expire : (k : Bytes) (t : ℕ) (r : R) → view (expire k t r) ≡ expire_on k t (view r)
  pub view-persist : (k : Bytes) (r : R) → view (persist k r) ≡ persist_on k (view r)

-- A Redis that is its own store shows that all this can be met.
abbrev pub store_redis : Redis Store
store_redis = record {
  hget = λ k f s. s.hash k f;
  get = λ k s. s.text k;
  sismember = λ k m s. s.member k m;
  hset = hset_on;
  set = set_on;
  incr = λ k s. (s.counter k + 1, incr_on k s);
  sadd = sadd_on;
  expire = expire_on;
  persist = persist_on;
  view = λ s. s;
  hget-view = λ k f s. refl;
  get-view = λ k s. refl;
  sismember-view = λ k m s. refl;
  view-hset = λ k f v s. refl;
  view-set = λ k v s. refl;
  incr_value = λ k s. refl;
  view-incr = λ k s. refl;
  view-sadd = λ k m s. refl;
  view-expire = λ k t s. refl;
  view-persist = λ k s. refl;
}

-- Time goes by: a key whose time is over is gone.
abbrev gone_after : ℕ → Option ℕ → Bool
gone_after d none = false
gone_after d (some t) = leb t d

abbrev left_after : ℕ → Option ℕ → Option ℕ
left_after d none = none
left_after d (some t) = if leb t d then none else some (t - d)

unfoldable pub elapse_on : ℕ → Store → Store
elapse_on d s = record s {
  hash = λ k f. if gone_after d (s.ttl k) then none else s.hash k f;
  text = λ k. if gone_after d (s.ttl k) then none else s.text k;
  present = λ k. if gone_after d (s.ttl k) then false else s.present k;
  ttl = λ k. left_after d (s.ttl k);
}

unfoldable pub empty_store : Store
empty_store = record {
  hash = λ k f. none;
  text = λ k. none;
  counter = λ k. 0;
  member = λ k m. false;
  present = λ k. false;
  ttl = λ k. none;
}

-- The client library without its retries: how a command reaches Redis. It gives the command's answer and effect, or an
-- error, after which the command may have been carried out or not.
pub record Client (R : Type 0) : Type 1 where
  pub command : (A : Type 0) → (R → A × R) → Action R Bytes A
  pub command_lem :
      (A : Type 0) (f : R → A × R) (s : R) {a : A} {s' : R}
      → command A f s ≡ (ok a, s')
      → f s ≡ (a, s')
  pub command_failed :
      (A : Type 0) (f : R → A × R) (s : R) {e : Bytes} {s' : R}
      → command A f s ≡ (err e, s')
      → (s' ≡ s) ⊎ (s' ≡ (f s).1)

pub direct_command_lem :
    {R : Type 0} (A : Type 0) (f : R → A × R) (s : R) {a : A} {s' : R}
    → ◌≡◌ {A = Result Bytes A × R} (ok ((f s).0), (f s).1) (ok a, s')
    → f s ≡ (a, s')
direct_command_lem A f s h = ground arith

pub direct_command_failed :
    {R : Type 0} (A : Type 0) (f : R → A × R) (s : R) {e : Bytes} {s' : R}
    → ◌≡◌ {A = Result Bytes A × R} (ok ((f s).0), (f s).1) (err e, s')
    → (s' ≡ s) ⊎ (s' ≡ (f s).1)
direct_command_failed A f s h = absurd (ground arith)

-- A connection that always works.
abbrev pub direct_client : {R : Type 0} → Client R
direct_client = record {
  command = λ A f s. (ok ((f s).0), (f s).1);
  command_lem = direct_command_lem;
  command_failed = direct_command_failed;
}

-- `HGETALL`: the fields of a hash in some order, as go-redis returns them in a map.
pub record HashReader {R : Type 0} (redis : Redis R) : Type 0 where
  pub hgetall : Bytes → R → Dict Bytes
  pub lookup-hgetall : (k f : Bytes) (s : R) → lookup f (hgetall k s) ≡ redis.hget k f s
