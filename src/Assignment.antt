-- ===== src/Assignment.antt =====
-- internal/assignment: internal addresses for client addresses. `assign_script` is assign.lua, which
-- Redis runs as one step; the commands are those of the parameter `redis`.
pub mod Addresses
pub mod Script
pub mod Permanent
pub mod Service
pub mod Calls
pub mod Reserve
use sidero_proxy.Base.{
  ℕ, ◌+◌, ◌*◌, ◌/◌, ◌%◌, ◌≡◌, refl, Bool, true, false, ◌&&◌, ◌||◌, not, Option, none, some, List,
  [], ◌∷◌, ◌++◌, ltb, leb, ◌==◌, if◌then◌else◌, Result, ok, err, Action, Bytes, codes, itoa,
  bytes_eq,
}
use sidero_proxy.Redis.{Redis}

abbrev pub Error : Type 0
Error = Bytes

abbrev pub map_key : Bytes → Bytes
map_key real_ip = codes "map:" ++ real_ip

abbrev pub rmap_key : Bytes → Bytes
rmap_key internal_ip = codes "rmap:" ++ internal_ip

abbrev pub reserved_key : Bytes
reserved_key = codes "reserved:real"

abbrev pub counter_key : Bytes → Bytes
counter_key proxy_id = codes "proxy:" ++ (proxy_id ++ codes ":counter")

-- `"10." .. proxy_num .. "." .. octet3 .. "." .. octet4` of the counter `n`
unfoldable pub internal_ip : ℕ → ℕ → Bytes
internal_ip proxy_num n =
    codes "10."
    ++ (itoa proxy_num ++ (codes "." ++ (itoa (n / 256 % 256) ++ (codes "." ++ itoa (n % 256)))))

unfoldable pub reverse_json : Bytes → Bytes → Bytes
reverse_json real_ip proxy_id =
    codes "{\"real_ip\":\"" ++ (real_ip ++ (codes "\",\"proxy\":\"" ++ (proxy_id ++ codes "\"}")))

-- The arguments of the script.
pub record Request : Type 0 where
  pub real_ip : Bytes
  pub proxy_id : Bytes
  pub proxy_num : ℕ
  pub ttl_seconds : ℕ
  pub reserve : Bool

module _ {R : Type 0} (redis : Redis R) where
  -- What the script does with the expiry of the two keys, for an old mapping as for a new one.
  unfoldable pub touch : Request → Bytes → R → R
  touch q internal s =
      let key = map_key q.real_ip in
      let rkey = rmap_key internal in
      if q.reserve
      then redis.persist rkey (redis.persist key (redis.sadd reserved_key q.real_ip s))
      else if not (redis.sismember reserved_key q.real_ip s) && ltb 0 q.ttl_seconds
      then redis.expire rkey q.ttl_seconds (redis.expire key q.ttl_seconds s)
      else s

  -- The part of the script for an address that has no mapping at this proxy.
  unfoldable pub assign_new : Request → R → Bytes × R
  assign_new q s =
      let (n, s₁) = redis.incr (counter_key q.proxy_id) s in
      let internal = internal_ip q.proxy_num n in
      let s₂ = redis.hset (map_key q.real_ip) q.proxy_id internal s₁ in
      let s₃ = redis.set (rmap_key internal) (reverse_json q.real_ip q.proxy_id) s₂ in
      (internal, touch q internal s₃)

  unfoldable pub assign_script : Request → R → Bytes × R
  assign_script q s = elim (redis.hget (map_key q.real_ip) q.proxy_id s) [
    | some existing ↦ (existing, touch q existing s)
    | none ↦ assign_new q s
  ]

-- `CounterToInternalIP`; the numbers of Go are signed, and here they are at least 0.
unfoldable pub counter_to_internal_ip : ℕ → ℕ → Result Error Bytes
counter_to_internal_ip proxy_num counter =
    if leb proxy_num 0 || leb 255 proxy_num
    then err (codes "invalid proxy number " ++ itoa proxy_num)
    else if leb counter 0
    then err (codes "counter must be positive")
    else let octet3 = counter / 256 % 256 in
      let octet4 = counter % 256 in
      ok (
        codes "10."
        ++ (itoa proxy_num ++ (codes "." ++ (itoa octet3 ++ (codes "." ++ itoa octet4)))))
