-- ===== src/Runs/AssignmentRuns.antt =====
-- Runs of internal/assignment.
use sidero_proxy.Base.{ℕ, ◌≡◌, refl, true, false, none, codes, bytes_eq, itoa, arith}
use sidero_proxy.Redis.{store_redis, empty_store}
use sidero_proxy.Assignment.{Request, map_key, internal_ip, assign_script, assign_new}
use sidero_proxy.Assignment.Addresses.{internal_ip-injective}
use sidero_proxy.Assignment.Script.{mapping_after, address_or_next, assign_script-assign_script}

abbrev request : Request
request = record {
  real_ip = codes "198.51.100.4";
  proxy_id = codes "p1";
  proxy_num = 7;
  ttl_seconds = 60;
  reserve = false;
}

first_address : (assign_script store_redis request empty_store).0 ≡ codes "10.7.0.1"
unfolding assign_script assign_new internal_ip empty_store itoa bytes_eq
first_address = refl

-- The counter comes round: the addresses of the numbers 1 and 65537 are the same.
wraps : internal_ip 7 65537 ≡ internal_ip 7 1
unfolding internal_ip itoa
wraps = refl

abbrev reserving : Request
reserving = record request { ttl_seconds = 0; reserve = true }

assign_script-assign_script_example :
    ((assign_script store_redis request empty_store).0
      ≡ address_or_next store_redis request empty_store
          (store_redis.hget (map_key (codes "198.51.100.4")) (codes "p1") empty_store))
    × ((assign_script store_redis reserving ((assign_script store_redis request empty_store).1)).0
        ≡ (assign_script store_redis request empty_store).0)
    × (store_redis.hget
          (map_key (codes "203.0.113.9"))
          (codes "p1")
          ((assign_script store_redis request empty_store).1)
        ≡ mapping_after store_redis request empty_store (codes "203.0.113.9") (codes "p1"))
assign_script-assign_script_example =
    assign_script-assign_script store_redis request reserving empty_store (codes "203.0.113.9")
      (codes "p1") refl refl

absent : store_redis.hget (map_key request.real_ip) request.proxy_id empty_store ≡ none
unfolding empty_store
absent = refl

internal_ip-injective_example : ◌≡◌ {A = ℕ} 7 7 × ◌≡◌ {A = ℕ} 300 300
internal_ip-injective_example =
    internal_ip-injective 7 7 300 300 (omega arith) (omega arith) (omega arith) (omega arith) refl
