-- ===== src/Registration/Subnet.antt =====
-- `ProxyNumFromSubnet`: what it accepts, and that it reads back each subnet that is registered.
use sidero_proxy.Base.{
  ℕ, zero, suc, ◌≤◌, ◌<◌, ◌≡◌, ◌≢◌, ◌↔◌, refl, Bool, true, ◌&&◌, Option, none, some, ◌==◌, Result,
  ok, err, Bytes, itoa, Unicode, Ipv6, Ip, v4, v6, parse_cidr, arith,
}
use sidero_proxy.Registration.{Error, slot_subnet, proxy_num_from_subnet}
use mathlib.Core.Bool.{◌||◌}

-- Every slot at once.
abbrev reads_back : ℕ → Result Error ℕ → Bool
reads_back slot (ok m) = m == slot
reads_back slot (err e) = (slot == 0) || (slot == 255)

reads_back_sound :
    (slot : ℕ) (r : Result Error ℕ) → 1 ≤ slot → slot ≤ 254 → reads_back slot r ≡ true → r ≡ ok slot
reads_back_sound slot (ok m) low high h = ground arith
reads_back_sound slot (err e) low high h = ground arith

slot_read_back : Ipv6 → Unicode → ℕ → Bool
slot_read_back n u slot = reads_back slot (proxy_num_from_subnet n u (slot_subnet slot))

all_slots : Ipv6 → Unicode → ℕ → Bool
all_slots n u zero = true
all_slots n u (suc k) = slot_read_back n u k && all_slots n u k

slots_table : (n : Ipv6) (u : Unicode) → all_slots n u 256 ≡ true
unfolding all_slots slot_read_back proxy_num_from_subnet slot_subnet parse_cidr itoa
slots_table n u = refl

all_slots_sound :
    (n : Ipv6) (u : Unicode) (k slot : ℕ)
    → all_slots n u k ≡ true
    → slot < k
    → slot_read_back n u slot ≡ true
unfolding all_slots
all_slots_sound n u zero slot h lt = absurd (omega arith)
all_slots_sound n u (suc k) slot h lt = ground (arith, all_slots_sound n u k slot)

-- The subnet that a proxy registers for a slot is read back as that slot, for each of the 254 slots
-- that can be allocated.
pub proxy_num_from_subnet-slot_subnet :
    (n : Ipv6) (u : Unicode) (slot : ℕ)
    → 1 ≤ slot
    → slot ≤ 254
    → proxy_num_from_subnet n u (slot_subnet slot) ≡ ok slot
unfolding slot_read_back
proxy_num_from_subnet-slot_subnet n u slot low high =
    reads_back_sound slot _ low high (all_slots_sound n u 256 slot (slots_table n u) (omega arith))

num_of_parsed :
    (n : Ipv6) (u : Unicode) (subnet : Bytes) (o : Option (Ip × ℕ × ℕ)) (num : ℕ)
    → parse_cidr n subnet ≡ o
    → proxy_num_from_subnet n u subnet ≡ ok num
    → (num ≢ 0) × (num ≢ 255) × (o ≡ some (v4 10 num 0 0, 16, 32))
unfolding proxy_num_from_subnet
num_of_parsed n u subnet none num e h = absurd (ground arith)
num_of_parsed n u subnet (some (v6 b, ones, bits)) num e h = absurd (ground arith)
num_of_parsed n u subnet (some (v4 a b c d, ones, bits)) num e h = ground arith

accepted_of_parsed :
    (n : Ipv6) (u : Unicode) (subnet : Bytes) (num : ℕ)
    → num ≢ 0
    → num ≢ 255
    → parse_cidr n subnet ≡ some (v4 10 num 0 0, 16, 32)
    → proxy_num_from_subnet n u subnet ≡ ok num
unfolding proxy_num_from_subnet
accepted_of_parsed n u subnet num h k e = ground arith

-- A subnet is accepted with the number `num` exactly when it reads as the IPv4 network 10.num.0.0
-- with a mask of 16 bits, and `num` is neither 0 nor 255.
pub proxy_num_from_subnet_iff :
    (n : Ipv6) (u : Unicode) (subnet : Bytes) (num : ℕ)
    → (proxy_num_from_subnet n u subnet ≡ ok num)
      ↔ ((num ≢ 0) × (num ≢ 255) × (parse_cidr n subnet ≡ some (v4 10 num 0 0, 16, 32)))
proxy_num_from_subnet_iff n u subnet num = (
  num_of_parsed n u subnet (parse_cidr n subnet) num refl,
  λ h. accepted_of_parsed n u subnet num h.0 h.1 h.2,
)
