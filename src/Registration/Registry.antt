-- ===== src/Registration/Registry.antt =====
-- The registry over the life of the system: a proxy keeps its slot, and no two proxies share one.
use sidero_proxy.Base.{
  ℕ, ◌+◌, ◌≤◌, ◌≡◌, refl, sym, ◌∙◌, Option, none, some, some, if◌then◌else◌, inl, inr, Result, ok,
  err, Bytes, bytes_eq, bytes_eq_iff, bytes_eq_refl, Unicode, Ipv6, arith, Bool-cases,
}
use sidero_proxy.Redis.{Redis, Client, Store, hset_on, incr_on}
use sidero_proxy.Registration.{
  Error, ProxyInfo, InfoJson, registry_key, subnet_counter_key, slot_info, proxy_num_from_subnet,
}
use sidero_proxy.Registration.Subnet.{proxy_num_from_subnet-slot_subnet}
use sidero_proxy.Registration.Slots.{slot_counter, entry, Registers}

pub entry_after :
    (id j v : Bytes) (st : Store)
    → entry (hset_on registry_key id v (incr_on subnet_counter_key st)) j
      ≡ (if bytes_eq id j then some v else entry st j)
unfolding hset_on incr_on
entry_after id j v st = rw (bytes_eq_refl registry_key)

counter_after :
    (id v : Bytes) (st : Store)
    → slot_counter (hset_on registry_key id v (incr_on subnet_counter_key st)) ≡ slot_counter st + 1
unfolding hset_on incr_on
counter_after id v st = rw (bytes_eq_refl subnet_counter_key)

entry_after_incr : (j : Bytes) (st : Store) → entry st j ≡ entry (incr_on subnet_counter_key st) j
unfolding incr_on
entry_after_incr j st = refl

counter_after_incr :
    (st : Store) → slot_counter (incr_on subnet_counter_key st) ≡ slot_counter st + 1
unfolding incr_on
counter_after_incr st = rw (bytes_eq_refl subnet_counter_key)

module _ (json : InfoJson) (n : Ipv6) (u : Unicode) where
  -- The slot that an entry of the registry stands for.
  abbrev pub num_of : Result Error ProxyInfo → Option ℕ
  num_of (err e) = none
  num_of (ok info) = elim (proxy_num_from_subnet n u info.subnet) [
    | ok num ↦ some num
    | err e ↦ none
  ]

  unfoldable pub slot_in : Bytes → Option ℕ
  slot_in v = num_of (json.unmarshal v)

  -- Each entry stands for a slot that was allocated, and no two entries stand for the same.
  pub record IsRegistry (st : Store) : Type 0 where
    pub slotted :
        (id v : Bytes)
        → entry st id ≡ some v
        → (slot : ℕ) × (slot_in v ≡ some slot) × (1 ≤ slot) × (slot ≤ slot_counter st)
    pub distinct :
        (id id' v v' : Bytes) (slot : ℕ)
        → entry st id ≡ some v
        → entry st id' ≡ some v'
        → slot_in v ≡ some slot
        → slot_in v' ≡ some slot
        → id ≡ id'

  -- The package encoding/json reads back what it wrote.
  abbrev pub ReadsBack : Type 0
  ReadsBack = (i : ProxyInfo) (v : Bytes) → json.marshal i ≡ ok v → json.unmarshal v ≡ ok i

  pub slot_in-marshal :
      (now slot : ℕ) (v : Bytes)
      → ReadsBack
      → 1 ≤ slot
      → slot ≤ 254
      → json.marshal (slot_info now slot) ≡ ok v
      → slot_in v ≡ some slot
  unfolding slot_in
  slot_in-marshal now slot v back low high e =
      ground
        (arith, back (slot_info now slot) v e, proxy_num_from_subnet-slot_subnet n u slot low high)

  -- An entry of the registry with one more.
  slotted_after :
      (now : ℕ) (id v : Bytes) (st : Store) (j w : Bytes)
      → ReadsBack
      → IsRegistry st
      → slot_counter st + 1 ≤ 254
      → json.marshal (slot_info now (slot_counter st + 1)) ≡ ok v
      → entry (hset_on registry_key id v (incr_on subnet_counter_key st)) j ≡ some w
      → (slot : ℕ) × (slot_in w ≡ some slot) × (1 ≤ slot) × (slot ≤ slot_counter st + 1)
  slotted_after now id v st j w back h bound coded e = elim (Bool-cases (bytes_eq id j)) [
    | inl same ↦ (
      slot_counter st + 1,
      ground (
        arith,
        entry_after id j v st,
        slot_in-marshal now (slot_counter st + 1) v back (omega arith) bound coded,
      ),
      omega arith,
      omega arith,
    )
    | inr other ↦
        let (slot, is_slot, low, high) = h.slotted j w (ground (arith, entry_after id j v st)) in
        (slot, is_slot, low, omega arith)
  ]

  slotted_still :
      (st : Store) (j w : Bytes)
      → IsRegistry st
      → entry st j ≡ some w
      → (slot : ℕ) × (slot_in w ≡ some slot)
        × (1 ≤ slot)
        × (slot ≤ slot_counter (incr_on subnet_counter_key st))
  slotted_still st j w h e =
      let (slot, is_slot, low, high) = h.slotted j w e in
      (slot, is_slot, low, rw (counter_after_incr st) (omega arith))

  -- Where the entry of `id` is new, no other entry can stand for its slot, which is larger than all.
  new_slot_alone :
      (now : ℕ) (id v : Bytes) (st : Store) (j w : Bytes) (slot : ℕ)
      → ReadsBack
      → IsRegistry st
      → slot_counter st + 1 ≤ 254
      → json.marshal (slot_info now (slot_counter st + 1)) ≡ ok v
      → slot_in v ≡ some slot
      → slot_in w ≡ some slot
      → entry st j ≡ some w
      → ⊥
  new_slot_alone now id v st j w slot back h bound coded is_v is_w e =
      let (slot', is_slot', low, high) = h.slotted j w e in
      ground (arith, slot_in-marshal now (slot_counter st + 1) v back (omega arith) bound coded)

  distinct_after :
      (now : ℕ) (id v : Bytes) (st : Store) (j j' w w' : Bytes) (slot : ℕ)
      → ReadsBack
      → IsRegistry st
      → slot_counter st + 1 ≤ 254
      → json.marshal (slot_info now (slot_counter st + 1)) ≡ ok v
      → entry (hset_on registry_key id v (incr_on subnet_counter_key st)) j ≡ some w
      → entry (hset_on registry_key id v (incr_on subnet_counter_key st)) j' ≡ some w'
      → slot_in w ≡ some slot
      → slot_in w' ≡ some slot
      → j ≡ j'
  distinct_after now id v st j j' w w' slot back h bound coded e e' is_w is_w' = ground (
    arith,
    entry_after id j v st,
    entry_after id j' v st,
    bytes_eq_iff id j,
    bytes_eq_iff id j',
    h.distinct j j' w w' slot,
    new_slot_alone now id v st j w slot back h bound coded,
    new_slot_alone now id v st j' w' slot back h bound coded,
  )

module _ {R : Type 0} (redis : Redis R) (client : Client R) (json : InfoJson) (n : Ipv6)
    (u : Unicode) where
  pub IsRegistry-of_Registers :
      (now : ℕ) (id : Bytes) (st st' : Store)
      → ReadsBack json n u
      → IsRegistry json n u st
      → Registers redis client json n u now id st st'
      → IsRegistry json n u st'
  IsRegistry-of_Registers now id st st' back h (inl same) = rw same h
  IsRegistry-of_Registers now id st st' back h (inr (inl used)) = rw used (record {
    slotted = λ j w e. slotted_still json n u st j w h (entry_after_incr j st ∙ e);
    distinct = λ j j' w w' slot e e'.
        h.distinct j j' w w' slot (entry_after_incr j st ∙ e) (entry_after_incr j' st ∙ e');
  })
  IsRegistry-of_Registers now id st st' back h (inr (inr (v, free, bound, coded, written))) =
      rw written (record {
        slotted = λ j w e.
            rw (counter_after id v st)
              (slotted_after json n u now id v st j w back h bound coded e);
        distinct = λ j j' w w' slot e e' is_w is_w'.
            distinct_after json n u now id v st j j' w w' slot back h bound coded e e' is_w is_w';
      })

  -- No call takes an entry away or changes it.
  pub entry_of_Registers :
      (now : ℕ) (id : Bytes) (st st' : Store) (j w : Bytes)
      → Registers redis client json n u now id st st'
      → entry st j ≡ some w
      → entry st' j ≡ some w
  entry_of_Registers now id st st' j w (inl same) e = rw same e
  entry_of_Registers now id st st' j w (inr (inl used)) e =
      rw used (sym (entry_after_incr j st) ∙ e)
  entry_of_Registers now id st st' j w (inr (inr (v, free, bound, coded, written))) e =
      rw written (ground (arith, entry_after id j v st, bytes_eq_iff id j))
