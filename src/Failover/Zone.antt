-- ===== src/Failover/Zone.antt =====
-- What the controller relies on of the DNS service, and lists of records.
use sidero_proxy.Base.{
  ◌≡◌, refl, Bool, true, false, ◌||◌, List, [], ◌∷◌, ◌++◌, map, All, if◌then◌else◌, Result, ok,
  Bool-cases, inl, inr, Bytes, bytes_eq, bytes_eq_iff, bytes_eq_refl, arith,
}
use sidero_proxy.Base.Integers.{ℤ}
use sidero_proxy.Failover.{DnsRecord, Environment, Error, texts_equal}

-- The records without those that have an id.
unfoldable pub without : Bytes → List DnsRecord → List DnsRecord
without id [] = []
without id (r ∷ records) =
    let rest = without id records in if bytes_eq r.id id then rest else r ∷ rest

unfoldable pub has_id : Bytes → List DnsRecord → Bool
has_id id [] = false
has_id id (r ∷ records) = bytes_eq r.id id || has_id id records

-- What the DNS service promises of the calls that succeed. An id belongs to the record of one name.
pub record Zone {W : Type 0} (env : Environment W) (zone_id : Bytes) : Type 0 where
  pub records : W → Bytes → List DnsRecord
  pub listed :
      (name : Bytes) (w w' : W) (found : List DnsRecord)
      → env.list_a_records zone_id name w ≡ (ok found, w')
      → (found ≡ records w name) × ((j : Bytes) → records w' j ≡ records w j)
  pub deleted :
      (id : Bytes) (w w' : W)
      → env.delete_record zone_id id w ≡ (ok tt, w')
      → (j : Bytes) → records w' j ≡ without id (records w j)
  pub created :
      (name content : Bytes) (ttl : ℤ) (w w' : W)
      → env.create_a_record zone_id name content ttl w ≡ (ok tt, w')
      → (made : DnsRecord) × (made.content ≡ content)
        × ((j : Bytes)
            → records w' j ≡ (if bytes_eq name j then records w j ++ made ∷ [] else records w j))
  pub distinct_ids :
      (w : W) (j k : Bytes)
      → bytes_eq j k ≡ false
      → All (λ r. has_id r.id (records w k) ≡ false) (records w j)
  pub probed :
      (url : Bytes) (w w' : W) (health : Result Error (Unit {0}))
      → env.healthy url w ≡ (health, w')
      → (j : Bytes) → records w' j ≡ records w j

pub without_absent :
    (id : Bytes) (records : List DnsRecord)
    → has_id id records ≡ false
    → without id records ≡ records
unfolding without has_id
without_absent id [] h = refl
without_absent id (r ∷ records) h = ground (arith, without_absent id records)

pub map_snoc :
    (rs : List DnsRecord) (r : DnsRecord) (ips : List Bytes)
    → map DnsRecord.content (rs ++ r ∷ []) ++ ips ≡ map DnsRecord.content rs ++ r.content ∷ ips
map_snoc [] r ips = refl
map_snoc (first ∷ rs) r ips = rw (map_snoc rs r ips) refl

pub texts_equal_sound : (ss ts : List Bytes) → texts_equal ss ts ≡ true → ss ≡ ts
unfolding texts_equal
texts_equal_sound [] [] h = refl
texts_equal_sound [] (t ∷ ts) h = absurd (ground arith)
texts_equal_sound (s ∷ ss) [] h = absurd (ground arith)
texts_equal_sound (s ∷ ss) (t ∷ ts) h = ground (arith, texts_equal_sound ss ts, bytes_eq_iff s t)

-- Every record has the id of one of `doomed`.
abbrev pub Covered : List DnsRecord → List DnsRecord → Type 0
Covered doomed = All (λ r. has_id r.id doomed ≡ true)

pub Covered-without :
    (r : DnsRecord) (doomed xs : List DnsRecord)
    → Covered (r ∷ doomed) xs
    → Covered doomed (without r.id xs)
unfolding has_id without
Covered-without r doomed [] c = tt
Covered-without r doomed (x ∷ xs) (c, cs) = elim (Bool-cases (bytes_eq x.id r.id)) [
  | inl e ↦ rw e (Covered-without r doomed xs cs)
  | inr e ↦ rw e (
    ground (arith, c, e, bytes_eq_iff r.id x.id, bytes_eq_iff x.id r.id),
    Covered-without r doomed xs cs,
  )
]

Covered-wider :
    (r : DnsRecord) (doomed xs : List DnsRecord) → Covered doomed xs → Covered (r ∷ doomed) xs
unfolding has_id
Covered-wider r doomed [] c = tt
Covered-wider r doomed (x ∷ xs) (c, cs) = (ground (arith, c), Covered-wider r doomed xs cs)

pub Covered-self : (xs : List DnsRecord) → Covered xs xs
unfolding has_id
Covered-self [] = tt
Covered-self (x ∷ xs) =
    (ground (arith, bytes_eq_refl x.id), Covered-wider x xs xs (Covered-self xs))

pub nothing-Covered : (xs : List DnsRecord) → Covered [] xs → xs ≡ []
unfolding has_id
nothing-Covered [] c = refl
nothing-Covered (x ∷ xs) (c, cs) = absurd (ground arith)
