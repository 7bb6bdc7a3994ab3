-- ===== src/Registration/Distinct.antt =====
-- `Register` by different proxies, or by one proxy again, with any other calls in between.
use sidero_proxy.Base.{
  ℕ, ◌≤◌, ◌≡◌, ◌↔◌, refl, sym, ap, ◌∙◌, Bool, true, false, ◌||◌, Option, none, some, leb, ltb,
  Result, ok, err, continue_with, Bytes, bytes_eq_refl, Unicode, Ipv6, arith,
}
use mathlib.Core.Path.{subst}
use sidero_proxy.Redis.{Redis, Client, Store, hset_on}
use sidero_proxy.Registration.{
  Error, ProxyInfo, InfoJson, registry_key, subnet_counter_key, slot_info, registered_info,
  registered_or_new, write_info, encode_info, no_answer, register,
}
use sidero_proxy.Registration.Slots.{entry, register-Registers}
use sidero_proxy.Registration.Registry.{
  IsRegistry, ReadsBack, slot_in, slot_in-marshal, IsRegistry-of_Registers, entry_of_Registers,
}

entry-hset : (id v : Bytes) (st : Store) → entry (hset_on registry_key id v st) id ≡ some v
unfolding hset_on
entry-hset id v st = rw (bytes_eq_refl registry_key, bytes_eq_refl id)

module _ {R : Type 0} (redis : Redis R) (client : Client R) (json : InfoJson) (n : Ipv6)
    (u : Unicode) where
  -- After the call the proxy has an entry, which stands for the number that the call returned.
  abbrev Holds : Bytes → ℕ → Store → Type 0
  Holds id num st = (v : Bytes) × (entry st id ≡ some v) × (slot_in json n u v ≡ some num)

  known-Holds :
      (id value : Bytes) (s s' : R) (info : ProxyInfo) (num : ℕ)
      → entry (redis.view s) id ≡ some value
      → registered_info redis client json n u value s ≡ (ok (info, num), s')
      → Holds id num (redis.view s')
  unfolding slot_in
  known-Holds id value s s' info num e h = (value, ground arith, ground arith)

  written-Holds :
      (now : ℕ) (id v : Bytes) (slot : ℕ) (s₁ s' : R) (info : ProxyInfo) (num : ℕ)
      (p : Result Error (Unit {0}) × R)
      → ReadsBack json n u
      → 1 ≤ slot
      → slot ≤ 254
      → json.marshal (slot_info now slot) ≡ ok v
      → client.command (Unit {0}) (no_answer (redis.hset registry_key id v)) s₁ ≡ p
      → write_info redis client json n u now id slot v s₁ ≡ (ok (info, num), s')
      → Holds id num (redis.view s')
  written-Holds now id v slot s₁ s' info num (err x, s₂) back low high coded c h =
      absurd (ground arith)
  written-Holds now id v slot s₁ s' info num (ok x, s₂) back low high coded c h = (
    v,
    ground (
      arith,
      client.command_lem (Unit {0}) (no_answer (redis.hset registry_key id v)) s₁ c,
      redis.view-hset registry_key id v s₁,
      entry-hset id v (redis.view s₁),
    ),
    ground (arith, slot_in-marshal json n u now slot v back low high coded),
  )

  encoded-Holds :
      (now : ℕ) (id : Bytes) (slot : ℕ) (s₁ s' : R) (info : ProxyInfo) (num : ℕ)
      (m : Result Error Bytes) (b : Bool)
      → ReadsBack json n u
      → json.marshal (slot_info now slot) ≡ m
      → (leb slot 0 || ltb 254 slot) ≡ b
      → encode_info redis client json n u now id slot s₁ ≡ (ok (info, num), s')
      → Holds id num (redis.view s')
  encoded-Holds now id slot s₁ s' info num m true back e t h = absurd (ground arith)
  encoded-Holds now id slot s₁ s' info num (err x) false back e t h = absurd (ground arith)
  encoded-Holds now id slot s₁ s' info num (ok v) false back e t h =
      written-Holds now id v slot s₁ s' info num _ back (ground arith) (ground arith) e refl
        (rw (t, e) at h)

  new-Holds :
      (now : ℕ) (id : Bytes) (s s' : R) (info : ProxyInfo) (num : ℕ) (p : Result Error ℕ × R)
      → ReadsBack json n u
      → continue_with (encode_info redis client json n u now id) p ≡ (ok (info, num), s')
      → Holds id num (redis.view s')
  new-Holds now id s s' info num (err x, s₁) back h = absurd (ground arith)
  new-Holds now id s s' info num (ok slot, s₁) back h =
      encoded-Holds now id slot s₁ s' info num _ _ back refl refl h

  register-Holds_of :
      (now : ℕ) (id : Bytes) (s s' : R) (info : ProxyInfo) (num : ℕ)
      (p : Result Error (Option Bytes) × R)
      → ReadsBack json n u
      → client.command (Option Bytes) (λ s₁. (redis.hget registry_key id s₁, s₁)) s ≡ p
      → continue_with (registered_or_new redis client json n u now id) p ≡ (ok (info, num), s')
      → Holds id num (redis.view s')
  register-Holds_of now id s s' info num (err x, s₁) back e h = absurd (ground arith)
  register-Holds_of now id s s' info num (ok none, s₁) back e h =
      new-Holds now id s₁ s' info num (client.command ℕ (redis.incr subnet_counter_key) s₁) back h
  register-Holds_of now id s s' info num (ok (some value), s₁) back e h =
      let answer =
        client.command_lem (Option Bytes) (λ s₁. (redis.hget registry_key id s₁, s₁)) s e in
      known-Holds id value s₁ s' info num (ground (arith, redis.hget-view registry_key id s)) h

  pub register-Holds :
      (now : ℕ) (id : Bytes) (s : R) {s' : R} {info : ProxyInfo} {num : ℕ}
      → ReadsBack json n u
      → register redis client json n u now id s ≡ (ok (info, num), s')
      → Holds id num (redis.view s')
  unfolding register
  register-Holds now id s {s'} {info} {num} back h =
      register-Holds_of now id s s' info num _ back refl h

  -- Any number of calls of `Register`, by any proxies, whatever they return.
  pub data Calls (s : R) : R → Type 0 where
    none_yet : Calls s s
    one_more :
        {t : R} (now : ℕ) (id : Bytes)
        → Calls s t
        → Calls s ((register redis client json n u now id t).1)

  IsRegistry-of_Calls :
      {s t : R}
      → ReadsBack json n u
      → IsRegistry json n u (redis.view s)
      → Calls s t
      → IsRegistry json n u (redis.view t)
  IsRegistry-of_Calls back h none_yet = h
  IsRegistry-of_Calls {s} back h (one_more {t} now id c) =
      IsRegistry-of_Registers redis client json n u now id (redis.view t) _ back
        (IsRegistry-of_Calls back h c) (register-Registers redis client json n u now id t)

  entry_of_Calls :
      {s t : R} (j w : Bytes)
      → Calls s t
      → entry (redis.view s) j ≡ some w
      → entry (redis.view t) j ≡ some w
  entry_of_Calls j w none_yet e = e
  entry_of_Calls j w (one_more {t} now id c) e =
      entry_of_Registers redis client json n u now id (redis.view t) _ j w
        (register-Registers redis client json n u now id t) (entry_of_Calls j w c e)

  empty-IsRegistry : (st : Store) → ((j : Bytes) → entry st j ≡ none) → IsRegistry json n u st
  empty-IsRegistry st empty = record {
    slotted = λ id v e. absurd (ground (arith, empty id));
    distinct = λ id id' v v' slot e e' f f'. absurd (ground (arith, empty id));
  }

  -- Two calls of `Register` that succeed return the same number if and only if they are by the same
  -- proxy. Any calls may come before the first, from an empty registry on, and between the two. So no
  -- two proxies own the same subnet, and a proxy that starts again keeps its own.
  pub register-distinct :
      {s₀ s s' t t' : R} (now now' : ℕ) (id id' : Bytes) {info info' : ProxyInfo} {num num' : ℕ}
      → ReadsBack json n u
      → ((j : Bytes) → entry (redis.view s₀) j ≡ none)
      → Calls s₀ s
      → register redis client json n u now id s ≡ (ok (info, num), s')
      → Calls s' t
      → register redis client json n u now' id' t ≡ (ok (info', num'), t')
      → (num ≡ num') ↔ (id ≡ id')
  register-distinct {s₀} {s} {s'} {t} {t'} now now' id id' {num = num} {num' = num'} back empty c e
        c' e' =
      let (v, is_v, is_num) = register-Holds now id s back e in
      let (v', is_v', is_num') = register-Holds now' id' t back e' in
      let before = subst (λ x. Calls s₀ x) (ap (λ p. p.1) e) (one_more now id c) in
      let between = subst (λ x. Calls s' x) (ap (λ p. p.1) e') (one_more now' id' c') in
      let first = IsRegistry-of_Calls back (empty-IsRegistry (redis.view s₀) empty) before in
      let last = IsRegistry-of_Calls back first between in
      let kept = entry_of_Calls id v between is_v in
      (
        (λ same. last.distinct id id' v v' num kept is_v' is_num (is_num' ∙ ap some (sym same))),
        λ same. ground (arith, kept, is_v', is_num, is_num'),
      )
