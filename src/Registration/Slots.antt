-- ===== src/Registration/Slots.antt =====
-- `Register`, step by step: what each call may write to the registry.
use sidero_proxy.Base.{
  ℕ, ◌+◌, ◌≤◌, ◌≡◌, refl, sym, ap, ◌∙◌, Bool, true, false, ◌||◌, Option, none, some, ◌⊎◌, inl, inr,
  Result, ok, err, leb, ltb, continue_with, Bytes, Unicode, Ipv6, arith,
}
use sidero_proxy.Redis.{Redis, Client, Store, hset_on, incr_on}
use sidero_proxy.Registration.{
  Error, InfoJson, registered_info, registry_key, subnet_counter_key, slot_info, register,
  no_answer, registered_or_new, write_info, encode_info,
}

abbrev pub slot_counter : Store → ℕ
slot_counter s = s.counter subnet_counter_key

abbrev pub entry : Store → Bytes → Option Bytes
entry s id = s.hash registry_key id

module _ {R : Type 0} (redis : Redis R) (client : Client R) (json : InfoJson) (n : Ipv6)
    (u : Unicode) where
  -- How a call of `Register` may change what Redis holds: not at all, by a slot that is used up, or by
  -- a new entry for the proxy with the next slot.
  abbrev pub Registers : ℕ → Bytes → Store → Store → Type 0
  Registers now id s s' =
      (s' ≡ s)
      ⊎ (s' ≡ incr_on subnet_counter_key s)
      ⊎ ((v : Bytes) × (entry s id ≡ none)
          × (slot_counter s + 1 ≤ 254)
          × (json.marshal (slot_info now (slot_counter s + 1)) ≡ ok v)
          × (s' ≡ hset_on registry_key id v (incr_on subnet_counter_key s)))

  command_effect :
      (A : Type 0) (f : R → A × R) (s : R) (p : Result Error A × R)
      → client.command A f s ≡ p
      → (p.1 ≡ s) ⊎ (p.1 ≡ (f s).1)
  command_effect A f s (ok a, s') e = inr (ground (arith, client.command_lem A f s e))
  command_effect A f s (err x, s') e = client.command_failed A f s e

  write_effect :
      (now : ℕ) (id v : Bytes) (slot : ℕ) (s₁ : R) (p : Result Error (Unit {0}) × R)
      → client.command (Unit {0}) (no_answer (redis.hset registry_key id v)) s₁ ≡ p
      → (redis.view ((write_info redis client json n u now id slot v s₁).1) ≡ redis.view s₁)
        ⊎ (redis.view ((write_info redis client json n u now id slot v s₁).1)
            ≡ hset_on registry_key id v (redis.view s₁))
  write_effect now id v slot s₁ (ok x, s₂) e =
      ground
        (arith, command_effect (Unit {0}) _ s₁ (ok x, s₂) e, redis.view-hset registry_key id v s₁)
  write_effect now id v slot s₁ (err x, s₂) e =
      ground
        (arith, command_effect (Unit {0}) _ s₁ (err x, s₂) e, redis.view-hset registry_key id v s₁)

  -- What is done with the slot that was allocated.
  abbrev Writes : ℕ → Bytes → ℕ → Store → Store → Type 0
  Writes now id slot s s' =
      (s' ≡ s)
      ⊎ ((v : Bytes) × (slot ≤ 254)
          × (json.marshal (slot_info now slot) ≡ ok v)
          × (s' ≡ hset_on registry_key id v s))

  encode_effect :
      (now : ℕ) (id : Bytes) (slot : ℕ) (s₁ : R) (m : Result Error Bytes) (b : Bool)
      → json.marshal (slot_info now slot) ≡ m
      → (leb slot 0 || ltb 254 slot) ≡ b
      → Writes now id slot
          (redis.view s₁)
          (redis.view ((encode_info redis client json n u now id slot s₁).1))
  encode_effect now id slot s₁ m true e t = inl (rw t)
  encode_effect now id slot s₁ (err x) false e t = inl (rw (t, e))
  encode_effect now id slot s₁ (ok v) false e t = elim (write_effect now id v slot s₁ _ refl) [
    | inl same ↦ inl (rw (t, e) same)
    | inr written ↦ inr (v, ground arith, e, rw (t, e) written)
  ]

  Registers-of_Writes :
      (now : ℕ) (id : Bytes) (slot : ℕ) (st st₁ st' : Store)
      → entry st id ≡ none
      → slot ≡ slot_counter st + 1
      → st₁ ≡ incr_on subnet_counter_key st
      → Writes now id slot st₁ st'
      → Registers now id st st'
  Registers-of_Writes now id slot st st₁ st' free e f (inl same) = inr (inl (same ∙ f))
  Registers-of_Writes now id slot st st₁ st' free e f (inr (v, bound, coded, written)) =
      inr (inr (v, free, rw (← e) bound, rw (← e) coded, rw (← f) written))

  new_info_effect :
      (now : ℕ) (id : Bytes) (s : R) (p : Result Error ℕ × R)
      → entry (redis.view s) id ≡ none
      → client.command ℕ (redis.incr subnet_counter_key) s ≡ p
      → Registers now id
          (redis.view s)
          (redis.view ((continue_with (encode_info redis client json n u now id) p).1))
  new_info_effect now id s (err x, s₁) free e =
      elim (command_effect ℕ (redis.incr subnet_counter_key) s (err x, s₁) e) [
        | inl same ↦ inl (ap redis.view same)
        | inr done ↦ inr (inl (ap redis.view done ∙ redis.view-incr subnet_counter_key s))
      ]
  new_info_effect now id s (ok slot, s₁) free e =
      let answer = client.command_lem ℕ (redis.incr subnet_counter_key) s e in
      Registers-of_Writes now id slot (redis.view s) (redis.view s₁) _ free
        (sym (ap (λ p. p.0) answer) ∙ redis.incr_value subnet_counter_key s)
        (ap (λ p. redis.view (p.1)) (sym answer) ∙ redis.view-incr subnet_counter_key s)
        (encode_effect now id slot s₁ _ _ refl refl)

  -- A proxy that is in the registry: nothing is written.
  known_effect :
      (now : ℕ) (id value : Bytes) (s : R)
      → redis.view ((registered_info redis client json n u value s).1) ≡ redis.view s
  known_effect now id value s = ground arith

  register_effect :
      (now : ℕ) (id : Bytes) (s : R) (p : Result Error (Option Bytes) × R)
      → client.command (Option Bytes) (λ s₁. (redis.hget registry_key id s₁, s₁)) s ≡ p
      → Registers now id
          (redis.view s)
          (redis.view ((continue_with (registered_or_new redis client json n u now id) p).1))
  register_effect now id s (err x, s₁) e =
      inl (ap redis.view (ground (arith, command_effect (Option Bytes) _ s (err x, s₁) e)))
  register_effect now id s (ok (some value), s₁) e =
      let answer = client.command_lem (Option Bytes) _ s e in
      inl (known_effect now id value s₁ ∙ ap (λ p. redis.view (p.1)) (sym answer))
  register_effect now id s (ok none, s₁) e =
      let answer = client.command_lem (Option Bytes) _ s e in
      rw (ap (λ p. p.1) (sym answer)) (
        new_info_effect now id s _ (sym (redis.hget-view registry_key id s) ∙ ap (λ p. p.0) answer)
          refl)

  pub register-Registers :
      (now : ℕ) (id : Bytes) (s : R)
      → Registers now id (redis.view s) (redis.view ((register redis client json n u now id s).1))
  unfolding register
  register-Registers now id s = register_effect now id s _ refl
