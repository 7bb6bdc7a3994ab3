-- ===== src/Assignment/Calls.antt =====
-- What the methods around the assignment script may do to Redis, whether they succeed or fail.
use sidero_proxy.Base.{
  ℕ, ◌≡◌, refl, sym, subst, inl, inr, Bool, true, Option, none, some, List, [], ◌∷◌, ◌++◌, Result,
  ok, err, Action, with_prefix, continue_with, prefixed, ◌>>=◌, Bytes, codes, Unicode, Ipv6,
}
use sidero_proxy.Base.Dict.{Dict, insert}
use sidero_proxy.Redis.{Redis, Client, HashReader}
use sidero_proxy.Registration.{
  ProxyInfo, InfoJson, registry_key, proxy_num_from_subnet, lift_result, sorted_proxy_ids,
}
use sidero_proxy.Registration.Listing.{list_proxies, decode_proxies}
use sidero_proxy.Assignment.{assign_script, rmap_key}
use sidero_proxy.Assignment.Permanent.{Steps, here, script, wait}
use sidero_proxy.Assignment.Service.{
  ReverseJson, Service, request_of, info_at, run_assign, reserve_loop, reserve_for_all_proxies,
  lookup_reverse, decode_reverse,
}

module _ {R : Type 0} (redis : Redis R) where
  pub Steps-trans : {s t v : R} → Steps redis s t → Steps redis t v → Steps redis s v
  Steps-trans first here = first
  Steps-trans first (script q steps) = script q (Steps-trans first steps)
  Steps-trans first (wait d steps e) = wait d (Steps-trans first steps) e

  -- An action that does nothing to Redis but to run the script, any number of times.
  abbrev pub MakesSteps : {A : Type 0} → Action R Bytes A → Type 0
  MakesSteps {A} m = (s : R) → Steps redis s ((m s).1)

  pub Steps-continue_with :
      {A B : Type 0} (s : R) (r : Result Bytes A × R) (k : A → Action R Bytes B)
      → Steps redis s (r.1)
      → ((a : A) → MakesSteps (k a))
      → Steps redis s ((continue_with k r).1)
  Steps-continue_with s (ok a, t) k first rest = Steps-trans first (rest a t)
  Steps-continue_with s (err e, t) k first rest = first

  pub MakesSteps-bind :
      {A B : Type 0} (m : Action R Bytes A) (k : A → Action R Bytes B)
      → MakesSteps m
      → ((a : A) → MakesSteps (k a))
      → MakesSteps (m >>= k)
  MakesSteps-bind m k first rest s = Steps-continue_with s (m s) k (first s) rest

  Steps-prefix :
      {A : Type 0} (s : R) (p : Bytes) (r : Result Bytes A × R)
      → Steps redis s (r.1)
      → Steps redis s ((with_prefix p r).1)
  Steps-prefix s p (ok a, t) h = h
  Steps-prefix s p (err e, t) h = h

  pub MakesSteps-prefixed :
      {A : Type 0} (p : Bytes) (m : Action R Bytes A) → MakesSteps m → MakesSteps (prefixed p m)
  MakesSteps-prefixed p m h s = Steps-prefix s p (m s) (h s)

  pub MakesSteps-lift_result : {A : Type 0} (r : Result Bytes A) → MakesSteps (lift_result r)
  MakesSteps-lift_result r s = here

  module _ (client : Client R) where
    -- A command that reached Redis had its effect once or, when the answer is an error, perhaps never.
    pub MakesSteps-command :
        {A : Type 0} (f : R → A × R)
        → ((s : R) → Steps redis s ((f s).1))
        → MakesSteps (client.command A f)
    MakesSteps-command {A} f h s = command_cases (client.command A f s) refl
      where
        command_cases : (r : Result Bytes A × R) → client.command A f s ≡ r → Steps redis s (r.1)
        command_cases (ok a, t) e =
            subst (λ v. Steps redis s (v.1)) (client.command_lem A f s e) (h s)
        command_cases (err x, t) e = elim (client.command_failed A f s e) [
          | inl same ↦ subst (λ v. Steps redis s v) (sym same) here
          | inr done ↦ subst (λ v. Steps redis s v) (sym done) (h s)
        ]

    pub list_proxies-MakesSteps :
        (json : InfoJson) (reader : HashReader redis)
        → MakesSteps (list_proxies json redis client reader)
    unfolding list_proxies
    list_proxies-MakesSteps json reader =
        let ask : Action R Bytes (Dict Bytes) =
          client.command (Dict Bytes) (λ t. (reader.hgetall registry_key t, t)) in
        MakesSteps-bind (prefixed (codes "read proxy registry: ") ask)
          (λ raw. lift_result (decode_proxies json raw []))
          (MakesSteps-prefixed (codes "read proxy registry: ") ask
            (MakesSteps-command (λ t. (reader.hgetall registry_key t, t)) (λ t. here)))
          (λ raw. MakesSteps-lift_result (decode_proxies json raw []))

    module _ (service : Service) where
      pub run_assign-MakesSteps :
          (real_ip id : Bytes) (num : ℕ) (reserve : Bool)
          → MakesSteps (run_assign redis client service real_ip id num reserve)
      unfolding run_assign
      run_assign-MakesSteps real_ip id num reserve =
          let q = request_of service real_ip id num reserve in
          MakesSteps-prefixed (codes "run assignment script: ") _
            (MakesSteps-command (assign_script redis q) (λ t. script q here))

      pub lookup_reverse-MakesSteps :
          (json : ReverseJson) (ip : Bytes)
          → MakesSteps (lookup_reverse redis client service json ip)
      unfolding lookup_reverse
      lookup_reverse-MakesSteps json ip =
          let prefix = codes "lookup reverse mapping for " ++ (ip ++ codes ": ") in
          let ask : Action R Bytes (Option Bytes) =
            client.command (Option Bytes) (λ t. (redis.get (rmap_key ip) t, t)) in
          MakesSteps-bind (prefixed prefix ask) (decode_reverse redis client service json ip)
            (MakesSteps-prefixed prefix ask
              (MakesSteps-command (λ t. (redis.get (rmap_key ip) t, t)) (λ t. here)))
            decoded
        where
          decoded :
              (found : Option Bytes)
              → MakesSteps (decode_reverse redis client service json ip found)
          decoded none = λ s. here
          decoded (some text) =
              MakesSteps-prefixed (codes "decode reverse mapping for " ++ (ip ++ codes ": ")) _
                (MakesSteps-lift_result (json.unmarshal text))

      module _ (n : Ipv6) (u : Unicode) (real_ip : Bytes) where
        reserve_loop-MakesSteps :
            (proxies : Dict ProxyInfo) (ids : List Bytes) (out : Dict Bytes)
            → MakesSteps (reserve_loop redis client service n u real_ip proxies ids out)
        unfolding reserve_loop
        reserve_loop-MakesSteps proxies [] out = λ s. here
        reserve_loop-MakesSteps proxies (id ∷ ids) out =
            let run = λ (num : ℕ).
              prefixed (codes "reserve mapping for " ++ (id ++ codes ": "))
                (run_assign redis client service real_ip id num true) in
            let next = λ (i : Bytes).
              reserve_loop redis client service n u real_ip proxies ids (insert id i out) in
            MakesSteps-bind _ (λ num. run num >>= next)
              (MakesSteps-lift_result
                (proxy_num_from_subnet n u (ProxyInfo.subnet (info_at id proxies))))
              (λ num.
                MakesSteps-bind (run num) next
                  (MakesSteps-prefixed (codes "reserve mapping for " ++ (id ++ codes ": ")) _
                    (run_assign-MakesSteps real_ip id num true))
                  (λ i. reserve_loop-MakesSteps proxies ids (insert id i out)))

        pub reserve_for_all_proxies-MakesSteps :
            (proxies : Dict ProxyInfo)
            → MakesSteps (reserve_for_all_proxies redis client service n u real_ip proxies)
        unfolding reserve_for_all_proxies
        reserve_for_all_proxies-MakesSteps proxies =
            reserve_loop-MakesSteps proxies (sorted_proxy_ids proxies) []
