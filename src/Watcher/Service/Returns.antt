-- ===== src/Watcher/Service/Returns.antt =====
-- When the watcher's `Start` returns.
use sidero_proxy.Base.{
  ◌≡◌, refl, ap, ◌∙◌, Option, none, some, List, [], ◌∷◌, ◌++◌, All, Result, ok, err, Action, Bytes,
  Unicode, Ipv6, arith,
}
use sidero_proxy.Nft.{Error, ScriptRunner}
use sidero_proxy.Redis.{Redis, Client, HashReader}
use sidero_proxy.Registration.{InfoJson}
use sidero_proxy.Assignment.Service.{ReverseJson, Service}
use sidero_proxy.Watcher.Files.{BansJson}
use sidero_proxy.Watcher.NoSnat.{IptablesRunner}
use sidero_proxy.Watcher.Docker.{ResolvedState}
use sidero_proxy.Watcher.Node.{NodeDnat, DockerWake, start_node}
use sidero_proxy.Watcher.Bans.{State, Machine, add_watches}
use sidero_proxy.Watcher.Service.{
  Woken, context_done, files_failed, files_changed, Outcome, service_loop, watch_files, start_files,
  start_watcher, failed_or, follow_docker,
}

abbrev pub IsNotDone : Woken → Type 0
IsNotDone context_done = ⊥
IsNotDone (files_failed e) = Unit
IsNotDone (files_changed machine event) = Unit

-- A loop that waits after `before` goes on waiting after `more`, and returns with the end of the
-- context, as `before` left it.
abbrev Waits : {S : Type 0} → (List Woken → Outcome S) → List Woken → Type 0
Waits f before =
    ((after : List Woken) → f (before ++ context_done ∷ after) ≡ (some (ok tt), (f before).1))
    × ((more : List Woken) → All IsNotDone more → (f (before ++ more)).0 ≡ none)

module _ (u : Unicode) (json : BansJson) {R : Type 0} (redis : Redis R) (client : Client R)
    (reader : HashReader redis) (n : Ipv6) (reverse_json : ReverseJson) (info_json : InfoJson)
    (service : Service) where
  abbrev loop : List Woken → State R → Outcome (State R)
  loop = service_loop u json redis client reader n reverse_json info_json service

  loop_waits : (more : List Woken) (s : State R) → All IsNotDone more → (loop more s).0 ≡ none
  unfolding service_loop
  loop_waits [] s _ = refl
  loop_waits (context_done ∷ more) s (never, _) = absurd never
  loop_waits (files_failed e ∷ more) s (_, all) = loop_waits more s all
  loop_waits (files_changed machine event ∷ more) s (_, all) = loop_waits more _ all

  loop-Waits :
      (before : List Woken) (s : State R)
      → (loop before s).0 ≡ none
      → Waits (λ woken. loop woken s) before
  unfolding service_loop
  loop-Waits [] s h = (λ after. refl, λ more all. loop_waits more s all)
  loop-Waits (context_done ∷ before) s h = absurd (ground (arith, h))
  loop-Waits (files_failed e ∷ before) s h = loop-Waits before s h
  loop-Waits (files_changed machine event ∷ before) s h = loop-Waits before _ h

  abbrev files :
      Result Error (Unit {0}) → Machine → Bytes → List Woken → State R → Outcome (State R)
  files = watch_files u json redis client reader n reverse_json info_json service

  files-Waits :
      (created : Result Error (Unit {0})) (machine : Machine) (root : Bytes) (before : List Woken)
      (s : State R)
      → (files created machine root before s).0 ≡ none
      → Waits (λ woken. files created machine root woken s) before
  unfolding watch_files
  files-Waits (err e) machine root before s h = absurd (ground (arith, h))
  files-Waits (ok x) machine root before s h = watched (add_watches u json machine root s) h
    where
      watched :
          (r : Result Error (Unit {0}) × State R)
          → (failed_or (loop before) r).0 ≡ none
          → Waits (λ woken. failed_or (loop woken) r) before
      watched (ok y, t) e = loop-Waits before t e
      watched (err x, t) e = absurd (ground (arith, e))

  module _ {W : Type 0} (run : ScriptRunner W) (iptables : Option (IptablesRunner W))
      (cfg : NodeDnat) (resolver : Option (Action W Error ResolvedState)) where
    abbrev of_node :
        Result Error (Unit {0})
        → Machine
        → Bytes
        → List (DockerWake run iptables u cfg)
        → State R
        → Result Error (Unit {0}) × W
        → List Woken
        → Outcome (State R × W)
    of_node created machine root wakes s r woken =
        start_files u json redis client reader n reverse_json info_json service run iptables cfg
          resolver created machine root woken wakes s r

    -- Once `Start` waits for events, no event and no error makes it return, and the end of the context
    -- makes it return nil at once, whatever waits to be received behind it.
    pub start_watcher_returns :
        (created : Result Error (Unit {0})) (machine : Machine) (root : Bytes)
        (before after more : List Woken) (wakes : List (DockerWake run iptables u cfg))
        (s t : State R) (w v : W)
        → start_watcher u json redis client reader n reverse_json info_json service run iptables cfg
            resolver created machine root before wakes
            (s, w)
          ≡ (none, (t, v))
        → All IsNotDone more
        → (start_watcher u json redis client reader n reverse_json info_json service run iptables
              cfg resolver created machine root
              (before ++ context_done ∷ after)
              wakes
              (s, w)
            ≡ (some (ok tt), (t, v)))
          × ((start_watcher u json redis client reader n reverse_json info_json service run iptables
                cfg resolver created machine root
                (before ++ more)
                wakes
                (s, w)).0
              ≡ none)
    unfolding start_watcher
    start_watcher_returns created machine root before after more wakes s t w v ran all =
        node_cases (start_node run iptables u cfg resolver w) ran
      where
        node_cases :
            (r : Result Error (Unit {0}) × W)
            → of_node created machine root wakes s r before ≡ (none, (t, v))
            → (of_node created machine root wakes s r (before ++ context_done ∷ after)
                ≡ (some (ok tt), (t, v)))
              × ((of_node created machine root wakes s r (before ++ more)).0 ≡ none)
        node_cases (err e, w') h = absurd (ground (arith, ap (λ o. o.0) h))
        node_cases (ok x, w') h =
            let (ends, goes) = files-Waits created machine root before s (ap (λ o. o.0) h) in
            (
              ap
                    (λ (o : Outcome (State R)). (
                      o.0,
                      (
                        o.1,
                        follow_docker u json redis client reader n reverse_json info_json service
                            run iptables cfg resolver wakes w',
                      ),
                    ))
                    (ends after)
                  ∙ ap (λ (o : Outcome (State R × W)). (some (ok tt), o.1)) h,
              goes more all,
            )
