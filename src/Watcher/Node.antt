-- ===== src/Watcher/Node.antt =====
-- internal/watcher/watcher.go: the DNAT rules of the node, when the watcher starts and on every event
-- of Docker or tick of its clock.
pub mod Ensured
use sidero_proxy.Base.{
  ℕ, ◌≡◌, refl, Bool, true, false, Option, none, some, List, [], ◌∷◌, ltb, if◌then◌else◌, Result,
  ok, err, Action, pure, continue_with, ◌>>=◌, ◌>>◌, Bytes, codes, ◌++◌, Unicode,
}
use sidero_proxy.Base.Integers.{ℤ}
use sidero_proxy.Base.Dict.{Dict}
use sidero_proxy.Nft.{Error, ScriptRunner}
use sidero_proxy.Nat.Chains.{ensure_range, ensure_destinations}
use sidero_proxy.Watcher.NoSnat.{IptablesRunner, ensure_no_snat}
use sidero_proxy.Watcher.Docker.{ResolvedState}

-- The settings that the rules of a node depend on. A start that is not positive, with which nothing is
-- ensured, counts as 0.
pub record NodeDnat : Type 0 where
  pub public_ip : Bytes
  pub tailscale_interface : Bytes
  pub start_port : ℕ
  pub end_port : ℕ

module _ {W : Type 0} (run : ScriptRunner W) (iptables : Option (IptablesRunner W)) (u : Unicode)
    (cfg : NodeDnat) where
  -- `s.nosnat.Ensure`, when there is a manager.
  unfoldable pub ensure_exempt : Option (IptablesRunner W) → List Bytes → Action W Error (Unit {0})
  ensure_exempt none subnets = pure tt
  ensure_exempt (some run_iptables) subnets = ensure_no_snat run_iptables subnets

  abbrev pub ensure_resolved : ResolvedState → Action W Error (Unit {0})
  ensure_resolved state = do
    ensure_destinations run u cfg.tailscale_interface (ResolvedState.destinations state)
    ensure_exempt iptables (ResolvedState.bridge_subnets state)

  -- `ensureNodeDNAT`, with the resolver's `Resolve` if there is one.
  unfoldable pub ensure_node_dnat :
      Option (Action W Error ResolvedState) → Action W Error (Unit {0})
  unfolding ensure_exempt
  ensure_node_dnat none =
      ensure_range run u cfg.public_ip cfg.tailscale_interface cfg.start_port cfg.end_port
  ensure_node_dnat (some resolve) = do state ← resolve; ensure_resolved state

  -- What wakes `watchDocker`: the clock or an event of Docker, which are handled alike, the end of the
  -- context, or the end of the stream of events.
  pub data DockerWake : Type 0 where
    tick trigger done stream_ended : DockerWake

  -- The loop of `watchDocker` over what wakes it: it ends with the context or the stream, and an error
  -- is only logged.
  unfoldable pub watch_docker : Option (Action W Error ResolvedState) → List DockerWake → W → W
  unfolding ensure_node_dnat
  watch_docker resolver [] w = w
  watch_docker resolver (tick ∷ wakes) w =
      watch_docker resolver wakes ((ensure_node_dnat resolver w).1)
  watch_docker resolver (trigger ∷ wakes) w =
      watch_docker resolver wakes ((ensure_node_dnat resolver w).1)
  watch_docker resolver (done ∷ wakes) w = w
  watch_docker resolver (stream_ended ∷ wakes) w = w

  abbrev prefix_node : Result Error (Unit {0}) × W → Result Error (Unit {0}) × W
  prefix_node (ok x, w) = (ok x, w)
  prefix_node (err e, w) = (err (codes "ensure node dnat: " ++ e), w)

  -- What `Start` does for the node before it watches the files.
  unfoldable pub start_node : Option (Action W Error ResolvedState) → Action W Error (Unit {0})
  unfolding ensure_node_dnat
  start_node resolver w =
      if ltb 0 cfg.start_port then prefix_node (ensure_node_dnat resolver w) else (ok tt, w)
