-- ===== src/Start/Serving.antt =====
-- cmd/proxy: the checker behind /healthz as `main` puts it together, and `ListenerState`, which the hook
-- of the router sets.
use sidero_proxy.Base.{
  ◌≡◌, Bool, true, false, Option, none, some, List, [], ◌∷◌, Result, Bytes, Unicode,
}
use sidero_proxy.Nft.{Error}
use sidero_proxy.Redis.{Client}
use sidero_proxy.Health.{Exec, Checker, exec_output}
use sidero_proxy.Router.Listener.{Going, ready, handle, not_ready}
use sidero_proxy.Start.{ping, on_redis, on_machine}

-- The value of `ListenerState` after some calls of `SetReady`.
unfoldable pub ready_after : {C : Type 0} → List (Going C) → Bool → Bool
ready_after [] is_ready = is_ready
ready_after (ready set ∷ going) is_ready = ready_after going set
ready_after (handle c ∷ going) is_ready = ready_after going is_ready

-- The checker, when the state of the listener is read.
unfoldable pub health_checker :
    {R W : Type 0} → Unicode → Client R → Exec W → Bytes → Bool → Checker (R × W)
unfolding ping exec_output
health_checker u client exec subnet is_ready = record {
  listener = some is_ready;
  redis = some (on_redis (ping client));
  runner = some (λ name args. on_machine (exec_output u exec name args));
  subnet = subnet;
}

abbrev pub Serve : Type 0 → Type 0
Serve C = List (Going C) × Option (Result Error (Unit {0}))

abbrev pub is_none : {A : Type 0} → Option A → Bool
is_none none = true
is_none (some a) = false

-- The listener counts as ready exactly if the loop has not returned.
abbrev IsTold : {C : Type 0} → Serve C → Type 0
IsTold o = ready_after ((not_ready o).0) true ≡ is_none ((not_ready o).1)
