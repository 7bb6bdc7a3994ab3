-- ===== src/Watcher/Docker/Published.antt =====
-- That a port has a destination exactly when a container publishes it.
use sidero_proxy.Base.{ℕ, ◌≡◌, true, List}
use sidero_proxy.Base.Dict.{Dict}
use sidero_proxy.Base.Members.{is_some}
use sidero_proxy.Base.Ports.{PortMap, at_port}
use sidero_proxy.Nat.Chains.{DnatDestination}
use sidero_proxy.Watcher.Docker.{Resolver}

module _ (r : Resolver) (port : ℕ) where
  -- The port has a destination.
  abbrev pub HasPort : PortMap DnatDestination → Type 0
  HasPort m = is_some (at_port port m) ≡ true
