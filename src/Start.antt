-- ===== src/Start.antt =====
-- cmd/proxy: what the proxy does before it accepts connections, with internal/source, internal/origdst
-- and internal/redisutil. Redis and the machine have a state each; programs and sockets are parameters.
pub mod Prepared
pub mod Serving
pub mod OriginalDst
pub mod Dialer
pub mod Main
use sidero_proxy.Base.{
  ℕ, ◌≡◌, refl, ◌+◌, ◌*◌, ◌/◌, ◌%◌, Bool, true, false, Option, none, some, List, [], ◌∷◌, ◌++◌, map,
  if◌then◌else◌, Result, ok, err, Action, fail, pure, continue_with, ◌>>=◌, ◌>>◌, prefixed, Bytes,
  codes, Unicode, Ip, Ipv6, parse_ip,
}
use sidero_proxy.Base.Integers.{ℤ, pos, negsuc, itoa_int}
use sidero_proxy.Nft.{Error, ScriptRunner}
use sidero_proxy.Nat.Chains.{ensure_nat, ensure_redirect}
use sidero_proxy.Filter.{ensure}
use sidero_proxy.Redis.{Redis, Client}
use sidero_proxy.Registration.{ProxyInfo, InfoJson, register}
use sidero_proxy.Config.{PortRange, Server, ProxyConfig}
use sidero_proxy.Health.{Exec, list_text}

-- `Run` of the command runner of internal/source.
abbrev pub CommandRunner : Type 0 → Type 0
CommandRunner W = Bytes → List Bytes → Action W Error (Unit {0})

abbrev run_result :
    {W : Type 0} → Bytes → List Bytes → (Bytes × Option Error) × W → Result Error (Unit {0}) × W
run_result name args ((out, none), w) = (ok tt, w)
run_result name args ((out, some e), w) = (
  err (
      name ++ (codes " " ++ (list_text args ++ (codes " failed: " ++ (e ++ (codes ": " ++ out)))))),
  w,
)

unfoldable pub exec_run : {W : Type 0} → Exec W → CommandRunner W
exec_run exec name args w = run_result name args (exec name args w)

-- `EnsureLocalSubnet`
unfoldable pub ensure_local_subnet :
    {W : Type 0} → CommandRunner W → Bytes → Action W Error (Unit {0})
ensure_local_subnet run subnet =
    run (codes "ip")
      (codes "route" ∷ codes "replace" ∷ codes "local" ∷ subnet ∷ codes "dev" ∷ codes "lo" ∷ [])

-- The port of an address of `getsockopt`, whose two bytes are in network order in a number of the
-- machine: `int(addr.Port>>8) | int(addr.Port&0xff)<<8`, where the two terms share no bit.
unfoldable pub original_port : ℕ → ℕ
original_port port = port / 256 + port % 256 * 256

-- `redisutil.Ping`
unfoldable pub ping : {R : Type 0} → Client R → Action R Error (Unit {0})
ping client = prefixed (codes "redis ping: ") (client.command (Unit {0}) (λ s. (tt, s)))

-- The addresses of `publicIPs`.
abbrev pub public_ips : List Server → List Bytes
public_ips servers = map Server.proxy_public_ip servers

-- A port as the script generators take it; the validation admits no negative one.
abbrev pub port_number : ℤ → ℕ
port_number (pos n) = n
port_number (negsuc n) = 0

-- An action on Redis, and one on the machine, as actions on both.
abbrev pub with_machine : {R W A : Type 0} → W → Result Error A × R → Result Error A × (R × W)
with_machine w (r, s) = (r, (s, w))

abbrev pub with_redis : {R W A : Type 0} → R → Result Error A × W → Result Error A × (R × W)
with_redis s (r, w) = (r, (s, w))

abbrev pub on_redis : {R W A : Type 0} → Action R Error A → Action (R × W) Error A
on_redis m (s, w) = with_machine w (m s)

abbrev pub on_machine : {R W A : Type 0} → Action W Error A → Action (R × W) Error A
on_machine m (s, w) = with_redis s (m w)

module _ {W : Type 0} (run : ScriptRunner W) (commands : CommandRunner W) where
  -- The chains of the machine, in the order of `main`.
  unfoldable pub prepare_machine : ProxyConfig → Bytes → Action W Error (Unit {0})
  unfolding ensure_local_subnet
  prepare_machine cfg subnet = do
    prefixed (codes "ensure local route for " ++ (subnet ++ codes ": "))
        (ensure_local_subnet commands subnet)
    prefixed (codes "ensure nftables nat rules: ") (ensure_nat run)
    prefixed (codes "ensure proxy prefilter rules: ") (
        ensure run (public_ips cfg.servers) (port_number (PortRange.start cfg.port_range))
          (port_number (PortRange.end cfg.port_range)))
    prefixed (codes "ensure proxy redirect rules: ") (
        ensure_redirect run (public_ips cfg.servers) (port_number (PortRange.start cfg.port_range))
          (port_number (PortRange.end cfg.port_range)) (port_number cfg.intercept_port))

module _ {R W : Type 0} (redis : Redis R) (client : Client R) (json : InfoJson) (n : Ipv6)
    (u : Unicode) (run : ScriptRunner W) (commands : CommandRunner W) where
  -- `main` from the ping to the redirection; an error is a panic.
  unfoldable pub start_proxy : ℕ → ProxyConfig → Action (R × W) Error (ProxyInfo × ℕ)
  unfolding ping
  start_proxy now cfg = do
    on_redis (ping client)
    registered ←
        on_redis
          (prefixed (codes "register proxy: ") (register redis client json n u now cfg.proxy_id))
    on_machine (prepare_machine run commands cfg (ProxyInfo.subnet (registered.0)))
    pure registered
