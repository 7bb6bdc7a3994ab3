-- ===== src/Runs/ServingRuns.antt =====
-- Runs of the proxy's health while it serves, of a redirected connection and of a dial.
use sidero_proxy.Base.{
  ℕ, ◌≡◌, refl, ◌+◌, ◌*◌, ◌/◌, ◌%◌, if◌then◌else◌, Bool, true, false, none, some, Result, err, Ip,
  v4, parse_ip, trim_space, List, [], ◌∷◌, ◌++◌, ok, Bytes, codes, contains, arith,
}
use sidero_proxy.Base.Integers.{pos}
use sidero_proxy.Nft.{Error}
use sidero_proxy.Redis.{Store, direct_client, empty_store}
use sidero_proxy.Health.{
  Checker, check, check_nft, check_route, require_tables, handle_healthz, Exec, exec_output,
}
use sidero_proxy.Router.Listener.{Accept, refused, start}
use sidero_proxy.Start.{ping}
use sidero_proxy.Start.Serving.{Serve, health_checker}
use sidero_proxy.Start.OriginalDst.{written_address, original_dst, original_dst-written}
use sidero_proxy.Start.Dialer.{
  SocketCall, SocketAnswers, transparent_dial, reaches, in_order, join_host_port, closing,
  transparent_dial-in_order,
}
use sidero_proxy.Runs.{plain_unicode, no_ipv6}
use sidero_proxy.Runs.StartRuns.{accepts}

-- The machine prints all that the checks look for; the listener gives up after two connections.
abbrev printing_machine : Exec (Unit {0})
printing_machine name args w = (
  (
    codes "table ip mcproxy_filter\ntable ip mcproxy_intercept\ntable ip mcproxy_nat\n"
        ++ codes "local 10.1.0.0/16 dev lo scope host\n",
    none,
  ),
  w,
)

abbrev gives_up : List (Accept ℕ)
gives_up = accepts ++ refused false false (codes "bad file descriptor") ∷ []

abbrev given_up : Serve ℕ
given_up = start (pos 25500) (ok (codes "0.0.0.0:25500")) gives_up

abbrev main_checker : Bool → Checker (Store × Unit {0})
main_checker is_ready =
    health_checker plain_unicode direct_client printing_machine (codes "10.1.0.0/16") is_ready

serves_until_then : (handle_healthz (main_checker true) (empty_store, tt)).0.code ≡ 200
unfolding handle_healthz check check_nft check_route require_tables contains health_checker ping
    exec_output trim_space
serves_until_then = refl

original_dst-written_example :
    (text : Bytes) × (original_dst no_ipv6 false (
        some (record {
          syscall_conn = ok tt;
          control = none;
          getsockopt = ok (written_address 203 0 113 7 25565);
        }))
      ≡ ok (text, if false then 25565 % 256 * 256 + 25565 / 256 else 25565))
    × (parse_ip no_ipv6 text ≡ some (v4 203 0 113 7))
original_dst-written_example =
    original_dst-written no_ipv6 false 203 0 113 7 25565 (omega arith) (omega arith) (omega arith)
      (omega arith) (omega arith)

-- The backend refuses the connection.
abbrev refusing : SocketAnswers
refusing = record {
  control = none;
  transparent = ok tt;
  freebind = ok tt;
  bound = ok tt;
  connected = err (codes "connection refused");
}

abbrev dials : List SocketCall × Result Error (Unit {0})
dials =
    transparent_dial plain_unicode no_ipv6 refusing (codes "10.1.0.1") (codes "100.64.0.9")
      (pos 25565)

reaches_the_backend : reaches (dials.0) ≡ true
unfolding reaches transparent_dial parse_ip
reaches_the_backend = refl

transparent_dial-in_order_example :
    (src : Ip) × (parse_ip no_ipv6 (codes "10.1.0.1") ≡ some src)
    × (dials ≡ (
      in_order src (join_host_port (codes "100.64.0.9") (pos 25565)) ++ closing refusing.connected,
      refusing.connected,
    ))
    × (refusing.control ≡ none)
    × (refusing.transparent ≡ ok tt)
    × (refusing.freebind ≡ ok tt)
    × (refusing.bound ≡ ok tt)
transparent_dial-in_order_example =
    transparent_dial-in_order plain_unicode no_ipv6 refusing (codes "10.1.0.1") (codes "100.64.0.9")
      (pos 25565) reaches_the_backend
