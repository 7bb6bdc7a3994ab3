-- ===== src/Runs/RouterRuns.antt =====
-- Runs of internal/router.
use sidero_proxy.Base.{
  ◌≡◌, refl, ap, sym, subst, List, [], ◌∷◌, ◌++◌, Bytes, codes, ok, err, arith, true, bytes_eq,
}
use sidero_proxy.Base.Dict.{lookup}
use sidero_proxy.Config.{Server}
use sidero_proxy.Minecraft.{
  HandshakeError, read_var_int, read_var_int_loop, parse_var_int, parse_var_int_loop, add_group,
  read_handshake_packet, normalize_hostname, parse_handshake, parse_string, parse_port, read_full,
  slice_string,
}
use sidero_proxy.Router.{
  Answers, Route, handle_conn, serve, connect, forward, new, add_servers, add_hostnames,
  resolve_server, Call, assign, nat_add, nat_delete, dial, write, proxy, close_backend,
  close_client,
}
use sidero_proxy.Router.Backends.{chosen, resolve_server-new}
use sidero_proxy.Router.Calls.{IsBracketed, handle_conn-IsBracketed}
use sidero_proxy.Router.Stream.{
  to_backend, written_before, left_unread, is_proxied, to_backend-unread,
}
use sidero_proxy.Router.Forwarded.{handle_conn-forwarded}
use sidero_proxy.Forwarder.{
  Forwarding, Pipe, Step, up_step, down_step, copies, ends, closes, move, run, IsRun, proxied,
  advance, beside,
}
use sidero_proxy.Runs.{plain_unicode, no_ipv6}

abbrev survival : Server
survival = record {
  name = codes "survival";
  proxy_public_ip = codes "203.0.113.7";
  hostnames = codes "A.b." ∷ [];
  backend_ip = codes "100.64.0.9";
}

abbrev lobby : Server
lobby = record {
  name = codes "lobby";
  proxy_public_ip = [];
  hostnames = codes "lobby.net" ∷ [];
  backend_ip = codes "100.64.0.10";
}

abbrev all_servers : List Server
all_servers = survival ∷ lobby ∷ []

abbrev friendly : Answers
friendly = record {
  real_ip = ok (codes "198.51.100.4");
  assigned = λ k. ok (codes "10.1.0.1");
  nat_added = λ k i. ok tt;
  original_dst = ok (codes "203.0.113.7", 25565);
  dialed = λ s d p. ok tt;
  written = λ b. ok tt;
}

abbrev packet : Bytes
packet = 10 ∷ 0 ∷ 0xfb ∷ 5 ∷ 3 ∷ b'a' ∷ b'.' ∷ b'B' ∷ 99 ∷ 221 ∷ 2 ∷ []

-- A first byte that starts no handshake: the length of the packet is zero.
abbrev legacy : Bytes
legacy = 0 ∷ 0xfe ∷ 1 ∷ []

abbrev login : Bytes
login = 1 ∷ 0 ∷ []

packet_read :
    read_handshake_packet plain_unicode (packet ++ login)
    ≡ (ok (packet, record { hostname = codes "a.b"; port = 25565 }), login)
unfolding read_handshake_packet read_var_int read_var_int_loop add_group read_full parse_handshake
    parse_var_int parse_var_int_loop parse_string slice_string parse_port normalize_hostname
packet_read = refl

legacy_read :
    read_handshake_packet plain_unicode legacy
    ≡ (err (HandshakeError.invalid_packet_length 0), 0xfe ∷ 1 ∷ [])
unfolding read_handshake_packet read_var_int read_var_int_loop add_group
legacy_read = refl

abbrev calls_of : Bytes → List Call
calls_of input = handle_conn plain_unicode no_ipv6 (new plain_unicode all_servers) friendly input

served : calls_of (packet ++ login) ≡ (
    assign (codes "198.51.100.4")
    ∷ nat_add (codes "198.51.100.4") (codes "10.1.0.1")
    ∷ dial (codes "10.1.0.1") (codes "100.64.0.9") 25565
    ∷ write packet
    ∷ proxy login
    ∷ close_backend
    ∷ nat_delete (codes "198.51.100.4")
    ∷ close_client
    ∷ [])
unfolding handle_conn serve connect forward new add_servers add_hostnames resolve_server
    read_handshake_packet read_var_int read_var_int_loop add_group read_full parse_handshake
    parse_var_int parse_var_int_loop parse_string slice_string parse_port normalize_hostname lookup
    bytes_eq
served = refl

served_is_proxied : is_proxied (calls_of (packet ++ login)) ≡ true
unfolding is_proxied
served_is_proxied = rw served refl

legacy-is_proxied : is_proxied (calls_of legacy) ≡ true
unfolding is_proxied handle_conn serve connect forward new add_servers add_hostnames resolve_server
    read_handshake_packet read_var_int read_var_int_loop add_group lookup bytes_eq
legacy-is_proxied = refl

handle_conn-IsBracketed_example : IsBracketed friendly all_servers (calls_of (packet ++ login))
handle_conn-IsBracketed_example =
    handle_conn-IsBracketed plain_unicode no_ipv6 all_servers friendly (packet ++ login)

to_backend-unread_example : to_backend (calls_of legacy) ≡ 0xfe ∷ 1 ∷ []
to_backend-unread_example =
    to_backend-unread plain_unicode no_ipv6 (new plain_unicode all_servers) friendly legacy
      (0xfe ∷ 1 ∷ []) (HandshakeError.invalid_packet_length 0) legacy_read legacy-is_proxied

resolve_server-new_example :
    Route.backend (
      resolve_server no_ipv6
        (new plain_unicode all_servers)
        (ok (record { hostname = codes "203.0.113.7"; port = 25565 }))
        (codes "203.0.113.7"))
    ≡ chosen plain_unicode no_ipv6 all_servers
        (ok (record { hostname = codes "203.0.113.7"; port = 25565 }))
        (codes "203.0.113.7")
resolve_server-new_example =
    resolve_server-new plain_unicode no_ipv6 all_servers
      (ok (record { hostname = codes "203.0.113.7"; port = 25565 })) (codes "203.0.113.7")

served_leaves_login : left_unread (calls_of (packet ++ login)) ≡ login
unfolding left_unread
served_leaves_login = rw served refl

-- The backend answers with a byte and ends; then the rest of the login is passed on.
abbrev pong : Bytes
pong = 7 ∷ []

abbrev passed_on : List Step
passed_on =
    down_step (copies 1)
    ∷ down_step ends
    ∷ up_step (copies 2)
    ∷ down_step closes
    ∷ up_step ends
    ∷ up_step closes
    ∷ []

passed_on-IsRun : IsRun passed_on (proxied login pong true true)
unfolding IsRun move advance beside proxied
passed_on-IsRun = (
  (refl, refl, omega arith, omega arith),
  (
    (refl, refl, refl),
    (
      (refl, refl, omega arith, omega arith),
      ((true, refl), ((refl, refl, refl), ((true, refl), tt))),
    ),
  ),
)

abbrev hung_up : Forwarding
hung_up = run passed_on (proxied login pong true true)

handle_conn-forwarded_example :
    (written_before (calls_of (packet ++ login)) ++ Pipe.delivered (Forwarding.up hung_up)
      ≡ packet ++ login)
    × (Pipe.delivered (Forwarding.down hung_up) ≡ pong)
unfolding run move advance beside proxied
handle_conn-forwarded_example =
    handle_conn-forwarded plain_unicode no_ipv6 (new plain_unicode all_servers) friendly
      (packet ++ login) packet login pong (record { hostname = codes "a.b"; port = 25565 })
      passed_on hung_up (omega arith) packet_read served_is_proxied
      (subst (λ t. IsRun passed_on (proxied t pong true true)) (sym served_leaves_login)
        passed_on-IsRun)
      (ap (λ t. run passed_on (proxied t pong true true)) served_leaves_login) refl refl refl
