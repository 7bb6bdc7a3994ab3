-- ===== src/Router.antt =====
-- internal/router/router.go: choosing a backend and handling one accepted connection. What the
-- collaborators answer to one connection is the parameter `a`, and `handle_conn` gives the calls that
-- the connection makes, in their order; the deferred ones stand at the end. Logging and
-- deadlines are left out.
pub mod Backends
pub mod Calls
pub mod Listener
pub mod Stream
pub mod Forwarded
use sidero_proxy.Base.{
  ℕ, ◌||◌, Bool, true, false, ◌==◌, none, some, Option, List, [], ◌∷◌, ◌++◌, if◌then◌else◌, Result,
  ok, err, Bytes, bytes_eq, Unicode, Ip, Ipv6, parse_ip, ip_string,
}
use sidero_proxy.Base.Dict.{Dict, lookup, insert}
use sidero_proxy.Config.{Server, is_nil}
use sidero_proxy.Minecraft.{Handshake, HandshakeError, normalize_hostname, read_handshake_packet}
use sidero_proxy.Nft.{Error}

pub record Router : Type 0 where
  pub backend_by_ip : Dict Server
  pub backend_by_hostname : Dict Server

-- How a route was chosen.
pub data RouteType : Type 0 where
  by_hostname : RouteType
  original_ip_fallback : RouteType
  unknown_hostname : RouteType
  by_original_ip : RouteType

pub record Route : Type 0 where
  pub backend : Option Server
  pub route_key : Bytes
  pub route_type : RouteType

module _ (u : Unicode) where
  -- The inner loop of `New`.
  unfoldable pub add_hostnames : Server → List Bytes → Dict Server → Dict Server
  unfolding insert normalize_hostname
  add_hostnames server [] m = m
  add_hostnames server (hostname ∷ hostnames) m =
      add_hostnames server hostnames (insert (normalize_hostname u hostname) server m)

  -- One round of the loop of `New` over the servers.
  abbrev pub add_server : Server → Router → Router
  add_server server r = record {
    backend_by_ip =
        if is_nil server.proxy_public_ip
        then r.backend_by_ip
        else insert server.proxy_public_ip server r.backend_by_ip;
    backend_by_hostname = add_hostnames server server.hostnames r.backend_by_hostname;
  }

  unfoldable pub add_servers : List Server → Router → Router
  unfolding insert
  add_servers [] r = r
  add_servers (server ∷ servers) r = add_servers servers (add_server server r)

  unfoldable pub new : List Server → Router
  new servers = add_servers servers (record { backend_by_ip = []; backend_by_hostname = [] })

-- `strings.Trim(s, "[]")`
unfoldable pub is_bracket : ℕ → Bool
is_bracket c = (c == b'[') || (c == b']')

unfoldable pub drop_leading_brackets : Bytes → Bytes
unfolding is_bracket
drop_leading_brackets [] = []
drop_leading_brackets (c ∷ s) =
    let rest = drop_leading_brackets s in if is_bracket c then rest else c ∷ s

abbrev before_dropped : ℕ → Bytes → Bytes
before_dropped c [] = if is_bracket c then [] else c ∷ []
before_dropped c (d ∷ s) = c ∷ d ∷ s

unfoldable pub drop_trailing_brackets : Bytes → Bytes
unfolding is_bracket
drop_trailing_brackets [] = []
drop_trailing_brackets (c ∷ s) = before_dropped c (drop_trailing_brackets s)

module _ (n : Ipv6) where
  unfoldable pub normalize_ip_like_host : Bytes → Bytes
  unfolding drop_leading_brackets drop_trailing_brackets parse_ip ip_string
  normalize_ip_like_host hostname =
      elim (parse_ip n (drop_trailing_brackets (drop_leading_brackets hostname))) [
        | some ip ↦ ip_string n ip
        | none ↦ []
      ]

  unfoldable pub should_fallback_to_original_ip : Bytes → Bytes → Bool
  should_fallback_to_original_ip hostname original_ip =
      let ip = normalize_ip_like_host hostname in
      if is_nil hostname then true else if is_nil ip then false else bytes_eq ip original_ip

  abbrev found : Bytes → RouteType → Option Server → Route
  found key kind server = record { backend = server; route_key = key; route_type = kind }

  -- `resolveServer` behind a handshake without an entry for its hostname.
  abbrev resolve_unknown : Router → Bytes → Bytes → Route
  resolve_unknown r hostname original_ip =
      if should_fallback_to_original_ip hostname original_ip
      then elim (lookup original_ip r.backend_by_ip) [
        | some server ↦ found original_ip original_ip_fallback (some server)
        | none ↦ found hostname unknown_hostname none
      ]
      else found hostname unknown_hostname none

  unfoldable pub resolve_server : Router → Result HandshakeError Handshake → Bytes → Route
  resolve_server r (err e) original_ip =
      found original_ip by_original_ip (lookup original_ip r.backend_by_ip)
  resolve_server r (ok handshake) original_ip =
      elim (lookup handshake.hostname r.backend_by_hostname) [
        | some server ↦ found handshake.hostname by_hostname (some server)
        | none ↦ resolve_unknown r handshake.hostname original_ip
      ]

-- What `handleConn` calls. `proxy` carries the bytes of the client that are still unread then.
pub data Call : Type 0 where
  assign : Bytes → Call
  nat_add : Bytes → Bytes → Call
  nat_delete : Bytes → Call
  dial : Bytes → Bytes → ℕ → Call
  write : Bytes → Call
  proxy : Bytes → Call
  close_backend : Call
  close_client : Call

-- What the collaborators of one connection answer.
pub record Answers : Type 0 where
  pub real_ip : Result Error Bytes
  pub assigned : Bytes → Result Error Bytes
  pub nat_added : Bytes → Bytes → Result Error (Unit {0})
  pub original_dst : Result Error (Bytes × ℕ)
  pub dialed : Bytes → Bytes → ℕ → Result Error (Unit {0})
  pub written : Bytes → Result Error (Unit {0})

-- The rest of the handler, unless the call before it failed.
abbrev pub on_ok : {A : Type 0} → Result Error A → (A → List Call) → List Call
on_ok (ok a) rest = rest a
on_ok (err e) rest = []

-- The error or the handshake of `readHandshake`, and its bytes, which are `nil` on an error.
abbrev pub handshake_of :
    Result HandshakeError (Bytes × Handshake) → Result HandshakeError Handshake
handshake_of (ok (raw, handshake)) = ok handshake
handshake_of (err e) = err e

abbrev pub raw_of : Result HandshakeError (Bytes × Handshake) → Bytes
raw_of (ok (raw, handshake)) = raw
raw_of (err e) = []

module _ (u : Unicode) (n : Ipv6) (r : Router) (a : Answers) where
  -- From the first write to the backend on.
  unfoldable pub forward : Bytes → Bytes → List Call
  forward raw unread =
      if is_nil raw
      then proxy unread ∷ []
      else write raw ∷ on_ok (a.written raw) (λ _. proxy unread ∷ [])

  -- From the call of `Dial` on.
  unfoldable pub connect : Bytes → ℕ → Bytes → Bytes → Option Server → List Call
  connect internal_ip port raw unread none = []
  connect internal_ip port raw unread (some server) =
      dial internal_ip server.backend_ip port
      ∷ on_ok (a.dialed internal_ip server.backend_ip port)
          (λ _. forward raw unread ++ close_backend ∷ [])

  -- From the call of `originalDst` on; `input` is what the client sends.
  unfoldable pub serve : Bytes → Bytes → List Call
  serve internal_ip input = on_ok a.original_dst (λ dst.
      let (result, unread) = read_handshake_packet u input in
      let route = resolve_server n r (handshake_of result) (dst.0) in
      connect internal_ip (dst.1) (raw_of result) unread route.backend)

  abbrev with_nat : Bytes → Bytes → Bytes → List Call
  with_nat real_ip internal_ip input =
      nat_add real_ip internal_ip
      ∷ on_ok (a.nat_added real_ip internal_ip)
          (λ _. serve internal_ip input ++ nat_delete real_ip ∷ [])

  unfoldable pub handle_conn : Bytes → List Call
  handle_conn input =
      on_ok a.real_ip (λ real_ip.
        assign real_ip
        ∷ on_ok (a.assigned real_ip) (λ internal_ip. with_nat real_ip internal_ip input))
      ++ close_client ∷ []
