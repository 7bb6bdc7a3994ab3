-- ===== src/Router/Backends.antt =====
-- The tables of `New` and what `resolveServer` finds in them, against the list of servers.
use sidero_proxy.Base.{
  ◌≡◌, refl, ap, ◌∙◌, Bool, false, ◌||◌, ◌&&◌, not, Ip, parse_ip, ip_string, Option, none, some,
  List, [], ◌∷◌, if◌then◌else◌, Result, ok, err, Bytes, bytes_eq, Unicode, Ipv6, arith, Bool-cases,
  inl, inr,
}
use sidero_proxy.Base.Dict.{Dict, lookup, insert, lookup-insert}
use sidero_proxy.Config.{Server, is_nil}
use sidero_proxy.Minecraft.{Handshake, HandshakeError, normalize_hostname}
use sidero_proxy.Router.{
  Router, Route, add_hostnames, add_server, add_servers, new, resolve_server,
  should_fallback_to_original_ip, normalize_ip_like_host, drop_leading_brackets,
  drop_trailing_brackets,
}

abbrev pub or_else : {A : Type 0} → Option A → Option A → Option A
or_else (some x) y = some x
or_else none y = y

or_else_assoc : {A : Type 0} (x y z : Option A) → or_else x (or_else y z) ≡ or_else (or_else x y) z
or_else_assoc (some x) y z = refl
or_else_assoc none y z = refl

-- The last server that a test accepts.
unfoldable pub last_with : (Server → Bool) → List Server → Option Server
last_with test [] = none
last_with test (server ∷ servers) =
    or_else (last_with test servers) (if test server then some server else none)

module _ (u : Unicode) where
  -- Whether one of the names is `h` when it is normalised.
  unfoldable pub names : Bytes → List Bytes → Bool
  names h [] = false
  names h (name ∷ rest) = bytes_eq (normalize_hostname u name) h || names h rest

  abbrev pub has_hostname : Bytes → Server → Bool
  has_hostname h server = names h server.hostnames

-- An empty public address stands for none.
abbrev pub has_public_ip : Bytes → Server → Bool
has_public_ip ip server =
    if is_nil server.proxy_public_ip then false else bytes_eq server.proxy_public_ip ip

module _ (u : Unicode) where
  lookup-add_hostnames :
      (server : Server) (h : Bytes) (hostnames : List Bytes) (m : Dict Server)
      → lookup h (add_hostnames u server hostnames m)
        ≡ (if names u h hostnames then some server else lookup h m)
  unfolding add_hostnames names
  lookup-add_hostnames server h [] m = refl
  lookup-add_hostnames server h (name ∷ rest) m = ground (
    arith,
    lookup-add_hostnames server h rest (insert (normalize_hostname u name) server m),
    lookup-insert (normalize_hostname u name) h server m,
  )

  backend_by_ip-add_server :
      (ip : Bytes) (server : Server) (r : Router)
      → lookup ip (Router.backend_by_ip (add_server u server r))
        ≡ or_else
            (if has_public_ip ip server then some server else none)
            (lookup ip r.backend_by_ip)
  backend_by_ip-add_server ip server r = elim (Bool-cases (is_nil server.proxy_public_ip)) [
    | inl e ↦ ground (arith, e)
    | inr e ↦ ground (arith, e, lookup-insert server.proxy_public_ip ip server r.backend_by_ip)
  ]

  backend_by_hostname-add_server :
      (h : Bytes) (server : Server) (r : Router)
      → lookup h (Router.backend_by_hostname (add_server u server r))
        ≡ or_else
            (if has_hostname u h server then some server else none)
            (lookup h r.backend_by_hostname)
  backend_by_hostname-add_server h server r =
      ground (arith, lookup-add_hostnames server h server.hostnames r.backend_by_hostname)

  backend_by_hostname-add_servers :
      (h : Bytes) (servers : List Server) (r : Router)
      → lookup h (Router.backend_by_hostname (add_servers u servers r))
        ≡ or_else (last_with (has_hostname u h) servers) (lookup h r.backend_by_hostname)
  unfolding add_servers last_with
  backend_by_hostname-add_servers h [] r = refl
  backend_by_hostname-add_servers h (server ∷ servers) r =
      backend_by_hostname-add_servers h servers (add_server u server r)
      ∙ ap (or_else (last_with (has_hostname u h) servers))
          (backend_by_hostname-add_server h server r)
      ∙ or_else_assoc (last_with (has_hostname u h) servers) _ (lookup h r.backend_by_hostname)

  backend_by_ip-add_servers :
      (ip : Bytes) (servers : List Server) (r : Router)
      → lookup ip (Router.backend_by_ip (add_servers u servers r))
        ≡ or_else (last_with (has_public_ip ip) servers) (lookup ip r.backend_by_ip)
  unfolding add_servers last_with
  backend_by_ip-add_servers ip [] r = refl
  backend_by_ip-add_servers ip (server ∷ servers) r =
      backend_by_ip-add_servers ip servers (add_server u server r)
      ∙ ap (or_else (last_with (has_public_ip ip) servers)) (backend_by_ip-add_server ip server r)
      ∙ or_else_assoc (last_with (has_public_ip ip) servers) _ (lookup ip r.backend_by_ip)

  or_else-none : (x : Option Server) → or_else x none ≡ x
  or_else-none (some x) = refl
  or_else-none none = refl

  backend_by_hostname-new :
      (h : Bytes) (servers : List Server)
      → lookup h (Router.backend_by_hostname (new u servers)) ≡ last_with (has_hostname u h) servers
  unfolding new lookup
  backend_by_hostname-new h servers = backend_by_hostname-add_servers h servers _ ∙ or_else-none _

  backend_by_ip-new :
      (ip : Bytes) (servers : List Server)
      → lookup ip (Router.backend_by_ip (new u servers)) ≡ last_with (has_public_ip ip) servers
  unfolding new lookup
  backend_by_ip-new ip servers = backend_by_ip-add_servers ip servers _ ∙ or_else-none _

module _ (u : Unicode) (n : Ipv6) where
  -- Whether the text of an address is `ip`.
  abbrev pub is_text_of : Bytes → Option Ip → Bool
  is_text_of ip none = false
  is_text_of ip (some address) = bytes_eq (ip_string n address) ip

  -- A hostname that is empty, or that is the address `ip` itself, in brackets or not.
  unfoldable pub is_own_address : Bytes → Bytes → Bool
  unfolding drop_leading_brackets drop_trailing_brackets parse_ip ip_string bytes_eq
  is_own_address hostname ip =
      is_nil hostname
      || (is_text_of ip (parse_ip n (drop_trailing_brackets (drop_leading_brackets hostname)))
          && not (is_nil ip))

  text_cases :
      (address : Option Ip) (ip : Bytes)
      → let text : Bytes = elim address [ some a ↦ ip_string n a | none ↦ [] ] in
        (if is_nil text then false else bytes_eq text ip)
        ≡ (is_text_of ip address && not (is_nil ip))
  text_cases none ip = refl
  text_cases (some a) ip = by_text (ip_string n a) ip
    where
      by_text :
          (text ip : Bytes)
          → (if is_nil text then false else bytes_eq text ip)
            ≡ (bytes_eq text ip && not (is_nil ip))
      by_text [] [] = unfold bytes_eq in refl
      by_text [] (c ∷ ip) = unfold bytes_eq in refl
      by_text (c ∷ text) [] = unfold bytes_eq in refl
      by_text (c ∷ text) (d ∷ ip) = ground arith

  should_fallback-is_own_address :
      (hostname ip : Bytes)
      → should_fallback_to_original_ip n hostname ip ≡ is_own_address hostname ip
  unfolding should_fallback_to_original_ip normalize_ip_like_host is_own_address
  should_fallback-is_own_address [] ip = refl
  should_fallback-is_own_address (c ∷ hostname) ip =
      text_cases (parse_ip n (drop_trailing_brackets (drop_leading_brackets (c ∷ hostname)))) ip

  -- The backend by the list of servers alone.
  unfoldable pub chosen : List Server → Result HandshakeError Handshake → Bytes → Option Server
  chosen servers (err e) ip = last_with (has_public_ip ip) servers
  chosen servers (ok handshake) ip =
      or_else (last_with (has_hostname u handshake.hostname) servers) (
        if is_own_address handshake.hostname ip then last_with (has_public_ip ip) servers else none)

  -- `resolveServer` on the tables of `New` finds, for a handshake that was read, the last server of
  -- the configuration that lists the hostname in any spelling that normalises to it. If none lists it,
  -- and the hostname is empty or is the original address itself, in brackets or not, it finds the last server with that
  -- public address, and otherwise none. Without a handshake the public address alone decides.
  pub resolve_server-new :
      (servers : List Server) (result : Result HandshakeError Handshake) (ip : Bytes)
      → Route.backend (resolve_server n (new u servers) result ip) ≡ chosen servers result ip
  unfolding resolve_server chosen
  resolve_server-new servers (err e) ip = backend_by_ip-new u ip servers
  resolve_server-new servers (ok handshake) ip = ground (
    arith,
    should_fallback-is_own_address handshake.hostname ip,
    backend_by_hostname-new u handshake.hostname servers,
    backend_by_ip-new u ip servers,
  )
