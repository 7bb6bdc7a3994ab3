-- ===== src/Config/Valid.antt =====
-- What the settings of a proxy satisfy once `ProxyConfig.Validate` accepts them.
use sidero_proxy.Base.{
  ℕ, ◌+◌, ◌≤◌, ◌≡◌, refl, Bool, true, false, not, ◌||◌, List, [], ◌∷◌, All, if◌then◌else◌, Result,
  ok, err, bind_result, Bytes, Unicode, arith, Bool-cases, inl, inr, ◌⊎◌, codes,
}
use mathlib.Core.List.{Memᴰ}
use sidero_proxy.Base.Integers.{ℤ, pos, negsuc, is_same}
use sidero_proxy.Config.{
  Error, Server, PortRange, ProxyConfig, is_blank, is_bad_port, validate_range, validate_names,
  validate_server, validate_servers, validate_proxy, validate_listeners, validate_ingress, is_nil,
}

pub unless_err :
    {A : Type 0} (b : Bool) (e : Error) (r : Result Error A) (a : A)
    → (if b then err e else r) ≡ ok a
    → (b ≡ false) × (r ≡ ok a)
unless_err true e r a h = absurd (ground arith)
unless_err false e r a h = (refl, h)

pub bind_result_ok :
    {A B : Type 0} (r : Result Error A) (f : A → Result Error B) (b : B)
    → bind_result r f ≡ ok b
    → (a : A) × (r ≡ ok a) × (f a ≡ ok b)
bind_result_ok (ok a) f b h = (a, refl, h)
bind_result_ok (err e) f b h = absurd (ground arith)

abbrev pub IsPort : ℤ → Type 0
IsPort x = (n : ℕ) × (x ≡ pos n) × (1 ≤ n) × (n ≤ 65535)

is_bad_port-IsPort : (x : ℤ) → is_bad_port x ≡ false → IsPort x
unfolding is_bad_port
is_bad_port-IsPort (pos n) h = (n, refl, ground arith, ground arith)
is_bad_port-IsPort (negsuc n) h = absurd (ground arith)

-- The ports of a range, the first not behind the last.
abbrev pub IsRange : PortRange → Type 0
IsRange p =
    (first last : ℕ) × (p.start ≡ pos first)
    × (p.end ≡ pos last)
    × (1 ≤ first)
    × (first ≤ last)
    × (last ≤ 65535)

pub IsRange-of :
    (field : Bytes) (first last : ℤ)
    → validate_range field (record { start = first; end = last }) ≡ ok tt
    → IsRange (record { start = first; end = last })
unfolding validate_range is_bad_port
IsRange-of field (pos a) (pos b) h = (a, b, refl, refl, ground arith, ground arith, ground arith)
IsRange-of field (pos a) (negsuc b) h = absurd (ground arith)
IsRange-of field (negsuc a) last h = absurd (ground arith)

module _ (u : Unicode) where
  abbrev pub IsServer : Server → Type 0
  IsServer server =
      All (λ name. is_blank u name ≡ false) server.hostnames
      × (is_blank u server.backend_ip ≡ false)

  -- Some server has a public address.
  abbrev pub HasIngress : List Server → Type 0
  HasIngress servers =
      (server : Server) × Memᴰ server servers × (is_blank u server.proxy_public_ip ≡ false)

  validate_names-All :
      (i j : ℕ) (names : List Bytes)
      → validate_names u i j names ≡ ok tt
      → All (λ name. is_blank u name ≡ false) names
  unfolding validate_names
  validate_names-All i j [] h = tt
  validate_names-All i j (name ∷ names) h =
      let (present, rest) = unless_err _ _ _ tt h in
      (present, validate_names-All i (j + 1) names rest)

  validate_server-IsServer :
      (i : ℕ) (server : Server) → validate_server u i server ≡ ok tt → IsServer server
  validate_server-IsServer i server h =
      let (defined, h₁) = unless_err _ _ _ tt h in
      let (x, named, h₂) = bind_result_ok (validate_names u i 0 server.hostnames) _ tt h₁ in
      let (backed, h₃) = unless_err _ _ _ tt h₂ in
      (validate_names-All i 0 server.hostnames named, backed)

  ingress_of :
      (server : Server) (servers : List Server) (has : Bool)
      → (not (is_blank u server.proxy_public_ip) || has ≡ true) ⊎ HasIngress servers
      → (has ≡ true) ⊎ HasIngress (server ∷ servers)
  ingress_of server servers has (inr (found, m, e)) = inr (found, Memᴰ.tail m, e)
  ingress_of server servers has (inl h) = elim (Bool-cases (is_blank u server.proxy_public_ip)) [
    | inl e ↦ inl (ground (arith, h, e))
    | inr e ↦ inr (server, Memᴰ.head refl, e)
  ]

  validate_servers-All :
      (i : ℕ) (has has' : Bool) (servers : List Server)
      → validate_servers u i has servers ≡ ok has'
      → All IsServer servers × (has' ≡ true → (has ≡ true) ⊎ HasIngress servers)
  unfolding validate_servers
  validate_servers-All i has has' [] h = (tt, λ e. inl (ground (arith, h, e)))
  validate_servers-All i has has' (server ∷ servers) h =
      let (x, good, rest) = bind_result_ok (validate_server u i server) _ has' h in
      let (all, ingress) = validate_servers-All (i + 1) _ has' servers rest in
      (
        (validate_server-IsServer i server good, all),
        λ e. ingress_of server servers has (ingress e),
      )

  -- What a proxy's settings satisfy.
  pub record IsValid (c : ProxyConfig) : Type 0 where
    pub intercept : IsPort c.intercept_port
    pub health : IsPort c.health_port
    pub distinct_ports : is_same c.health_port c.intercept_port ≡ false
    pub range : IsRange c.port_range
    pub good_servers : All IsServer c.servers
    pub has_ingress : HasIngress c.servers

  validate_listeners-IsValid : (c : ProxyConfig) → validate_listeners u c ≡ ok tt → IsValid c
  validate_listeners-IsValid c h =
      let (intercept_ok, h₁) = unless_err (is_bad_port c.intercept_port) _ _ tt h in
      let (health_ok, h₂) = unless_err (is_bad_port c.health_port) _ _ tt h₁ in
      let (distinct, h₃) = unless_err (is_same c.health_port c.intercept_port) _ _ tt h₂ in
      let (x, ranged, h₄) =
        bind_result_ok (validate_range (codes "port_range") c.port_range) _ tt h₃ in
      let (has, all_good, h₅) =
        bind_result_ok (validate_servers u 0 false c.servers) (validate_ingress u c) tt h₄ in
      let (ingress, h₆) = unless_err (not has) _ _ tt h₅ in
      let (all, some_ingress) = validate_servers-All 0 false has c.servers all_good in
      record {
        intercept = is_bad_port-IsPort c.intercept_port intercept_ok;
        health = is_bad_port-IsPort c.health_port health_ok;
        distinct_ports = distinct;
        range = IsRange-of (codes "port_range") c.port_range.start c.port_range.end ranged;
        good_servers = all;
        has_ingress = not_false (some_ingress (ground (arith, ingress)));
      }
    where
      not_false : {A : Type 0} → (false ≡ true) ⊎ A → A
      not_false (inl e) = absurd (ground arith)
      not_false (inr a) = a

  -- Settings that `ProxyConfig.Validate` accepts have two different listening ports and a range of
  -- ports that is not empty, all within 1 to 65535. Every server has a backend address and no blank
  -- hostname, and some server has a public address.
  pub validate_proxy-IsValid : (c : ProxyConfig) → validate_proxy u c ≡ ok tt → IsValid c
  unfolding validate_proxy
  validate_proxy-IsValid c h =
      let (id_given, h₁) = unless_err (is_blank u c.proxy_id) _ _ tt h in
      let (redis_given, h₂) = unless_err (is_blank u c.redis_addr) _ _ tt h₁ in
      let (servers_given, h₃) = unless_err (is_nil c.servers) _ (validate_listeners u c) tt h₂ in
      validate_listeners-IsValid c h₃
