-- ===== src/Router/Calls.antt =====
-- The calls of one connection: when the NAT entry is held, where the connection may go, and which
-- bytes the backend gets.
use sidero_proxy.Base.{
  ℕ, ◌≡◌, refl, ap, sym, ◌∙◌, Bool, Option, none, some, List, [], ◌∷◌, ◌++◌, All, All-append,
  Result, ok, err, Option-cases, Bytes, Unicode, Ipv6, arith, inl, inr, append_assoc,
}
use mathlib.Core.List.{Memᴰ}
use sidero_proxy.Config.{Server}
use sidero_proxy.Nft.{Error}
use sidero_proxy.Minecraft.{Handshake, HandshakeError, read_handshake_packet}
use sidero_proxy.Router.{
  Route, Call, Answers, assign, nat_add, nat_delete, dial, write, proxy, close_backend,
  close_client, on_ok, raw_of, handshake_of, forward, connect, serve, with_nat, handle_conn, new,
  resolve_server,
}
use sidero_proxy.Router.Backends.{
  last_with, has_hostname, has_public_ip, chosen, resolve_server-new,
}

module _ (a : Answers) (servers : List Server) where
  -- A call that may be made while no NAT entry is held.
  abbrev pub IsOutside : Call → Type 0
  IsOutside (assign k) = a.real_ip ≡ ok k
  IsOutside (nat_add k i) = (a.assigned k ≡ ok i) × ((e : Error) × (a.nat_added k i ≡ err e))
  IsOutside close_client = Unit
  IsOutside call = ⊥

  -- A call that may be made while the NAT entry for the internal address `i` is held: a connection
  -- goes from `i` to a backend of the configuration, at the port that the client asked for.
  abbrev pub IsInside : Bytes → Call → Type 0
  IsInside i (dial src dst port) =
      (src ≡ i)
      × ((server : Server) × Memᴰ server servers × (server.backend_ip ≡ dst))
      × ((ip : Bytes) × (a.original_dst ≡ ok (ip, port)))
  IsInside i (write bytes) = Unit
  IsInside i (proxy bytes) = Unit
  IsInside i close_backend = Unit
  IsInside i call = ⊥

  -- The two forms of a connection's calls.
  pub data IsBracketed : List Call → Type 0 where
    unmapped : {calls : List Call} → All IsOutside calls → IsBracketed calls
    mapped :
        (real_ip internal_ip : Bytes) (middle : List Call)
        → a.real_ip ≡ ok real_ip
        → a.assigned real_ip ≡ ok internal_ip
        → a.nat_added real_ip internal_ip ≡ ok tt
        → All (IsInside internal_ip) middle
        → IsBracketed (
            assign real_ip
            ∷ nat_add real_ip internal_ip
            ∷ (middle ++ nat_delete real_ip ∷ close_client ∷ []))

last_with-Mem :
    (test : Server → Bool) (servers : List Server) (server : Server)
    → last_with test servers ≡ some server
    → Memᴰ server servers
unfolding last_with
last_with-Mem test [] server e = absurd (ground arith)
last_with-Mem test (first ∷ servers) server e = elim (Option-cases (last_with test servers)) [
  | inr (found, e') ↦
      let same : found ≡ server = ground (arith, e, e') in
      Memᴰ.tail (last_with-Mem test servers server (rw e' (ap some same)))
  | inl e' ↦ let same : first ≡ server = ground (arith, e, e') in Memᴰ.head (sym same)
]

-- A property of the calls by the two outcomes of the call before them.
on_ok_cases :
    {A : Type 0} (P : List Call → Type 0) (r : Result Error A) (rest : A → List Call)
    → ((x : A) → r ≡ ok x → P (rest x))
    → ((e : Error) → r ≡ err e → P [])
    → P (on_ok r rest)
on_ok_cases P (ok x) rest good bad = good x refl
on_ok_cases P (err e) rest good bad = bad e refl

module _ (u : Unicode) (n : Ipv6) (servers : List Server) (a : Answers) where
  chosen-Mem :
      (result : Result HandshakeError Handshake) (ip : Bytes) (server : Server)
      → chosen u n servers result ip ≡ some server
      → Memᴰ server servers
  unfolding chosen
  chosen-Mem (err e) ip server h = last_with-Mem (has_public_ip ip) servers server h
  chosen-Mem (ok handshake) ip server h =
      elim (Option-cases (last_with (has_hostname u handshake.hostname) servers)) [
        | inr (found, e) ↦
            last_with-Mem (has_hostname u handshake.hostname) servers server (ground (arith, e, h))
        | inl e ↦ last_with-Mem (has_public_ip ip) servers server (ground (arith, e, h))
      ]

  forward-All :
      (i raw unread : Bytes) → All (IsInside a servers i) (forward u n (new u servers) a raw unread)
  unfolding forward
  forward-All i [] unread = (tt, tt)
  forward-All i (b ∷ raw) unread = (
    tt,
    on_ok_cases (All (IsInside a servers i)) (a.written (b ∷ raw)) (λ _. proxy unread ∷ [])
        (λ x e. (tt, tt)) (λ x e. tt),
  )

  connect-All :
      (i raw unread ip : Bytes) (port : ℕ) (server : Option Server)
      → ((found : Server) → server ≡ some found → Memᴰ found servers)
      → a.original_dst ≡ ok (ip, port)
      → All (IsInside a servers i) (connect u n (new u servers) a i port raw unread server)
  unfolding connect
  connect-All i raw unread ip port none known at = tt
  connect-All i raw unread ip port (some server) known at = (
    (refl, (server, known server refl, refl), (ip, at)),
    on_ok_cases (All (IsInside a servers i)) (a.dialed i server.backend_ip port)
        (λ _. forward u n (new u servers) a raw unread ++ close_backend ∷ [])
        (λ x e.
          All-append (IsInside a servers i) (forward u n (new u servers) a raw unread)
            (close_backend ∷ []) (forward-All i raw unread) (tt, tt))
        (λ x e. tt),
  )

  serve-All : (i input : Bytes) → All (IsInside a servers i) (serve u n (new u servers) a i input)
  unfolding serve
  serve-All i input =
      let (result, unread) = read_handshake_packet u input in
      on_ok_cases (All (IsInside a servers i)) a.original_dst _
        (λ dst e.
          connect-All i (raw_of result) unread (dst.0) (dst.1)
            (Route.backend (resolve_server n (new u servers) (handshake_of result) (dst.0)))
            (λ found h.
              chosen-Mem (handshake_of result) (dst.0) found
                (sym (resolve_server-new u n servers (handshake_of result) (dst.0)) ∙ h))
            e)
        (λ x e. tt)

  -- On every path through `handleConn`, either no NAT entry is installed, and nothing is dialed,
  -- written or released; or the entry for the client's own address and the internal address that was
  -- assigned to it is installed, everything between that and its
  -- release happens while it is held, and the release is the last call but for closing the client. A
  -- dial goes from the assigned internal address to a backend of the configuration, at the port that
  -- the client asked for.
  pub handle_conn-IsBracketed :
      (input : Bytes) → IsBracketed a servers (handle_conn u n (new u servers) a input)
  unfolding handle_conn
  handle_conn-IsBracketed input =
      on_ok_cases (λ calls. IsBracketed a servers (calls ++ close_client ∷ [])) a.real_ip _
        (λ k e.
          on_ok_cases (λ calls. IsBracketed a servers (assign k ∷ (calls ++ close_client ∷ [])))
            (a.assigned k) _ (λ i e'. installed k i e e') (λ x e'. unmapped (e, (tt, tt))))
        (λ x e. unmapped (tt, tt))
    where
      installed :
          (k i : Bytes)
          → a.real_ip ≡ ok k
          → a.assigned k ≡ ok i
          → IsBracketed a servers
              (assign k ∷ (with_nat u n (new u servers) a k i input ++ close_client ∷ []))
      installed k i real given =
          on_ok_cases
            (λ calls. IsBracketed a servers (assign k ∷ nat_add k i ∷ (calls ++ close_client ∷ [])))
            (a.nat_added k i) _
            (λ x e.
              rw
                (append_assoc (serve u n (new u servers) a i input) (nat_delete k ∷ [])
                  (close_client ∷ []))
                (mapped k i (serve u n (new u servers) a i input) real given e (serve-All i input)))
            (λ x e. unmapped (real, ((given, (x, e)), (tt, tt))))
