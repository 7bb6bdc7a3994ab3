-- ===== src/Router/Stream.antt =====
-- The bytes that the backend gets from a connection that is proxied.
use sidero_proxy.Base.{
  ℕ, ◌≡◌, refl, ap, sym, ◌∙◌, Bool, true, false, ◌||◌, Option, none, some, List, [], ◌∷◌, ◌++◌, All,
  Result, ok, err, Bytes, Unicode, Ipv6, arith, append-nil, append_assoc,
}
use sidero_proxy.Config.{Server}
use sidero_proxy.Nft.{Error}
use sidero_proxy.Minecraft.{Handshake, HandshakeError, read_handshake_packet}
use sidero_proxy.Minecraft.VarInt.{IsByte}
use sidero_proxy.Minecraft.Packet.{read_handshake_packet-raw}
use sidero_proxy.Router.{
  Router, Route, Call, Answers, nat_delete, write, proxy, close_backend, with_nat, assign,
  close_client, on_ok, raw_of, handshake_of, forward, connect, serve, handle_conn, resolve_server,
}

abbrev pub sent_by : Call → Bytes
sent_by (write bytes) = bytes
sent_by (proxy bytes) = bytes
sent_by call = []

abbrev pub is_proxy : Call → Bool
is_proxy (proxy bytes) = true
is_proxy call = false

-- What the backend receives, in the order of the calls.
unfoldable pub to_backend : List Call → Bytes
to_backend [] = []
to_backend (call ∷ calls) = sent_by call ++ to_backend calls

-- Whether the connection came to be proxied.
unfoldable pub is_proxied : List Call → Bool
is_proxied [] = false
is_proxied (call ∷ calls) = is_proxy call || is_proxied calls

abbrev before_proxy : Call → Bytes → Bytes
before_proxy (proxy bytes) written = []
before_proxy call written = sent_by call ++ written

abbrev of_proxy : Call → Bytes → Bytes
of_proxy (proxy bytes) left = bytes
of_proxy call left = left

-- What is written before the connection is proxied, and what is left to the forwarder then.
unfoldable pub written_before : List Call → Bytes
written_before [] = []
written_before (call ∷ calls) = before_proxy call (written_before calls)

unfoldable pub left_unread : List Call → Bytes
left_unread [] = []
left_unread (call ∷ calls) = of_proxy call (left_unread calls)

-- If the calls come to proxying, then the backend gets the bytes `sent`: some are written, and the
-- forwarder has the others.
pub record Sends (sent : Bytes) (calls : List Call) : Type 0 where
  pub sends : is_proxied calls ≡ true → to_backend calls ≡ sent
  pub parts : is_proxied calls ≡ true → written_before calls ++ left_unread calls ≡ sent

Sends-on_ok :
    {A : Type 0} (sent : Bytes) (r : Result Error A) (rest : A → List Call)
    → ((x : A) → Sends sent (rest x))
    → Sends sent (on_ok r rest)
unfolding to_backend is_proxied written_before left_unread
Sends-on_ok sent (ok x) rest h = h x
Sends-on_ok sent (err e) rest h = record {
  sends = λ p. absurd (ground arith);
  parts = λ p. absurd (ground arith);
}

-- A call behind the others that is no proxying and sends nothing.
to_backend-append_silent :
    (calls : List Call) (call : Call)
    → sent_by call ≡ []
    → to_backend (calls ++ call ∷ []) ≡ to_backend calls
unfolding to_backend
to_backend-append_silent [] call h = rw h refl
to_backend-append_silent (first ∷ calls) call h = rw (to_backend-append_silent calls call h) refl

is_proxied-append_silent :
    (calls : List Call) (call : Call)
    → is_proxy call ≡ false
    → is_proxied (calls ++ call ∷ []) ≡ is_proxied calls
unfolding is_proxied
is_proxied-append_silent [] call h = rw h refl
is_proxied-append_silent (first ∷ calls) call h = rw (is_proxied-append_silent calls call h) refl

parts-append :
    (calls : List Call) (call : Call)
    → is_proxied calls ≡ true
    → (written_before (calls ++ call ∷ []) ≡ written_before calls)
      × (left_unread (calls ++ call ∷ []) ≡ left_unread calls)
unfolding written_before left_unread is_proxied
parts-append [] call p = absurd (ground (arith, p))
parts-append (proxy bytes ∷ calls) call p = (refl, refl)
parts-append (first ∷ calls) call p =
    let (written, left) = parts-append calls call p in (ap (λ t. sent_by first ++ t) written, left)

Sends-append_silent :
    (sent : Bytes) (calls : List Call) (call : Call)
    → sent_by call ≡ []
    → is_proxy call ≡ false
    → Sends sent calls
    → Sends sent (calls ++ call ∷ [])
Sends-append_silent sent calls call quiet no_proxy h = record {
  sends = λ p.
      to_backend-append_silent calls call quiet
      ∙ h.sends (sym (is_proxied-append_silent calls call no_proxy) ∙ p);
  parts = λ p.
      let proxied = sym (is_proxied-append_silent calls call no_proxy) ∙ p in
      let (written, left) = parts-append calls call proxied in
      ap (λ t. t ++ left_unread (calls ++ call ∷ [])) written
      ∙ ap (λ t. written_before calls ++ t) left
      ∙ h.parts proxied;
}

module _ (u : Unicode) (n : Ipv6) (r : Router) (a : Answers) where
  forward-Sends : (raw unread : Bytes) → Sends (raw ++ unread) (forward u n r a raw unread)
  unfolding forward to_backend is_proxied written_before left_unread
  forward-Sends [] unread = record { sends = λ p. append-nil unread; parts = λ p. refl }
  forward-Sends (b ∷ raw) unread =
      let rest =
        Sends-on_ok unread (a.written (b ∷ raw)) (λ _. proxy unread ∷ [])
          (λ _. record { sends = λ _. append-nil unread; parts = λ _. refl }) in
      record {
        sends = λ p. ap (λ t. (b ∷ raw) ++ t) (rest.sends p);
        parts = λ p. append_assoc (b ∷ raw) _ _ ∙ ap (λ t. (b ∷ raw) ++ t) (rest.parts p);
      }

  connect-Sends :
      (i raw unread : Bytes) (port : ℕ) (server : Option Server)
      → Sends (raw ++ unread) (connect u n r a i port raw unread server)
  unfolding connect to_backend is_proxied written_before left_unread
  connect-Sends i raw unread port none = record {
    sends = λ p. absurd (ground arith);
    parts = λ p. absurd (ground arith);
  }
  connect-Sends i raw unread port (some server) =
      let rest =
        Sends-on_ok (raw ++ unread) (a.dialed i server.backend_ip port)
          (λ _. forward u n r a raw unread ++ close_backend ∷ [])
          (λ _.
            Sends-append_silent (raw ++ unread) (forward u n r a raw unread) close_backend refl refl
              (forward-Sends raw unread)) in
      record { sends = rest.sends; parts = rest.parts }

  -- A connection that comes to be proxied sends the backend the bytes that `ReadHandshakePacket`
  -- returned and then what it left unread, and nothing else.
  pub handle_conn-Sends :
      (input : Bytes)
      → Sends
          (raw_of ((read_handshake_packet u input).0) ++ (read_handshake_packet u input).1)
          (handle_conn u n r a input)
  unfolding handle_conn serve to_backend is_proxied written_before left_unread
  handle_conn-Sends input =
      let (result, unread) = read_handshake_packet u input in
      let sent = raw_of result ++ unread in
      let served : (i : Bytes) → Sends sent (serve u n r a i input) = λ i.
        Sends-on_ok sent a.original_dst _ (λ dst.
          connect-Sends i (raw_of result) unread (dst.1)
            (Route.backend (resolve_server n r (handshake_of result) (dst.0)))) in
      let mapped : (k i : Bytes) → Sends sent (with_nat u n r a k i input) = λ k i.
        let held =
          Sends-on_ok sent (a.nat_added k i) (λ _. serve u n r a i input ++ nat_delete k ∷ [])
            (λ _.
              Sends-append_silent sent (serve u n r a i input) (nat_delete k) refl refl
                (served i)) in
        record { sends = held.sends; parts = held.parts } in
      Sends-append_silent sent
        (on_ok a.real_ip (λ k. assign k ∷ on_ok (a.assigned k) (λ i. with_nat u n r a k i input)))
        close_client refl refl
        (Sends-on_ok sent a.real_ip _ (λ k.
          let kept = Sends-on_ok sent (a.assigned k) _ (mapped k) in
          record { sends = kept.sends; parts = kept.parts }))

  -- When the handshake was read and the connection comes to be proxied, the backend gets exactly the
  -- bytes that the client sends, from the first one on.
  pub to_backend-handle_conn :
      (input raw unread : Bytes) (handshake : Handshake)
      → All IsByte input
      → read_handshake_packet u input ≡ (ok (raw, handshake), unread)
      → is_proxied (handle_conn u n r a input) ≡ true
      → to_backend (handle_conn u n r a input) ≡ input
  to_backend-handle_conn input raw unread handshake bytes e p =
      Sends.sends (handle_conn-Sends input) p
      ∙ ap (λ t. raw_of (t.0) ++ t.1) e
      ∙ read_handshake_packet-raw u input bytes e

  -- When the handshake could not be read and the connection is proxied by its public address, the
  -- backend gets only what `ReadHandshakePacket` left unread: the bytes that it took before the error
  -- are lost.
  pub to_backend-unread :
      (input unread : Bytes) (e : HandshakeError)
      → read_handshake_packet u input ≡ (err e, unread)
      → is_proxied (handle_conn u n r a input) ≡ true
      → to_backend (handle_conn u n r a input) ≡ unread
  to_backend-unread input unread e h p =
      Sends.sends (handle_conn-Sends input) p ∙ ap (λ t. raw_of (t.0) ++ t.1) h
