-- ===== src/Minecraft/Packet.antt =====
-- `ReadHandshakePacket`: the packet that a client sends is read back, and the bytes that the router
-- forwards are exactly those that it took.
use sidero_proxy.Base.{
  ℕ, ◌/◌, ◌%◌, ◌^◌, ◌<◌, ◌≡◌, refl, ◌∷◌, ◌++◌, append_assoc, length, length-append, take, drop,
  take-append-drop, take-length-append, drop-length-append, All, false, leb, Result, ok, err, Bytes,
  Unicode, arith,
}
use sidero_proxy.Minecraft.{
  HandshakeError, Handshake, read_var_int, read_full, slice_string, parse_string, parse_port,
  normalize_hostname, parse_handshake, read_handshake_packet,
}
use sidero_proxy.Minecraft.VarInt.{
  IsByte, var_int, read_var_int_takes, read_var_int-var_int, parse_var_int-var_int,
}

-- The body of a handshake packet by the protocol: packet id 0, protocol version, hostname with its
-- length in front, port in two bytes, next state. `extra` is what a client may add behind it.
unfoldable pub handshake_body : ℕ → Bytes → ℕ → ℕ → Bytes → Bytes
handshake_body version host port state extra =
    var_int 4 0
    ++ (var_int 4 version
        ++ (var_int 4 (length host)
            ++ (host ++ (port / 256 ∷ port % 256 ∷ (var_int 4 state ++ extra)))))

pub handshake_packet : ℕ → Bytes → ℕ → ℕ → Bytes → Bytes
unfolding handshake_body
handshake_packet version host port state extra =
    let body = handshake_body version host port state extra in var_int 4 (length body) ++ body

read_full-append :
    (packet rest : Bytes) → read_full (length packet) (packet ++ rest) ≡ (ok packet, rest)
unfolding read_full
read_full-append packet rest = ground (
  arith,
  length-append packet rest,
  take-length-append packet rest,
  drop-length-append packet rest,
)

slice_string-append :
    (host rest : Bytes) → slice_string (length host) (host ++ rest) ≡ (ok host, rest)
unfolding slice_string
slice_string-append host rest =
    ground
      (arith, length-append host rest, take-length-append host rest, drop-length-append host rest)

parse_string-var_int :
    (host rest : Bytes)
    → length host < 2 ^ 35
    → parse_string (var_int 4 (length host) ++ (host ++ rest)) ≡ (ok host, rest)
unfolding parse_string
parse_string-var_int host rest h =
    rw (parse_var_int-var_int (length host) (host ++ rest) h) (slice_string-append host rest)

parse_port_lem :
    (port : ℕ) (rest : Bytes) → parse_port (port / 256 ∷ port % 256 ∷ rest) ≡ (ok port, rest)
unfolding parse_port
parse_port_lem port rest = ground arith

parse_handshake-handshake_body :
    (u : Unicode) (version port state : ℕ) (host extra : Bytes)
    → version < 2 ^ 35
    → state < 2 ^ 35
    → length host < 2 ^ 35
    → parse_handshake u (handshake_body version host port state extra)
      ≡ (ok (record { hostname = normalize_hostname u host; port = port }), extra)
unfolding parse_handshake handshake_body
parse_handshake-handshake_body u version port state host extra hv hs hh = rw (
  parse_var_int-var_int 0 _ (omega arith),
  parse_var_int-var_int version _ hv,
  parse_string-var_int host _ hh,
  parse_port_lem port (var_int 4 state ++ extra),
  parse_var_int-var_int state extra hs,
)

length-handshake_body_ne_zero :
    (version : ℕ) (host : Bytes) (port state : ℕ) (extra : Bytes)
    → leb (length (handshake_body version host port state extra)) 0 ≡ false
unfolding handshake_body var_int
length-handshake_body_ne_zero version host port state extra = ground arith

-- A handshake packet as the protocol writes it is read back: the hostname normalised, the port as it
-- was. The bytes to forward are the whole packet, and what the client sent behind it stays on the
-- reader.
pub read_handshake_packet-handshake_packet :
    (u : Unicode) (version port state : ℕ) (host extra rest : Bytes)
    → version < 2 ^ 35
    → state < 2 ^ 35
    → length host < 2 ^ 35
    → length (handshake_body version host port state extra) < 2 ^ 35
    → read_handshake_packet u (handshake_packet version host port state extra ++ rest) ≡ (
      ok (
        handshake_packet version host port state extra,
        record { hostname = normalize_hostname u host; port = port },
      ),
      rest,
    )
unfolding read_handshake_packet handshake_packet
read_handshake_packet-handshake_packet u version port state host extra rest hv hs hh hb =
    let body = handshake_body version host port state extra in
    rw (
      append_assoc (var_int 4 (length body)) body rest,
      read_var_int-var_int (length body) (body ++ rest) hb,
      length-handshake_body_ne_zero version host port state extra,
      read_full-append body rest,
      parse_handshake-handshake_body u version port state host extra hv hs hh,
    )

raw_of_parts :
    (u : Unicode) (r : Bytes) (p : Result HandshakeError (ℕ × Bytes) × Bytes) {raw r' : Bytes}
    {h : Handshake}
    → All IsByte r
    → read_var_int r ≡ p
    → read_handshake_packet u r ≡ (ok (raw, h), r')
    → raw ++ r' ≡ r
unfolding read_handshake_packet read_full
raw_of_parts u r (err e, r₁) hr e₁ e₂ = ground arith
raw_of_parts u r (ok (n, size), r₁) {raw} {r'} hr e₁ e₂ = ground (
  arith,
  read_var_int_takes r hr e₁,
  append_assoc size (take n r₁) (drop n r₁),
  take-append-drop n r₁,
)

-- Whenever a handshake is accepted, the bytes that the router will forward are exactly those that
-- it took off the client's connection, in their order: none is lost, added or changed.
pub read_handshake_packet-raw :
    (u : Unicode) (r : Bytes) {raw r' : Bytes} {h : Handshake}
    → All IsByte r
    → read_handshake_packet u r ≡ (ok (raw, h), r')
    → raw ++ r' ≡ r
read_handshake_packet-raw u r hr e = raw_of_parts u r (read_var_int r) hr refl e
