-- ===== src/Start/OriginalDst.antt =====
-- internal/origdst: `Get`, which asks the kernel where a redirected connection was going. The system
-- call is a parameter: its answer is the socket address as it stands in memory.
use sidero_proxy.Base.{
  ℕ, ◌≡◌, ap, ◌+◌, ◌*◌, ◌/◌, ◌%◌, ◌<◌, Bool, true, false, Option, none, some, ◌++◌, if◌then◌else◌,
  Result, ok, err, Bytes, codes, v4, Ipv6, parse_ip, ip_string, arith,
}
use sidero_proxy.Base.Dotted.{parse_ip-ip_string}
use sidero_proxy.Nft.{Error}
use sidero_proxy.Start.{original_port}

-- `RawSockaddrInet4`: the two bytes of the port in the order of the memory, and those of the address.
pub record SockAddr : Type 0 where
  pub port_0 : ℕ
  pub port_1 : ℕ
  pub ip_0 : ℕ
  pub ip_1 : ℕ
  pub ip_2 : ℕ
  pub ip_3 : ℕ

-- The field `Port`, which Go reads in the byte order of the machine.
unfoldable pub port_field : (big_endian : Bool) → SockAddr → ℕ
port_field big_endian addr =
    if big_endian then addr.port_0 * 256 + addr.port_1 else addr.port_1 * 256 + addr.port_0

-- What a TCP connection answers: `SyscallConn`, the error of `Control`, and `getsockopt`.
pub record TcpSocket : Type 0 where
  pub syscall_conn : Result Error (Unit {0})
  pub control : Option Error
  pub getsockopt : Result Error SockAddr

abbrev pub destination_of : Ipv6 → Bool → Result Error SockAddr → Result Error (Bytes × ℕ)
destination_of n big_endian (err e) = err (codes "getsockopt SO_ORIGINAL_DST: " ++ e)
destination_of n big_endian (ok addr) = ok (
  ip_string n (v4 addr.ip_0 addr.ip_1 addr.ip_2 addr.ip_3),
  original_port (port_field big_endian addr),
)

abbrev pub controlled :
    Ipv6 → Bool → Option Error → Result Error SockAddr → Result Error (Bytes × ℕ)
controlled n big_endian (some e) answer = err (codes "control socket: " ++ e)
controlled n big_endian none answer = destination_of n big_endian answer

-- `Get` of a connection, which need not be a TCP connection.
unfoldable pub original_dst : Ipv6 → Bool → Option TcpSocket → Result Error (Bytes × ℕ)
unfolding original_port port_field ip_string
original_dst n big_endian none = err (codes "not a TCP connection")
original_dst n big_endian (some socket) = elim socket.syscall_conn [
  | err e ↦ err (codes "syscall conn: " ++ e)
  | ok x ↦ controlled n big_endian socket.control socket.getsockopt
]

-- The same function for other systems than Linux.
abbrev pub unsupported_dst : Result Error (Bytes × ℕ)
unsupported_dst = err (codes "original destination lookup is only supported on linux")

-- What the kernel writes for a destination: the port in network order.
abbrev pub written_address : (a b c d port : ℕ) → SockAddr
written_address a b c d port = record {
  port_0 = port / 256;
  port_1 = port % 256;
  ip_0 = a;
  ip_1 = b;
  ip_2 = c;
  ip_3 = d;
}

swapped : (port : ℕ) → port < 65536 → original_port (port % 256 * 256 + port / 256) ≡ port
unfolding original_port
swapped port small = omega (arith, small)

swapped_twice :
    (port : ℕ)
    → port < 65536
    → original_port (port / 256 * 256 + port % 256) ≡ port % 256 * 256 + port / 256
unfolding original_port
swapped_twice port small = omega (arith, small)

-- On a machine that stores the low byte first, `Get` returns the destination that the kernel wrote: its
-- port, and a text that `net.ParseIP` reads as its four bytes. On one that stores the high byte first
-- the two bytes of the port are exchanged.
pub original_dst-written :
    (n : Ipv6) (big_endian : Bool) (a b c d port : ℕ)
    → a < 256
    → b < 256
    → c < 256
    → d < 256
    → port < 65536
    → (text : Bytes) × (original_dst n big_endian (
          some (record {
            syscall_conn = ok tt;
            control = none;
            getsockopt = ok (written_address a b c d port);
          }))
        ≡ ok (text, if big_endian then port % 256 * 256 + port / 256 else port))
      × (parse_ip n text ≡ some (v4 a b c d))
unfolding original_dst port_field
original_dst-written n true a b c d port ha hb hc hd small = (
  ip_string n (v4 a b c d),
  ap (λ p. ok (ip_string n (v4 a b c d), p)) (swapped_twice port small),
  parse_ip-ip_string n a b c d ha hb hc hd,
)
original_dst-written n false a b c d port ha hb hc hd small = (
  ip_string n (v4 a b c d),
  ap (λ p. ok (ip_string n (v4 a b c d), p)) (swapped port small),
  parse_ip-ip_string n a b c d ha hb hc hd,
)
