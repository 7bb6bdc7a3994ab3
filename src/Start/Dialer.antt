-- ===== src/Start/Dialer.antt =====
-- internal/source: the dial to a backend from the client's internal address, as the calls on its socket.
-- What each call answers is a parameter; package net closes the socket when one fails.
use sidero_proxy.Base.{
  ◌≡◌, refl, Bool, true, false, ◌||◌, Option, none, some, List, [], ◌∷◌, ◌++◌, if◌then◌else◌,
  Result, ok, err, Bytes, codes, contains, Unicode, Ip, Ipv6, parse_ip, arith,
}
use sidero_proxy.Base.Integers.{ℤ, itoa_int}
use sidero_proxy.Nft.{Error}

pub data SocketCall : Type 0 where
  set_transparent set_freebind : SocketCall
  bind : Ip → SocketCall
  connect : Bytes → SocketCall
  close_socket : SocketCall

-- `Control` of the raw connection gives an error of its own only when it does not run the function.
pub record SocketAnswers : Type 0 where
  pub control : Option Error
  pub transparent : Result Error (Unit {0})
  pub freebind : Result Error (Unit {0})
  pub bound : Result Error (Unit {0})
  pub connected : Result Error (Unit {0})

-- `net.JoinHostPort`: brackets for a host with a colon.
unfoldable pub join_host_port : Bytes → ℤ → Bytes
unfolding contains
join_host_port host port =
    let host' = if contains host (codes ":") then codes "[" ++ (host ++ codes "]") else host in
    host' ++ (codes ":" ++ itoa_int port)

-- A call, and what follows when it succeeds; an error, behind some words, closes the socket.
abbrev pub on_socket :
    SocketCall
    → Bytes
    → Result Error (Unit {0})
    → List SocketCall × Result Error (Unit {0})
    → List SocketCall × Result Error (Unit {0})
on_socket call words (err e) rest = (call ∷ close_socket ∷ [], err (words ++ e))
on_socket call words (ok x) (calls, result) = (call ∷ calls, result)

abbrev pub dial_from :
    SocketAnswers → Option Error → Ip → Bytes → List SocketCall × Result Error (Unit {0})
dial_from a (some e) src address = (close_socket ∷ [], err e)
dial_from a none src address =
    on_socket set_transparent (codes "set IP_TRANSPARENT: ") a.transparent (
      on_socket set_freebind (codes "set IP_FREEBIND: ") a.freebind
        (on_socket (bind src) [] a.bound (on_socket (connect address) [] a.connected ([], ok tt))))

abbrev pub dial_source :
    Unicode
    → Ipv6
    → SocketAnswers
    → Bytes
    → Bytes
    → Option Ip
    → List SocketCall × Result Error (Unit {0})
dial_source u n a source_ip address none =
    ([], err (codes "invalid source ip " ++ u.quote source_ip))
dial_source u n a source_ip address (some src) = dial_from a a.control src address

-- `TransparentDialer.Dial`
unfoldable pub transparent_dial :
    Unicode → Ipv6 → SocketAnswers → Bytes → Bytes → ℤ → List SocketCall × Result Error (Unit {0})
unfolding parse_ip join_host_port
transparent_dial u n a source_ip dest_ip dest_port =
    dial_source u n a source_ip (join_host_port dest_ip dest_port) (parse_ip n source_ip)

-- The same dialer for other systems than Linux.
abbrev pub unsupported_dial : Result Error (Unit {0})
unsupported_dial = err (codes "transparent dial is only supported on linux")

abbrev is_connect : SocketCall → Bool
is_connect (connect address) = true
is_connect other = false

-- Whether the backend hears of the dial.
unfoldable pub reaches : List SocketCall → Bool
reaches [] = false
reaches (call ∷ calls) = is_connect call || reaches calls

-- The four calls of a dial that gets as far as the backend.
abbrev pub in_order : Ip → Bytes → List SocketCall
in_order src address = set_transparent ∷ set_freebind ∷ bind src ∷ connect address ∷ []

abbrev pub closing : Result Error (Unit {0}) → List SocketCall
closing (ok x) = []
closing (err e) = close_socket ∷ []

-- The socket took both options and the address.
abbrev pub AllowsForeign : SocketAnswers → Type 0
AllowsForeign a =
    (a.control ≡ none) × (a.transparent ≡ ok tt) × (a.freebind ≡ ok tt) × (a.bound ≡ ok tt)

-- What is left to show of a dial from an address that was read.
abbrev GoesInOrder : SocketAnswers → Ip → Bytes → List SocketCall × Result Error (Unit {0}) → Type 0
GoesInOrder a src address dialled =
    reaches (dialled.0) ≡ true
    → (dialled ≡ (in_order src address ++ closing a.connected, a.connected)) × AllowsForeign a

dial_from-in_order :
    (control : Option Error) (transparent freebind bound connected : Result Error (Unit {0}))
    (src : Ip) (address : Bytes)
    → let a : SocketAnswers = record {
      control = control;
      transparent = transparent;
      freebind = freebind;
      bound = bound;
      connected = connected;
    } in
      GoesInOrder a src address (dial_from a control src address)
unfolding reaches
dial_from-in_order (some e) t f b c src address h = absurd (ground (arith, h))
dial_from-in_order none (err e) f b c src address h = absurd (ground (arith, h))
dial_from-in_order none (ok x) (err e) b c src address h = absurd (ground (arith, h))
dial_from-in_order none (ok x) (ok y) (err e) c src address h = absurd (ground (arith, h))
dial_from-in_order none (ok x) (ok y) (ok z) (err e) src address h =
    (refl, (refl, refl, refl, refl))
dial_from-in_order none (ok x) (ok y) (ok z) (ok w) src address h = (refl, (refl, refl, refl, refl))

-- A dial that gets as far as the backend comes from the client's internal address, and from no other:
-- the two options that allow a foreign address were set before the socket was bound to it, and all
-- three calls succeeded. The result is that of the connection, and the socket is closed when it is
-- refused.
pub transparent_dial-in_order :
    (u : Unicode) (n : Ipv6) (a : SocketAnswers) (source_ip dest_ip : Bytes) (dest_port : ℤ)
    → reaches ((transparent_dial u n a source_ip dest_ip dest_port).0) ≡ true
    → (src : Ip) × (parse_ip n source_ip ≡ some src)
      × (transparent_dial u n a source_ip dest_ip dest_port
          ≡ (in_order src (join_host_port dest_ip dest_port) ++ closing a.connected, a.connected))
      × (a.control ≡ none)
      × (a.transparent ≡ ok tt)
      × (a.freebind ≡ ok tt)
      × (a.bound ≡ ok tt)
unfolding transparent_dial reaches
transparent_dial-in_order u n a source_ip dest_ip dest_port h =
    source_cases (parse_ip n source_ip) refl h
  where
    source_cases :
        (o : Option Ip)
        → parse_ip n source_ip ≡ o
        → reaches ((dial_source u n a source_ip (join_host_port dest_ip dest_port) o).0) ≡ true
        → (src : Ip) × (o ≡ some src)
          × (dial_source u n a source_ip (join_host_port dest_ip dest_port) o ≡ (
            in_order src (join_host_port dest_ip dest_port) ++ closing a.connected,
            a.connected,
          ))
          × (a.control ≡ none)
          × (a.transparent ≡ ok tt)
          × (a.freebind ≡ ok tt)
          × (a.bound ≡ ok tt)
    source_cases none e k = absurd (ground (arith, k))
    source_cases (some src) e k =
        let (calls, (run, transparent, freebind, bound)) =
          dial_from-in_order a.control a.transparent a.freebind a.bound a.connected src
            (join_host_port dest_ip dest_port) k in
        (src, refl, calls, run, transparent, freebind, bound)
