-- ===== src/Runs/MinecraftRuns.antt =====
-- Runs of internal/minecraft.
use sidero_proxy.Base.{
  ◌≡◌, refl, ◌++◌, [], ◌∷◌, Bytes, codes, ok, err, length, ◌≤◌, ◌<◌, ◌^◌, ◌⊎◌, arith,
}
use sidero_proxy.Minecraft.{
  read_var_int, read_var_int_loop, parse_var_int, parse_var_int_loop, add_group,
  read_handshake_packet, normalize_hostname, parse_handshake, parse_string, parse_port, read_full,
  slice_string, wrapped, packet_body, read_failed, unexpected_eof, varint_too_long,
}
use sidero_proxy.Minecraft.VarInt.{
  var_int, as_parsed, AreContinued, read_var_int_takes, parse_var_int-read_var_int,
}
use sidero_proxy.Minecraft.Packet.{
  handshake_body, handshake_packet, read_handshake_packet-handshake_packet,
  read_handshake_packet-raw,
}
use sidero_proxy.Runs.{plain_unicode}

abbrev host : Bytes
host = codes "Play.Example.net."

three_hundred : read_var_int (0xac ∷ 0x02 ∷ 7 ∷ []) ≡ (ok (300, 0xac ∷ 0x02 ∷ []), 7 ∷ [])
unfolding read_var_int read_var_int_loop add_group
three_hundred = refl

normalized : normalize_hostname plain_unicode host ≡ codes "play.example.net"
unfolding normalize_hostname
normalized = refl

-- The trailing dot is taken off after the spaces, so a second pass may still change the name.
not_idempotent : normalize_hostname plain_unicode (codes "a .") ≡ codes "a "
unfolding normalize_hostname
not_idempotent = refl

abbrev three_hundred_bytes : Bytes
three_hundred_bytes = 0xac ∷ 0x02 ∷ []

read_var_int_takes_example :
    (three_hundred_bytes ++ 7 ∷ [] ≡ 0xac ∷ 0x02 ∷ 7 ∷ [])
    × (300 < 2 ^ 35)
    × (1 ≤ length three_hundred_bytes)
    × (length three_hundred_bytes ≤ 5)
read_var_int_takes_example = read_var_int_takes (0xac ∷ 0x02 ∷ 7 ∷ []) (omega arith) three_hundred

abbrev packet : Bytes
packet = 10 ∷ 0 ∷ 0xfb ∷ 5 ∷ 3 ∷ b'a' ∷ b'.' ∷ b'B' ∷ 99 ∷ 221 ∷ 2 ∷ []

abbrev behind : Bytes
behind = 1 ∷ 0 ∷ []

packet_read :
    read_handshake_packet plain_unicode (packet ++ behind)
    ≡ (ok (packet, record { hostname = codes "a.b"; port = 25565 }), behind)
unfolding read_handshake_packet read_var_int read_var_int_loop add_group read_full parse_handshake
    parse_var_int parse_var_int_loop parse_string slice_string parse_port normalize_hostname
packet_read = refl

-- A length of 34 GiB is accepted, and the buffer of that size is made before any of it is read.
huge_length :
    read_handshake_packet plain_unicode (0xff ∷ 0xff ∷ 0xff ∷ 0xff ∷ 0x7f ∷ [])
    ≡ (err (wrapped packet_body read_failed), [])
unfolding read_handshake_packet read_var_int read_var_int_loop add_group read_full
huge_length = refl

read_handshake_packet-raw_example : packet ++ behind ≡ packet ++ behind
read_handshake_packet-raw_example =
    read_handshake_packet-raw plain_unicode (packet ++ behind) (omega arith) packet_read

read_handshake_packet-handshake_packet_example :
    read_handshake_packet plain_unicode (handshake_packet 763 host 25565 2 [] ++ behind) ≡ (
      ok (
        handshake_packet 763 host 25565 2 [],
        record { hostname = normalize_hostname plain_unicode host; port = 25565 },
      ),
      behind,
    )
unfolding handshake_body var_int
read_handshake_packet-handshake_packet_example =
    read_handshake_packet-handshake_packet plain_unicode 763 25565 2 host [] behind (omega arith)
      (omega arith) (omega arith) (omega arith)

parse_var_int-read_var_int_example :
    (parse_var_int (0xac ∷ 0x02 ∷ 7 ∷ []) ≡ as_parsed (read_var_int (0xac ∷ 0x02 ∷ 7 ∷ [])))
    ⊎ (AreContinued 5 (0xac ∷ 0x02 ∷ 7 ∷ [])
        × (parse_var_int (0xac ∷ 0x02 ∷ 7 ∷ []) ≡ (err unexpected_eof, []))
        × (read_var_int (0xac ∷ 0x02 ∷ 7 ∷ []) ≡ (err varint_too_long, [])))
parse_var_int-read_var_int_example = parse_var_int-read_var_int (0xac ∷ 0x02 ∷ 7 ∷ [])
