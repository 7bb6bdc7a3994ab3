-- ===== src/Minecraft.antt =====
-- internal/minecraft/handshake.go: the first packet of a Minecraft Java client. A reader is the list
-- of the bytes that it still delivers before it ends or its deadline passes, and the slice
-- `packet[cursor:]` stands for `packet` and `cursor`.
mod Bits
pub mod VarInt
pub mod Packet
pub mod Hostname
use sidero_proxy.Base.{
  ℕ, zero, suc, ◌+◌, ◌*◌, ◌^◌, bit_and, bit_or, ◌≡◌, refl, Bool, true, false, List, [], ◌∷◌, ◌++◌,
  length, take, drop, ltb, leb, ◌==◌, if◌then◌else◌, Result, ok, err, Action, pure, fail,
  continue_with, ◌>>=◌, ◌>>◌, Bytes, codes, Unicode, before_byte, trim_space, trim_suffix_byte,
  to_lower, bind_result,
}

-- What was being read when an error was met: the prefix that `fmt.Errorf` puts in front.
pub data Part : Type 0 where
  packet_length packet_body packet_id protocol_version hostname port next_state : Part

pub data HandshakeError : Type 0 where
  -- `io.ReadFull` got fewer bytes than it wants
  read_failed : HandshakeError
  varint_too_long : HandshakeError
  unexpected_eof : HandshakeError
  short_packet : HandshakeError
  invalid_packet_length : ℕ → HandshakeError
  unexpected_packet_id : ℕ → HandshakeError
  negative_string_size : HandshakeError
  wrapped : Part → HandshakeError → HandshakeError

pub record Handshake : Type 0 where
  pub hostname : Bytes
  pub port : ℕ

-- `value << (7 * numRead)`, added to `result` by `|`. Below five groups nothing leaves an `int`.
unfoldable pub add_group : ℕ → ℕ → ℕ → ℕ
add_group result num_read b = bit_or result (bit_and b 0x7f * 2 ^ (7 * num_read))

-- The loop of `readVarInt`, over what the reader still delivers.
unfoldable pub read_var_int_loop : ℕ → ℕ → Bytes → Action Bytes HandshakeError (ℕ × Bytes)
unfolding add_group
read_var_int_loop num_read result raw [] =
    (err (if leb 5 num_read then varint_too_long else read_failed), [])
read_var_int_loop num_read result raw (b ∷ r) =
    let result' = add_group result num_read b in
    let raw' = raw ++ b ∷ [] in
    let more = read_var_int_loop (num_read + 1) result' raw' r in
    if leb 5 num_read
    then (err varint_too_long, b ∷ r)
    else if bit_and b 0x80 == 0
    then (ok (result', raw'), r)
    else more

unfoldable pub read_var_int : Action Bytes HandshakeError (ℕ × Bytes)
read_var_int = read_var_int_loop 0 0 []

-- The loop of `parseVarInt`, over the slice from the cursor on.
unfoldable pub parse_var_int_loop : ℕ → ℕ → Action Bytes HandshakeError ℕ
unfolding add_group
parse_var_int_loop num_read result [] = (err unexpected_eof, [])
parse_var_int_loop num_read result (b ∷ packet) =
    let result' = add_group result num_read b in
    let more = parse_var_int_loop (num_read + 1) result' packet in
    if leb 5 num_read
    then (err varint_too_long, b ∷ packet)
    else if bit_and b 0x80 == 0
    then (ok result', packet)
    else more

unfoldable pub parse_var_int : Action Bytes HandshakeError ℕ
parse_var_int = parse_var_int_loop 0 0

-- `io.ReadFull` into a buffer of `n` bytes.
unfoldable pub read_full : ℕ → Action Bytes HandshakeError Bytes
read_full n r = if ltb (length r) n then (err read_failed, []) else (ok (take n r), drop n r)

-- A step whose error gets a prefix: `fmt.Errorf("parse hostname: %w", err)`.
abbrev wrap_error :
    {S A : Type 0} → Part → Result HandshakeError A × S → Result HandshakeError A × S
wrap_error place (ok a, s) = (ok a, s)
wrap_error place (err e, s) = (err (wrapped place e), s)

abbrev within : {S A : Type 0} → Part → Action S HandshakeError A → Action S HandshakeError A
within place m s = wrap_error place (m s)

-- The rest of `parseString`, where the size is known.
unfoldable pub slice_string : ℕ → Action Bytes HandshakeError Bytes
slice_string size packet =
    if ltb size 0
    then (err negative_string_size, packet)
    else if ltb (length packet) size
    then (err unexpected_eof, packet)
    else (ok (take size packet), drop size packet)

unfoldable pub parse_string : Action Bytes HandshakeError Bytes
parse_string = do size ← parse_var_int; slice_string size

-- `binary.BigEndian.Uint16(packet[cursor : cursor+2])` behind its bounds check.
unfoldable pub parse_port : Action Bytes HandshakeError ℕ
parse_port (hi ∷ lo ∷ packet) = (ok (hi * 256 + lo), packet)
parse_port packet = (err short_packet, packet)

abbrev expect_packet_id : ℕ → Action Bytes HandshakeError (Unit {0})
expect_packet_id id = if id == 0 then pure tt else fail (unexpected_packet_id id)

abbrev check_length : ℕ → Action Bytes HandshakeError (Unit {0})
check_length n = if leb n 0 then fail (invalid_packet_length n) else pure tt

module _ (u : Unicode) where
  unfoldable pub normalize_hostname : Bytes → Bytes
  unfolding before_byte trim_space trim_suffix_byte to_lower
  normalize_hostname host = to_lower u (trim_suffix_byte b'.' (trim_space u (before_byte 0 host)))

  unfoldable pub parse_handshake : Action Bytes HandshakeError Handshake
  parse_handshake = do
    id ← within packet_id parse_var_int
    expect_packet_id id
    version ← within protocol_version parse_var_int
    host ← within hostname parse_string
    p ← within port parse_port
    state ← within next_state parse_var_int
    pure (record { hostname = normalize_hostname host; port = p })

  -- The result's bytes are what is forwarded to the backend later.
  unfoldable pub read_handshake_packet : Action Bytes HandshakeError (Bytes × Handshake)
  read_handshake_packet = do
    (size, size_bytes) ← within packet_length read_var_int
    check_length size
    packet ← within packet_body (read_full size)
    handshake ← λ r. ((parse_handshake packet).0, r)
    pure (size_bytes ++ packet, handshake)
