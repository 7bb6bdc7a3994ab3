-- ===== src/Router/Forwarded.antt =====
-- A connection from its handshake to its end: internal/router hands it to internal/forwarder.
use sidero_proxy.Base.{◌≡◌, ap, ◌∙◌, true, false, List, ◌++◌, All, ok, Bytes, Unicode, Ipv6}
use sidero_proxy.Minecraft.{Handshake, read_handshake_packet}
use sidero_proxy.Minecraft.VarInt.{IsByte}
use sidero_proxy.Minecraft.Packet.{read_handshake_packet-raw}
use sidero_proxy.Router.{Router, Answers, raw_of, handle_conn}
use sidero_proxy.Router.Stream.{is_proxied, written_before, left_unread, Sends, handle_conn-Sends}
use sidero_proxy.Forwarder.{Pipe, Forwarding, Step, run, IsRun, proxied, has_returned}
use sidero_proxy.Forwarder.Delivery.{is_broken}
use sidero_proxy.Forwarder.HalfClose.{run-proxied_complete}

-- A client's connection whose handshake was read and that came to be proxied, up to the return of the
-- forwarder without a broken copy: the bytes that the router wrote to the backend and those that the
-- forwarder passed on are together exactly the bytes that the client sent, from the first to the last,
-- and the client got exactly what the backend sent.
pub handle_conn-forwarded :
    (u : Unicode) (n : Ipv6) (r : Router) (a : Answers) (input raw unread from_backend : Bytes)
    (handshake : Handshake) (es : List Step) (f : Forwarding)
    → All IsByte input
    → read_handshake_packet u input ≡ (ok (raw, handshake), unread)
    → is_proxied (handle_conn u n r a input) ≡ true
    → IsRun es (proxied (left_unread (handle_conn u n r a input)) from_backend true true)
    → run es (proxied (left_unread (handle_conn u n r a input)) from_backend true true) ≡ f
    → has_returned f ≡ true
    → is_broken (Pipe.phase f.up) ≡ false
    → is_broken (Pipe.phase f.down) ≡ false
    → (written_before (handle_conn u n r a input) ++ Pipe.delivered f.up ≡ input)
      × (Pipe.delivered f.down ≡ from_backend)
handle_conn-forwarded u n r a input raw unread from_backend handshake es f bytes e p steps ran done
      up_whole down_whole =
    let calls = handle_conn u n r a input in
    let end =
      run-proxied_complete (left_unread calls) from_backend es f steps ran done up_whole
        down_whole in
    (
      ap (λ (g : Forwarding). written_before calls ++ Pipe.delivered g.up) end
          ∙ Sends.parts (handle_conn-Sends u n r a input) p
          ∙ ap (λ t. raw_of (t.0) ++ t.1) e
          ∙ read_handshake_packet-raw u input bytes e,
      ap (λ (g : Forwarding). Pipe.delivered g.down) end,
    )
