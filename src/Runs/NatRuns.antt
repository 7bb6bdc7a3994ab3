-- ===== src/Runs/NatRuns.antt =====
-- Runs of the SNAT map's manager with the native runner, over a kernel with a queue of one message.
use sidero_proxy.Base.{
  ◌≡◌, refl, sym, ap, ◌∙◌, [], ◌∷◌, Bool, true, false, Bytes, codes, ok, err, Option, none, some,
  Result, if◌then◌else◌, bytes_eq, itoa, v4, parse_ip, ip_string, arith,
}
use sidero_proxy.Base.Dict.{lookup, insert}
use sidero_proxy.Nft.{Error, is_already_exists, is_missing}
use sidero_proxy.Nat.{new_nat_manager, NatState, add}
use sidero_proxy.Nat.Elements.{
  Netlink, NativeState, new_native_runner, to4, native_element_runner, native_add, native_add_ipv4,
  connection,
}
use sidero_proxy.Nat.Netlink.{IsPrinted, NetlinkMap}
use sidero_proxy.Nat.Native.{native_kernel}
use sidero_proxy.Nat.Sessions.{Reach, IsTracked, native-IsTracked}
use sidero_proxy.Runs.{plain_unicode, no_ipv6}

-- The message that waits.
data Message : Type 0 where
  nothing : Message
  adds : Bytes → Bytes → Message
  deletes : Bytes → Message

record Kernel : Type 0 where
  elements : Bytes → Option Bytes
  message : Message

abbrev is_nothing : Message → Bool
is_nothing nothing = true
is_nothing other = false

-- A key that is there is not added again, and one that is not there is not deleted.
abbrev on_add : Bytes → Bytes → Kernel → Option Bytes → Result Error (Unit {0}) × Kernel
on_add k i w (some old) = (err (codes "File exists"), record w { message = nothing })
on_add k i w none = (
  ok tt,
  record { elements = λ j. if bytes_eq k j then some i else w.elements j; message = nothing },
)

abbrev on_delete : Bytes → Kernel → Option Bytes → Result Error (Unit {0}) × Kernel
on_delete k w none = (err (codes "No such file or directory"), record w { message = nothing })
on_delete k w (some old) = (
  ok tt,
  record { elements = λ j. if bytes_eq k j then none else w.elements j; message = nothing },
)

abbrev send : Message → Kernel → Result Error (Unit {0}) × Kernel
send nothing w = (ok tt, w)
send (adds k i) w = on_add k i w (w.elements k)
send (deletes k) w = on_delete k w (w.elements k)

abbrev link : Netlink Kernel
link = record {
  open_conn = λ w. (ok tt, w);
  set_add_elements =
      λ a b w. (ok tt, record w { message = adds (ip_string no_ipv6 a) (ip_string no_ipv6 b) });
  set_delete_elements = λ a w. (ok tt, record w { message = deletes (ip_string no_ipv6 a) });
  flush = λ w. send w.message w;
}

added_lem :
    (k i : Bytes) (w : Kernel) {w₂ : Kernel} (o : Option Bytes)
    → on_add k i w o ≡ (ok tt, w₂)
    → (is_nothing w₂.message ≡ true)
      × ((j : Bytes) → w₂.elements j ≡ (if bytes_eq k j then some i else w.elements j))
added_lem k i w (some old) h = absurd (ground arith)
added_lem k i w none h = (
  ap (λ r. is_nothing (Kernel.message (r.1))) (sym h),
  λ j. ap (λ r. Kernel.elements (r.1) j) (sym h),
)

add_failed_lem :
    (k i : Bytes) (w : Kernel) {w₂ : Kernel} {e : Error} (o : Option Bytes)
    → on_add k i w o ≡ (err e, w₂)
    → (is_nothing w₂.message ≡ true)
      × ((j : Bytes) → w₂.elements j ≡ w.elements j)
      × (o ≡ none → is_already_exists e ≡ false)
add_failed_lem k i w none h = absurd (ground arith)
add_failed_lem k i w (some old) h = (
  ap (λ r. is_nothing (Kernel.message (r.1))) (sym h),
  (λ j. ap (λ r. Kernel.elements (r.1) j) (sym h)),
  λ absent. absurd (ground (arith, absent)),
)

deleted_lem :
    (k : Bytes) (w : Kernel) {w₂ : Kernel} (o : Option Bytes)
    → on_delete k w o ≡ (ok tt, w₂)
    → (is_nothing w₂.message ≡ true)
      × ((j : Bytes) → w₂.elements j ≡ (if bytes_eq k j then none else w.elements j))
deleted_lem k w none h = absurd (ground arith)
deleted_lem k w (some old) h = (
  ap (λ r. is_nothing (Kernel.message (r.1))) (sym h),
  λ j. ap (λ r. Kernel.elements (r.1) j) (sym h),
)

delete_failed_lem :
    (k : Bytes) (w : Kernel) {w₂ : Kernel} {e : Error} (o : Option Bytes)
    → on_delete k w o ≡ (err e, w₂)
    → (is_nothing w₂.message ≡ true)
      × ((j : Bytes) → w₂.elements j ≡ w.elements j)
      × (is_missing e ≡ true → o ≡ none)
delete_failed_lem k w (some old) h = absurd (ground arith)
delete_failed_lem k w none h = (
  ap (λ r. is_nothing (Kernel.message (r.1))) (sym h),
  (λ j. ap (λ r. Kernel.elements (r.1) j) (sym h)),
  λ _. refl,
)

netlink_map : NetlinkMap no_ipv6 link
netlink_map = record {
  mapping = Kernel.elements;
  is_idle = λ w. is_nothing w.message;
  opened = λ w idle. (idle, λ j. refl);
  not_opened = λ w e. absurd (ground arith);
  add_refused = λ a b w idle e. absurd (ground arith);
  add_sent = λ a b w idle e f.
      let k = ip_string no_ipv6 a in
      added_lem k (ip_string no_ipv6 b) w (w.elements k) (ap (λ r. link.flush (r.1)) e ∙ f);
  add_failed = λ a b w idle e f.
      let k = ip_string no_ipv6 a in
      add_failed_lem k (ip_string no_ipv6 b) w (w.elements k) (ap (λ r. link.flush (r.1)) e ∙ f);
  delete_refused = λ a w idle e. absurd (ground arith);
  delete_sent = λ a w idle e f.
      let k = ip_string no_ipv6 a in
      deleted_lem k w (w.elements k) (ap (λ r. link.flush (r.1)) e ∙ f);
  delete_failed = λ a w idle e f.
      let k = ip_string no_ipv6 a in
      delete_failed_lem k w (w.elements k) (ap (λ r. link.flush (r.1)) e ∙ f);
}

abbrev client_a : Bytes
client_a = codes "203.0.113.7"

abbrev internal_a : Bytes
internal_a = codes "10.1.0.1"

client_a-IsPrinted : IsPrinted no_ipv6 client_a
unfolding parse_ip ip_string itoa to4
client_a-IsPrinted = (v4 203 0 113 7, refl, refl)

internal_a-IsPrinted : IsPrinted no_ipv6 internal_a
unfolding parse_ip ip_string itoa to4
internal_a-IsPrinted = (v4 10 1 0 1, refl, refl)

abbrev start_world : NativeState Kernel
start_world = new_native_runner (record { elements = λ k. none; message = nothing })

abbrev after_one : NatState (NativeState Kernel)
after_one =
    (add (native_element_runner no_ipv6 plain_unicode link) client_a internal_a
      (new_nat_manager start_world)).1

abbrev after_two : NatState (NativeState Kernel)
after_two = (add (native_element_runner no_ipv6 plain_unicode link) client_a internal_a after_one).1

-- Two connections of one client.
two_connections :
    Reach
      (native_element_runner no_ipv6 plain_unicode link)
      (native_kernel no_ipv6 plain_unicode link netlink_map)
      ((client_a, internal_a) ∷ (client_a, internal_a) ∷ [])
      0
      after_two
unfolding add lookup insert bytes_eq native_kernel netlink_map native_element_runner native_add
    native_add_ipv4 connection to4 parse_ip ip_string itoa
two_connections =
    Reach.connect client_a internal_a client_a-IsPrinted internal_a-IsPrinted
      (Reach.connect client_a internal_a client_a-IsPrinted internal_a-IsPrinted
        (Reach.start start_world refl (λ k. refl)) refl)
      refl

native-IsTracked_example :
    IsTracked
      (native_element_runner no_ipv6 plain_unicode link)
      (native_kernel no_ipv6 plain_unicode link netlink_map)
      ((client_a, internal_a) ∷ (client_a, internal_a) ∷ [])
      0
      after_two
native-IsTracked_example = native-IsTracked no_ipv6 plain_unicode link netlink_map two_connections
