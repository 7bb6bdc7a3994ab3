-- ===== src/Watcher/Docker/Endpoint.antt =====
-- The address of a container among its networks.
use sidero_proxy.Base.{
  ◌≡◌, refl, ap, ◌∙◌, ◌&&◌, not, List, [], ◌∷◌, if◌then◌else◌, Bytes, arith, bytes_le,
  bytes_le-IsTotalOrder, sort_of_perm, Bytes-set, sort_strings,
}
use mathlib.Core.List.{Perm}
use sidero_proxy.Base.Dict.{Dict, lookup}
use sidero_proxy.Base.Members.{keys}
use sidero_proxy.Config.{is_nil}
use sidero_proxy.Watcher.Docker.{first_endpoint, container_endpoint, address_of}

first_endpoint_ext :
    (m m' : Dict Bytes) (names : List Bytes)
    → ((k : Bytes) → lookup k m ≡ lookup k m')
    → first_endpoint m names ≡ first_endpoint m' names
unfolding first_endpoint
first_endpoint_ext m m' [] h = refl
first_endpoint_ext m m' (name ∷ names) h = ground (arith, h name, first_endpoint_ext m m' names h)

-- The address that is chosen for a container depends on the map of its networks alone, not on the order
-- in which Go ranges over it.
pub container_endpoint_ext :
    (docker_network : Bytes) (m m' : Dict Bytes)
    → ((k : Bytes) → lookup k m ≡ lookup k m')
    → Perm (keys m) (keys m')
    → container_endpoint docker_network m ≡ container_endpoint docker_network m'
unfolding container_endpoint
container_endpoint_ext docker_network m m' h p =
    let sorted : sort_strings (keys m) ≡ sort_strings (keys m') =
      sort_of_perm bytes_le bytes_le-IsTotalOrder Bytes-set p in
    let first : first_endpoint m (sort_strings (keys m))
        ≡ first_endpoint m' (sort_strings (keys m')) =
      first_endpoint_ext m m' (sort_strings (keys m)) h ∙ ap (first_endpoint m') sorted in
    ap
      (λ ip.
        if not (is_nil docker_network) && not (is_nil ip)
        then (docker_network, ip)
        else first_endpoint m (sort_strings (keys m)))
      (ap address_of (h docker_network))
    ∙ ap
        (λ t.
          if not (is_nil docker_network) && not (is_nil (address_of (lookup docker_network m')))
          then (docker_network, address_of (lookup docker_network m'))
          else t)
        first
