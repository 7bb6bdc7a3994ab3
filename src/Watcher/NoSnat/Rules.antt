-- ===== src/Watcher/NoSnat/Rules.antt =====
-- What `Ensure` leaves in the chain, for an iptables that works as its manual says.
use sidero_proxy.Base.{
  ◌≡◌, refl, sym, ap, ◌∙◌, Bool, true, List, [], ◌∷◌, ◌++◌, map, Result, ok, err, continue_with,
  continue_ok, Bytes, codes, sort_strings, append_assoc, append-nil, Action, ◌>>◌,
}
use sidero_proxy.Nft.{Error, tolerating}
use sidero_proxy.Watcher.NoSnat.{
  IptablesRunner, new_chain_args, check_jump_args, flush_args, accept_rule, append_args,
  ignore_iptables_exists, jump_or_insert, ensure_jump, append_accepts, ensure_no_snat_sorted,
  ensure_no_snat,
}

-- A rule that lets the packets from one network to another through, as the arguments of iptables.
abbrev pub rule_between : Bytes → Bytes → Bytes → List Bytes
rule_between source destination target =
    codes "-s" ∷ source ∷ codes "-d" ∷ destination ∷ codes "-j" ∷ target ∷ []

-- The rule for a subnet: what comes from the addresses of the proxies is accepted.
abbrev pub expected_accept : Bytes → List Bytes
expected_accept subnet = rule_between (codes "10.0.0.0/8") subnet (codes "ACCEPT")

-- The chain MCPROXY_NOSNAT and the jump to it, for an iptables that works as its manual says: a check
-- that succeeds finds the jump, an insertion makes it, a flush empties the chain, and an appended
-- rule is behind the others.
pub record Iptables {W : Type 0} (run : IptablesRunner W) : Type 0 where
  pub rules : W → List (List Bytes)
  pub has_jump : W → Bool
  pub checked :
      (w : W) {w' : W}
      → run
          (codes "-t"
            ∷ codes "nat"
            ∷ codes "-C"
            ∷ codes "POSTROUTING"
            ∷ codes "-j"
            ∷ codes "MCPROXY_NOSNAT"
            ∷ [])
          w
        ≡ (ok tt, w')
      → has_jump w' ≡ true
  pub inserted :
      (w : W) {w' : W}
      → run
          (codes "-t"
            ∷ codes "nat"
            ∷ codes "-I"
            ∷ codes "POSTROUTING"
            ∷ codes "1"
            ∷ codes "-j"
            ∷ codes "MCPROXY_NOSNAT"
            ∷ [])
          w
        ≡ (ok tt, w')
      → has_jump w' ≡ true
  pub flushed :
      (w : W) {w' : W}
      → run (codes "-t" ∷ codes "nat" ∷ codes "-F" ∷ codes "MCPROXY_NOSNAT" ∷ []) w ≡ (ok tt, w')
      → (rules w' ≡ []) × (has_jump w' ≡ has_jump w)
  pub appended :
      (source destination target : Bytes) (w : W) {w' : W}
      → run
          (codes "-t"
            ∷ codes "nat"
            ∷ codes "-A"
            ∷ codes "MCPROXY_NOSNAT"
            ∷ rule_between source destination target)
          w
        ≡ (ok tt, w')
      → (rules w' ≡ rules w ++ rule_between source destination target ∷ [])
        × (has_jump w' ≡ has_jump w)

-- Three steps behind a result, all of which succeed.
split_chain :
    {W : Type 0} (a b c : Action W Error (Unit {0})) (r : Result Error (Unit {0}) × W) (w' : W)
    → continue_with (λ _. a >> (b >> c)) r ≡ (ok tt, w')
    → (a (r.1) ≡ (ok tt, (a (r.1)).1))
      × (b ((a (r.1)).1) ≡ (ok tt, (b ((a (r.1)).1)).1))
      × (c ((b ((a (r.1)).1)).1) ≡ (ok tt, w'))
split_chain a b c r w' h =
    let (x, made, h₁) = continue_ok (λ _. a >> (b >> c)) r tt w' h in
    let (y, first, h₂) = continue_ok (λ _. b >> c) (a (r.1)) tt w' h₁ in
    let (z, second, third) = continue_ok (λ _. c) (b ((a (r.1)).1)) tt w' h₂ in
    (first, second, third)

module _ {W : Type 0} (run : IptablesRunner W) (tables : Iptables run) where
  ensure_jump_lem : (w w' : W) → ensure_jump run w ≡ (ok tt, w') → tables.has_jump w' ≡ true
  unfolding ensure_jump
  ensure_jump_lem w w' h = by_check (run check_jump_args w) refl h
    where
      by_check :
          (r : Result Error (Unit {0}) × W)
          → run check_jump_args w ≡ r
          → jump_or_insert run r ≡ (ok tt, w')
          → tables.has_jump w' ≡ true
      by_check (ok x, v) e k = ap tables.has_jump (sym (ap (λ t. t.1) k)) ∙ tables.checked w e
      by_check (err x, v) e k = tables.inserted v k

  append_accepts-rules :
      (subnets : List Bytes) (w w' : W)
      → append_accepts run subnets w ≡ (ok tt, w')
      → (tables.rules w' ≡ tables.rules w ++ map expected_accept subnets)
        × (tables.has_jump w' ≡ tables.has_jump w)
  unfolding append_accepts
  append_accepts-rules [] w w' h =
      let same : w ≡ w' = ap (λ t. t.1) h in
      (
        ap tables.rules (sym same) ∙ sym (append-nil (tables.rules w)),
        ap tables.has_jump (sym same),
      )
  append_accepts-rules (subnet ∷ subnets) w w' h =
      let args = append_args (accept_rule subnet) in
      let (x, first, rest) = continue_ok (λ _. append_accepts run subnets) (run args w) tt w' h in
      let v = (run args w).1 in
      let (one_rule, one_jump) =
        tables.appended (codes "10.0.0.0/8") subnet (codes "ACCEPT") w first in
      let (more_rules, more_jump) = append_accepts-rules subnets v w' rest in
      (
        more_rules
            ∙ ap (λ t. t ++ map expected_accept subnets) one_rule
            ∙ append_assoc (tables.rules w) (expected_accept subnet ∷ [])
                (map expected_accept subnets),
        more_jump ∙ one_jump,
      )

  -- When `Ensure` succeeds, the chain accepts what goes from 10.0.0.0/8 to each of the
  -- subnets, in sorted order, and has no other rule, whatever was in it; and POSTROUTING jumps to it.
  pub ensure_no_snat-rules :
      (bridge_subnets : List Bytes) (w w' : W)
      → ensure_no_snat run bridge_subnets w ≡ (ok tt, w')
      → (tables.rules w' ≡ map expected_accept (sort_strings bridge_subnets))
        × (tables.has_jump w' ≡ true)
  unfolding ensure_no_snat ensure_no_snat_sorted
  ensure_no_snat-rules bridge_subnets w w' h =
      let subnets = sort_strings bridge_subnets in
      let made = tolerating ignore_iptables_exists (run new_chain_args) w in
      let jumping = ensure_jump run (made.1) in
      let flushed = run flush_args (jumping.1) in
      let (jump_ok, flush_ok, last) =
        split_chain (ensure_jump run) (run flush_args) (append_accepts run subnets) made w' h in
      let jump_there = ensure_jump_lem (made.1) (jumping.1) jump_ok in
      let (emptied, kept) = tables.flushed (jumping.1) flush_ok in
      let (rules, jump) = append_accepts-rules subnets (flushed.1) w' last in
      (rules ∙ ap (λ t. t ++ map expected_accept subnets) emptied, jump ∙ kept ∙ jump_there)
