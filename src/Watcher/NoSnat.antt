-- ===== src/Watcher/NoSnat.antt =====
-- internal/watcher/nosnat.go: the iptables chain that exempts the proxies' addresses from SNAT. What
-- iptables does is the parameter `run`, which takes the arguments of one call.
pub mod Rules
use sidero_proxy.Base.{
  Bool, true, false, Option, none, some, Unicode, trim_space, ◌++◌, List, [], ◌∷◌, if◌then◌else◌,
  Result, ok, err, Action, continue_with, ◌>>◌, ◌>>=◌, pure, Bytes, codes, contains, sort_strings,
}
use sidero_proxy.Config.{is_nil}
use sidero_proxy.Health.{Exec, list_text}
use sidero_proxy.Nft.{Error, tolerating}

abbrev pub IptablesRunner : Type 0 → Type 0
IptablesRunner W = List Bytes → Action W Error (Unit {0})

-- An `iptables` process: what it writes to its standard error, and an error if it did not end well.
abbrev iptables_error : Bytes → Error → Bytes → Error
iptables_error args e message =
    codes "iptables "
    ++ (args
        ++ (codes " failed: " ++ (e ++ (if is_nil message then [] else codes ": " ++ message))))

abbrev iptables_result :
    {W : Type 0} → Unicode → Bytes → (Bytes × Option Error) × W → Result Error (Unit {0}) × W
iptables_result u args ((stderr, none), w) = (ok tt, w)
iptables_result u args ((stderr, some e), w) =
    (err (iptables_error args e (trim_space u stderr)), w)

-- `ExecIPTablesRunner.Run`
unfoldable pub exec_iptables : {W : Type 0} → Unicode → Exec W → IptablesRunner W
unfolding trim_space
exec_iptables u exec args w = iptables_result u (list_text args) (exec (codes "iptables") args w)

-- `proxySubnetPoolCIDR`
abbrev pub proxy_subnet_pool_cidr : Bytes
proxy_subnet_pool_cidr = codes "10.0.0.0/8"

abbrev pub nat_args : List Bytes → List Bytes
nat_args args = codes "-t" ∷ codes "nat" ∷ args

abbrev pub new_chain_args : List Bytes
new_chain_args = nat_args (codes "-N" ∷ codes "MCPROXY_NOSNAT" ∷ [])

abbrev pub check_jump_args : List Bytes
check_jump_args =
    nat_args (codes "-C" ∷ codes "POSTROUTING" ∷ codes "-j" ∷ codes "MCPROXY_NOSNAT" ∷ [])

abbrev pub insert_jump_args : List Bytes
insert_jump_args =
    nat_args
      (codes "-I" ∷ codes "POSTROUTING" ∷ codes "1" ∷ codes "-j" ∷ codes "MCPROXY_NOSNAT" ∷ [])

abbrev pub flush_args : List Bytes
flush_args = nat_args (codes "-F" ∷ codes "MCPROXY_NOSNAT" ∷ [])

-- The rule for a subnet, and the call that appends it.
abbrev pub accept_rule : Bytes → List Bytes
accept_rule subnet =
    codes "-s" ∷ proxy_subnet_pool_cidr ∷ codes "-d" ∷ subnet ∷ codes "-j" ∷ codes "ACCEPT" ∷ []

abbrev pub append_args : List Bytes → List Bytes
append_args rule = nat_args (codes "-A" ∷ codes "MCPROXY_NOSNAT" ∷ rule)

abbrev pub ignore_iptables_exists : Result Error (Unit {0}) → Result Error (Unit {0})
ignore_iptables_exists (ok x) = ok x
ignore_iptables_exists (err e) = if contains e (codes "Chain already exists") then ok tt else err e

module _ {W : Type 0} (run : IptablesRunner W) where
  -- What is done on the result of `-C`.
  abbrev pub jump_or_insert : Result Error (Unit {0}) × W → Result Error (Unit {0}) × W
  jump_or_insert (ok x, w) = (ok tt, w)
  jump_or_insert (err e, w) = run insert_jump_args w

  unfoldable pub ensure_jump : Action W Error (Unit {0})
  ensure_jump w = jump_or_insert (run check_jump_args w)

  -- The loop over the sorted subnets.
  unfoldable pub append_accepts : List Bytes → Action W Error (Unit {0})
  append_accepts [] = pure tt
  append_accepts (subnet ∷ subnets) = do
    run (append_args (accept_rule subnet))
    append_accepts subnets

  -- `NoSNATManager.Ensure`, behind the sorting of its copy of the subnets.
  unfoldable pub ensure_no_snat_sorted : List Bytes → Action W Error (Unit {0})
  ensure_no_snat_sorted subnets = do
    tolerating ignore_iptables_exists (run new_chain_args)
    ensure_jump
    run flush_args
    append_accepts subnets

  unfoldable pub ensure_no_snat : List Bytes → Action W Error (Unit {0})
  ensure_no_snat bridge_subnets = ensure_no_snat_sorted (sort_strings bridge_subnets)
