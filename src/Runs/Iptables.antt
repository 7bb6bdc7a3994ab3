-- ===== src/Runs/Iptables.antt =====
-- An iptables and a chain of nftables for the runs, as lists of rules.
use sidero_proxy.Base.{
  ◌≡◌, refl, sym, ap, ◌∙◌, Bool, true, false, Option, none, some, List, [], ◌∷◌, ◌++◌,
  if◌then◌else◌, Result, ok, err, Bytes, codes, bytes_eq, arith,
}
use sidero_proxy.Nft.{Error, ScriptRunner}
use sidero_proxy.Nft.Ruleset.{Ruleset, effect}
use sidero_proxy.Nat.Chains.Rules.{node_chain}
use sidero_proxy.Watcher.NoSnat.{
  IptablesRunner, check_jump_args, insert_jump_args, flush_args, append_args,
}
use sidero_proxy.Watcher.NoSnat.Rules.{Iptables}

-- The rules of nftables, those of iptables, and whether there is the jump.
pub record Tables : Type 0 where
  pub nft_rules : List Bytes
  pub rules : List (List Bytes)
  pub jump : Bool

abbrev pub run_nft : ScriptRunner Tables
run_nft text w = (ok tt, record w { nft_rules = effect node_chain text w.nft_rules })

pub never_fails :
    {w w' : Tables} {e : Error}
    → ◌≡◌ {A = Result Error (Unit {0}) × Tables} (ok tt, w) (err e, w')
    → ⊥
never_fails h = ground (arith, h)

unfoldable pub node_rules : Ruleset run_nft node_chain
node_rules = record {
  rules = Tables.nft_rules;
  rules-run = λ text w _ e. ap (λ t. Tables.nft_rules (t.1)) (sym e);
  rules-run_failed = λ text w _ e. absurd (never_fails e);
}

-- The arguments behind a prefix.
unfoldable pub strip_args : List Bytes → List Bytes → Option (List Bytes)
unfolding bytes_eq
strip_args [] args = some args
strip_args (p ∷ prefix) [] = none
strip_args (p ∷ prefix) (a ∷ args) =
    let rest = strip_args prefix args in if bytes_eq p a then rest else none

abbrev with_rule : Option (List Bytes) → List (List Bytes) → List (List Bytes)
with_rule none rules = rules
with_rule (some rule) rules = rules ++ rule ∷ []

abbrev emptied : Option (List Bytes) → List (List Bytes) → List (List Bytes)
emptied (some []) rules = []
emptied other rules = rules

-- What a call that succeeds does to the rules of the chain, and to whether POSTROUTING jumps to it.
unfoldable pub rules_effect : List Bytes → List (List Bytes) → List (List Bytes)
unfolding strip_args
rules_effect args rules =
    emptied (strip_args flush_args args) (with_rule (strip_args (append_args []) args) rules)

abbrev with_jump : Option (List Bytes) → Bool → Bool
with_jump (some []) jump = true
with_jump other jump = jump

unfoldable pub jump_effect : List Bytes → Bool → Bool
unfolding strip_args
jump_effect args jump = with_jump (strip_args insert_jump_args args) jump

-- The check of the jump fails when it is not there; all else succeeds.
abbrev pub checked_run :
    Option (List Bytes) → List Bytes → Tables → Result Error (Unit {0}) × Tables
checked_run (some []) args w =
    (if w.jump then ok tt else err (codes "No chain/target/match by that name."), w)
checked_run other args w =
    (ok tt, record w { rules = rules_effect args w.rules; jump = jump_effect args w.jump })

abbrev pub run_iptables : IptablesRunner Tables
run_iptables args w = checked_run (strip_args check_jump_args args) args w

pub checks : (w w' : Tables) → run_iptables check_jump_args w ≡ (ok tt, w') → Tables.jump w' ≡ true
unfolding strip_args bytes_eq
checks w w' h = by_jump w.jump refl h
  where
    by_jump :
        (b : Bool)
        → w.jump ≡ b
        → ◌≡◌ {A = Result Error (Unit {0}) × Tables}
            (if b then ok tt else err (codes "No chain/target/match by that name."), w)
            (ok tt, w')
        → Tables.jump w' ≡ true
    by_jump true e k = ap (λ t. Tables.jump (t.1)) (sym k) ∙ e
    by_jump false e k = absurd (ground arith)

unfoldable pub tables : Iptables run_iptables
unfolding strip_args rules_effect jump_effect bytes_eq
tables = record {
  rules = Tables.rules;
  has_jump = Tables.jump;
  checked = λ w {w'} h. checks w w' h;
  inserted = λ w h. ap (λ t. Tables.jump (t.1)) (sym h);
  flushed = λ w h. (ap (λ t. Tables.rules (t.1)) (sym h), ap (λ t. Tables.jump (t.1)) (sym h));
  appended = λ source destination target w h.
      (ap (λ t. Tables.rules (t.1)) (sym h), ap (λ t. Tables.jump (t.1)) (sym h));
}

pub apart :
    (o : Option (List Bytes)) (args : List Bytes) (w : Tables)
    → Tables.nft_rules ((checked_run o args w).1) ≡ w.nft_rules
apart none args w = refl
apart (some []) args w = refl
apart (some (a ∷ rest)) args w = refl
