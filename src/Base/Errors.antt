-- ===== src/Base/Errors.antt =====
-- Errors wrapped with `fmt.Errorf("…: %w", err)`.
use mathlib.Core.Path.{◌≡◌, ap}
use mathlib.Core.List.{◌++◌}
use native.Mathlib.Omega.{arith}
use sidero_proxy.Base.Strings.{Bytes}
use sidero_proxy.Base.Outcome.{Result, ok, err, Action}

abbrev pub prefix_error : {A : Type 0} → Bytes → Result Bytes A → Result Bytes A
prefix_error prefix (ok a) = ok a
prefix_error prefix (err e) = err (prefix ++ e)

abbrev pub with_prefix : {S A : Type 0} → Bytes → Result Bytes A × S → Result Bytes A × S
with_prefix prefix (ok a, s) = (ok a, s)
with_prefix prefix (err e, s) = (err (prefix ++ e), s)

abbrev pub prefixed : {S A : Type 0} → Bytes → Action S Bytes A → Action S Bytes A
prefixed prefix m s = with_prefix prefix (m s)

pub with_prefix_ok :
    {S A : Type 0} (prefix : Bytes) (r : Result Bytes A × S) (a : A) (s' : S)
    → with_prefix prefix r ≡ (ok a, s')
    → r ≡ (ok a, s')
with_prefix_ok prefix (ok a, s) b s' h = h
with_prefix_ok prefix (err e, s) b s' h = absurd (ground arith)

pub with_prefix_run :
    {S A : Type 0} (prefix : Bytes) (r : Result Bytes A × S) (a : A)
    → r.0 ≡ ok a
    → with_prefix prefix r ≡ (ok a, r.1)
with_prefix_run prefix (ok a, s) b h = ap (λ t. (t, s)) h
with_prefix_run prefix (err e, s) b h = absurd (ground (arith, h))
