-- ===== src/Nft.antt =====
-- The script runner of internal/nat/nat.go and internal/filter/filter.go, and the two functions that
-- take an nft error for success. What the runner does is a parameter: `W` is the world that it acts
-- on, and an error is its message, which these functions read.
pub mod Plan
pub mod Command
pub mod Ruleset
use sidero_proxy.Base.{
  Bool, true, false, ◌||◌, ◌++◌, Option, none, some, if◌then◌else◌, Result, ok, err, Action, Bytes,
  codes, contains, Unicode, trim_space,
}

abbrev pub Error : Type 0
Error = Bytes

-- The interface `ScriptRunner`.
abbrev pub ScriptRunner : Type 0 → Type 0
ScriptRunner W = Bytes → Action W Error (Unit {0})

unfoldable pub is_already_exists : Error → Bool
unfolding contains
is_already_exists e = contains e (codes "File exists")

unfoldable pub is_missing : Error → Bool
unfolding contains
is_missing e = contains e (codes "No such file or directory") || contains e (codes "No such file")

abbrev pub ignore_already_exists : Result Error (Unit {0}) → Result Error (Unit {0})
ignore_already_exists (ok x) = ok x
ignore_already_exists (err e) = if is_already_exists e then ok tt else err e

abbrev pub ignore_missing : Result Error (Unit {0}) → Result Error (Unit {0})
ignore_missing (ok x) = ok x
ignore_missing (err e) = if is_missing e then ok tt else err e

-- The call of one of them round an action.
abbrev pub tolerating :
    {W : Type 0}
    → (Result Error (Unit {0}) → Result Error (Unit {0}))
    → Action W Error (Unit {0})
    → Action W Error (Unit {0})
tolerating f m w = (f (m w).0, (m w).1)

-- An `nft -f -` process on a script: what it writes to its standard error, and an error if it did not
-- end well.
abbrev pub NftProcess : Type 0 → Type 0
NftProcess W = Bytes → W → (Bytes × Option Error) × W

abbrev nft_result :
    {W : Type 0} → Unicode → (Bytes × Option Error) × W → Result Error (Unit {0}) × W
nft_result u ((stderr, none), w) = (ok tt, w)
nft_result u ((stderr, some e), w) =
    (err (codes "nft failed: " ++ (e ++ (codes ": " ++ trim_space u stderr))), w)

-- `Run` of the two types `ExecRunner`
unfoldable pub exec_nft : {W : Type 0} → Unicode → NftProcess W → ScriptRunner W
unfolding trim_space
exec_nft u process script w = nft_result u (process script w)
