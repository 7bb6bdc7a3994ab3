-- ===== src/Health.antt =====
-- internal/health/health.go: the checks behind /healthz and the answer. Running a program, the ping of
-- Redis and the encoding of the answer are parameters.
pub mod Report
use sidero_proxy.Base.{
  ℕ, Bool, true, false, Option, none, some, List, [], ◌∷◌, ◌++◌, if◌then◌else◌, Result, ok, err,
  Action, pure, fail, continue_with, ◌>>=◌, ◌>>◌, prefixed, Bytes, codes, contains, Unicode,
  trim_space,
}
use sidero_proxy.Base.Dict.{Dict}
use sidero_proxy.Nft.{Error}
use sidero_proxy.Registration.{lift_result}

-- A program's combined output, and an error if it did not end well.
abbrev pub Exec : Type 0 → Type 0
Exec W = Bytes → List Bytes → W → (Bytes × Option Error) × W

abbrev pub Runner : Type 0 → Type 0
Runner W = Bytes → List Bytes → Action W Error Bytes

abbrev spaced : List Bytes → Bytes
spaced [] = []
spaced (a ∷ []) = a
spaced (a ∷ b ∷ args) = a ++ codes " " ++ spaced (b ∷ args)

-- The verb `%v` of a list of texts.
abbrev pub list_text : List Bytes → Bytes
list_text args = codes "[" ++ (spaced args ++ codes "]")

module _ (u : Unicode) where
  abbrev output_result :
      {W : Type 0} → Bytes → List Bytes → (Bytes × Option Error) × W → Result Error Bytes × W
  output_result name args ((out, none), w) = (ok out, w)
  output_result name args ((out, some e), w) = (
    err (
        name
        ++ (codes " "
            ++ (list_text args ++ (codes " failed: " ++ (e ++ (codes ": " ++ trim_space u out)))))),
    w,
  )

  -- `ExecRunner.Output`
  unfoldable pub exec_output : {W : Type 0} → Exec W → Runner W
  unfolding trim_space
  exec_output exec name args w = output_result name args (exec name args w)

-- `ListenerState` is whether the listener is ready; each of the pointers may be nil.
pub record Checker (W : Type 0) : Type 0 where
  pub listener : Option Bool
  pub redis : Option (Action W Error (Unit {0}))
  pub runner : Option (Runner W)
  pub subnet : Bytes

abbrev pub listener_ready : Option Bool → Result Error (Unit {0})
listener_ready (some true) = ok tt
listener_ready other = err (codes "intercept listener not ready")

abbrev pub configured : {A : Type 0} → Bytes → Option A → Result Error A
configured message none = err message
configured message (some a) = ok a

-- The loop of `checkNFT` over the required tables.
unfoldable pub require_tables : Bytes → List Bytes → Result Error (Unit {0})
unfolding contains
require_tables tables [] = ok tt
require_tables tables (table ∷ required) =
    let rest = require_tables tables required in
    if contains tables table then rest else err (codes "required nftables table missing: " ++ table)

abbrev pub required_tables : List Bytes
required_tables =
    codes "table ip mcproxy_filter"
    ∷ codes "table ip mcproxy_intercept"
    ∷ codes "table ip mcproxy_nat"
    ∷ []

abbrev pub expected_route : Bytes → Bytes
expected_route subnet = codes "local " ++ (subnet ++ codes " dev lo")

abbrev pub require_route : Bytes → Bytes → Result Error (Unit {0})
require_route routes expected =
    if contains routes expected
    then ok tt
    else err (codes "required local route missing: " ++ expected)

-- The answer: a status code and the fields of the JSON object.
pub record Response : Type 0 where
  pub code : ℕ
  pub fields : Dict Bytes

abbrev pub respond : Result Error (Unit {0}) → Response
respond (ok x) = record { code = 200; fields = (codes "status", codes "ok") ∷ [] }
respond (err e) = record {
  code = 503;
  fields = (codes "status", codes "error") ∷ (codes "error", e) ∷ [];
}

module _ {W : Type 0} where
  abbrev pub list_tables : Runner W → Action W Error Bytes
  list_tables runner = runner (codes "nft") (codes "list" ∷ codes "tables" ∷ [])

  abbrev pub show_routes : Runner W → Action W Error Bytes
  show_routes runner =
      runner (codes "ip") (codes "route" ∷ codes "show" ∷ codes "table" ∷ codes "local" ∷ [])

  -- `checkNFT`
  unfoldable pub check_nft : Runner W → Action W Error (Unit {0})
  unfolding require_tables
  check_nft runner = do
    tables ← prefixed (codes "list nftables tables: ") (list_tables runner)
    lift_result (require_tables tables required_tables)

  -- `checkRoute`
  unfoldable pub check_route : Runner W → Bytes → Action W Error (Unit {0})
  unfolding contains
  check_route runner subnet = do
    routes ← prefixed (codes "list local routes: ") (show_routes runner)
    lift_result (require_route routes (expected_route subnet))

  -- `Check`
  unfoldable pub check : Checker W → Action W Error (Unit {0})
  unfolding check_nft check_route
  check c = do
    lift_result (listener_ready c.listener)
    ping ← lift_result (configured (codes "redis pinger is not configured") c.redis)
    prefixed (codes "redis unhealthy: ") ping
    runner ← lift_result (configured (codes "health runner is not configured") c.runner)
    check_nft runner
    check_route runner c.subnet

  -- `handleHealthz`
  unfoldable pub handle_healthz : Checker W → W → Response × W
  unfolding check
  handle_healthz c w = (respond ((check c w).0), (check c w).1)
