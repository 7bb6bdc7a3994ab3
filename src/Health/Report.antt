-- ===== src/Health/Report.antt =====
-- Which state of the proxy the answer of /healthz reports.
use sidero_proxy.Base.{
  ◌≡◌, refl, sym, ap, ◌∙◌, subst, Bool-cases, inl, inr, Bool, true, false, Option, none, some, List,
  [], ◌∷◌, ◌++◌, ◌↔◌, Result, ok, err, continue_ok, continue_with, with_prefix, with_prefix_ok,
  with_prefix_run, prefixed, Action, ◌>>=◌, ◌>>◌, Bytes, codes, contains, All, arith,
}
use sidero_proxy.Nft.{Error}
use sidero_proxy.Registration.{lift_result}
use sidero_proxy.Health.{
  Runner, Checker, listener_ready, configured, require_tables, required_tables, expected_route,
  require_route, list_tables, show_routes, check_nft, check_route, check, respond, handle_healthz,
}

-- What `nft list tables` prints of the three managers' tables, and `ip route show table local` of the
-- route of the subnet.
abbrev pub three_tables : List Bytes
three_tables =
    codes "table ip mcproxy_nat"
    ∷ codes "table ip mcproxy_filter"
    ∷ codes "table ip mcproxy_intercept"
    ∷ []

abbrev pub local_route : Bytes → Bytes
local_route subnet = codes "local " ++ (subnet ++ codes " dev lo")

module _ {W : Type 0} (runner : Runner W) where
  abbrev pub nft_list_tables : W → Result Error Bytes × W
  nft_list_tables = runner (codes "nft") (codes "list" ∷ codes "tables" ∷ [])

  abbrev pub ip_route_show : W → Result Error Bytes × W
  ip_route_show =
      runner (codes "ip") (codes "route" ∷ codes "show" ∷ codes "table" ∷ codes "local" ∷ [])

-- Everything that a healthy proxy shows: the listener is ready, Redis answers, nftables lists the three
-- tables and the route of the proxy's subnet is there. The three commands run one after the other.
pub record IsHealthy {W : Type 0} (c : Checker W) (w : W) : Type 0 where
  pub ready : c.listener ≡ some true
  pub ping : W → Result Error (Unit {0}) × W
  pub has_redis : c.redis ≡ some ping
  pub answers : (ping w).0 ≡ ok tt
  pub runner : Runner W
  pub has_runner : c.runner ≡ some runner
  pub tables : Bytes
  pub lists_tables : (nft_list_tables runner ((ping w).1)).0 ≡ ok tables
  pub has_tables : All (λ t. contains tables t ≡ true) three_tables
  pub routes : Bytes
  pub shows_routes : (ip_route_show runner ((nft_list_tables runner ((ping w).1)).1)).0 ≡ ok routes
  pub has_route : contains routes (local_route c.subnet) ≡ true

listener_ready_ok : (o : Option Bool) → listener_ready o ≡ ok tt → o ≡ some true
listener_ready_ok none h = absurd (ground arith)
listener_ready_ok (some true) h = refl
listener_ready_ok (some false) h = absurd (ground arith)

configured_ok : {A : Type 0} (m : Bytes) (o : Option A) (a : A) → configured m o ≡ ok a → o ≡ some a
configured_ok m none a h = absurd (ground arith)
configured_ok m (some b) a h = ground (arith, h)

require_tables_iff :
    (tables : Bytes) (required : List Bytes)
    → (require_tables tables required ≡ ok tt) ↔ All (λ t. contains tables t ≡ true) required
unfolding require_tables
require_tables_iff tables [] = (λ h. tt, λ h. refl)
require_tables_iff tables (t ∷ ts) =
    let (only, back) = require_tables_iff tables ts in
    elim (Bool-cases (contains tables t)) [
      | inl e ↦ (λ h. (e, only (ground (arith, e, h))), λ h. ground (arith, e, back (h.1)))
      | inr e ↦ (λ h. absurd (ground (arith, e, h)), λ h. absurd (ground (arith, e, h.0)))
    ]

require_route_ok :
    (routes expected : Bytes)
    → require_route routes expected ≡ ok tt
    → contains routes expected ≡ true
require_route_ok routes expected h = ground (arith, h)

require_route_run :
    (routes expected : Bytes)
    → contains routes expected ≡ true
    → require_route routes expected ≡ ok tt
require_route_run routes expected h = ground (arith, h)

respond-200 : (r : Result Error (Unit {0})) → (respond r).code ≡ 200 → r ≡ ok tt
respond-200 (ok x) h = refl
respond-200 (err e) h = absurd (omega (arith, h))

module _ {W : Type 0} (runner : Runner W) (subnet : Bytes) where
  check_nft_ok :
      (w w' : W)
      → check_nft runner w ≡ (ok tt, w')
      → (tables : Bytes) × (list_tables runner w ≡ (ok tables, w'))
        × All (λ t. contains tables t ≡ true) required_tables
  unfolding check_nft
  check_nft_ok w w' h =
      let listed = with_prefix (codes "list nftables tables: ") (list_tables runner w) in
      let (tables, e, rest) =
        continue_ok (λ tables. lift_result (require_tables tables required_tables)) listed tt w'
          h in
      (
        tables,
        with_prefix_ok (codes "list nftables tables: ") (list_tables runner w) tables w'
            (e ∙ ap (λ t. (ok tables, t.1)) rest),
        (require_tables_iff tables required_tables).0 (ap (λ t. t.0) rest),
      )

  check_nft_run :
      (w : W) (tables : Bytes)
      → (list_tables runner w).0 ≡ ok tables
      → All (λ t. contains tables t ≡ true) required_tables
      → check_nft runner w ≡ (ok tt, (list_tables runner w).1)
  unfolding check_nft
  check_nft_run w tables h all =
      let require =
        λ (tables : Bytes). lift_result {R = W} (require_tables tables required_tables) in
      ap (continue_with require)
        (with_prefix_run (codes "list nftables tables: ") (list_tables runner w) tables h)
      ∙ ap (λ t. (t, (list_tables runner w).1)) ((require_tables_iff tables required_tables).1 all)

  check_route_ok :
      (w w' : W)
      → check_route runner subnet w ≡ (ok tt, w')
      → (routes : Bytes) × (show_routes runner w ≡ (ok routes, w'))
        × (contains routes (expected_route subnet) ≡ true)
  unfolding check_route
  check_route_ok w w' h =
      let shown = with_prefix (codes "list local routes: ") (show_routes runner w) in
      let (routes, e, rest) =
        continue_ok (λ routes. lift_result (require_route routes (expected_route subnet))) shown tt
          w' h in
      (
        routes,
        with_prefix_ok (codes "list local routes: ") (show_routes runner w) routes w'
            (e ∙ ap (λ t. (ok routes, t.1)) rest),
        require_route_ok routes (expected_route subnet) (ap (λ t. t.0) rest),
      )

  check_route_run :
      (w : W) (routes : Bytes)
      → (show_routes runner w).0 ≡ ok routes
      → contains routes (expected_route subnet) ≡ true
      → (check_route runner subnet w).0 ≡ ok tt
  unfolding check_route
  check_route_run w routes h there =
      let require =
        λ (routes : Bytes). lift_result {R = W} (require_route routes (expected_route subnet)) in
      ap (λ t. (continue_with require t).0)
        (with_prefix_run (codes "list local routes: ") (show_routes runner w) routes h)
      ∙ require_route_run routes (expected_route subnet) there

module _ {W : Type 0} (c : Checker W) (w : W) where
  -- The steps of `check` from its second, third, fourth and fifth on.
  abbrev checks : Runner W → Action W Error (Unit {0})
  checks runner = check_nft runner >> check_route runner c.subnet

  abbrev with_runner : Action W Error (Unit {0})
  with_runner =
      lift_result (configured (codes "health runner is not configured") c.runner) >>= checks

  abbrev with_ping : Action W Error (Unit {0}) → Action W Error (Unit {0})
  with_ping ping = prefixed (codes "redis unhealthy: ") ping >> with_runner

  abbrev from_redis : Action W Error (Unit {0})
  from_redis =
      lift_result (configured (codes "redis pinger is not configured") c.redis) >>= with_ping

  check-IsHealthy : (w' : W) → check c w ≡ (ok tt, w') → IsHealthy c w
  unfolding check
  check-IsHealthy w' h =
      let (x, ready, h₁) =
        continue_ok (λ _. from_redis) (lift_result (listener_ready c.listener) w) tt w' h in
      let (ping, has_redis, h₂) =
        continue_ok with_ping
          (lift_result (configured (codes "redis pinger is not configured") c.redis) w) tt w' h₁ in
      let pinged = with_prefix (codes "redis unhealthy: ") (ping w) in
      let (y, answers, h₃) = continue_ok (λ _. with_runner) pinged tt w' h₂ in
      let answered = with_prefix_ok (codes "redis unhealthy: ") (ping w) tt (pinged.1) answers in
      let (runner, has_runner, h₄) =
        continue_ok checks
          (lift_result (configured (codes "health runner is not configured") c.runner) (pinged.1))
          tt w' h₃ in
      let nft = check_nft runner (pinged.1) in
      let (z, nft_ok, h₅) = continue_ok (λ _. check_route runner c.subnet) nft tt w' h₄ in
      let same : pinged.1 ≡ (ping w).1 = sym (ap (λ t. t.1) answered) in
      let (tables, listed, has_tables) = check_nft_ok runner c.subnet (pinged.1) (nft.1) nft_ok in
      let listed' : list_tables runner ((ping w).1) ≡ (ok tables, nft.1) =
        subst (λ t. list_tables runner t ≡ (ok tables, nft.1)) same listed in
      let (routes, shown, has_route) = check_route_ok runner c.subnet (nft.1) w' h₅ in
      record {
        ready = listener_ready_ok c.listener (ap (λ t. t.0) ready);
        ping = ping;
        has_redis =
            configured_ok (codes "redis pinger is not configured") c.redis ping
              (ap (λ t. t.0) has_redis);
        answers = ap (λ t. t.0) answered;
        runner = runner;
        has_runner =
            configured_ok (codes "health runner is not configured") c.runner runner
              (ap (λ t. t.0) has_runner);
        tables = tables;
        lists_tables = ap (λ t. t.0) listed';
        has_tables = (((has_tables.1).1).0, (has_tables.0, ((has_tables.1).0, tt)));
        routes = routes;
        shows_routes = ap (λ t. (show_routes runner (t.1)).0) listed' ∙ ap (λ t. t.0) shown;
        has_route = has_route;
      }

  IsHealthy-check : IsHealthy c w → (check c w).0 ≡ ok tt
  unfolding check
  IsHealthy-check h =
      let pinged = (h.ping w).1 in
      ap (λ t. (continue_with (λ _. from_redis) (listener_ready t, w)).0) h.ready
      ∙ ap
          (λ t.
            (continue_with with_ping (configured (codes "redis pinger is not configured") t, w)).0)
          h.has_redis
      ∙ ap (λ t. (continue_with (λ _. with_runner) t).0)
          (with_prefix_run (codes "redis unhealthy: ") (h.ping w) tt h.answers)
      ∙ ap
          (λ t.
            (continue_with checks
              (configured (codes "health runner is not configured") t, pinged)).0)
          h.has_runner
      ∙ ap (λ t. (continue_with (λ _. check_route h.runner c.subnet) t).0)
          (check_nft_run h.runner c.subnet pinged h.tables h.lists_tables
            ((h.has_tables.1).0, (((h.has_tables.1).1).0, (h.has_tables.0, tt))))
      ∙ check_route_run h.runner c.subnet ((list_tables h.runner pinged).1) h.routes h.shows_routes
          h.has_route

  -- /healthz answers with the code 200 exactly when the listener is ready, Redis is there and answers the
  -- ping, `nft list tables` and `ip route show table local` run, and what they print contains the lines
  -- of the tables `mcproxy_nat`, `mcproxy_filter` and `mcproxy_intercept` and `local <subnet> dev lo`.
  pub handle_healthz_iff : ((handle_healthz c w).0.code ≡ 200) ↔ IsHealthy c w
  unfolding handle_healthz
  handle_healthz_iff = (
    λ h.
        check-IsHealthy ((check c w).1)
          (ap (λ t. (t, (check c w).1)) (respond-200 ((check c w).0) h)),
    λ h. ap (λ t. (respond t).code) (IsHealthy-check h),
  )
