-- ===== src/Runs/ForwarderRuns.antt =====
-- Runs of internal/forwarder.
use sidero_proxy.Base.{◌≡◌, refl, true, false, List, [], ◌∷◌, Bytes, codes, arith}
use sidero_proxy.Forwarder.{
  Forwarding, Pipe, Step, up_step, down_step, copies, ends, fails, closes, move, run, IsRun,
  proxied, advance, beside,
}
use sidero_proxy.Forwarder.Delivery.{BothDeliver, run-proxied-Delivers}
use sidero_proxy.Forwarder.HalfClose.{finished, run-proxied_complete}

-- The client sends two bytes and ends; the backend answers with three after that.
abbrev question : Bytes
question = codes "hi"

abbrev answer : Bytes
answer = codes "yes"

abbrev taking_turns : List Step
taking_turns =
    up_step (copies 2)
    ∷ up_step ends
    ∷ down_step (copies 1)
    ∷ up_step closes
    ∷ down_step (copies 2)
    ∷ down_step ends
    ∷ down_step closes
    ∷ []

taking_turns-IsRun : IsRun taking_turns (proxied question answer true true)
unfolding IsRun move advance beside proxied
taking_turns-IsRun = (
  (refl, refl, omega arith, omega arith),
  (
    (refl, refl, refl),
    (
      (refl, refl, omega arith, omega arith),
      (
        (true, refl),
        ((refl, refl, omega arith, omega arith), ((refl, refl, refl), ((true, refl), tt))),
      ),
    ),
  ),
)

abbrev left_behind : Forwarding
left_behind = run taking_turns (proxied question answer true true)

run-proxied_complete_example :
    left_behind ≡ record { up = finished question; down = finished answer }
unfolding run move advance beside proxied
run-proxied_complete_example =
    run-proxied_complete question answer taking_turns left_behind taking_turns-IsRun refl refl refl
      refl

-- The backend's connection breaks after its first byte.
abbrev broken_off : List Step
broken_off = down_step (fails 3 1) ∷ up_step (copies 1) ∷ []

broken_off-IsRun : IsRun broken_off (proxied question answer true false)
unfolding IsRun move advance beside proxied
broken_off-IsRun = (
  (refl, omega arith, omega arith, λ readable. absurd (ground (arith, readable))),
  ((refl, refl, omega arith, omega arith), tt),
)

run-proxied-Delivers_example :
    BothDeliver question answer (run broken_off (proxied question answer true false))
run-proxied-Delivers_example =
    run-proxied-Delivers question answer true false broken_off broken_off-IsRun

-- Closing a connection that is no TCP connection also ends the reading from it.
closes_both_sides :
    Pipe.source_is_readable (
      Forwarding.down (
        run
          (up_step (copies 2) ∷ up_step ends ∷ up_step closes ∷ [])
          (proxied question answer true false)))
    ≡ false
unfolding run move advance beside proxied
closes_both_sides = refl
