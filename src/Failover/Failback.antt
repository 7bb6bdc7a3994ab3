-- ===== src/Failover/Failback.antt =====
-- When the controller leaves a region and when it comes back, over the region's whole history.
use sidero_proxy.Base.{
  ℕ, ◌-◌, ◌*◌, ◌≤◌, ◌<◌, ◌≡◌, refl, sym, ◌∙◌, Bool, true, false, Option, none, some, List, [], ◌∷◌,
  ◌↔◌, ◌⊎◌, inl, inr, if◌then◌else◌, arith, Bool-cases,
}
use mathlib.Core.List.{Memᴰ}
use sidero_proxy.Base.Integers.{ℤ, pos, negsuc}
use sidero_proxy.Failover.{RegionState, fresh_state, choose, in_window, or_now}

-- What one round of the loop sees for a region.
pub record Observation : Type 0 where
  pub time : ℕ
  pub is_healthy : Bool
  pub is_fallback_healthy : Bool

module _ (window : ℤ) where
  -- The state behind a history, whose latest observation comes first.
  unfoldable pub state_after : List Observation → RegionState
  unfolding choose
  state_after [] = fresh_state
  state_after (o ∷ history) =
      (choose window o.is_fallback_healthy o.is_healthy o.time (state_after history)).1

  -- Whether the round that sees `o` behind a history chooses the fallback.
  abbrev pub chooses_fallback : Observation → List Observation → Bool
  chooses_fallback o history =
      (choose window o.is_fallback_healthy o.is_healthy o.time (state_after history)).0

-- When the unbroken run of healthy observations at the end of a history began.
unfoldable pub healthy_start : List Observation → Option ℕ
healthy_start [] = none
healthy_start (o ∷ history) =
    if o.is_healthy then some (or_now (healthy_start history) o.time) else none

healthy_since-state_after :
    (window : ℤ) (history : List Observation)
    → RegionState.healthy_since (state_after window history) ≡ healthy_start history
unfolding state_after healthy_start choose
healthy_since-state_after window [] = refl
healthy_since-state_after window (o ∷ history) = elim (Bool-cases o.is_healthy) [
  | inl e ↦ ground (arith, e, healthy_since-state_after window history)
  | inr e ↦ ground (arith, e, healthy_since-state_after window history)
]

-- The window in nanoseconds; a window that is not positive is over at once.
abbrev pub nanoseconds : ℤ → ℕ
nanoseconds (pos seconds) = seconds * 1000000000
nanoseconds (negsuc n) = 0

in_window_iff :
    (window : ℤ) (now since : ℕ)
    → (in_window window now since ≡ false) ↔ (nanoseconds window ≤ now - since)
unfolding in_window
in_window_iff (pos seconds) now since = (λ h. ground arith, λ h. ground arith)
in_window_iff (negsuc n) now since = (λ h. omega arith, λ h. refl)

-- A region that is on the fallback and healthy again is given back exactly when the window has
-- passed since the first observation of its unbroken healthy run.
pub chooses_fallback_iff :
    (window : ℤ) (o : Observation) (history : List Observation)
    → RegionState.on_fallback (state_after window history) ≡ true
    → o.is_healthy ≡ true
    → (chooses_fallback window o history ≡ false)
      ↔ (nanoseconds window ≤ o.time - or_now (healthy_start history) o.time)
unfolding choose
chooses_fallback_iff window o history away healthy = (
  λ h. (in_window_iff window o.time _).0 (sym stays ∙ h),
  λ h. stays ∙ (in_window_iff window o.time _).1 h,
)
  where
    stays :
        chooses_fallback window o history
        ≡ in_window window o.time (or_now (healthy_start history) o.time)
    stays = ground (arith, away, healthy, healthy_since-state_after window history)

-- An observation that makes the controller leave a region.
abbrev pub IsCause : Observation → Type 0
IsCause o = (o.is_healthy ≡ false) × (o.is_fallback_healthy ≡ true)

on_fallback-IsCause :
    (window : ℤ) (history : List Observation)
    → RegionState.on_fallback (state_after window history) ≡ true
    → (o : Observation) × Memᴰ o history × IsCause o
unfolding state_after choose
on_fallback-IsCause window [] h = absurd (ground arith)
on_fallback-IsCause window (o ∷ history) h = elim (Bool-cases o.is_healthy) [
  | inl e ↦
      let (cause, found, why) = on_fallback-IsCause window history (ground (arith, e, h)) in
      (cause, Memᴰ.tail found, why)
  | inr e ↦ elim (Bool-cases o.is_fallback_healthy) [
    | inl e' ↦ (o, Memᴰ.head refl, (e, e'))
    | inr e' ↦
        let (cause, found, why) = on_fallback-IsCause window history (ground (arith, e, e', h)) in
        (cause, Memᴰ.tail found, why)
  ]
]

-- The fallback is chosen only for a reason: either the region is unhealthy now and the fallback is
-- healthy, or both were so at an observation before, and the region's unbroken healthy run is shorter
-- than the window.
pub chooses_fallback-IsCause :
    (window : ℤ) (o : Observation) (history : List Observation)
    → chooses_fallback window o history ≡ true
    → IsCause o
      ⊎ (((cause : Observation) × Memᴰ cause history × IsCause cause)
          × (o.time - or_now (healthy_start history) o.time < nanoseconds window))
unfolding choose
chooses_fallback-IsCause window o history h = elim (Bool-cases o.is_healthy) [
  | inl e ↦ inr (
    on_fallback-IsCause window history (ground (arith, e, h)),
    ground (
      arith,
      e,
      h,
      healthy_since-state_after window history,
      in_window_iff window o.time (or_now (healthy_start history) o.time),
    ),
  )
  | inr e ↦ inl (e, ground (arith, e, h))
]
