-- ===== src/Watcher/Events.antt =====
-- internal/watcher/docker.go: the goroutine of `Events`, which turns the events of Docker into triggers.
-- The channel of the triggers holds one; the decoded events are what the process prints.
use sidero_proxy.Base.{
  ◌≡◌, refl, sym, ap, ◌∙◌, subst, bytes_eq_refl, All, arith, Bool, true, false, ◌||◌, ◌&&◌, Option,
  none, some, List, [], ◌∷◌, ◌++◌, if◌then◌else◌, Bytes, codes, bytes_eq,
}
use sidero_proxy.Base.Members.{elem}
use sidero_proxy.Nft.{Error}
use mathlib.Core.List.{Memᴰ}

pub record DockerEvent : Type 0 where
  pub event_type : Bytes
  pub action : Bytes

abbrev pub relevant_actions : List Bytes
relevant_actions =
    codes "start"
    ∷ codes "stop"
    ∷ codes "die"
    ∷ codes "restart"
    ∷ codes "connect"
    ∷ codes "disconnect"
    ∷ codes "health_status: healthy"
    ∷ codes "health_status: unhealthy"
    ∷ []

unfoldable pub is_relevant : DockerEvent → Bool
unfolding elem bytes_eq
is_relevant e = bytes_eq e.event_type (codes "container") && elem e.action relevant_actions

-- What happens to the goroutine: an event, a failure to decode with whether the context has ended, or
-- a trigger being taken from the channel.
pub data Happening : Type 0 where
  arrived : DockerEvent → Happening
  failed : (ended : Bool) → Error → Happening
  taken : Happening

-- Whether a trigger waits in the channel, whether the channels are closed, and the error sent.
pub record Triggers : Type 0 where
  pub waiting : Bool
  pub closed : Bool
  pub error : Option Error

abbrev send_error : Bool → Error → Triggers → Triggers
send_error ended e t = record t {
  closed = true;
  error = if ended then none else some (codes "decode docker event: " ++ e);
}

-- One round of the loop, or a receiver taking the trigger.
abbrev pub happen : Happening → Triggers → Triggers
happen taken t = record t { waiting = false }
happen (arrived e) t = record t { waiting = is_relevant e || t.waiting }
happen (failed ended e) t = send_error ended e t

abbrev unless_closed : Bool → Happening → Triggers → Triggers
unless_closed true taken t = happen taken t
unless_closed true other t = t
unless_closed false h t = happen h t

unfoldable pub run_events : List Happening → Triggers → Triggers
unfolding is_relevant
run_events [] t = t
run_events (h ∷ hs) t = run_events hs (unless_closed t.closed h t)

triggers_once :
    run_events
      (arrived (record { event_type = codes "container"; action = codes "die" })
        ∷ taken
        ∷ arrived (record { event_type = codes "network"; action = codes "start" })
        ∷ [])
      (record { waiting = false; closed = false; error = none })
    ≡ record { waiting = false; closed = false; error = none }
unfolding run_events elem bytes_eq
triggers_once = refl

run_events-append :
    (before after : List Happening) (t : Triggers)
    → run_events (before ++ after) t ≡ run_events after (run_events before t)
unfolding run_events
run_events-append [] after t = refl
run_events-append (h ∷ before) after t = run_events-append before after (unless_closed t.closed h t)

-- Anything but a trigger being taken.
abbrev pub IsNotTaken : Happening → Type 0
IsNotTaken taken = ⊥
IsNotTaken (arrived e) = Unit
IsNotTaken (failed ended e) = Unit

stays_waiting :
    (closed : Bool) (h : Happening) (t : Triggers)
    → IsNotTaken h
    → t.waiting ≡ true
    → Triggers.waiting (unless_closed closed h t) ≡ true
stays_waiting closed taken t never waits = absurd never
stays_waiting true (arrived e) t _ waits = waits
stays_waiting false (arrived e) t _ waits = ground (arith, waits)
stays_waiting true (failed ended e) t _ waits = waits
stays_waiting false (failed ended e) t _ waits = waits

run_events-stays_waiting :
    (hs : List Happening) (t : Triggers)
    → All IsNotTaken hs
    → t.waiting ≡ true
    → Triggers.waiting (run_events hs t) ≡ true
unfolding run_events
run_events-stays_waiting [] t _ waits = waits
run_events-stays_waiting (h ∷ hs) t (first, all) waits =
    run_events-stays_waiting hs (unless_closed t.closed h t) all
      (stays_waiting t.closed h t first waits)

-- The events of a container by which what it publishes may change.
abbrev pub IsContainerChange : DockerEvent → Type 0
IsContainerChange e =
    (e.event_type ≡ codes "container")
    × Memᴰ e.action (
        codes "start"
        ∷ codes "stop"
        ∷ codes "die"
        ∷ codes "restart"
        ∷ codes "connect"
        ∷ codes "disconnect"
        ∷ codes "health_status: healthy"
        ∷ codes "health_status: unhealthy"
        ∷ [])

elem_of_Mem : (x : Bytes) (xs : List Bytes) → Memᴰ x xs → elem x xs ≡ true
unfolding elem
elem_of_Mem x [] never = elim never [ ]
elem_of_Mem x (y ∷ ys) (Memᴰ.head e) =
    let same : bytes_eq y x ≡ true = subst (λ z. bytes_eq y z ≡ true) (sym e) (bytes_eq_refl y) in
    ground (arith, same)
elem_of_Mem x (y ∷ ys) (Memᴰ.tail m) = ground (arith, elem_of_Mem x ys m)

is_relevant_lem : (e : DockerEvent) → IsContainerChange e → is_relevant e ≡ true
unfolding is_relevant
is_relevant_lem e (container, known) =
    let same : bytes_eq e.event_type (codes "container") ≡ true =
      subst (λ z. bytes_eq z (codes "container") ≡ true) (sym container)
        (bytes_eq_refl (codes "container")) in
    ground (arith, same, elem_of_Mem e.action relevant_actions known)

-- While the stream of events is up, a trigger waits after an event of the type `container` whose
-- action is one of the eight listed, until `watchDocker` takes it, whatever comes in between, the end
-- of the stream included, and also when a trigger was waiting already.
pub run_events-waiting :
    (before after : List Happening) (e : DockerEvent) (t : Triggers)
    → Triggers.closed (run_events before t) ≡ false
    → IsContainerChange e
    → All IsNotTaken after
    → Triggers.waiting (run_events (before ++ arrived e ∷ after) t) ≡ true
unfolding run_events
run_events-waiting before after e t up change all =
    let relevant = is_relevant_lem e change in
    let s = run_events before t in
    let woken : Triggers.waiting (unless_closed s.closed (arrived e) s) ≡ true =
      ground (arith, up, relevant) in
    ap Triggers.waiting (run_events-append before (arrived e ∷ after) t)
    ∙ run_events-stays_waiting after (unless_closed s.closed (arrived e) s) all woken
