-- ===== src/Runner/System.antt =====
-- main.go: the goroutines of the services with the main one, interleaved in any order, from the
-- start of the services to the return of `wg.Wait`.
use Prim.Native.Nat.{zero, suc}
use wpokt_validator.Base.{
  ℕ, ◌==◌, Bool, true, false, Option, none, some, List, [], ◌∷◌, length, if◌then◌else◌,
}
use wpokt_validator.Runner.{Service, runner_service, empty_service, Event, Moved, start_step}

-- Where the main goroutine is; `crashed` is the whole process after a panic.
pub data Main : Type 0 where
  serving stopping waiting ended crashed : Main

-- The services that `Stop` was called on, the last one first, and the others.
pub record System : Type 0 where
  pub stopped : List Service
  pub others : List Service
  pub wg : ℕ
  pub main : Main

-- `wg.Done` panics below zero.
unfoldable pub wg_done : Bool → ℕ → Option ℕ
wg_done false n = some n
wg_done true (suc n) = some n
wg_done true zero = none

-- `Stop`: a channel is closed but once; an empty service is done with it.
pub record Stopped : Type 0 where
  pub service : Service
  pub is_done : Bool

unfoldable pub stop : Service → Option Stopped
stop (runner_service x) =
    if x.stop
    then none
    else some (record { service = runner_service (record x { stop = true }); is_done = false })
stop empty_service = some (record { service = empty_service; is_done = true })

-- The service at a place in a list goes on.
pub record Turned : Type 0 where
  pub services : List Service
  pub is_done : Bool

unfoldable pub replace_head : List Service → Option Moved → Option Turned
replace_head services none = none
replace_head services (some m) =
    some (record { services = runner_service m.service ∷ services; is_done = m.is_done })

unfoldable pub keep_head : Service → Option Turned → Option Turned
keep_head s none = none
keep_head s (some t) = some (record t { services = s ∷ t.services })

unfoldable pub turn : Event → ℕ → List Service → Option Turned
unfolding start_step replace_head keep_head
turn e i [] = none
turn e zero (runner_service x ∷ services) = replace_head services (start_step e x.place x)
turn e zero (empty_service ∷ services) = none
turn e (suc i) (s ∷ services) = keep_head s (turn e i services)

pub data Action : Type 0 where
  at_stopped at_others : ℕ → Event → Action
  signal stop_next wait_all wait_returns : Action

-- The count after the calls of `wg.Done`, or the panic.
unfoldable pub settle_wg : System → Option ℕ → System
settle_wg s none = record s { main = crashed }
settle_wg s (some n) = record s { wg = n }

unfoldable pub after_stopped : System → Option Turned → Option System
unfolding settle_wg wg_done
after_stopped s none = none
after_stopped s (some t) =
    some (settle_wg (record s { stopped = t.services }) (wg_done t.is_done s.wg))

unfoldable pub after_others : System → Option Turned → Option System
unfolding settle_wg wg_done
after_others s none = none
after_others s (some t) =
    some (settle_wg (record s { others = t.services }) (wg_done t.is_done s.wg))

unfoldable pub after_stop : System → List Service → Option Stopped → System
unfolding settle_wg wg_done
after_stop s others none = record s { main = crashed }
after_stop s others (some t) =
    settle_wg (record s { stopped = t.service ∷ s.stopped; others = others })
      (wg_done t.is_done s.wg)

-- The steps of the main goroutine: the signal, the loop of `Stop` calls, and `wg.Wait`.
unfoldable pub main_step : Action → Main → List Service → System → Option System
unfolding after_stop stop
main_step signal serving others s = some (record s { main = stopping })
main_step stop_next stopping (x ∷ others) s = some (after_stop s others (stop x))
main_step wait_all stopping [] s = some (record s { main = waiting })
main_step wait_returns waiting others s =
    if s.wg == 0 then some (record s { main = ended }) else none
main_step a m others s = none

-- Nothing goes on after the end of the process.
unfoldable pub is_alive : Main → Bool
is_alive ended = false
is_alive crashed = false
is_alive serving = true
is_alive stopping = true
is_alive waiting = true

unfoldable pub live_step : Action → System → Option System
unfolding after_stopped after_others turn main_step
live_step (at_stopped i e) s = after_stopped s (turn e i s.stopped)
live_step (at_others i e) s = after_others s (turn e i s.others)
live_step signal s = main_step signal s.main s.others s
live_step stop_next s = main_step stop_next s.main s.others s
live_step wait_all s = main_step wait_all s.main s.others s
live_step wait_returns s = main_step wait_returns s.main s.others s

unfoldable pub step : Action → System → Option System
unfolding live_step is_alive
step a s = if is_alive s.main then live_step a s else none

-- `wg.Add(len(services))`, and the services' goroutines.
abbrev pub start_all : List Service → System
start_all services = record {
  stopped = [];
  others = services;
  wg = length services;
  main = serving;
}

unfoldable pub and_then : Option System → (System → Option System) → Option System
and_then none f = none
and_then (some s) f = f s

unfoldable pub steps : List Action → System → Option System
unfolding step and_then
steps [] s = some s
steps (a ∷ actions) s = and_then (step a s) (steps actions)
