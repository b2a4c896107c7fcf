-- ===== src/Runner/Liveness.antt =====
-- The shutdown of main.go once every service is stopped: what is left of it, in steps.
use Prim.Native.Nat.{zero, suc}
use mathlib.Core.Option.{some-injective}
use wpokt_validator.Base.{
  ℕ, ◌+◌, ◌*◌, ◌≤◌, Bool, true, false, Option, none, some, List, [], ◌∷◌, length, All, ◌≡◌, ◌⊎◌,
  inl, inr, refl, arith, pos, ap, ◌≢◌, sym, ◌∙◌,
}
use wpokt_validator.Runner.{
  Service, runner_service, empty_service, RunnerService, Place, created, running, returned,
  selecting, Event, scheduled, timer_fires, takes_stop, takes_timer, run_completes, Moved,
  start_step, goes_to, update_health,
}
use wpokt_validator.Runner.Turns.{
  IsStopped, unfinished, is_unfinished, is_unreturned, replace_head-some, keep_head-some,
}
use wpokt_validator.Runner.System.{
  Main, serving, stopping, waiting, ended, crashed, System, Action, at_stopped, at_others, signal,
  stop_next, wait_all, wait_returns, Turned, turn, step, steps, and_then, live_step, main_step,
  after_stopped, replace_head, keep_head, is_alive,
}
use wpokt_validator.Runner.Safety.{
  IsTracked, IsNew, Reach, Reach-IsTracked, after_stopped-counted, after_others-some, signal-some,
  stop_next-some, wait_all-some, wait_returns-some, step-IsTracked, later,
}

-- A select whose timer has fired does not prefer it to the closed channel.
abbrev pub is_prompt_event : Event → Bool
is_prompt_event scheduled = true
is_prompt_event timer_fires = true
is_prompt_event takes_stop = true
is_prompt_event takes_timer = false
is_prompt_event (run_completes status now) = true

abbrev pub is_prompt : Action → Bool
is_prompt (at_stopped i e) = is_prompt_event e
is_prompt (at_others i e) = true
is_prompt signal = true
is_prompt stop_next = true
is_prompt wait_all = true
is_prompt wait_returns = true

-- The events that a goroutine may still see.
unfoldable place_weight : Place → ℕ
place_weight created = 4
place_weight running = 3
place_weight (selecting false) = 2
place_weight (selecting true) = 1
place_weight returned = 0

unfoldable weight : List Service → ℕ
unfolding place_weight
weight [] = 0
weight (runner_service x ∷ xs) = place_weight x.place + weight xs
weight (empty_service ∷ xs) = weight xs

start_step-falls :
    (e : Event) (p : Place) (x : RunnerService) (m : Moved)
    → is_prompt_event e ≡ true
    → start_step e p x ≡ some m
    → place_weight m.service.place + 1 ≤ place_weight p
unfolding start_step goes_to update_health place_weight
start_step-falls scheduled created x m c h = ground arith
start_step-falls scheduled running x m c h = ground arith
start_step-falls scheduled returned x m c h = ground arith
start_step-falls scheduled (selecting fired) x m c h = ground arith
start_step-falls (run_completes status now) created x m c h = ground arith
start_step-falls (run_completes status now) running x m c h = ground arith
start_step-falls (run_completes status now) returned x m c h = ground arith
start_step-falls (run_completes status now) (selecting fired) x m c h = ground arith
start_step-falls timer_fires created x m c h = ground arith
start_step-falls timer_fires running x m c h = ground arith
start_step-falls timer_fires returned x m c h = ground arith
start_step-falls timer_fires (selecting true) x m c h = ground arith
start_step-falls timer_fires (selecting false) x m c h = ground arith
start_step-falls takes_timer p x m c h = ground arith
start_step-falls takes_stop created x m c h = ground arith
start_step-falls takes_stop running x m c h = ground arith
start_step-falls takes_stop returned x m c h = ground arith
start_step-falls takes_stop (selecting true) x m c h = ground arith
start_step-falls takes_stop (selecting false) x m c h = ground arith

turn-falls :
    (e : Event) (i : ℕ) (xs : List Service) (t : Turned)
    → is_prompt_event e ≡ true
    → turn e i xs ≡ some t
    → weight t.services + 1 ≤ weight xs
unfolding turn weight
turn-falls e i [] t c h = ground arith
turn-falls e zero (empty_service ∷ xs) t c h = ground arith
turn-falls e zero (runner_service x ∷ xs) t c h =
    let got = replace_head-some xs (start_step e x.place x) t h in
    let known = start_step-falls e x.place x got.0 c got.1 in rw got.2 (omega (arith, known))
turn-falls e (suc i) (runner_service x ∷ xs) t c h =
    let got = keep_head-some (runner_service x) (turn e i xs) t h in
    let rest = turn-falls e i xs got.0 c got.1 in rw got.2 (omega (arith, rest))
turn-falls e (suc i) (empty_service ∷ xs) t c h =
    let got = keep_head-some empty_service (turn e i xs) t h in
    let rest = turn-falls e i xs got.0 c got.1 in rw got.2 (omega (arith, rest))

-- A goroutine that has not returned can go on, once it is stopped.
start_step-enabled :
    (p : Place) (x : RunnerService)
    → x.stop ≡ true
    → (is_unreturned p ≡ 0)
      ⊎ ((e : Event) × (m : Moved) × (is_prompt_event e ≡ true) × (start_step e p x ≡ some m))
unfolding start_step goes_to is_unreturned
start_step-enabled created x h = inr (scheduled, _, refl, refl)
start_step-enabled running x h =
    inr (run_completes (record { pokt_height = []; eth_block_number = [] }) (pos 0), _, refl, refl)
start_step-enabled returned x h = inl refl
start_step-enabled (selecting fired) x h = inr (
  takes_stop,
  record { service = record x { place = returned }; is_done = true },
  refl,
  rw h refl,
)

turn-enabled :
    (xs : List Service)
    → All IsStopped xs
    → (unfinished xs ≡ 0)
      ⊎ ((i : ℕ) × (e : Event) × (t : Turned) × (is_prompt_event e ≡ true) × (turn e i xs ≡ some t))
unfolding turn replace_head keep_head unfinished is_unfinished
turn-enabled [] h = inl refl
turn-enabled (empty_service ∷ xs) h = elim (turn-enabled xs h.1) [
  | inl none_left ↦ inl (omega (arith, none_left))
  | inr go ↦ inr (suc go.0, go.1, _, go.3, ap (keep_head empty_service) go.4)
]
turn-enabled (runner_service x ∷ xs) h = elim (turn-enabled xs h.1) [
  | inl none_left ↦ elim (start_step-enabled x.place x h.0) [
    | inl here ↦ inl (omega (arith, none_left, here))
    | inr go ↦ inr (0, go.0, _, go.2, ap (replace_head xs) go.3)
  ]
  | inr go ↦ inr (suc go.0, go.1, _, go.3, ap (keep_head (runner_service x)) go.4)
]

-- The steps that are left to the whole process.
main_weight : Main → ℕ
main_weight waiting = 1
main_weight serving = 0
main_weight stopping = 0
main_weight ended = 0
main_weight crashed = 0

system_weight : System → ℕ
system_weight s = weight s.stopped + main_weight s.main

abbrev IsWaiting : Main → Type 0
IsWaiting m = (m ≡ waiting) ⊎ (m ≡ ended)

serving≢waiting : serving ≢ waiting
serving≢waiting h = ground arith

stopping≢waiting : stopping ≢ waiting
stopping≢waiting h = ground arith

no_others : (e : Event) (i : ℕ) (xs : List Service) (t : Turned) → xs ≡ [] → turn e i xs ≢ some t
unfolding turn
no_others e i [] t h k = ground arith
no_others e i (x ∷ xs) t h k = ground arith

live_step-falls :
    (a : Action) (s t : System)
    → IsTracked s
    → s.main ≡ waiting
    → is_prompt a ≡ true
    → live_step a s ≡ some t
    → (system_weight t + 1 ≤ system_weight s) × IsWaiting t.main
unfolding live_step system_weight main_weight
live_step-falls (at_stopped i e) s t h w c k =
    let got = after_stopped-counted s t e i h k in
    let falls = turn-falls e i s.stopped got.0 c got.1 in
    rw got.2 (rw w (omega (arith, falls), inl refl))
live_step-falls (at_others i e) s t h w c k =
    let got = after_others-some s t (turn e i s.others) k in
    absurd (no_others e i s.others got.0 (rw w at h.3) got.1)
live_step-falls signal s t h w c k =
    let got = signal-some s.main s.others s t k in absurd (serving≢waiting (sym got.0 ∙ w))
live_step-falls stop_next s t h w c k =
    let got = stop_next-some s.main s.others s t k in absurd (stopping≢waiting (sym got.0 ∙ w))
live_step-falls wait_all s t h w c k =
    let got = wait_all-some s.main s.others s t k in absurd (stopping≢waiting (sym got.0 ∙ w))
live_step-falls wait_returns s t h w c k =
    let got = wait_returns-some s.main s.others s t k in rw got.2 (rw w (omega arith, inr refl))

live_step-enabled :
    (s : System)
    → IsTracked s
    → s.main ≡ waiting
    → (a : Action) × (t : System) × (is_prompt a ≡ true) × (live_step a s ≡ some t)
unfolding live_step main_step after_stopped
live_step-enabled s h w = elim (turn-enabled s.stopped h.0) [
  | inl none_left ↦ (wait_returns, record s { main = ended }, refl, returns (none_waited none_left))
  | inr go ↦ (at_stopped go.0 go.1, _, go.3, ap (after_stopped s) go.4)
]
  where
    none_waited : unfinished s.stopped ≡ 0 → s.wg ≡ 0
    none_waited e = omega (arith, h.2, e, ap length (rw w at h.3))

    returns : s.wg ≡ 0 → main_step wait_returns s.main s.others s ≡ some (record s { main = ended })
    returns e = rw w (rw e refl)

step-waiting : (a : Action) (s : System) → s.main ≡ waiting → step a s ≡ live_step a s
unfolding step is_alive
step-waiting a s w = rw w refl

step-ended : (a : Action) (s t : System) → s.main ≡ ended → step a s ≢ some t
unfolding step is_alive
step-ended a s t w k = let none_left = rw w at k in ground arith

-- Some step is left.
abbrev pub CanGoOn : System → Type 0
CanGoOn t = (a : Action) × (u : System) × (is_prompt a ≡ true) × (step a t ≡ some u)

and_then-some :
    (o : Option System) (f : System → Option System) (t : System)
    → and_then o f ≡ some t
    → (u : System) × (o ≡ some u) × (f u ≡ some t)
unfolding and_then
and_then-some none f t h = ground arith
and_then-some (some u) f t h = (u, refl, h)

-- A run of the process reaches the state that it ends in.
pub steps-Reach :
    (services : List Service) (actions : List Action) {s t : System}
    → Reach services s
    → steps actions s ≡ some t
    → Reach services t
unfolding steps
steps-Reach services [] {s} {t} r k = rw (sym (some-injective s t k)) r
steps-Reach services (a ∷ actions) {s} {t} r k =
    let got = and_then-some (step a s) (steps actions) t k in
    steps-Reach services actions (later a r got.1) got.2

step-falls :
    (a : Action) (s t : System)
    → IsTracked s
    → IsWaiting s.main
    → is_prompt a ≡ true
    → step a s ≡ some t
    → (system_weight t + 1 ≤ system_weight s) × IsWaiting t.main
step-falls a s t h (inl w) c k = live_step-falls a s t h w c (sym (step-waiting a s w) ∙ k)
step-falls a s t h (inr w) c k = absurd (step-ended a s t w k)

stops_or_goes_on : (s : System) → IsTracked s → IsWaiting s.main → (s.main ≡ ended) ⊎ CanGoOn s
stops_or_goes_on s h (inr w) = inl w
stops_or_goes_on s h (inl w) =
    let got = live_step-enabled s h w in inr (got.0, got.1, got.2, step-waiting got.0 s w ∙ got.3)

steps-fall :
    (actions : List Action) (s t : System)
    → IsTracked s
    → IsWaiting s.main
    → All (λ a. is_prompt a ≡ true) actions
    → steps actions s ≡ some t
    → (length actions + system_weight t ≤ system_weight s) × ((t.main ≡ ended) ⊎ CanGoOn t)
unfolding steps
steps-fall [] s t h w c k =
    let same = some-injective s t k in rw (sym same) (omega arith, stops_or_goes_on s h w)
steps-fall (a ∷ actions) s t h w c k =
    let got = and_then-some (step a s) (steps actions) t k in
    let first = step-falls a s got.0 h w c.0 got.1 in
    let tracked = step-IsTracked a s got.0 h got.1 in
    let rest = steps-fall actions got.0 t tracked first.1 c.1 got.2 in
    (omega (arith, first.0, rest.0), rest.1)

place_weight-bound : (p : Place) → place_weight p ≤ 4
unfolding place_weight
place_weight-bound created = omega arith
place_weight-bound running = omega arith
place_weight-bound returned = omega arith
place_weight-bound (selecting true) = omega arith
place_weight-bound (selecting false) = omega arith

weight-bound : (xs : List Service) → weight xs ≤ 4 * length xs
unfolding weight
weight-bound [] = omega arith
weight-bound (runner_service x ∷ xs) = omega (arith, weight-bound xs, place_weight-bound x.place)
weight-bound (empty_service ∷ xs) = omega (arith, weight-bound xs)

-- Once every service is stopped, the shutdown ends. Of new services that were started, where
-- `wg.Wait` is waiting: any steps that follow, in whatever order the goroutines go on, are at most
-- four for each service and one more, provided that no select with a closed channel prefers its
-- timer; and where no such step is left, `wg.Wait` has returned.
pub wait-ends :
    (services : List Service) (s t : System) (actions : List Action)
    → All IsNew services
    → Reach services s
    → s.main ≡ waiting
    → All (λ a. is_prompt a ≡ true) actions
    → steps actions s ≡ some t
    → (length actions ≤ 4 * length s.stopped + 1) × ((t.main ≡ ended) ⊎ CanGoOn t)
unfolding system_weight main_weight
wait-ends services s t actions new r w c k =
    let fall = steps-fall actions s t (Reach-IsTracked services s new r) (inl w) c k in
    let start = rw w at fall.0 in (omega (arith, start, weight-bound s.stopped), fall.1)
